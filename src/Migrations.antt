-- ===== src/Migrations.antt =====
-- packages/migrations/src/runner.ts. A database is its schema, of any type, with the table that records the
-- migrations. What the runner reads and sends is a `Runner`: the directory of scripts, what a script does to
-- a schema, the clock, and the errors of the other statements.
pub mod Names
pub mod Lists
pub mod Sorted
pub mod Applied
pub mod Partial
use outboxy.Base.{
  ℕ, Bool, true, false, not, List, [], ◌∷◌, ◌++◌, map, Option, none, some, Text, codes, member,
  text_eq, select, ltb, is_empty, if◌then◌else◌, ◌or_else◌, option_text_eq,
}
use outboxy.Dialect.{JsError, Outcome, returned, threw}
use outboxy.Dialect.Render.{plain_error}
use outboxy.Migrations.Names.{get_all_migration_names}

pub record MigrationRow : Type 0 where
  pub name : Text
  pub applied_at : ℕ

-- `tracking` has the rows of `__outboxy_migrations` in the order of their ids, if there is the table.
pub record Database {ℓ} (S : Type ℓ) : Type ℓ where
  pub schema : S
  pub tracking : Option (List MigrationRow)

-- `execute` sends a script as one query: the schema then is that at its end or at its first error.
-- `record_fault` is an error of the insert, or, for PostgreSQL, of any of BEGIN, insert and COMMIT.
pub record Runner {ℓ} (S : Type ℓ) : Type ℓ where
  pub sql_dir : Text
  pub directory : List Text
  pub read : Text → Option Text
  pub execute : Text → S → S × Outcome JsError (Unit {0})
  pub now : Text → ℕ
  pub create_fault : Option JsError
  pub select_fault : Option JsError
  pub record_fault : Text → Option JsError

pub record MigrationStatus : Type 0 where
  pub applied : List Text
  pub pending : List Text
  pub last_applied : Option Text

-- `ORDER BY applied_at DESC`.
unfoldable pub insert_by_applied_at : MigrationRow → List MigrationRow → List MigrationRow
insert_by_applied_at r [] = r ∷ []
insert_by_applied_at r (x ∷ rows) =
    let rest = insert_by_applied_at r rows in
    if ltb r.applied_at x.applied_at then x ∷ rest else r ∷ x ∷ rows

unfoldable pub order_by_applied_at : List MigrationRow → List MigrationRow
order_by_applied_at [] = []
order_by_applied_at (r ∷ rows) = insert_by_applied_at r (order_by_applied_at rows)

abbrev pub names : List MigrationRow → List Text
names rows = map (λ r. r.name) rows

-- `applied[0] || null`.
abbrev pub first_of : List Text → Option Text
first_of [] = none
first_of (name ∷ rest) = if is_empty name then none else some name

-- `INSERT ... ON CONFLICT (name) DO NOTHING`, and `INSERT IGNORE`.
unfoldable pub record_name : Text → ℕ → List MigrationRow → List MigrationRow
record_name name now rows =
    if member name (names rows) then rows else rows ++ record { name = name; applied_at = now } ∷ []

abbrev pub missing : Text → Text → Text → JsError
missing kind sql_dir name = plain_error (
    (kind ++ codes " migration file not found: ")
    ++ ((sql_dir ++ codes "/") ++ (name ++ codes ".sql")))

abbrev pub is_duplicate_key_name : JsError → Bool
is_duplicate_key_name e = option_text_eq e.code (codes "ER_DUP_KEYNAME")

-- What follows an `await` of a migration.
abbrev pub and_then {ℓ} :
    {S : Type ℓ}
    → Database S × Outcome JsError (Unit {0})
    → (Database S → Database S × Outcome JsError (Unit {0}))
    → Database S × Outcome JsError (Unit {0})
and_then (db, threw e) rest = (db, threw e)
and_then (db, returned tt) rest = rest db

module _ {ℓ} {S : Type ℓ} (m : Runner S) where
  -- The script's file, if it exists.
  abbrev pub script : Text → Option Text
  script name = m.read (name ++ codes ".sql")

  abbrev pub tracked : Database S → List MigrationRow
  tracked db = db.tracking or_else []

  -- The answer where the first two queries work.
  unfoldable pub status_of : Database S → MigrationStatus
  status_of db =
      let applied = names (order_by_applied_at (tracked db)) in
      record {
        applied = applied;
        pending = select (λ name. not (member name applied)) (get_all_migration_names m.directory);
        last_applied = first_of applied;
      }

  unfoldable pub get_migration_status : Database S → Outcome JsError MigrationStatus
  get_migration_status db = elim m.select_fault [
    | some e ↦ threw e
    | none ↦ returned (status_of db)
  ]

  -- The schema that a script left is kept and its name recorded.
  unfoldable pub recorded : Text → S → Database S → Database S × Outcome JsError (Unit {0})
  recorded name schema db = elim (m.record_fault name) [
    | some e ↦ (record db { schema = schema }, threw e)
    | none ↦ (
      record { schema = schema; tracking = some (record_name name (m.now name) (tracked db)) },
      returned tt,
    )
  ]

  -- The transaction for one migration: an error takes back what the script did.
  unfoldable pub commit :
      Text → Database S → S × Outcome JsError (Unit {0}) → Database S × Outcome JsError (Unit {0})
  commit name db (schema, threw e) = (db, threw e)
  commit name db (schema, returned tt) = elim (m.record_fault name) [
    | some e ↦ (db, threw e)
    | none ↦ recorded name schema db
  ]

  unfoldable pub migrate_postgres :
      Text → Option Text → Database S → Database S × Outcome JsError (Unit {0})
  migrate_postgres name none db = (db, threw (missing (codes "PostgreSQL") m.sql_dir name))
  migrate_postgres name (some sql) db = commit name db (m.execute sql db.schema)

  -- On MySQL there is no transaction, and a duplicate key name is passed over.
  unfoldable pub keep :
      Text → Database S → S × Outcome JsError (Unit {0}) → Database S × Outcome JsError (Unit {0})
  keep name db (schema, threw e) =
      if is_duplicate_key_name e
      then recorded name schema db
      else (record db { schema = schema }, threw e)
  keep name db (schema, returned tt) = recorded name schema db

  unfoldable pub migrate_mysql :
      Text → Option Text → Database S → Database S × Outcome JsError (Unit {0})
  migrate_mysql name none db = (db, threw (missing (codes "MySQL") m.sql_dir name))
  migrate_mysql name (some sql) db = keep name db (m.execute sql db.schema)

  -- The loop over the names, past those applied before it.
  unfoldable pub apply_pending :
      (Text → Database S → Database S × Outcome JsError (Unit {0}))
      → List Text
      → List Text
      → Database S
      → Database S × Outcome JsError (Unit {0})
  apply_pending migrate applied [] db = (db, returned tt)
  apply_pending migrate applied (name ∷ all) db =
      let rest = apply_pending migrate applied all in
      if member name applied then rest db else and_then (migrate name db) rest

  -- `CREATE TABLE IF NOT EXISTS`.
  abbrev pub with_tracking : Database S → Database S
  with_tracking db = record db { tracking = some (tracked db) }

  -- The rest of a run after its query of the names, and after its `CREATE TABLE`.
  unfoldable pub after_select :
      (Text → Database S → Database S × Outcome JsError (Unit {0}))
      → Option JsError
      → Database S
      → Database S × Outcome JsError (Unit {0})
  after_select migrate (some e) db = (db, threw e)
  after_select migrate none db =
      apply_pending migrate (names (tracked db)) (get_all_migration_names m.directory) db

  unfoldable pub after_create :
      (Text → Database S → Database S × Outcome JsError (Unit {0}))
      → Option JsError
      → Database S
      → Database S × Outcome JsError (Unit {0})
  after_create migrate (some e) db = (db, threw e)
  after_create migrate none db = after_select migrate m.select_fault (with_tracking db)

  unfoldable pub run_postgres_migrations : Database S → Database S × Outcome JsError (Unit {0})
  run_postgres_migrations db =
      after_create (λ name. migrate_postgres name (script name)) m.create_fault db

  unfoldable pub run_mysql_migrations : Database S → Database S × Outcome JsError (Unit {0})
  run_mysql_migrations db =
      after_create (λ name. migrate_mysql name (script name)) m.create_fault db
