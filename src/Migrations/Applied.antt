-- ===== src/Migrations/Applied.antt =====
-- What a run on PostgreSQL applies, and that the table of the migrations tells the schema.
use mathlib.Core.Option.{some-injective, none-ne-some}
use mathlib.Core.Path.{subst}
use mathlib.Core.List.{append_assoc, append-nil, map}
use outboxy.Base.{
  ◌≡◌, refl, sym, ap, ◌∙◌, Bool, true, false, not, List, [], ◌∷◌, ◌++◌, Option, none, some, Text,
  codes, member, select, Bool-cases, Option-cases, inl, inr, ◌⊎◌,
}
use outboxy.Dialect.{JsError, Outcome, returned, threw}
use outboxy.Sdk.Calls.Verdicts.{all_different}
use mathlib.Core.List.{Perm}
use outboxy.Migrations.Names.{
  get_all_migration_names, sort_names, is_migration_file, without_extension,
}
use outboxy.Migrations.Sorted.{IsSorted, sort_names-IsSorted, sort_names-perm}
use outboxy.Migrations.Lists.{
  names-append, member-order, select-ext, None, None-snoc, None-select, all_different-select,
  different_split,
}
use outboxy.Migrations.{
  MigrationRow, Database, Runner, order_by_applied_at, names, record_name, missing, script, tracked,
  status_of, recorded, commit, migrate_postgres, apply_pending, with_tracking, after_select,
  after_create, run_postgres_migrations,
}

abbrev pub has_thrown : Outcome JsError (Unit {0}) → Bool
has_thrown (threw e) = true
has_thrown (returned u) = false

-- The schema at the end of a script that works.
abbrev pub at_end {ℓ} : {S : Type ℓ} → S × Outcome JsError (Unit {0}) → Option S
at_end (schema, threw e) = none
at_end (schema, returned u) = some schema

module _ {ℓ} {S : Type ℓ} (m : Runner S) where
  abbrev pub after_script : Option Text → S → Option S
  after_script none schema = none
  after_script (some sql) schema = at_end (m.execute sql schema)

  -- What the scripts under some names make of a schema, one after another, if each is there and works.
  unfoldable pub made_by : List Text → S → Option S
  made_by [] schema = some schema
  made_by (name ∷ rest) schema = elim (after_script (script m name) schema) [
    | none ↦ none
    | some schema' ↦ made_by rest schema'
  ]

  made_by-snoc :
      (ns : List Text) (n : Text) (s s' s'' : S)
      → made_by ns s ≡ some s'
      → after_script (script m n) s' ≡ some s''
      → made_by (ns ++ n ∷ []) s ≡ some s''
  unfolding made_by
  made_by-snoc [] n s s' s'' = λ made works.
      rw (made_by, ap (after_script (script m n)) (some-injective s s' made) ∙ works) refl
  made_by-snoc (k ∷ ns) n s s' s'' = elim (Option-cases (after_script (script m k) s)) [
    | inl fails ↦ rw (made_by, fails) (λ made works. absurd (none-ne-some s' made))
    | inr (t, ran) ↦ rw (made_by, ran) (made_by-snoc ns n t s' s'')
  ]

  -- A migration that is not recorded either throws and leaves the database, or is applied and recorded.
  abbrev Steps : Text → Option Text → Database S → Database S × Outcome JsError (Unit {0}) → Type ℓ
  Steps name file db result =
      ((e : JsError) × (result ≡ (db, threw e)))
      ⊎ ((schema : S) × (result ≡ (
        record {
          schema = schema;
          tracking = some (tracked m db ++ record { name = name; applied_at = m.now name } ∷ []);
        },
        returned tt,
      ))
          × (after_script file db.schema ≡ some schema))

  commit-Steps :
      (name sql : Text) (db : Database S)
      → member name (names (tracked m db)) ≡ false
      → (ran : S × Outcome JsError (Unit {0})) → m.execute sql db.schema ≡ ran
      → Steps name (some sql) db (commit m name db ran)
  unfolding commit recorded record_name
  commit-Steps name sql db new (schema, threw e) same = inl (e, refl)
  commit-Steps name sql db new (schema, returned u) same =
      elim (Option-cases (m.record_fault name)) [
        | inl works ↦
            inr (schema, rw (commit, works, recorded, works, record_name, new) refl, ap at_end same)
        | inr (e, fails) ↦ inl (e, rw (commit, fails) refl)
      ]

  migrate_postgres-Steps :
      (name : Text) (file : Option Text) (db : Database S)
      → member name (names (tracked m db)) ≡ false
      → Steps name file db (migrate_postgres m name file db)
  unfolding migrate_postgres
  migrate_postgres-Steps name none db new = inl (missing (codes "PostgreSQL") m.sql_dir name, refl)
  migrate_postgres-Steps name (some sql) db new =
      commit-Steps name sql db new (m.execute sql db.schema) refl

  -- A run has recorded the first of the pending migrations, in their order, and no others, and the table
  -- tells the schema; it has thrown or recorded them all.
  abbrev pub Applies : S → List Text → List Text → Database S × Outcome JsError (Unit {0}) → Type ℓ
  Applies initial before pending result =
      (done : List Text) × (left : List Text) × (names (tracked m result.0) ≡ before ++ done)
      × (done ++ left ≡ pending)
      × (made_by (names (tracked m result.0)) initial ≡ some result.0.schema)
      × ((has_thrown result.1 ≡ true) ⊎ (left ≡ []))

  Applies-cons :
      (initial : S) (before after pending : List Text) (n : Text)
      (result : Database S × Outcome JsError (Unit {0}))
      → after ≡ before ++ n ∷ []
      → Applies initial after pending result
      → Applies initial before (n ∷ pending) result
  Applies-cons initial before after pending n result grown (done, left, names', split, made, stop) =
      (
        n ∷ done,
        left,
        names' ∙ ap (λ ns. ns ++ done) grown ∙ append_assoc before (n ∷ []) done,
        ap (λ ns. n ∷ ns) split,
        made,
        stop,
      )

  apply_pending-Applies :
      (initial : S) (applied all : List Text) (db : Database S)
      → None (select (λ n. not (member n applied)) all) (names (tracked m db))
      → all_different (select (λ n. not (member n applied)) all) ≡ true
      → made_by (names (tracked m db)) initial ≡ some db.schema
      → Applies initial
          (names (tracked m db))
          (select (λ n. not (member n applied)) all)
          (apply_pending m (λ name. migrate_postgres m name (script m name)) applied all db)
  unfolding apply_pending select all_different
  apply_pending-Applies initial applied [] db =
      λ fresh different made. ([], [], sym (append-nil _), refl, made, inr refl)
  apply_pending-Applies initial applied (n ∷ all) db = elim (Bool-cases (member n applied)) [
    | inl there ↦ rw there (apply_pending-Applies initial applied all db)
    | inr new ↦ rw new (λ fresh different made.
        elim (migrate_postgres-Steps n (script m n) db fresh.0) [
          | inl (e, thrown) ↦ rw thrown (
            [],
            n ∷ select (λ k. not (member k applied)) all,
            sym (append-nil _),
            refl,
            made,
            inl refl,
          )
          | inr (schema, ran, works) ↦
              let pending = select (λ k. not (member k applied)) all in
              let row : MigrationRow = record { name = n; applied_at = m.now n } in
              let db' : Database S = record {
                schema = schema;
                tracking = some (tracked m db ++ row ∷ []);
              } in
              let before = names (tracked m db) in
              let grown : names (tracked m db') ≡ before ++ n ∷ [] =
                names-append (tracked m db) (row ∷ []) in
              let unique : (member n pending ≡ false) × (all_different pending ≡ true) =
                different_split n pending different in
              rw ran (
                Applies-cons initial before (names (tracked m db')) pending n
                  (apply_pending m (λ name. migrate_postgres m name (script m name)) applied all
                    db')
                  grown
                  (apply_pending-Applies initial applied all db'
                    (subst (None pending) (sym grown) (None-snoc pending before n fresh.1 unique.0))
                    unique.1
                    (subst (λ ns. made_by ns initial ≡ some schema) (sym grown)
                      (made_by-snoc before n initial db.schema schema made works))))
        ])
  ]

module _ {ℓ} {S : Type ℓ} (m : Runner S) where
  abbrev to_apply : Database S → List Text
  to_apply db =
      select (λ n. not (member n (names (tracked m db)))) (get_all_migration_names m.directory)

  after_select-Applies :
      (fault : Option JsError) (initial : S) (db : Database S)
      → all_different (get_all_migration_names m.directory) ≡ true
      → made_by m (names (tracked m db)) initial ≡ some db.schema
      → Applies m initial
          (names (tracked m db))
          (to_apply db)
          (after_select m (λ name. migrate_postgres m name (script m name)) fault db)
  unfolding after_select
  after_select-Applies (some e) initial db different made =
      ([], to_apply db, sym (append-nil _), refl, made, inl refl)
  after_select-Applies none initial db different made =
      let all = get_all_migration_names m.directory in
      let applied = names (tracked m db) in
      apply_pending-Applies m initial applied all db (None-select applied all)
        (all_different-select (λ n. not (member n applied)) all different) made

  after_create-Applies :
      (fault : Option JsError) (initial : S) (db : Database S)
      → all_different (get_all_migration_names m.directory) ≡ true
      → made_by m (names (tracked m db)) initial ≡ some db.schema
      → Applies m initial
          (names (tracked m db))
          (to_apply db)
          (after_create m (λ name. migrate_postgres m name (script m name)) fault db)
  unfolding after_create
  after_create-Applies (some e) initial db different made =
      ([], to_apply db, sym (append-nil _), refl, made, inl refl)
  after_create-Applies none initial db different made =
      after_select-Applies m.select_fault initial (with_tracking m db) different made

-- The pending migrations are those of the scripts in the directory that are not recorded, in the order of
-- the scripts' file names.
abbrev pub IsPending : (directory applied pending : List Text) → Type 0
IsPending directory applied pending =
    (files : List Text) × IsSorted files
    × Perm files (select is_migration_file directory)
    × (pending ≡ select (λ n. not (member n applied)) (map without_extension files))

-- A run on PostgreSQL, whether it returns or throws, has applied and recorded the first of the pending
-- migrations, in the order of the scripts' file names, and all of them if it returns; it has changed
-- nothing else, and the schema still is what the scripts of the recorded migrations make of the initial
-- one. Pending is every script of the directory, by the pattern of their names, that is not recorded.
-- The schema is so at first, and no two scripts have one name.
pub run_postgres_migrations-Applies {ℓ} :
    {S : Type ℓ} (m : Runner S) (initial : S) (db : Database S)
    → all_different (get_all_migration_names m.directory) ≡ true
    → made_by m (names (tracked m db)) initial ≡ some db.schema
    → (pending : List Text) × ((status_of m db).pending ≡ pending)
      × IsPending m.directory (names (tracked m db)) pending
      × Applies m initial (names (tracked m db)) pending (run_postgres_migrations m db)
unfolding run_postgres_migrations status_of get_all_migration_names
run_postgres_migrations-Applies m initial db different made =
    let applied = names (tracked m db) in
    let files = select is_migration_file m.directory in
    (
      to_apply m db,
      select-ext (λ n. not (member n (names (order_by_applied_at (tracked m db)))))
          (λ n. not (member n applied)) (get_all_migration_names m.directory)
          (λ t. ap not (member-order t (tracked m db))),
      (sort_names files, sort_names-IsSorted files, sort_names-perm files, refl),
      after_create-Applies m m.create_fault initial db different made,
    )
