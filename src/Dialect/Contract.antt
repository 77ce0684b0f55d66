-- ===== src/Dialect/Contract.antt =====
-- What the SDK relies on of a dialect, and that both dialects keep it.
use outboxy.Base.{
  ℕ, ◌≡◌, refl, Bool, true, false, List, Option, none, some, Text, length, is_empty, arith,
}
use outboxy.Dialect.{
  Value, SqlStatement, BuildInsertParams, BuildBulkInsertParams, SqlDialect, InboxSqlDialect,
  Outcome, returned, threw, JsError,
}
use outboxy.Dialect.Render.{all_params}
use outboxy.Dialect.Postgres
use outboxy.Dialect.Postgres.{postgres_dialect, postgres_inbox_dialect}
use outboxy.Dialect.Mysql
use outboxy.Dialect.Mysql.{mysql_dialect, mysql_inbox_dialect}

-- A statement is built, with just these parameters.
abbrev pub Carries : Outcome JsError SqlStatement → List Value → Type 0
Carries (returned st) vs = st.params ≡ vs
Carries (threw e) vs = ⊥

-- The ids that a client passes: none to a dialect that returns them, one for each row to the others.
abbrev pub PassesIds : Bool → Option (List Text) → ℕ → Type 0
PassesIds true none n = Unit
PassesIds true (some ids) n = ⊥
PassesIds false none n = ⊥
PassesIds false (some ids) n = length ids ≡ n

abbrev pub PassesId : Bool → Option Text → Type 0
PassesId true none = Unit
PassesId true (some id) = ⊥
PassesId false none = ⊥
PassesId false (some id) = is_empty id ≡ false

-- An insert builds, and carries the values in order, row after row.
pub record CarriesValues (returning : Bool)
    (insert : BuildInsertParams → Outcome JsError SqlStatement)
    (bulk_insert : BuildBulkInsertParams → Outcome JsError SqlStatement) : Type 0 where
  pub insert_carries :
      (p : BuildInsertParams) → PassesId returning p.generated_id → Carries (insert p) p.values
  pub bulk_insert_carries :
      (p : BuildBulkInsertParams)
      → PassesIds returning p.generated_ids (length p.rows)
      → Carries (bulk_insert p) (all_params p.rows)

-- The dialects for the outbox.
abbrev pub IsLawful : SqlDialect → Type 0
IsLawful d = CarriesValues d.supports_returning d.build_insert d.build_bulk_insert

abbrev pub IsLawfulInbox : InboxSqlDialect → Type 0
IsLawfulInbox d = CarriesValues d.supports_returning d.build_inbox_insert d.build_inbox_bulk_insert

pub postgres-carries : IsLawful postgres_dialect × IsLawfulInbox postgres_inbox_dialect
unfolding Postgres.build_insert Postgres.build_bulk_insert Postgres.build_inbox_insert
    Postgres.build_inbox_bulk_insert
postgres-carries = (
  record { insert_carries = λ p h. refl; bulk_insert_carries = λ p h. refl },
  record { insert_carries = λ p h. refl; bulk_insert_carries = λ p h. refl },
)

is_missing_id-passed : (id : Option Text) → PassesId false id → Mysql.is_missing_id id ≡ false
is_missing_id-passed none h = absurd h
is_missing_id-passed (some id) h = h

is_missing_ids-passed :
    (ids : Option (List Text)) (rows : List (List Value))
    → PassesIds false ids (length rows)
    → Mysql.is_missing_ids ids rows ≡ false
is_missing_ids-passed none rows h = absurd h
is_missing_ids-passed (some ids) rows h = ground arith

mysql-carries : IsLawful mysql_dialect × IsLawfulInbox mysql_inbox_dialect
unfolding Mysql.build_insert Mysql.build_bulk_insert Mysql.build_inbox_insert
    Mysql.build_inbox_bulk_insert
mysql-carries = (
  record {
    insert_carries = λ p h. rw (is_missing_id-passed p.generated_id h) refl;
    bulk_insert_carries = λ p h. rw (is_missing_ids-passed p.generated_ids p.rows h) refl;
  },
  record {
    insert_carries = λ p h. rw (is_missing_id-passed p.generated_id h) refl;
    bulk_insert_carries = λ p h. rw (is_missing_ids-passed p.generated_ids p.rows h) refl;
  },
)

-- Each of the four dialects builds every insert that gets the ids it asks for (none for PostgreSQL,
-- for MySQL one for each row), and the statement carries the values of the rows, one row after the
-- other.
pub dialects-carry_values :
    IsLawful postgres_dialect
    × IsLawfulInbox postgres_inbox_dialect
    × IsLawful mysql_dialect
    × IsLawfulInbox mysql_inbox_dialect
dialects-carry_values = (postgres-carries.0, postgres-carries.1, mysql-carries.0, mysql-carries.1)
