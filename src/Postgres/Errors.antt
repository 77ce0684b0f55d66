-- ===== src/Postgres/Errors.antt =====
-- packages/db-adapter-core/src/errors.ts and packages/db-adapter-postgres/src/errors.ts: what the
-- driver throws, and the normalised errors that the adapter throws instead.
use outboxy.Base.{
  ℕ, ◌++◌, Bool, ◌||◌, Option, none, some, Text, codes, option_text_eq, is_empty, if◌then◌else◌,
  inl, inr, ◌⊎◌, refl, ◌≡◌,
}

-- An error of the `pg` driver; a message that is not set is the empty text.
pub record PostgresError : Type 0 where
  pub code : Option Text
  pub constraint : Option Text
  pub message : Text

-- `DatabaseError` and its subclasses, with their fields `message`, `cause` and `code`. The code of a
-- subclass is fixed.
pub data DatabaseError : Type 0 where
  database_error : Text → PostgresError → Option Text → DatabaseError
  connection_error : Text → PostgresError → DatabaseError
  query_timeout_error : Text → PostgresError → DatabaseError
  constraint_violation_error : Text → Option Text → PostgresError → DatabaseError
  -- An `Error` of the adapter's own.
  usage_error : Text → DatabaseError

-- What an operation under `withErrorMapping` may throw.
pub data Thrown : Type 0 where
  mapped : DatabaseError → Thrown
  native : PostgresError → Thrown

pub data Result {ℓ} (A : Type ℓ) : Type ℓ where
  ok : A → Result A
  err : DatabaseError → Result A

unfoldable pub is_constraint_code : Option Text → Bool
is_constraint_code c =
    option_text_eq c (codes "23503")
    || option_text_eq c (codes "23514")
    || option_text_eq c (codes "23502")

unfoldable pub is_connection_code : Option Text → Bool
is_connection_code c =
    option_text_eq c (codes "08006")
    || option_text_eq c (codes "08000")
    || option_text_eq c (codes "08003")
    || option_text_eq c (codes "08001")
    || option_text_eq c (codes "08004")
    || option_text_eq c (codes "57P01")

-- `pgError.message || "Unknown database error"`.
unfoldable pub message_of : PostgresError → Text
message_of e = if is_empty e.message then codes "Unknown database error" else e.message

unfoldable pub map_native_error : PostgresError → DatabaseError
unfolding is_constraint_code is_connection_code message_of
map_native_error e =
    if option_text_eq e.code (codes "23505")
    then constraint_violation_error (codes "Unique constraint violation: " ++ message_of e)
        e.constraint e
    else if is_constraint_code e.code
    then constraint_violation_error (message_of e) e.constraint e
    else if is_connection_code e.code
    then connection_error (message_of e) e
    else if option_text_eq e.code (codes "57014")
    then query_timeout_error (message_of e) e
    else if option_text_eq e.code (codes "55P03")
    then query_timeout_error (codes "Lock acquisition timeout") e
    else database_error (message_of e) e e.code

unfoldable pub map_postgres_error : Thrown → DatabaseError
unfolding map_native_error
map_postgres_error (mapped e) = e
map_postgres_error (native e) = map_native_error e

-- How one statement runs: the time that `NOW()` gives, the rows that other transactions have locked,
-- and the error that the driver throws in place of a reply, after which the table is as before.
pub record Session : Type 0 where
  pub now : ℕ
  pub locked : Text → Bool
  pub fault : Option PostgresError

-- `withErrorMapping` round one statement: its effect and its reply, or the mapped error.
unfoldable pub with_error_mapping {ℓ κ} :
    {S : Type ℓ} {A : Type κ} → Session → S → S × A → S × Result A
unfolding map_postgres_error
with_error_mapping s before (after, reply) = elim s.fault [
  | none ↦ (after, ok reply)
  | some e ↦ (before, err (map_postgres_error (native e)))
]

pub Result-cases {ℓ} :
    {A : Type ℓ} (r : Result A) → ((a : A) × (r ≡ ok a)) ⊎ ((e : DatabaseError) × (r ≡ err e))
Result-cases (ok a) = inl (a, refl)
Result-cases (err e) = inr (e, refl)
