-- ===== src/Mysql/Errors.antt =====
-- packages/db-adapter-mysql/src/errors.ts, and the check of ids that the repositories share.
use outboxy.Base.{
  ℕ, zero, suc, ◌++◌, Bool, false, not, ◌&&◌, ◌||◌, List, [], ◌∷◌, Option, none, some, Text, codes,
  is_empty, leb, ◌==◌, if◌then◌else◌,
}
use outboxy.Postgres.Errors.{
  PostgresError, DatabaseError, database_error, connection_error, query_timeout_error,
  constraint_violation_error, Result, ok, err,
}
use outboxy.Dialect.Render.{decimal}

-- An error of the `mysql2` driver, or an `Error` of the adapter's own, which has no number. A text that
-- is not set is empty.
pub record MysqlError : Type 0 where
  pub code : Option Text
  pub errno : Option ℕ
  pub sql_message : Text
  pub message : Text

-- The error as the cause of a normalised one.
abbrev pub as_cause : MysqlError → PostgresError
as_cause e = record { code = e.code; constraint = none; message = e.message }

-- `sqlMessage || message || "Unknown database error"`.
unfoldable pub mysql_message : MysqlError → Text
mysql_message e =
    if not (is_empty e.sql_message)
    then e.sql_message
    else if is_empty e.message
    then codes "Unknown database error"
    else e.message

abbrev pub is_constraint_errno : ℕ → Bool
is_constraint_errno n = n == 1451 || n == 1452 || n == 3819 || n == 1048

abbrev pub is_connection_errno : ℕ → Bool
is_connection_errno n = n == 2002 || n == 2013 || n == 1045 || n == 2006 || n == 1053

-- The `switch` on the number; a missing one takes the default, and `String(undefined)`.
unfoldable pub map_errno : MysqlError → Option ℕ → DatabaseError
map_errno e none = database_error (mysql_message e) (as_cause e) (some (codes "undefined"))
map_errno e (some n) =
    if n == 1062
    then constraint_violation_error (codes "Duplicate entry: " ++ mysql_message e) none (as_cause e)
    else if is_constraint_errno n
    then constraint_violation_error (mysql_message e) none (as_cause e)
    else if is_connection_errno n
    then connection_error (mysql_message e) (as_cause e)
    else if n == 1205 || n == 1317
    then query_timeout_error (mysql_message e) (as_cause e)
    else if n == 1213
    then database_error (codes "Deadlock detected") (as_cause e) (some (codes "DEADLOCK"))
    else database_error (mysql_message e) (as_cause e) (some (decimal n))

unfoldable pub map_mysql_error : MysqlError → DatabaseError
map_mysql_error e = map_errno e e.errno

-- How one statement runs, as `Session` for PostgreSQL.
pub record MysqlSession : Type 0 where
  pub now : ℕ
  pub locked : Text → Bool
  pub fault : Option MysqlError

-- `withErrorMapping` round one statement.
unfoldable pub with_mysql_errors {ℓ κ} :
    {S : Type ℓ} {A : Type κ} → MysqlSession → S → S × A → S × Result A
with_mysql_errors s before (after, reply) = elim s.fault [
  | none ↦ (after, ok reply)
  | some e ↦ (before, err (map_mysql_error e))
]

-- A digit of `[0-9a-f]` with the flag `i`.
abbrev pub is_hex : ℕ → Bool
is_hex c = (leb b'0' c && leb c b'9') || (leb b'a' c && leb c b'f') || (leb b'A' c && leb c b'F')

-- `[0-9a-f]{n}`, and then what `rest` tells of the text after it.
abbrev pub hex_then : ℕ → (Text → Bool) → Text → Bool
hex_then zero rest s = rest s
hex_then (suc n) rest [] = false
hex_then (suc n) rest (c ∷ s) = is_hex c && hex_then n rest s

abbrev pub dash_then : (Text → Bool) → Text → Bool
dash_then rest [] = false
dash_then rest (c ∷ s) = c == b'-' && rest s

-- `UUID_REGEX.test(id)`.
unfoldable pub is_uuid : Text → Bool
is_uuid id =
    hex_then 8
      (dash_then (
        hex_then 4
          (dash_then (hex_then 4 (dash_then (hex_then 4 (dash_then (hex_then 12 is_empty))))))))
      id

-- The first id that `validateIds` throws on.
unfoldable pub invalid_id : List Text → Option Text
invalid_id [] = none
invalid_id (id ∷ ids) = if is_uuid id then invalid_id ids else some id

-- `new Error(...)` of `validateIds`.
abbrev pub invalid_id_error : Text → MysqlError
invalid_id_error id = record {
  code = none;
  errno = none;
  sql_message = [];
  message = codes "Invalid event ID format: " ++ id;
}
