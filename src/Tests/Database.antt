-- ===== src/Tests/Database.antt =====
-- A database of events under the SDK's client, which stores the rows of each bulk insert, and a batch of
-- two orders on it.
use outboxy.Base.{ℕ, zero, suc, List, [], ◌∷◌, ◌++◌, map, Text, codes, length, take, drop}
use outboxy.Dialect.{Value, returned}
use outboxy.Dialect.Postgres
use outboxy.Sdk.{ReturnedRow, Runtime}
use outboxy.Sdk.Client.Stored.{StoredRow, with_ids}

-- The rows of twelve columns that the parameters of a statement are.
abbrev rows_from : ℕ → List Value → List (List Value)
rows_from zero vs = []
rows_from (suc n) [] = []
rows_from (suc n) (v ∷ vs) = take 12 (v ∷ vs) ∷ rows_from n (drop 12 (v ∷ vs))

-- An id for each row, each longer than the one before it.
abbrev new_names : Text → List (List Value) → List Text
new_names name [] = []
new_names name (row ∷ rows) = (120 ∷ name) ∷ new_names (120 ∷ name) rows

abbrev reply_with : Text → ReturnedRow
reply_with id = record { id = id; idempotency_key = [] }

abbrev storing : Runtime (List StoredRow)
storing = record {
  query = λ sql params table.
      let rows = rows_from (length params) params in
      let ids = new_names (map (λ row. 120) table) rows in
      (table ++ with_ids ids rows, returned (map reply_with ids));
  random_uuid = λ table. (table, codes "u");
  inject = λ headers. headers;
}
