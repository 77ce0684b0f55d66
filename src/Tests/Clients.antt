-- ===== src/Tests/Clients.antt =====
-- The dialects and the clients of the SDK: a runtime that counts its calls, and small batches.
use outboxy.Base.{
  ℕ, zero, ◌+◌, ◌≤◌, ◌≡◌, refl, List, [], ◌∷◌, map, some, none, codes, Text, length, arith, find,
  text_eq, member,
}
use outboxy.Schema.{Json, Entries, InboxResult}
use outboxy.Dialect.{whole, Value, returned, threw, BuildBulkInsertParams}
use outboxy.Dialect.Render.{join}
use outboxy.Dialect.Postgres
use outboxy.Dialect.Postgres.{postgres_dialect, postgres_inbox_dialect}
use outboxy.Dialect.Placeholders.{Numbered, lacks, build_bulk_insert-Numbered}
use outboxy.Dialect.Contract.{postgres-carries}
use outboxy.Postgres.Errors.{ok}
use outboxy.Postgres.Inbox
use outboxy.Postgres.Inbox.{
  InboxEventInput, inbox_row, insert_unless_present, insert_all, inserted_ids,
}
use outboxy.Postgres.Inbox.Batch.{Received}
use outboxy.Sdk.{validation_error, ReturnedRow, json, Runtime, all_key_characters}
use outboxy.Sdk.Calls.Holds.{Keeps}
use outboxy.Sdk.Calls.Verdicts.{all_different}
use outboxy.Sdk.Chunks.{Answer}
use outboxy.Sdk.Client.{publish_batch}
use outboxy.Sdk.Events.{OutboxyClient, PublishEventInput, keys_in_batch}
use outboxy.Sdk.Client.Checks.{with_defaults, is_publishable, all_publishable}
use outboxy.Sdk.Client.Batches.{publish_batch-refuses}
use outboxy.Sdk.Client.Limits.{publish_batch-within_limit}
use outboxy.Sdk.InboxClient
use outboxy.Sdk.InboxClient.Checks.{all_receivable, is_receivable}
use outboxy.Sdk.InboxClient.Found.{found_rows}
use outboxy.Sdk.InboxClient.Inputs.{as_received, inbox_client}
use outboxy.Sdk.InboxClient.Repository.{receive_batch-as_repository}
use outboxy.Tests.Data.{at_time}

-- Two rows of two columns.
abbrev two_rows : BuildBulkInsertParams
two_rows = record {
  columns = codes "id" ∷ codes "status" ∷ [];
  rows =
      (Value.text (codes "a") ∷ Value.null ∷ [])
      ∷ (Value.text (codes "b") ∷ Value.number (whole 3) ∷ [])
      ∷ [];
  generated_ids = some (codes "a" ∷ codes "b" ∷ []);
}

build_bulk_insert-Numbered_example :
    Numbered (Postgres.build_bulk_insert two_rows)
    × Numbered (Postgres.build_inbox_bulk_insert two_rows)
unfolding lacks join
build_bulk_insert-Numbered_example = build_bulk_insert-Numbered two_rows refl (refl, (refl, tt))

abbrev one_row : List ReturnedRow
one_row = record { id = codes "x"; idempotency_key = codes "pay-1" } ∷ []

-- A world that counts the calls.
abbrev counting : Runtime ℕ
counting = record {
  query = λ sql params n. (n + 1, returned one_row);
  random_uuid = λ n. (n + 1, codes "u");
  inject = λ headers. headers;
}

abbrev pub order_client : OutboxyClient
order_client = record {
  dialect = postgres_dialect;
  default_destination_url = some (codes "https://x");
  default_destination_type = codes "http";
  default_max_retries = whole 5;
  default_headers = json (Json.object Entries.end);
  default_metadata = json (Json.object Entries.end);
}

abbrev order : Text → PublishEventInput
order key = record {
  aggregate_type = codes "Order";
  aggregate_id = codes "1";
  event_type = codes "Created";
  payload = json Json.null;
  destination_url = none;
  destination_type = none;
  idempotency_key = some key;
  max_retries = none;
  event_version = none;
  headers = none;
  metadata = none;
}

-- Two events with one key.
publish_batch-refuses_example :
    (message : Text) × (field : Text) × (publish_batch counting order_client 9
        (order (codes "k") ∷ order (codes "k") ∷ [])
        0
      ≡ some (0, threw (validation_error message field)))
unfolding all_different keys_in_batch member text_eq with_defaults all_publishable is_publishable
    all_key_characters
publish_batch-refuses_example =
    publish_batch-refuses counting order_client 9 (order (codes "k") ∷ order (codes "k") ∷ []) 0
      refl

abbrev pub two_orders : List PublishEventInput
two_orders = order (codes "k") ∷ order (codes "l") ∷ []

-- A world that notes how many parameters the last statement had.
abbrev noting : Runtime ℕ
noting = record {
  query = λ sql params n. (length params, returned one_row);
  random_uuid = λ n. (n, codes "u");
  inject = λ headers. headers;
}

noting-Keeps : Keeps noting 65535 (λ n. n ≤ 65535)
noting-Keeps = record { on_draw = λ w h. h; on_query = λ sql params w few h. few }

publish_batch-within_limit_example :
    (answer : Answer ℕ Text) × (publish_batch noting order_client 4 two_orders 0 ≡ some answer)
    × (answer.0 ≤ 65535)
publish_batch-within_limit_example =
    publish_batch-within_limit noting order_client postgres-carries.0 (λ n. n ≤ 65535) noting-Keeps
      4 two_orders 0 (omega arith) (omega arith) (omega arith)

abbrev payment : Text → InboxEventInput
payment key = record {
  idempotency_key = key;
  aggregate_type = codes "Payment";
  aggregate_id = codes "1";
  event_type = codes "Paid";
  payload = Json.null;
  source = none;
  event_version = none;
  headers = none;
  metadata = none;
}

-- An old payment, and a batch of it and a new one.
abbrev old_table : Inbox.InboxTable
old_table = inbox_row 1 (codes "old") (payment (codes "p")) ∷ []

abbrev two_payments : List Received
two_payments = (codes "a", payment (codes "p")) ∷ (codes "b", payment (codes "q")) ∷ []

-- The id of the new row, and then the ids under both keys.
abbrev reply : ℕ → List ReturnedRow
reply zero = record { id = codes "b"; idempotency_key = codes "q" } ∷ []
reply _ =
    record { id = codes "old"; idempotency_key = codes "p" }
    ∷ record { id = codes "b"; idempotency_key = codes "q" }
    ∷ []

abbrev replying : Runtime ℕ
replying = record {
  query = λ sql params n. (n + 1, returned (reply n));
  random_uuid = λ n. (n, codes "u");
  inject = λ headers. headers;
}

receive_batch-as_repository_example :
    (results : List InboxResult) × ((Inbox.receive_batch
        (at_time 5)
        (at_time 6)
        two_payments
        old_table).1
      ≡ ok results)
    × (InboxClient.receive_batch replying
          (inbox_client postgres_inbox_dialect)
          1
          (map as_received two_payments)
          0
        ≡ some (2, returned results))
unfolding member text_eq inbox_row find insert_all insert_unless_present inserted_ids found_rows
    Postgres.build_inbox_bulk_insert Postgres.build_find_by_idempotency_keys all_receivable
    is_receivable all_different all_key_characters InboxClient.inbox_max_events_per_batch
receive_batch-as_repository_example =
    receive_batch-as_repository replying postgres_inbox_dialect (at_time 5) (at_time 6) two_payments
      old_table 0 0 1 2 (reply 0)
      (record { not_in_table = ((refl, refl), tt); not_empty = (refl, (refl, tt)) }) (refl, tt) refl
      refl (λ returning. refl) refl 1 refl refl (omega arith) (omega arith) (omega arith) refl
