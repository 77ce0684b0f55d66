-- ===== src/Sdk/InboxClient/Inputs.antt =====
-- The inputs of the repository as events of the client, and the rows of their insert.
use outboxy.Base.{
  ◌≡◌, ◌≤◌, refl, ap, Bool, true, false, List, [], ◌∷◌, map, Option, none, some, Text, codes,
  is_empty, ◌or_else◌, arith, length,
}
use outboxy.Schema.{Json, Entries}
use outboxy.Sql.Update.{map_option}
use outboxy.Postgres.Inbox.Batch.{Received, batch_ids}
use outboxy.Dialect.{whole, Value, returned, InboxSqlDialect}
use outboxy.Sdk.{json}
use outboxy.Sdk.Calls.{each_id}
use outboxy.Sdk.InboxClient.{inbox_rows, inbox_base_values, text_value}
use outboxy.Sdk.InboxEvents.{InboxyClient, InboxReceiveEventInput}
use outboxy.Sdk.InboxClient.Checks.{with_inbox_defaults, batch_keys}
use outboxy.Sdk.InboxClient.Answers.{as_valid, received_keys}

abbrev pub no_entries : Json
no_entries = Json.object Entries.end

-- The input of the repository as one of the client.
abbrev pub as_received : Received → InboxReceiveEventInput
as_received p = record {
  idempotency_key = p.1.idempotency_key;
  aggregate_type = p.1.aggregate_type;
  aggregate_id = p.1.aggregate_id;
  event_type = p.1.event_type;
  payload = json p.1.payload;
  source = p.1.source;
  event_version = map_option whole p.1.event_version;
  headers = map_option json p.1.headers;
  metadata = map_option json p.1.metadata;
}

-- The client of a dialect, with the defaults of the constructor.
abbrev pub inbox_client : InboxSqlDialect → InboxyClient
inbox_client d = record {
  dialect = d;
  default_headers = json no_entries;
  default_metadata = json no_entries;
}

map_option-or_else :
    {A B : Type 0} (f : A → B) (o : Option A) (a : A)
    → (map_option f o or_else f a) ≡ f (o or_else a)
map_option-or_else f none a = refl
map_option-or_else f (some b) a = refl

pub as_received-as_valid :
    (d : InboxSqlDialect) (given : List Received)
    → map (with_inbox_defaults (inbox_client d)) (map as_received given) ≡ map as_valid given
unfolding with_inbox_defaults
as_received-as_valid d [] = refl
as_received-as_valid d (p ∷ given) =
    rw
      (
        map_option-or_else whole p.1.event_version 1,
        map_option-or_else json p.1.headers no_entries,
        map_option-or_else json p.1.metadata no_entries,
      )
      (ap (λ es. as_valid p ∷ es) (as_received-as_valid d given))

pub batch_keys-as_received :
    (given : List Received) → batch_keys (map as_received given) ≡ received_keys given
batch_keys-as_received [] = refl
batch_keys-as_received (p ∷ given) =
    ap (λ ks. p.1.idempotency_key ∷ ks) (batch_keys-as_received given)

pub some_received :
    (given : List Received) → 1 ≤ length given → is_empty (map as_received given) ≡ false
some_received [] h = absurd (omega arith)
some_received (p ∷ given) h = refl

pub keys-as_valid :
    (given : List Received)
    → map (λ e. e.idempotency_key) (map as_valid given) ≡ received_keys given
keys-as_valid [] = refl
keys-as_valid (p ∷ given) = ap (λ ks. p.1.idempotency_key ∷ ks) (keys-as_valid given)

-- The values of an event.
abbrev pub value_row : Received → List Value
value_row p =
    Value.text p.1.idempotency_key
    ∷ text_value p.1.source
    ∷ Value.text p.1.aggregate_type
    ∷ Value.text p.1.aggregate_id
    ∷ Value.text p.1.event_type
    ∷ Value.number (whole (p.1.event_version or_else 1))
    ∷ Value.serialised p.1.payload
    ∷ Value.serialised (p.1.headers or_else no_entries)
    ∷ Value.serialised (p.1.metadata or_else no_entries)
    ∷ Value.text (codes "processed")
    ∷ []

-- For each dialect: the ids that the client generates, and the rows of the statement.
abbrev pub ids_for : Bool → List Received → Option (List Text)
ids_for true given = none
ids_for false given = some (batch_ids given)

abbrev pub rows_for : Bool → List Received → List (List Value)
rows_for true given = map value_row given
rows_for false given = map (λ p. Value.text p.0 ∷ value_row p) given

pub inbox_rows-given :
    (returning : Bool) (given : List Received)
    → inbox_rows (each_id (ids_for returning given)) (map as_valid given)
      ≡ returned (rows_for returning given)
unfolding inbox_rows inbox_base_values
inbox_rows-given true [] = refl
inbox_rows-given false [] = refl
inbox_rows-given true (p ∷ given) = rw (inbox_rows-given true given) refl
inbox_rows-given false (p ∷ given) = rw (inbox_rows-given false given) refl
