-- ===== src/Sdk/InboxClient/Found.antt =====
-- What the query for the keys of a batch finds in a table with a unique index on the key, and the `Map`
-- that the client makes of it.
use outboxy.Base.{
  ℕ, ◌≡◌, refl, sym, ap, ◌∙◌, true, false, not, ◌&&◌, List, [], ◌∷◌, ◌++◌, Text, text_eq,
  text_eq_iff, member, Map, get, set, get-set, find, is_none, if◌then◌else◌, arith, Bool-cases, inl,
  inr,
}
use outboxy.Schema.{InboxEventRow}
use outboxy.Sql.Update.{map_option}
use outboxy.Postgres.Inbox.{InboxTable, inbox_row, row_for, insert_unless_present, insert_all}
use outboxy.Postgres.Inbox.Batch.{Received}
use outboxy.Sdk.{ReturnedRow}
use outboxy.Sdk.InboxClient.{key_map}

-- `SELECT id, idempotency_key FROM inbox_events WHERE idempotency_key IN (keys)`.
abbrev pub found_row : InboxEventRow → ReturnedRow
found_row r = record { id = r.id; idempotency_key = r.idempotency_key }

unfoldable pub found_rows : List Text → InboxTable → List ReturnedRow
found_rows keys [] = []
found_rows keys (r ∷ rows) =
    let rest = found_rows keys rows in
    if member r.idempotency_key keys then found_row r ∷ rest else rest

-- The unique index.
abbrev pub HasUniqueKeys : InboxTable → Type 0
HasUniqueKeys [] = Unit
HasUniqueKeys (r ∷ rows) = (is_none (row_for r.idempotency_key rows) ≡ true) × HasUniqueKeys rows

get-key_map :
    (key : Text) (keys : List Text) (rows : InboxTable) (m : Map Text)
    → member key keys ≡ true
    → HasUniqueKeys rows
    → get key (key_map m (found_rows keys rows)) ≡ (
        if is_none (row_for key rows) then get key m else map_option (λ r. r.id) (row_for key rows))
unfolding key_map found_rows find
get-key_map key keys [] m listed unique = refl
get-key_map key keys (r ∷ rows) m listed unique =
    elim (Bool-cases (member r.idempotency_key keys)) [
      | inr absent ↦
          let other : text_eq r.idempotency_key key ≡ false = differs r.idempotency_key absent in
          rw (absent, key_map, other) (get-key_map key keys rows m listed unique.1)
      | inl present ↦ elim (Bool-cases (text_eq r.idempotency_key key)) [
        | inl same ↦
            let last : is_none (row_for key rows) ≡ true =
              ap (λ k. is_none (row_for k rows)) (sym ((text_eq_iff r.idempotency_key key).0 same))
              ∙ unique.0 in
            rw (present, key_map, same)
              (get-key_map key keys rows (set r.idempotency_key r.id m) listed unique.1
                ∙ ground (arith, get-set r.idempotency_key key r.id m))
        | inr other ↦
            rw (present, key_map, other)
              (get-key_map key keys rows (set r.idempotency_key r.id m) listed unique.1
                ∙ ground (arith, get-set r.idempotency_key key r.id m))
      ]
    ]
  where
    differs : (k : Text) → member k keys ≡ false → text_eq k key ≡ false
    differs k absent = elim (Bool-cases (text_eq k key)) [
      | inr other ↦ other
      | inl same ↦ cc (ap (λ t. member t keys) ((text_eq_iff k key).0 same), absent, listed)
    ]

-- The id that the client finds for a key of the batch is that of the row under the key.
pub get-found :
    (key : Text) (keys : List Text) (rows : InboxTable)
    → member key keys ≡ true
    → HasUniqueKeys rows
    → get key (key_map [] (found_rows keys rows)) ≡ map_option (λ r. r.id) (row_for key rows)
unfolding get
get-found key keys rows listed unique = ground (arith, get-key_map key keys rows [] listed unique)

row_for-append :
    (key : Text) (rows : InboxTable) (x : InboxEventRow)
    → is_none (row_for key (rows ++ x ∷ []))
      ≡ (is_none (row_for key rows) && not (text_eq x.idempotency_key key))
unfolding find
row_for-append key [] x = ground arith
row_for-append key (r ∷ rows) x = ground (arith, row_for-append key rows x)

append-HasUniqueKeys :
    (rows : InboxTable) (x : InboxEventRow)
    → HasUniqueKeys rows
    → is_none (row_for x.idempotency_key rows) ≡ true
    → HasUniqueKeys (rows ++ x ∷ [])
unfolding find
append-HasUniqueKeys [] x unique free = (refl, tt)
append-HasUniqueKeys (r ∷ rows) x unique free = ground (
  arith,
  row_for-append r.idempotency_key rows x,
  append-HasUniqueKeys rows x unique.1,
  text_eq_iff x.idempotency_key r.idempotency_key,
  text_eq_iff r.idempotency_key x.idempotency_key,
)

-- A batch keeps the unique index.
pub insert_all-HasUniqueKeys :
    (now : ℕ) (events : List Received) (rows : InboxTable)
    → HasUniqueKeys rows
    → HasUniqueKeys (insert_all now events rows)
unfolding insert_all insert_unless_present inbox_row
insert_all-HasUniqueKeys now [] rows unique = unique
insert_all-HasUniqueKeys now ((id, event) ∷ events) rows unique =
    elim (Bool-cases (is_none (row_for event.idempotency_key rows))) [
      | inl free ↦
          rw (insert_unless_present, free)
            (insert_all-HasUniqueKeys now events (rows ++ inbox_row now id event ∷ [])
              (append-HasUniqueKeys rows (inbox_row now id event) unique free))
      | inr taken ↦
          rw (insert_unless_present, taken) (insert_all-HasUniqueKeys now events rows unique)
    ]
