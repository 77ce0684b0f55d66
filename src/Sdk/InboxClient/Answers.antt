-- ===== src/Sdk/InboxClient/Answers.antt =====
-- The results that the client of the inbox makes of the replies of a database, for either dialect.
use outboxy.Base.{
  ℕ, ◌≡◌, refl, ap, ◌∙◌, true, false, List, [], ◌∷◌, map, some, Text, text_eq, text_eq_iff,
  text_eq_self, member, Map, get, find, is_none, ◌or_else◌, arith, Bool-cases, Option-cases, inl,
  inr, All,
}
use outboxy.Schema.{Json, Entries, InboxResult}
use outboxy.Sql.Update.{map_option}
use outboxy.Postgres.Inbox.{InboxTable, inbox_row, row_for, insert_all, inserted_ids}
use outboxy.Postgres.Inbox.Batch.{
  Received, first_for, batch_ids, FreshIds, answer_for, answered, row_for-insert_all, find-All,
}
use outboxy.Dialect.{whole}
use outboxy.Sdk.{json}
use outboxy.Sdk.Calls.Verdicts.{all_different}
use outboxy.Sdk.InboxClient.{returned_result, generated_result, inbox_results}
use outboxy.Sdk.InboxEvents.{ValidatedInboxEvent}

-- The event as the client has it after its checks, with `{}` for absent headers and metadata.
abbrev pub as_valid : Received → ValidatedInboxEvent
as_valid p = record {
  idempotency_key = p.1.idempotency_key;
  aggregate_type = p.1.aggregate_type;
  aggregate_id = p.1.aggregate_id;
  event_type = p.1.event_type;
  event_version = whole (p.1.event_version or_else 1);
  payload = json p.1.payload;
  source = p.1.source;
  headers = json (p.1.headers or_else Json.object Entries.end);
  metadata = json (p.1.metadata or_else Json.object Entries.end);
}

abbrev pub received_keys : List Received → List Text
received_keys [] = []
received_keys (p ∷ given) = p.1.idempotency_key ∷ received_keys given

-- An event that is the first of the batch with its key, and whose id is of the batch.
abbrev pub IsOwn : List Received → Received → Type 0
IsOwn given p =
    (first_for p.1.idempotency_key given ≡ some p)
    × (member p.0 (batch_ids given) ≡ true)
    × (member p.1.idempotency_key (received_keys given) ≡ true)

IsOwn-cons :
    (q : Received) (given ps : List Received)
    → All (IsOwn given) ps
    → member q.1.idempotency_key (received_keys ps) ≡ false
    → All (IsOwn (q ∷ given)) ps
unfolding find member
IsOwn-cons q given [] own fresh = tt
IsOwn-cons q given (p ∷ ps) own fresh = (
  ground (
    arith,
    text_eq_iff p.1.idempotency_key q.1.idempotency_key,
    text_eq_iff q.1.idempotency_key p.1.idempotency_key,
  ),
  IsOwn-cons q given ps own.1 (ground arith),
)

-- Without a key twice, each event of the batch is the first with its key.
pub All-IsOwn :
    (given : List Received) → all_different (received_keys given) ≡ true → All (IsOwn given) given
unfolding find member all_different
All-IsOwn [] different = tt
All-IsOwn (q ∷ given) different = (
  (
    rw (text_eq_self q.1.idempotency_key) refl,
    rw (text_eq_self q.0) refl,
    rw (text_eq_self q.1.idempotency_key) refl,
  ),
  IsOwn-cons q given given (All-IsOwn given (ground arith)) (ground arith),
)

module _ (now : ℕ) (given : List Received) (rows : InboxTable) (fresh : FreshIds given rows) where
  abbrev pub answer : Received → InboxResult
  answer p = answer_for given rows p.1.idempotency_key

  -- What the client finds for an event of the batch.
  abbrev pub FindsRow : Map Text → Received → Type 0
  FindsRow m p =
      get p.1.idempotency_key m
      ≡ map_option (λ r. r.id) (row_for p.1.idempotency_key (insert_all now given rows))

  returned_result-answer :
      (m : Map Text) (p : Received)
      → is_none (first_for p.1.idempotency_key given) ≡ false
      → FindsRow m p
      → returned_result (inserted_ids now given rows) (get p.1.idempotency_key m) ≡ answer p
  returned_result-answer m p listed finds =
      let (r, there, named, agrees) = answered now given rows fresh p listed in
      rw (finds, there, named) agrees

  generated_result-answer :
      (m : Map Text) (p : Received)
      → IsOwn given p
      → FindsRow m p
      → generated_result p.0 (get p.1.idempotency_key m) ≡ answer p
  unfolding inbox_row
  generated_result-answer m p own finds = elim (Option-cases (row_for p.1.idempotency_key rows)) [
    | inr (r, found) ↦
        let facts =
          find-All _ (λ r. text_eq r.idempotency_key p.1.idempotency_key) rows r fresh.not_in_table
            found in
        let other : text_eq r.id p.0 ≡ false = differs r.id facts.0 in
        rw (finds, row_for-insert_all now p.1.idempotency_key given rows, found, other) refl
    | inl absent ↦
        rw
          (
            finds,
            row_for-insert_all now p.1.idempotency_key given rows,
            absent,
            own.0,
            text_eq_self p.0,
          )
          refl
  ]
    where
      differs : (id : Text) → member id (batch_ids given) ≡ false → text_eq id p.0 ≡ false
      differs id old = elim (Bool-cases (text_eq id p.0)) [
        | inr other ↦ other
        | inl same ↦
            cc (ap (λ t. member t (batch_ids given)) ((text_eq_iff id p.0).0 same), old, own.1)
      ]

  pub results-returned :
      (m : Map Text) (qs : List Received)
      → All (λ p. is_none (first_for p.1.idempotency_key given) ≡ false) qs
      → All (FindsRow m) qs
      → inbox_results [] (inserted_ids now given rows) m (map as_valid qs) ≡ map answer qs
  unfolding inbox_results
  results-returned m [] listed finds = refl
  results-returned m (p ∷ qs) listed finds =
      ap (λ x. x ∷ inbox_results [] (inserted_ids now given rows) m (map as_valid qs))
        (returned_result-answer m p listed.0 finds.0)
      ∙ ap (λ xs. answer p ∷ xs) (results-returned m qs listed.1 finds.1)

  pub results-generated :
      (inserted : List Text) (m : Map Text) (qs : List Received)
      → All (IsOwn given) qs
      → All (FindsRow m) qs
      → inbox_results (map some (batch_ids qs)) inserted m (map as_valid qs) ≡ map answer qs
  unfolding inbox_results
  results-generated inserted m [] own finds = refl
  results-generated inserted m (p ∷ qs) own finds =
      ap (λ x. x ∷ inbox_results (map some (batch_ids qs)) inserted m (map as_valid qs))
        (generated_result-answer m p own.0 finds.0)
      ∙ ap (λ xs. answer p ∷ xs) (results-generated inserted m qs own.1 finds.1)
