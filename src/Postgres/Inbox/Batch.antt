-- ===== src/Postgres/Inbox/Batch.antt =====
-- What `receiveBatch` answers for each event of the batch.
use outboxy.Base.{
  ℕ, ◌≡◌, refl, sym, ap, ◌∙◌, Bool, true, false, List, [], ◌∷◌, map, Option, none, some, Text,
  text_eq, text_eq_iff, text_eq_self, find, member, is_none, is_empty, if◌then◌else◌, arith,
  Bool-cases, Option-cases, inl, inr, All, All-imp,
}
use outboxy.Schema.{InboxEventRow, InboxOutcome, InboxResult}
use outboxy.Sql.Update.{map_option}
use outboxy.Postgres.Errors.{Session, ok}
use outboxy.Postgres.Inbox.{
  InboxTable, InboxEventInput, inbox_row, row_for, insert_unless_present, insert_all, inserted_ids,
  batch_result, batch_results, receive_batch, prepend,
}
use outboxy.Postgres.Inbox.Receive.{row_for-insert_unless_present}
use mathlib.Core.Option.{some-injective}
use mathlib.Core.Path.{subst}

abbrev pub Received : Type 0
Received = Text × InboxEventInput

-- The first event of a batch with a key.
abbrev pub first_for : Text → List Received → Option Received
first_for key events = find (λ p. text_eq p.1.idempotency_key key) events

abbrev pub batch_ids : List Received → List Text
batch_ids [] = []
batch_ids (p ∷ events) = p.0 ∷ batch_ids events

-- The row under a key after the insert: the old one, or that of the first event with the key.
pub row_for-insert_all :
    (now : ℕ) (key : Text) (events : List Received) (rows : InboxTable)
    → row_for key (insert_all now events rows) ≡ (
        if is_none (row_for key rows)
        then map_option (λ p. inbox_row now p.0 p.1) (first_for key events)
        else row_for key rows)
unfolding insert_all find
row_for-insert_all now key [] rows = ground arith
row_for-insert_all now key ((id, event) ∷ events) rows =
    rw
      (
        row_for-insert_all now key events (insert_unless_present now id event rows),
        row_for-insert_unless_present now id key event rows,
      )
      (ground arith)

-- The first event with a key that was absent is inserted.
member-inserted_ids :
    (now : ℕ) (key : Text) (events : List Received) (rows : InboxTable) (p : Received)
    → is_none (row_for key rows) ≡ true
    → first_for key events ≡ some p
    → member p.0 (inserted_ids now events rows) ≡ true
unfolding inserted_ids find member
member-inserted_ids now key [] rows p absent here = cc
member-inserted_ids now key ((id, event) ∷ events) rows p absent here =
    elim (Bool-cases (text_eq event.idempotency_key key)) [
      | inl same ↦
          let first : (id, event) ≡ p = some-injective (id, event) p (rw same at here) in
          let free : is_none (row_for event.idempotency_key rows) ≡ true =
            ap (λ k. is_none (row_for k rows)) ((text_eq_iff event.idempotency_key key).0 same)
            ∙ absent in
          rw (free, sym (ap (λ q. q.0) first), text_eq_self id) refl
      | inr other ↦
          let later : member p.0 (inserted_ids now events (insert_unless_present now id event rows))
              ≡ true =
            member-inserted_ids now key events (insert_unless_present now id event rows) p
              (rw (row_for-insert_unless_present now id key event rows, other) (ground arith))
              (rw other at here) in
          ground (arith, later)
    ]

-- Only ids of the batch are inserted.
pub not-inserted :
    (now : ℕ) (id : Text) (events : List Received) (rows : InboxTable)
    → member id (batch_ids events) ≡ false
    → member id (inserted_ids now events rows) ≡ false
unfolding inserted_ids member
not-inserted now id [] rows fresh = refl
not-inserted now id ((j, event) ∷ events) rows fresh =
    ground (arith, not-inserted now id events (insert_unless_present now j event rows))

pub find-All :
    (P : InboxEventRow → Type 0) (p : InboxEventRow → Bool) (rows : InboxTable) (r : InboxEventRow)
    → All P rows
    → find p rows ≡ some r
    → P r
unfolding find
find-All P p [] r h found = cc
find-All P p (x ∷ rows) r h found = elim (Bool-cases (p x)) [
  | inl here ↦ subst P (some-injective x r (rw here at found)) h.0
  | inr other ↦ find-All P p rows r h.1 (rw other at found)
]

pub find-All_events :
    (P : Received → Type 0) (p : Received → Bool) (events : List Received) (r : Received)
    → All P events
    → find p events ≡ some r
    → P r
unfolding find
find-All_events P p [] r h found = cc
find-All_events P p (x ∷ events) r h found = elim (Bool-cases (p x)) [
  | inl here ↦ subst P (some-injective x r (rw here at found)) h.0
  | inr other ↦ find-All_events P p events r h.1 (rw other at found)
]

-- Each event of a batch has a first event with its key.
pub All-first_for :
    (events : List Received)
    → All (λ p. is_none (first_for p.1.idempotency_key events) ≡ false) events
unfolding find
All-first_for [] = tt
All-first_for ((id, event) ∷ events) = (
  rw (text_eq_self event.idempotency_key) refl,
  All-imp (λ p. is_none (first_for p.1.idempotency_key events) ≡ false)
      (λ p. is_none (first_for p.1.idempotency_key ((id, event) ∷ events)) ≡ false)
      (λ p h. ground (arith, h)) events (All-first_for events),
)

-- The ids of the batch are generated: none of them is that of a row, and none is empty.
pub record FreshIds (events : List Received) (rows : InboxTable) : Type 0 where
  pub not_in_table :
      All (λ r. (member r.id (batch_ids events) ≡ false) × (is_empty r.id ≡ false)) rows
  pub not_empty : All (λ p. is_empty p.0 ≡ false) events

-- The answer for an event, from the table before the batch and from the batch.
abbrev pub answer_from : Option InboxEventRow → Option Received → InboxResult
answer_from (some r) first = record { event_id = some r.id; status = InboxOutcome.duplicate }
answer_from none first = record {
  event_id = map_option (λ p. p.0) first;
  status = InboxOutcome.processed;
}

abbrev pub answer_for : List Received → InboxTable → Text → InboxResult
answer_for events rows key = answer_from (row_for key rows) (first_for key events)

batch_results-cons :
    (ids : List Text) (rows : InboxTable) (p : Received) (es : List Received) (r : InboxEventRow)
    → row_for p.1.idempotency_key rows ≡ some r
    → is_empty r.id ≡ false
    → batch_results ids rows (p ∷ es) ≡ prepend (batch_result ids r.id) (batch_results ids rows es)
unfolding batch_results
batch_results-cons ids rows (id, event) es r found named = rw (batch_results, found, named) refl

module _ (now : ℕ) (events : List Received) (rows : InboxTable) (fresh : FreshIds events rows) where
  abbrev pub after : InboxTable
  after = insert_all now events rows

  abbrev pub inserted : List Text
  inserted = inserted_ids now events rows

  -- The row that is found for a key, and its answer.
  abbrev pub Answered : Received → Type 0
  Answered p =
      (r : InboxEventRow) × (row_for p.1.idempotency_key after ≡ some r)
      × (is_empty r.id ≡ false)
      × (batch_result inserted r.id ≡ answer_for events rows p.1.idempotency_key)

  pub answered :
      (p : Received) → is_none (first_for p.1.idempotency_key events) ≡ false → Answered p
  unfolding inbox_row
  answered p listed = elim (Option-cases (row_for p.1.idempotency_key rows)) [
    | inr (r, found) ↦
        let facts =
          find-All _ (λ r. text_eq r.idempotency_key p.1.idempotency_key) rows r fresh.not_in_table
            found in
        (
          r,
          rw (row_for-insert_all now p.1.idempotency_key events rows, found) refl,
          facts.1,
          rw (not-inserted now r.id events rows facts.0, found) refl,
        )
    | inl absent ↦ elim (Option-cases (first_for p.1.idempotency_key events)) [
      | inl none_listed ↦ cc (rw none_listed at listed)
      | inr (q, first) ↦ (
        inbox_row now q.0 q.1,
        rw (row_for-insert_all now p.1.idempotency_key events rows, absent, first) refl,
        find-All_events (λ p. is_empty p.0 ≡ false) _ events q fresh.not_empty first,
        rw
            (
              member-inserted_ids now p.1.idempotency_key events rows q (rw absent refl) first,
              absent,
              first,
            )
            refl,
      )
    ]
  ]

  batch_results-answers :
      (es : List Received)
      → All (λ p. is_none (first_for p.1.idempotency_key events) ≡ false) es
      → batch_results inserted after es
        ≡ ok (map (λ p. answer_for events rows p.1.idempotency_key) es)
  unfolding batch_results
  batch_results-answers [] listed = refl
  batch_results-answers ((id, event) ∷ es) listed =
      let (r, found, named, agrees) = answered (id, event) listed.0 in
      batch_results-cons inserted after (id, event) es r found named
      ∙ ap (prepend (batch_result inserted r.id)) (batch_results-answers es listed.1)
      ∙ ap (λ x. ok (x ∷ map (λ p. answer_for events rows p.1.idempotency_key) es)) agrees

-- A batch answers each event, in order, with the row under its key: as a duplicate exactly if the key
-- was in the table before the batch. Two events of one batch with one new key are therefore both
-- answered as processed, with the same id, although one row is inserted. The statements run, and the
-- generated ids are new.
pub receive_batch-answers :
    (s t : Session) (events : List Received) (rows : InboxTable)
    → s.fault ≡ none
    → t.fault ≡ none
    → FreshIds events rows
    → (receive_batch s t events rows).1
      ≡ ok (map (λ p. answer_for events rows p.1.idempotency_key) events)
unfolding receive_batch
receive_batch-answers s t [] rows works works' fresh = refl
receive_batch-answers s t (p ∷ events) rows works works' fresh =
    rw (works, receive_batch, works')
      (batch_results-answers s.now (p ∷ events) rows fresh (p ∷ events)
        (All-first_for (p ∷ events)))
