-- ===== src/Postgres/Inbox/Receive.antt =====
-- Deduplication by key: `receive` and what the other operations keep of it.
use outboxy.Base.{
  ℕ, ◌≡◌, refl, ap, ◌∙◌, Bool, false, ◌&&◌, [], ◌∷◌, ◌++◌, none, some, Text, text_eq, text_eq_iff,
  text_eq_self, find, is_none, if◌then◌else◌, arith, Bool-cases, Option-cases, inl, inr,
}
use outboxy.Schema.{InboxEventRow, InboxOutcome}
use outboxy.Postgres.Errors.{Session, ok, with_error_mapping}
use outboxy.Postgres.Inbox.{
  InboxTable, InboxEventInput, inbox_row, row_for, insert_unless_present, receive, set_failed,
  fail_rows, mark_failed,
}

find-insert :
    (p : InboxEventRow → Bool) (rows : InboxTable) (x : InboxEventRow)
    → find p (rows ++ x ∷ []) ≡ (if is_none (find p rows) && p x then some x else find p rows)
unfolding find
find-insert p [] x = ground arith
find-insert p (r ∷ rows) x = ground (arith, find-insert p rows x)

-- The row under a key after an insert: the new one if it has the key and none had, or the old one.
pub row_for-insert_unless_present :
    (now : ℕ) (id key : Text) (event : InboxEventInput) (rows : InboxTable)
    → row_for key (insert_unless_present now id event rows) ≡ (
        if is_none (row_for key rows) && text_eq event.idempotency_key key
        then some (inbox_row now id event)
        else row_for key rows)
unfolding insert_unless_present inbox_row
row_for-insert_unless_present now id key event rows =
    elim (Bool-cases (is_none (row_for event.idempotency_key rows))) [
      | inl absent ↦
          rw absent (find-insert (λ r. text_eq r.idempotency_key key) rows (inbox_row now id event))
      | inr present ↦ rw present (elim (Bool-cases (text_eq event.idempotency_key key)) [
        | inr other ↦ ground arith
        | inl same ↦ ground (
          arith,
          ap (λ k. is_none (row_for k rows)) ((text_eq_iff event.idempotency_key key).0 same),
        )
      ])
    ]

-- Marking rows as failed keeps which keys are there.
row_for-fail_rows :
    (now : ℕ) (id error key : Text) (rows : InboxTable)
    → is_none (row_for key (fail_rows now id error rows)) ≡ is_none (row_for key rows)
unfolding fail_rows set_failed find
row_for-fail_rows now id error key [] = refl
row_for-fail_rows now id error key (r ∷ rows) =
    ground (arith, row_for-fail_rows now id error key rows)

row_for-mark_failed :
    (s : Session) (id error key : Text) (rows : InboxTable)
    → is_none (row_for key (mark_failed s id error rows).0) ≡ is_none (row_for key rows)
unfolding mark_failed
row_for-mark_failed s id error key rows = elim (Option-cases s.fault) [
  | inl works ↦ rw (works, with_error_mapping) (row_for-fail_rows s.now id error key rows)
  | inr (e, fails) ↦ rw (fails, with_error_mapping) refl
]

receive-table :
    (s : Session) (id : Text) (event : InboxEventInput) (rows : InboxTable)
    → s.fault ≡ none
    → (receive s id event rows).0 ≡ insert_unless_present s.now id event rows
unfolding receive
receive-table s id event rows works = rw (works, with_error_mapping) refl

receive-duplicate :
    (s : Session) (id : Text) (event : InboxEventInput) (rows : InboxTable)
    → s.fault ≡ none
    → is_none (row_for event.idempotency_key rows) ≡ false
    → receive s id event rows
      ≡ (rows, ok (record { event_id = none; status = InboxOutcome.duplicate }))
unfolding receive insert_unless_present
receive-duplicate s id event rows works present = rw (works, with_error_mapping, present) refl

received :
    (now : ℕ) (id : Text) (event : InboxEventInput) (rows : InboxTable)
    → is_none (row_for event.idempotency_key (insert_unless_present now id event rows)) ≡ false
received now id event rows = ground (
  arith,
  row_for-insert_unless_present now id event.idempotency_key event rows,
  text_eq_self event.idempotency_key,
)

-- Once an event is received, every event with its key is a duplicate, and changes nothing: also one
-- with other contents, and also after any attempt to mark any event as failed. Both inserts run.
pub receive-once :
    (s t u : Session) (id id' failed error : Text) (event event' : InboxEventInput)
    (rows : InboxTable)
    → s.fault ≡ none
    → t.fault ≡ none
    → event'.idempotency_key ≡ event.idempotency_key
    → let rows' = (mark_failed u failed error (receive s id event rows).0).0 in
      receive t id' event' rows'
      ≡ (rows', ok (record { event_id = none; status = InboxOutcome.duplicate }))
receive-once s t u id id' failed error event event' rows works works' same =
    receive-duplicate t id' event' (mark_failed u failed error (receive s id event rows).0).0 works'
      (ap (λ k. is_none (row_for k (mark_failed u failed error (receive s id event rows).0).0)) same
        ∙ row_for-mark_failed u failed error event.idempotency_key (receive s id event rows).0
        ∙ ap (λ t. is_none (row_for event.idempotency_key t)) (receive-table s id event rows works)
        ∙ received s.now id event rows)
