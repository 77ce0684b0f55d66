-- ===== src/Mysql/Inbox/Batch.antt =====
-- What `receiveBatch` answers on MySQL.
use outboxy.Base.{
  ℕ, ◌≡◌, refl, ap, ◌∙◌, Bool, true, false, List, [], ◌∷◌, map, Option, none, some, Text, text_eq,
  text_eq_iff, text_eq_self, member, is_none, is_empty, if◌then◌else◌, arith, Bool-cases,
  Option-cases, inl, inr, All, All-imp,
}
use outboxy.Schema.{InboxEventRow, InboxOutcome, InboxResult}
use outboxy.Sql.Update.{map_option}
use outboxy.Postgres.Errors.{ok}
use outboxy.Postgres.Inbox.{InboxTable, inbox_row, row_for, insert_all}
use outboxy.Postgres.Inbox.Batch.{
  Received, first_for, batch_ids, FreshIds, row_for-insert_all, find-All, find-All_events,
  All-first_for,
}
use outboxy.Mysql.Errors.{MysqlSession}
use outboxy.Mysql.Inbox.{answer_of, event_keys, batch_answers, receive_batch}
use outboxy.Mysql.Inbox.Keys.{
  TellsApart, receive_batch-runs, insert_all_ignore-among, key_to_id-row_for,
}

-- The answer for an event with the generated id `id`, from the row that the table had under its key and
-- from the first event of the batch with its key: only that one is new.
abbrev pub mysql_answer : Text → Option InboxEventRow → Option Received → InboxResult
mysql_answer id (some r) first = record { event_id = some r.id; status = InboxOutcome.duplicate }
mysql_answer id none none = record { event_id = none; status = InboxOutcome.duplicate }
mysql_answer id none (some q) = record {
  event_id = some q.0;
  status = (if text_eq q.0 id then InboxOutcome.processed else InboxOutcome.duplicate);
}

abbrev pub mysql_answer_for : List Received → InboxTable → Received → InboxResult
mysql_answer_for events rows p =
    mysql_answer p.0 (row_for p.1.idempotency_key rows) (first_for p.1.idempotency_key events)

module _ (collation : Text → Text) (among : Text → Bool) (apart : TellsApart collation among)
    (now : ℕ) (events : List Received) (rows : InboxTable) (fresh : FreshIds events rows) where
  abbrev IsListed : Received → Type 0
  IsListed p =
      (is_none (first_for p.1.idempotency_key events) ≡ false)
      × (member p.0 (batch_ids events) ≡ true)
      × (member p.1.idempotency_key (event_keys collation events) ≡ true)

  answer_of-event :
      (p : Received)
      → IsListed p
      → answer_of collation p.0 p.1.idempotency_key
          (map_option (λ r. r.id) (row_for p.1.idempotency_key (insert_all now events rows)))
        ≡ ok (mysql_answer_for events rows p)
  unfolding inbox_row
  answer_of-event p listed = elim (Option-cases (row_for p.1.idempotency_key rows)) [
    | inr (r, found) ↦
        let facts =
          find-All _ (λ r. text_eq r.idempotency_key p.1.idempotency_key) rows r fresh.not_in_table
            found in
        let other : text_eq r.id p.0 ≡ false = differs r.id facts.0 in
        rw (row_for-insert_all now p.1.idempotency_key events rows, found, facts.1, other) refl
    | inl absent ↦ elim (Option-cases (first_for p.1.idempotency_key events)) [
      | inl none_listed ↦ cc (rw none_listed at listed.0)
      | inr (q, first) ↦
          let named =
            find-All_events (λ p. is_empty p.0 ≡ false) _ events q fresh.not_empty first in
          rw (row_for-insert_all now p.1.idempotency_key events rows, absent, first, named) refl
    ]
  ]
    where
      differs : (id : Text) → member id (batch_ids events) ≡ false → text_eq id p.0 ≡ false
      differs id old = elim (Bool-cases (text_eq id p.0)) [
        | inr other ↦ other
        | inl same ↦
            cc (ap (λ t. member t (batch_ids events)) ((text_eq_iff id p.0).0 same), old, listed.1)
      ]

  batch_answers-events :
      (es : List Received)
      → All IsListed es
      → batch_answers collation (event_keys collation events) (insert_all now events rows) es
        ≡ ok (map (mysql_answer_for events rows) es)
  unfolding batch_answers
  batch_answers-events [] listed = refl
  batch_answers-events (p ∷ es) listed =
      rw
        (
          key_to_id-row_for collation among apart (event_keys collation events)
              (insert_all now events rows) p.1.idempotency_key listed.0.2,
          answer_of-event p listed.0,
          batch_answers-events es listed.1,
        )
        refl

  All-members :
      (ps : List Received)
      → All
          (λ p.
            (member p.0 (batch_ids ps) ≡ true)
            × (member p.1.idempotency_key (event_keys collation ps) ≡ true))
          ps
  unfolding member
  All-members [] = tt
  All-members (q ∷ ps) = (
    (rw (text_eq_self q.0) refl, rw (text_eq_self q.1.idempotency_key) refl),
    All-imp
        (λ p.
          (member p.0 (batch_ids ps) ≡ true)
          × (member p.1.idempotency_key (event_keys collation ps) ≡ true))
        _ (λ p h. (ground arith, ground arith)) ps (All-members ps),
  )

  All-IsListed :
      (ps : List Received)
      → All (λ p. is_none (first_for p.1.idempotency_key events) ≡ false) ps
      → All
          (λ p.
            (member p.0 (batch_ids events) ≡ true)
            × (member p.1.idempotency_key (event_keys collation events) ≡ true))
          ps
      → All IsListed ps
  All-IsListed [] first listed = tt
  All-IsListed (p ∷ ps) first listed =
      ((first.0, listed.0.0, listed.0.1), All-IsListed ps first.1 listed.1)

-- A batch on MySQL answers each event, in order, with the id of the row under its key, as processed
-- exactly if the key was not in the table before the batch and the event is the first of the batch with
-- its key: unlike on PostgreSQL, a second event with one new key is a duplicate. The table is that of
-- the same batch on PostgreSQL. The statements run, the generated ids are new, and the collation tells
-- the keys of the table and the batch apart.
pub mysql_receive_batch-answers :
    (collation : Text → Text) (among : Text → Bool) (s t : MysqlSession) (events : List Received)
    (rows : InboxTable)
    → TellsApart collation among
    → s.fault ≡ none
    → t.fault ≡ none
    → FreshIds events rows
    → All (λ p. among p.1.idempotency_key ≡ true) events
    → All (λ r. among r.idempotency_key ≡ true) rows
    → receive_batch collation s t events rows
      ≡ (insert_all s.now events rows, ok (map (mysql_answer_for events rows) events))
unfolding receive_batch insert_all
mysql_receive_batch-answers collation among s t [] rows apart works works' fresh known keys = refl
mysql_receive_batch-answers collation among s t (p ∷ events) rows apart works works' fresh known
      keys =
    receive_batch-runs collation s t p events rows works works'
    ∙ rw (insert_all_ignore-among collation among apart s.now (p ∷ events) rows known keys).0 (
        ap (λ a. (insert_all s.now (p ∷ events) rows, a))
          (batch_answers-events collation among apart s.now (p ∷ events) rows fresh (p ∷ events) (
            All-IsListed collation among apart s.now (p ∷ events) rows fresh (p ∷ events)
              (All-first_for (p ∷ events))
              (All-members collation among apart s.now (p ∷ events) rows fresh (p ∷ events)))))
