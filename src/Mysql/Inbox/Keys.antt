-- ===== src/Mysql/Inbox/Keys.antt =====
-- Keys on MySQL: those that the collation of the database takes for one, and those that it tells apart.
use outboxy.Base.{
  ℕ, ◌≡◌, refl, ap, ◌∙◌, Bool, true, false, List, [], ◌∷◌, ◌++◌, none, Text, text_eq, text_eq_iff,
  text_eq_self, find, member, is_none, arith, Bool-cases, inl, inr, All, All-append,
}
use outboxy.Schema.{InboxEventRow, InboxOutcome}
use outboxy.Sql.Update.{map_option}
use outboxy.Postgres.Errors.{ok, err}
use outboxy.Postgres.Inbox.{
  InboxTable, InboxEventInput, inbox_row, row_for, insert_unless_present, insert_all,
}
use outboxy.Postgres.Inbox.Batch.{Received}
use outboxy.Mysql.Errors.{MysqlSession, map_mysql_error, with_mysql_errors}
use outboxy.Mysql.Inbox.{
  row_like, insert_ignore, insert_all_ignore, is_like_one, key_to_id, event_keys, batch_answers,
  receive, receive_batch, not_found,
}

module _ (collation : Text → Text) where
  pub receive_batch-runs :
      (s t : MysqlSession) (p : Received) (events : List Received) (rows : InboxTable)
      → s.fault ≡ none
      → t.fault ≡ none
      → receive_batch collation s t (p ∷ events) rows ≡ (
        insert_all_ignore collation s.now (p ∷ events) rows,
        batch_answers collation
            (event_keys collation (p ∷ events))
            (insert_all_ignore collation s.now (p ∷ events) rows)
            (p ∷ events),
      )
  unfolding receive_batch
  receive_batch-runs s t p events rows works works' = rw (works, receive_batch, works') refl

  key_to_id-missing :
      (keys : List Text) (rows : InboxTable) (key : Text)
      → All (λ r. text_eq r.idempotency_key key ≡ false) rows
      → key_to_id collation keys rows key ≡ none
  unfolding key_to_id
  key_to_id-missing keys [] key other = refl
  key_to_id-missing keys (r ∷ rows) key other =
      ground (arith, key_to_id-missing keys rows key other.1)

  -- An event whose key the table has only in another spelling that the collation does not tell from it
  -- (as another case): `receive` answers that it is a duplicate, but a batch of the same event throws.
  -- The statements run.
  pub other_spelling-throws :
      (s t : MysqlSession) (id : Text) (event : InboxEventInput) (rows : InboxTable)
      → s.fault ≡ none
      → t.fault ≡ none
      → is_none (row_like collation event.idempotency_key rows) ≡ false
      → All (λ r. text_eq r.idempotency_key event.idempotency_key ≡ false) rows
      → ((receive collation s id event rows).1
          ≡ ok (record { event_id = none; status = InboxOutcome.duplicate }))
        × ((receive_batch collation s t ((id, event) ∷ []) rows).1
            ≡ err (map_mysql_error (not_found collation event.idempotency_key)))
  unfolding receive receive_batch batch_answers insert_all_ignore insert_ignore with_mysql_errors
  other_spelling-throws s t id event rows works works' taken other = (
    rw (taken, works) refl,
    ap (λ a. a.1) (receive_batch-runs s t (id, event) [] rows works works')
        ∙ rw
            (
              batch_answers,
              insert_ignore,
              taken,
              key_to_id-missing (event.idempotency_key ∷ []) rows event.idempotency_key other,
            )
            refl,
  )

-- Keys that the collation tells apart, such as those of one case.
abbrev pub TellsApart : (Text → Text) → (Text → Bool) → Type 0
TellsApart collation among =
    (a b : Text)
    → among a ≡ true
    → among b ≡ true
    → text_eq (collation a) (collation b) ≡ text_eq a b

module _ (collation : Text → Text) (among : Text → Bool) (apart : TellsApart collation among) where
  abbrev pub KeysAmong : InboxTable → Type 0
  KeysAmong rows = All (λ r. among r.idempotency_key ≡ true) rows

  row_like-among :
      (key : Text) (rows : InboxTable)
      → among key ≡ true
      → KeysAmong rows
      → row_like collation key rows ≡ row_for key rows
  unfolding find
  row_like-among key [] known keys = refl
  row_like-among key (r ∷ rows) known keys =
      ground (arith, apart r.idempotency_key key, row_like-among key rows)

  pub insert_all_ignore-among :
      (now : ℕ) (events : List Received) (rows : InboxTable)
      → All (λ p. among p.1.idempotency_key ≡ true) events
      → KeysAmong rows
      → (insert_all_ignore collation now events rows ≡ insert_all now events rows)
        × KeysAmong (insert_all now events rows)
  unfolding insert_all_ignore insert_all insert_ignore insert_unless_present inbox_row
  insert_all_ignore-among now [] rows known keys = (refl, keys)
  insert_all_ignore-among now ((id, event) ∷ events) rows known keys =
      let same : row_like collation event.idempotency_key rows
          ≡ row_for event.idempotency_key rows =
        row_like-among event.idempotency_key rows known.0 keys in
      elim (Bool-cases (is_none (row_for event.idempotency_key rows))) [
        | inl absent ↦
            let grown : KeysAmong (rows ++ inbox_row now id event ∷ []) =
              All-append (λ r. among r.idempotency_key ≡ true) rows (inbox_row now id event ∷ [])
                keys (known.0, tt) in
            rw (insert_ignore, same, insert_unless_present, absent)
              (insert_all_ignore-among now events (rows ++ inbox_row now id event ∷ []) known.1
                grown)
        | inr present ↦
            rw (insert_ignore, same, insert_unless_present, present)
              (insert_all_ignore-among now events rows known.1 keys)
      ]

  -- A row with the key itself is found by the query, and no row before it has the key.
  is_like_one-member :
      (keys : List Text) (r : InboxEventRow)
      → member r.idempotency_key keys ≡ true
      → is_like_one collation keys r ≡ true
  unfolding is_like_one member
  is_like_one-member [] r listed = cc
  is_like_one-member (key ∷ keys) r listed = elim (Bool-cases (text_eq key r.idempotency_key)) [
    | inl same ↦
        let alike : text_eq (collation r.idempotency_key) (collation key) ≡ true =
          ap (λ k. text_eq (collation r.idempotency_key) (collation k))
            ((text_eq_iff key r.idempotency_key).0 same)
          ∙ text_eq_self (collation r.idempotency_key) in
        rw alike refl
    | inr other ↦ ground (arith, is_like_one-member keys r)
  ]

  pub key_to_id-row_for :
      (keys : List Text) (rows : InboxTable) (key : Text)
      → member key keys ≡ true
      → key_to_id collation keys rows key ≡ map_option (λ r. r.id) (row_for key rows)
  unfolding key_to_id find
  key_to_id-row_for keys [] key listed = refl
  key_to_id-row_for keys (r ∷ rows) key listed = elim (Bool-cases (text_eq r.idempotency_key key)) [
    | inl same ↦
        let found : is_like_one collation keys r ≡ true =
          is_like_one-member keys r
            (ap (λ k. member k keys) ((text_eq_iff r.idempotency_key key).0 same) ∙ listed) in
        rw (found, same) refl
    | inr other ↦ ground (arith, key_to_id-row_for keys rows key listed)
  ]
