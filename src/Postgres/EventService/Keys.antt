-- ===== src/Postgres/EventService/Keys.antt =====
-- Idempotency keys: what `createEvent` and `findByIdempotencyKey` make of a key that is in use.
use outboxy.Base.{
  ◌≡◌, refl, ap, Bool, true, not, ◌&&◌, [], ◌∷◌, ◌++◌, none, some, Text, find, is_none,
  option_text_eq, text_eq, text_eq_self, codes, arith, Bool-cases, inl, inr,
}
use outboxy.Schema.{OutboxEventRow, EventStatus, is_succeeded}
use outboxy.Sql.Update.{Table}
use outboxy.Postgres.Errors.{
  Session, ok, err, map_postgres_error, map_native_error, message_of, constraint_violation_error,
  with_error_mapping,
}
use outboxy.Postgres.EventService.{
  CreateEventInput, new_row, holds_key, unique_violation, create_event, find_by_idempotency_key,
}

-- `find` in a list with one more element, which the others leave to it.
find-last :
    (p : OutboxEventRow → Bool) (xs : Table) (x : OutboxEventRow)
    → find p xs ≡ none
    → p x ≡ true
    → find p (xs ++ x ∷ []) ≡ some x
unfolding find
find-last p [] x absent here = ground arith
find-last p (y ∷ xs) x absent here = ground (arith, find-last p xs x)

find-weaker :
    (p q : OutboxEventRow → Bool) (xs : Table)
    → ((x : OutboxEventRow) → q x ≡ true → p x ≡ true)
    → find p xs ≡ none
    → find q xs ≡ none
unfolding find
find-weaker p q [] implies absent = refl
find-weaker p q (y ∷ xs) implies absent = elim (Bool-cases (q y)) [
  | inl yes_q ↦ cc (rw (implies y yes_q) at absent)
  | inr no_q ↦ rw no_q (find-weaker p q xs implies (ground arith))
]

-- The test of `findByIdempotencyKey`.
abbrev is_visible_under : Text → OutboxEventRow → Bool
is_visible_under k r =
    option_text_eq r.idempotency_key k && not (is_succeeded r.status) && is_none r.deleted_at

find_by_idempotency_key-ok :
    (t : Session) (k : Text) (rows : Table) (r : OutboxEventRow)
    → t.fault ≡ none
    → find (is_visible_under k) rows ≡ some r
    → (find_by_idempotency_key t k rows).1
      ≡ ok (some (record { id = r.id; status = r.status; created_at = r.created_at }))
unfolding find_by_idempotency_key
find_by_idempotency_key-ok t k rows r works found = rw (works, with_error_mapping, found) refl

module _ (s t : Session) (works : s.fault ≡ none) (works' : t.fault ≡ none) (id k : Text)
    (input : CreateEventInput) (keyed : input.idempotency_key ≡ some k) (rows : Table)
    (free : find (holds_key (some k)) rows ≡ none) where
  create_event-inserts : create_event s id input rows ≡ (
    rows ++ new_row s.now id input ∷ [],
    ok (record { id = id; status = EventStatus.pending; created_at = s.now }),
  )
  unfolding create_event with_error_mapping
  create_event-inserts = rw (keyed, free, works) refl

  -- An event that is created under a free key is found under it.
  pub find_by_idempotency_key-create_event :
      (find_by_idempotency_key t k (create_event s id input rows).0).1
      ≡ ok (some (record { id = id; status = EventStatus.pending; created_at = s.now }))
  unfolding new_row holds_key
  find_by_idempotency_key-create_event =
      find_by_idempotency_key-ok t k (create_event s id input rows).0 (new_row s.now id input)
        works'
        (rw (ap (λ x. x.0) create_event-inserts) (
          find-last (is_visible_under k) rows (new_row s.now id input)
            (find-weaker (holds_key (some k)) (is_visible_under k) rows (λ r. ground arith) free)
            (rw (keyed, text_eq_self k) refl)))

  -- After an event is created under a free key, a second event under the key is refused with a
  -- constraint violation that names the index of the keys and has the driver's error as its cause, and
  -- the table is as before. Both statements run.
  pub create_event-refuses :
      (id' : Text) (input' : CreateEventInput)
      → input'.idempotency_key ≡ some k
      → let rows' = (create_event s id input rows).0 in
        create_event t id' input' rows' ≡ (
          rows',
          err (
              constraint_violation_error
                (codes
                  "Unique constraint violation: duplicate key value violates unique constraint \"idx_outbox_idempotency\"")
                (some (codes "idx_outbox_idempotency"))
                unique_violation),
        )
  unfolding create_event new_row holds_key map_postgres_error map_native_error message_of
      unique_violation text_eq
  create_event-refuses id' input' keyed' =
      rw
        (
          create_event-inserts,
          keyed',
          works',
          find-last (holds_key (some k)) rows (new_row s.now id input) free
              (rw (keyed, text_eq_self k) refl),
        )
        refl
