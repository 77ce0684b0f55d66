-- ===== src/Postgres/EventRepository/Claimed.antt =====
-- What a claim leaves in the table and returns, and that no two claims take one event.
use outboxy.Base.{
  ℕ, ◌≡◌, refl, ap, true, false, List, [], ◌∷◌, map, none, Text, member, text_eq_iff, find, arith,
  if◌then◌else◌,
}
use outboxy.Schema.{OutboxEvent, OutboxEventRow, map_row_to_event}
use outboxy.Sql.Update.{
  Table, update_where, returning, row_at, ids, Unique, updated, map_option, row_at-update_where,
  update_where-Unique, row_at-id, KeepsId,
}
use outboxy.Postgres.Errors.{Session, ok, with_error_mapping}
use outboxy.Postgres.EventRepository.{
  is_claimable, start_processing, claimed_ids, claim_pending_events,
}
use outboxy.Postgres.EventRepository.Claim.{claimed_ids-eligible, not-claimed}
use outboxy.Schema.Events.{event_at, event_ids, DistinctIds}

-- The events that a claim returns, in scan order.
abbrev pub claimed_events : Session → ℕ → Table → List OutboxEvent
claimed_events s n rows =
    map map_row_to_event
      (returning (λ r. member r.id (claimed_ids s n rows)) (start_processing s.now) rows)

module _ (s : Session) (works : s.fault ≡ none) (n : ℕ) (rows : Table) where
  pub claim_pending_events-ok : claim_pending_events s n rows ≡ (
    update_where (λ r. member r.id (claimed_ids s n rows)) (start_processing s.now) rows,
    ok (claimed_events s n rows),
  )
  unfolding claim_pending_events
  claim_pending_events-ok = rw (works, with_error_mapping)

  pub row_at-claim_pending_events :
      (id : Text)
      → row_at id (claim_pending_events s n rows).0
        ≡ map_option
            (updated (λ r. member r.id (claimed_ids s n rows)) (start_processing s.now))
            (row_at id rows)
  unfolding start_processing
  row_at-claim_pending_events id = rw claim_pending_events-ok (
      row_at-update_where (λ r. member r.id (claimed_ids s n rows)) (start_processing s.now)
        (λ r. refl) id rows)

  pub claim_pending_events-Unique : Unique rows → Unique (claim_pending_events s n rows).0
  unfolding start_processing
  claim_pending_events-Unique u = rw claim_pending_events-ok (
      update_where-Unique (λ r. member r.id (claimed_ids s n rows)) (start_processing s.now)
        (λ r. refl) rows u)

-- Two claims never return one event. What the first has claimed, the second does not claim: neither
-- when it runs before the first commits, since the first holds the rows locked, nor when it runs on
-- the table that the first has left.
pub claims_exclusive :
    (a b : Session) (n m : ℕ) (rows : Table) (id : Text)
    → Unique rows
    → a.fault ≡ none
    → member id (claimed_ids a n rows) ≡ true
    → (b.locked id ≡ true → member id (claimed_ids b m rows) ≡ false)
      × (member id (claimed_ids b m (claim_pending_events a n rows).0) ≡ false)
unfolding is_claimable start_processing
claims_exclusive a b n m rows id u works claimed =
    let (r, found, eligible) = claimed_ids-eligible a n rows id u claimed in
    let own : r.id ≡ id = row_at-id id rows found in
    (
      λ locked. not-claimed b m rows u id {r = r} found (ground (arith, own, ap b.locked own)),
      not-claimed b m (claim_pending_events a n rows).0
          (claim_pending_events-Unique a works n rows u) id {r = start_processing a.now r}
          (rw (row_at-claim_pending_events a works n rows id, found, own, claimed)) (ground arith),
    )

-- Rows that an update by id returns, by their ids.
module _ (claimed : List Text) (f : OutboxEventRow → OutboxEventRow) (keeps : KeepsId f) where
  abbrev returned : Table → List OutboxEvent
  returned rows = map map_row_to_event (returning (λ r. member r.id claimed) f rows)

  event_at-returned :
      (id : Text) (rows : Table)
      → event_at id (returned rows) ≡ (
          if member id claimed
          then map_option (λ r. map_row_to_event (f r)) (row_at id rows)
          else none)
  unfolding map_row_to_event returning find row_at
  event_at-returned id [] = ground arith
  event_at-returned id (r ∷ rows) =
      ground (arith, text_eq_iff r.id id, keeps r, event_at-returned id rows)

  not-member-returned :
      (id : Text) (rows : Table)
      → member id (ids rows) ≡ false
      → member id (event_ids (returned rows)) ≡ false
  unfolding map_row_to_event returning ids member
  not-member-returned id [] h = refl
  not-member-returned id (r ∷ rows) h = ground (arith, keeps r, not-member-returned id rows)

  returned-DistinctIds : (rows : Table) → Unique rows → DistinctIds (returned rows)
  unfolding map_row_to_event returning
  returned-DistinctIds [] u = tt
  returned-DistinctIds (r ∷ rows) u =
      ground (arith, keeps r, not-member-returned r.id rows, returned-DistinctIds rows u.1)

module _ (s : Session) (n : ℕ) (rows : Table) where
  -- The events of a claim are its claimed rows, as they are after it.
  pub event_at-claimed_events :
      (id : Text)
      → event_at id (claimed_events s n rows) ≡ (
          if member id (claimed_ids s n rows)
          then map_option (λ r. map_row_to_event (start_processing s.now r)) (row_at id rows)
          else none)
  unfolding start_processing
  event_at-claimed_events id =
      event_at-returned (claimed_ids s n rows) (start_processing s.now) (λ r. refl) id rows

  pub claimed_events-DistinctIds : Unique rows → DistinctIds (claimed_events s n rows)
  unfolding start_processing
  claimed_events-DistinctIds u =
      returned-DistinctIds (claimed_ids s n rows) (start_processing s.now) (λ r. refl) rows u
