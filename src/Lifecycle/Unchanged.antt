-- ===== src/Lifecycle/Unchanged.antt =====
-- Rows that a statement leaves as they are.
use outboxy.Base.{
  ℕ, ◌≡◌, ◌≤◌, refl, ap, ◌∙◌, Bool, true, false, List, [], ◌∷◌, ◌++◌, some, Text, Map, member, find,
  is_none, text_eq, arith, Bool-cases, inl, inr,
}
use outboxy.Schema.{OutboxEventRow, EventStatus, is_processing}
use outboxy.Sql.Update.{
  Table, update_where, row_at, row_at-id, Unique, KeepsId, row_at-update_where,
}
use outboxy.Postgres.Errors.{Session, with_error_mapping}
use outboxy.Postgres.EventRepository.{
  SucceededEvent, BackoffConfig, is_claimable, start_processing, claimed_ids, claim_pending_events,
  mark_succeeded, set_succeeded, succeeded_ids, workers_by_id, schedule_retry, set_retry,
  error_cases, move_to_dlq, set_dlq,
}
use outboxy.Postgres.EventRepository.Claim.{not-claimed}
use outboxy.Postgres.Maintenance.{
  is_stale, set_recovered, recover_stale_events, has_stale_key, clear_key,
  cleanup_stale_idempotency_keys,
}
use outboxy.Postgres.EventService.{
  CreateEventInput, new_row, holds_key, create_event, reset, replay_update, replay_range_update,
}
use outboxy.Lifecycle.Invariant.{with_error_mapping-keeps}

row_at-insert :
    (id : Text) (rows : Table) (x : OutboxEventRow) {r : OutboxEventRow}
    → row_at id rows ≡ some r
    → row_at id (rows ++ x ∷ []) ≡ some r
unfolding row_at
row_at-insert id [] x found = cc
row_at-insert id (y ∷ rows) x {r} found = elim (Bool-cases (text_eq y.id id)) [
  | inl here ↦ rw here (rw here at found)
  | inr other ↦ rw other (row_at-insert id rows x {r = r} (rw other at found))
]

module _ (s : Session) (id : Text) (rows : Table) (r : OutboxEventRow)
    (found : row_at id rows ≡ some r) where
  pub updated-keeps {ℓ} :
      {A : Type ℓ} (p : OutboxEventRow → Bool) (f : OutboxEventRow → OutboxEventRow) (reply : A)
      → KeepsId f
      → p r ≡ false
      → row_at id (with_error_mapping s rows (update_where p f rows, reply)).0 ≡ some r
  updated-keeps p f reply keeps_id misses =
      with_error_mapping-keeps (λ t. row_at id t ≡ some r) s rows (update_where p f rows) reply
        found (rw (row_at-update_where p f keeps_id id rows, found, misses) refl)

  abbrev own : r.id ≡ id
  own = row_at-id id rows {r = r} found

  -- A list that does not have the id misses the row.
  pub misses : (xs : List Text) → member id xs ≡ false → member r.id xs ≡ false
  misses xs absent = ap (λ k. member k xs) own ∙ absent

  pub create_event-spares :
      (id' : Text) (input : CreateEventInput) → row_at id (create_event s id' input rows).0 ≡ some r
  unfolding create_event
  create_event-spares id' input =
      elim (Bool-cases (is_none (find (holds_key input.idempotency_key) rows))) [
        | inl free ↦ rw free (
            with_error_mapping-keeps (λ t. row_at id t ≡ some r) s rows _ _ found
              (row_at-insert id rows (new_row s.now id' input) {r = r} found))
        | inr taken ↦ rw taken found
      ]

  pub mark_succeeded-spares :
      (results : List SucceededEvent)
      → member id (succeeded_ids results) ≡ false
      → row_at id (mark_succeeded s results rows).0 ≡ some r
  unfolding mark_succeeded set_succeeded
  mark_succeeded-spares [] absent = found
  mark_succeeded-spares (x ∷ results) absent =
      updated-keeps _ (set_succeeded s.now (workers_by_id (x ∷ results))) _ (λ r. refl)
        (misses (succeeded_ids (x ∷ results)) absent)

  pub move_to_dlq-spares :
      (event_ids : List Text) (messages : Map Text)
      → member id event_ids ≡ false
      → row_at id (move_to_dlq s event_ids messages rows).0 ≡ some r
  unfolding move_to_dlq set_dlq
  move_to_dlq-spares [] messages absent = found
  move_to_dlq-spares (x ∷ event_ids) messages absent =
      updated-keeps _ (set_dlq s.now (error_cases (x ∷ event_ids) messages)) _ (λ r. refl)
        (misses (x ∷ event_ids) absent)

  pub replay_range_update-spares :
      (event_ids : List Text)
      → member id event_ids ≡ false
      → row_at id (replay_range_update s event_ids rows).0 ≡ some r
  unfolding replay_range_update reset
  replay_range_update-spares event_ids absent =
      updated-keeps _ (reset s.now) _ (λ r. refl) (misses event_ids absent)

  pub schedule_retry-passes :
      (event_ids : List Text) (messages : Map Text) (config : BackoffConfig)
      → member id event_ids ≡ false
      → row_at id (schedule_retry s event_ids messages config rows).0 ≡ some r
  unfolding schedule_retry set_retry
  schedule_retry-passes [] messages config absent = found
  schedule_retry-passes (x ∷ event_ids) messages config absent =
      updated-keeps _ (set_retry s.now config (error_cases (x ∷ event_ids) messages)) _ (λ r. refl)
        (ground (arith, misses (x ∷ event_ids) absent))

  pub recover_stale_events-passes :
      (threshold_ms : ℕ)
      → is_stale s.now threshold_ms r ≡ false
      → row_at id (recover_stale_events s threshold_ms rows).0 ≡ some r
  unfolding recover_stale_events set_recovered
  recover_stale_events-passes threshold_ms fresh =
      updated-keeps _ (set_recovered s.now) _ (λ r. refl) fresh

  module _ (processing : is_processing r.status ≡ true) where
    pub claim_pending_events-spares :
        (n : ℕ) → Unique rows → row_at id (claim_pending_events s n rows).0 ≡ some r
    unfolding claim_pending_events start_processing is_claimable
    claim_pending_events-spares n unique =
        updated-keeps _ (start_processing s.now) _ (λ r. refl)
          (misses (claimed_ids s n rows)
            (not-claimed s n rows unique id {r = r} found (ground (arith, processing))))

    pub cleanup-spares :
        (days : ℕ) → row_at id (cleanup_stale_idempotency_keys s days rows).0 ≡ some r
    unfolding cleanup_stale_idempotency_keys clear_key has_stale_key
    cleanup-spares days =
        updated-keeps _ (clear_key s.now) _ (λ r. refl) (ground (arith, processing))

    pub replay_update-spares :
        (id' : Text) (previous_status : EventStatus)
        → row_at id (replay_update s id' previous_status rows).0 ≡ some r
    unfolding replay_update reset
    replay_update-spares id' previous_status =
        updated-keeps _ (reset s.now) _ (λ r. refl) (ground (arith, processing))

  module _ (spent : r.max_retries ≤ r.retry_count) where
    pub schedule_retry-spares :
        (event_ids : List Text) (messages : Map Text) (config : BackoffConfig)
        → row_at id (schedule_retry s event_ids messages config rows).0 ≡ some r
    unfolding schedule_retry set_retry
    schedule_retry-spares [] messages config = found
    schedule_retry-spares (x ∷ event_ids) messages config =
        updated-keeps _ (set_retry s.now config (error_cases (x ∷ event_ids) messages)) _
          (λ r. refl) (ground (arith, spent))

    pub recover_stale_events-spares :
        (threshold_ms : ℕ) → row_at id (recover_stale_events s threshold_ms rows).0 ≡ some r
    unfolding recover_stale_events set_recovered is_stale
    recover_stale_events-spares threshold_ms =
        updated-keeps _ (set_recovered s.now) _ (λ r. refl) (ground (arith, spent))
