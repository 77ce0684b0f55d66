-- ===== src/Lifecycle/Invariant.antt =====
-- The invariant of the table, at every point of every interleaving of statements.
use outboxy.Base.{
  ℕ, ◌≡◌, Option-cases, Bool, refl, true, false, List, [], ◌∷◌, ◌++◌, Text, Map, member, is_none,
  All, All-append, arith, find, Bool-cases, inl, inr, text_eq, text_eq_iff,
}
use outboxy.Schema.{OutboxEventRow, EventStatus}
use outboxy.Sql.Update.{
  Table, update_where, ids, Unique, KeepsId, update_where-All, update_where-Unique,
}
use outboxy.Postgres.Errors.{Session, with_error_mapping}
use outboxy.Postgres.EventRepository.{
  SucceededEvent, BackoffConfig, start_processing, claim_pending_events, mark_succeeded,
  set_succeeded, workers_by_id, schedule_retry, set_retry, error_cases, move_to_dlq, set_dlq,
}
use outboxy.Postgres.Maintenance.{
  set_recovered, recover_stale_events, clear_key, cleanup_stale_idempotency_keys,
}
use outboxy.Postgres.EventService.{
  CreateEventInput, new_row, holds_key, create_event, reset, replay_update, replay_range_update,
}
use outboxy.Lifecycle.{
  Step, Reach, create, claim, succeed, retry, dead_letter, recover, clean_up, replay, replay_range,
  done, then,
}
use outboxy.Lifecycle.WellFormedRows.{
  WellFormed, start_processing-WellFormed, set_succeeded-WellFormed, set_retry-WellFormed,
  set_dlq-WellFormed, set_recovered-WellFormed, clear_key-WellFormed, reset-WellFormed,
  new_row-WellFormed,
}

-- The table's invariant.
unfoldable pub Sound : Table → Type 0
Sound rows = All WellFormed rows × Unique rows

-- A statement that throws leaves the table alone, so a property of both tables is kept.
pub with_error_mapping-keeps {ℓ} :
    {A : Type ℓ} (P : Table → Type 0) (s : Session) (before after : Table) (reply : A)
    → P before
    → P after
    → P (with_error_mapping s before (after, reply)).0
unfolding with_error_mapping
with_error_mapping-keeps P s before after reply b a = elim (Option-cases s.fault) [
  | inl works ↦ rw works a
  | inr (e, fails) ↦ rw fails b
]

update_where-Sound :
    (p : OutboxEventRow → Bool) (f : OutboxEventRow → OutboxEventRow) (rows : Table)
    → KeepsId f
    → ((r : OutboxEventRow) → p r ≡ true → WellFormed r → WellFormed (f r))
    → Sound rows
    → Sound (update_where p f rows)
unfolding Sound
update_where-Sound p f rows keeps_id keep h =
    (update_where-All WellFormed p f keep rows h.0, update_where-Unique p f keeps_id rows h.1)

not-member-insert :
    (id : Text) (r : OutboxEventRow) (rows : Table)
    → member id (ids rows) ≡ false
    → text_eq r.id id ≡ false
    → member id (ids (rows ++ r ∷ [])) ≡ false
unfolding ids member
not-member-insert id r [] absent other = ground arith
not-member-insert id r (x ∷ rows) absent other = ground (arith, not-member-insert id r rows)

insert-Unique :
    (r : OutboxEventRow) (rows : Table)
    → member r.id (ids rows) ≡ false
    → Unique rows
    → Unique (rows ++ r ∷ [])
unfolding ids member
insert-Unique r [] fresh u = (refl, tt)
insert-Unique r (x ∷ rows) fresh u = (
  not-member-insert x.id r rows u.0 (ground (arith, text_eq_iff x.id r.id, text_eq_iff r.id x.id)),
  insert-Unique r rows (ground arith) u.1,
)

insert-Sound :
    (r : OutboxEventRow) (rows : Table)
    → member r.id (ids rows) ≡ false
    → WellFormed r
    → Sound rows
    → Sound (rows ++ r ∷ [])
unfolding Sound
insert-Sound r rows fresh h s =
    (All-append WellFormed rows (r ∷ []) s.0 (h, tt), insert-Unique r rows fresh s.1)

module _ (s : Session) (rows : Table) (h : Sound rows) where
  mapped-Sound {ℓ} :
      {A : Type ℓ} (p : OutboxEventRow → Bool) (f : OutboxEventRow → OutboxEventRow) (reply : A)
      → KeepsId f
      → ((r : OutboxEventRow) → p r ≡ true → WellFormed r → WellFormed (f r))
      → Sound (with_error_mapping s rows (update_where p f rows, reply)).0
  mapped-Sound p f reply keeps_id keep =
      with_error_mapping-keeps Sound s rows (update_where p f rows) reply h
        (update_where-Sound p f rows keeps_id keep h)

  create_event-Sound :
      (id : Text) (input : CreateEventInput)
      → member id (ids rows) ≡ false
      → Sound (create_event s id input rows).0
  unfolding create_event new_row
  create_event-Sound id input fresh =
      elim (Bool-cases (is_none (find (holds_key input.idempotency_key) rows))) [
        | inl free ↦ rw free (
            with_error_mapping-keeps Sound s rows _ _ h (
              insert-Sound (new_row s.now id input) rows fresh (new_row-WellFormed s.now id input)
                h))
        | inr taken ↦ rw taken h
      ]

  claim_pending_events-Sound : (n : ℕ) → Sound (claim_pending_events s n rows).0
  unfolding claim_pending_events start_processing
  claim_pending_events-Sound n =
      mapped-Sound _ (start_processing s.now) _ (λ r. refl)
        (λ r e w. start_processing-WellFormed s.now r w)

  mark_succeeded-Sound : (results : List SucceededEvent) → Sound (mark_succeeded s results rows).0
  unfolding mark_succeeded
  mark_succeeded-Sound [] = h
  mark_succeeded-Sound (x ∷ results) =
      mapped-Sound _ (set_succeeded s.now (workers_by_id (x ∷ results))) _ (λ r. refl)
        (λ r e w. set_succeeded-WellFormed s.now _ r w)

  schedule_retry-Sound :
      (event_ids : List Text) (messages : Map Text) (config : BackoffConfig)
      → Sound (schedule_retry s event_ids messages config rows).0
  unfolding schedule_retry
  schedule_retry-Sound [] messages config = h
  schedule_retry-Sound (x ∷ event_ids) messages config =
      mapped-Sound _ (set_retry s.now config (error_cases (x ∷ event_ids) messages)) _ (λ r. refl)
        (λ r e w. set_retry-WellFormed s.now config _ r (ground arith))

  move_to_dlq-Sound :
      (event_ids : List Text) (messages : Map Text)
      → Sound (move_to_dlq s event_ids messages rows).0
  unfolding move_to_dlq
  move_to_dlq-Sound [] messages = h
  move_to_dlq-Sound (x ∷ event_ids) messages =
      mapped-Sound _ (set_dlq s.now (error_cases (x ∷ event_ids) messages)) _ (λ r. refl)
        (λ r e w. set_dlq-WellFormed s.now _ r w)

  recover_stale_events-Sound :
      (threshold_ms : ℕ) → Sound (recover_stale_events s threshold_ms rows).0
  unfolding recover_stale_events set_recovered
  recover_stale_events-Sound threshold_ms =
      mapped-Sound _ (set_recovered s.now) _ (λ r. refl)
        (λ r e w. set_recovered-WellFormed s.now threshold_ms r e)

  cleanup-Sound : (days : ℕ) → Sound (cleanup_stale_idempotency_keys s days rows).0
  unfolding cleanup_stale_idempotency_keys clear_key
  cleanup-Sound days =
      mapped-Sound _ (clear_key s.now) _ (λ r. refl) (λ r e w. clear_key-WellFormed s.now r w)

  replay_update-Sound :
      (id : Text) (previous_status : EventStatus)
      → Sound (replay_update s id previous_status rows).0
  unfolding replay_update reset
  replay_update-Sound id previous_status =
      mapped-Sound _ (reset s.now) _ (λ r. refl) (λ r e w. reset-WellFormed s.now r)

  replay_range_update-Sound :
      (event_ids : List Text) → Sound (replay_range_update s event_ids rows).0
  unfolding replay_range_update reset
  replay_range_update-Sound event_ids =
      mapped-Sound _ (reset s.now) _ (λ r. refl) (λ r e w. reset-WellFormed s.now r)

-- Every statement of the adapter, with any arguments and whether or not the driver throws, keeps the
-- table sound: ids stay unique, and each row's retries and time stamps fit its status.
pub Step-Sound : {rows rows' : Table} → Sound rows → Step rows rows' → Sound rows'
Step-Sound {rows} h (create s id input fresh) = create_event-Sound s rows h id input fresh
Step-Sound {rows} h (claim s n) = claim_pending_events-Sound s rows h n
Step-Sound {rows} h (succeed s results) = mark_succeeded-Sound s rows h results
Step-Sound {rows} h (retry s event_ids messages config) =
    schedule_retry-Sound s rows h event_ids messages config
Step-Sound {rows} h (dead_letter s event_ids messages) =
    move_to_dlq-Sound s rows h event_ids messages
Step-Sound {rows} h (recover s threshold_ms) = recover_stale_events-Sound s rows h threshold_ms
Step-Sound {rows} h (clean_up s days) = cleanup-Sound s rows h days
Step-Sound {rows} h (replay s id previous_status) = replay_update-Sound s rows h id previous_status
Step-Sound {rows} h (replay_range s event_ids) = replay_range_update-Sound s rows h event_ids

-- Whatever statements run, in any order, on a sound table, the table is sound.
pub Reach-Sound : {start rows : Table} → Sound start → Reach start rows → Sound rows
Reach-Sound h done = h
Reach-Sound h (then r s) = Step-Sound (Reach-Sound h r) s

-- The empty table, where every history starts.
pub empty-Sound : Sound []
unfolding Sound
empty-Sound = (tt, tt)
