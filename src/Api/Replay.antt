-- ===== src/Api/Replay.antt =====
-- What `POST /admin/replay/:id` answers for every state of the event.
use outboxy.Base.{
  ℕ, ◌≡◌, refl, ap, true, false, [], ◌∷◌, Option, none, some, Text, find, is_empty, if◌then◌else◌,
  Bool-cases, Option-cases, inl, inr, arith, ◌∙◌,
}
use outboxy.Schema.{OutboxEventRow, EventStatus, map_row_to_event}
use outboxy.Sql.Update.{Table, update_where, returning}
use outboxy.Postgres.Errors.{ok, with_error_mapping, Result}
use outboxy.Postgres.EventService.{
  ReplayEventResult, reset, is_replayable, is_replayable_at, is_visible_at, replay_update,
  replay_event, get_event_by_id, event_of_row,
}
use outboxy.Api.{
  HandlerSessions, Response, send, throw, not_found, invalid_state, not_found_message,
  invalid_state_message, explain_refusal, replay_event_handler, finish_replay,
}
use outboxy.Postgres.EventService.Replay.{replay_event-refuses}

-- The statements of a handler all run, and no other transaction comes between them.
pub record Undisturbed (ss : HandlerSessions) : Type 0 where
  pub read_works : ss.read.fault ≡ none
  pub update_works : ss.update.fault ≡ none
  pub explain_works : ss.explain.fault ≡ none
  pub update_alone : (rows : Table) → ss.before_update rows ≡ rows
  pub explain_alone : (rows : Table) → ss.before_explain rows ≡ rows

-- The answer for the row that is found under an id.
unfoldable pub replay_answer :
    ℕ → Text → Table → Option OutboxEventRow → Table × Response ReplayEventResult
replay_answer now id rows none = (rows, throw (not_found (not_found_message id)))
replay_answer now id rows (some r) =
    if is_replayable r.status
    then (
      update_where (is_replayable_at id) (reset now) rows,
      send (record {
        id = id;
        previous_status = r.status;
        new_status = EventStatus.pending;
        replayed_at = now;
      }),
    )
    else (rows, throw (invalid_state (invalid_state_message r.status)))

returning-found :
    (id : Text) (now : ℕ) (rows : Table) (r : OutboxEventRow)
    → find (is_visible_at id) rows ≡ some r
    → is_replayable r.status ≡ true
    → is_empty (returning (is_replayable_at id) (reset now) rows) ≡ false
unfolding find returning
returning-found id now [] r found fits = cc
returning-found id now (x ∷ rows) r found fits = ground (arith, returning-found id now rows r)

module _ (ss : HandlerSessions) (calm : Undisturbed ss) (id : Text) (rows : Table) where
  get_event_by_id-rows :
      get_event_by_id ss.explain id rows ≡ (rows, ok (event_of_row (find (is_visible_at id) rows)))
  unfolding get_event_by_id
  get_event_by_id-rows = rw (calm.explain_works, with_error_mapping) refl

  get_event_by_id-ok :
      get_event_by_id ss.explain id (ss.before_explain rows)
      ≡ (rows, ok (event_of_row (find (is_visible_at id) rows)))
  get_event_by_id-ok =
      ap (get_event_by_id ss.explain id) (calm.explain_alone rows) ∙ get_event_by_id-rows

  refused :
      (answer : Table × Response ReplayEventResult)
      → replay_event ss.read ss.update ss.before_update id rows ≡ (rows, ok none)
      → explain_refusal id (rows, ok (event_of_row (find (is_visible_at id) rows))) ≡ answer
      → replay_event_handler ss id rows ≡ answer
  unfolding replay_event_handler
  refused answer nothing explained =
      ap (finish_replay ss id) nothing ∙ ap (explain_refusal id) get_event_by_id-ok ∙ explained

  replay_event-absent :
      find (is_visible_at id) rows ≡ none
      → replay_event ss.read ss.update ss.before_update id rows ≡ (rows, ok none)
  unfolding replay_event
  replay_event-absent absent = rw (calm.read_works, replay_event, absent) refl

  -- The reset of a visible row, with what the handler sends.
  abbrev reset_of : EventStatus → Table × Result (Option ReplayEventResult)
  reset_of previous_status = (
    update_where (is_replayable_at id) (reset ss.update.now) rows,
    ok (
        some (record {
          id = id;
          previous_status = previous_status;
          new_status = EventStatus.pending;
          replayed_at = ss.update.now;
        })),
  )

  replay_update-resets :
      (r : OutboxEventRow)
      → find (is_visible_at id) rows ≡ some r
      → is_replayable r.status ≡ true
      → replay_update ss.update id r.status rows ≡ reset_of r.status
  unfolding replay_update
  replay_update-resets r found fits =
      rw (calm.update_works, with_error_mapping, returning-found id ss.update.now rows r found fits)
        refl

  replay_event-resets :
      (r : OutboxEventRow)
      → find (is_visible_at id) rows ≡ some r
      → is_replayable r.status ≡ true
      → replay_event ss.read ss.update ss.before_update id rows ≡ reset_of r.status
  unfolding replay_event
  replay_event-resets r found fits =
      rw (calm.read_works, replay_event, found, fits)
        (ap (replay_update ss.update id r.status) (calm.update_alone rows)
          ∙ replay_update-resets r found fits)

  -- The handler answers with a reset of an event that is failed or in the dead letter queue, with an
  -- invalid state for an event in any other status, and with not found for an id that no visible
  -- row has. Only the first changes the table. Its statements run, with nothing between them.
  pub replay_event_handler-answers :
      replay_event_handler ss id rows
      ≡ replay_answer ss.update.now id rows (find (is_visible_at id) rows)
  unfolding replay_event_handler replay_answer explain_refusal map_row_to_event
  replay_event_handler-answers = elim (Option-cases (find (is_visible_at id) rows)) [
    | inl absent ↦ refused _ (replay_event-absent absent) (rw absent refl)
    | inr (r, found) ↦ elim (Bool-cases (is_replayable r.status)) [
      | inr refuses ↦
          refused _
            (replay_event-refuses ss.read ss.update id rows ss.before_update r calm.read_works found
              refuses)
            (rw (found, refuses) refl)
      | inl fits ↦
          ap (finish_replay ss id) (replay_event-resets r found fits) ∙ (rw (found, fits) refl)
    ]
  ]
