-- ===== src/Postgres/EventService/Replay.antt =====
-- Replays: which events `replayEvent` resets, and that it does so once.
use outboxy.Base.{ℕ, ◌≡◌, refl, false, [], ◌∷◌, none, some, Text, find, arith}
use outboxy.Schema.{OutboxEventRow, EventStatus}
use outboxy.Sql.Update.{
  Table, update_where, returning, row_at, updated, map_option, row_at-update_where,
  update_where-nothing,
}
use outboxy.Postgres.Errors.{Session, ok, with_error_mapping}
use outboxy.Postgres.EventService.{
  reset, is_replayable, is_replayable_at, is_visible_at, replay_update, replay_event,
}

-- The second statement of a replay, as the row under an id sees it.
pub row_at-replay_update :
    (s : Session) (id id' : Text) (previous_status : EventStatus) (rows : Table)
    → s.fault ≡ none
    → row_at id' (replay_update s id previous_status rows).0
      ≡ map_option (updated (is_replayable_at id) (reset s.now)) (row_at id' rows)
unfolding replay_update reset
row_at-replay_update s id id' previous_status rows works =
    rw (works, with_error_mapping)
      (row_at-update_where (is_replayable_at id) (reset s.now) (λ r. refl) id' rows)

-- After the reset no row can be replayed under the id any more.
returning-reset :
    (id : Text) (now now' : ℕ) (rows : Table)
    → returning
        (is_replayable_at id)
        (reset now')
        (update_where (is_replayable_at id) (reset now) rows)
      ≡ []
unfolding returning update_where reset
returning-reset id now now' [] = refl
returning-reset id now now' (r ∷ rows) = ground (arith, returning-reset id now now' rows)

replay_update-ok :
    (s : Session) (id : Text) (a : EventStatus) (rows : Table)
    → s.fault ≡ none
    → (replay_update s id a rows).0 ≡ update_where (is_replayable_at id) (reset s.now) rows
unfolding replay_update
replay_update-ok s id a rows works = rw (works, with_error_mapping) refl

replay_update-nothing :
    (t : Session) (id : Text) (b : EventStatus) (rows : Table)
    → t.fault ≡ none
    → returning (is_replayable_at id) (reset t.now) rows ≡ []
    → replay_update t id b rows ≡ (rows, ok none)
unfolding replay_update
replay_update-nothing t id b rows works nothing =
    rw
      (
        works,
        with_error_mapping,
        nothing,
        update_where-nothing (is_replayable_at id) (reset t.now) rows nothing,
      )
      refl

module _ (s t : Session) (id : Text) (rows : Table) where
  -- A replay changes nothing unless the row that it reads is failed or in the dead letter queue: an
  -- event that waits, is being processed or has been delivered is not sent again.
  pub replay_event-refuses :
      (between : Table → Table) (r : OutboxEventRow)
      → s.fault ≡ none
      → find (is_visible_at id) rows ≡ some r
      → is_replayable r.status ≡ false
      → replay_event s t between id rows ≡ (rows, ok none)
  unfolding replay_event
  replay_event-refuses between r works visible refused =
      rw (works, replay_event, visible, refused) refl

  -- Of two replays of an event, the one whose update runs second changes nothing and says so, even
  -- when both have read the event before either update.
  pub replay_update-once :
      (a b : EventStatus)
      → s.fault ≡ none
      → t.fault ≡ none
      → let rows' = (replay_update s id a rows).0 in replay_update t id b rows' ≡ (rows', ok none)
  replay_update-once a b works works' =
      replay_update-nothing t id b (replay_update s id a rows).0 works'
        (rw (replay_update-ok s id a rows works) (returning-reset id s.now t.now rows))
