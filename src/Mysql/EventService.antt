-- ===== src/Mysql/EventService.antt =====
-- packages/db-adapter-mysql/src/repositories/mysql-event.service.ts. `collation` maps a text to what the
-- collation of the database compares: texts with one image are equal to it.
use outboxy.Base.{
  ℕ, ◌+◌, ◌*◌, ◌/◌, Bool, false, not, ◌&&◌, List, [], ◌∷◌, ◌++◌, Option, none, some, Text, codes,
  text_eq, if◌then◌else◌, ◌or_else◌, is_none, is_empty, select, find, member, count_where,
}
use outboxy.Schema.{OutboxEvent, OutboxEventRow, EventStatus, is_succeeded}
use outboxy.Sql.Update.{Table, update_where}
use outboxy.Postgres.Errors.{Result, ok, err}
use outboxy.Postgres.EventService.{
  CreateEventInput, EventServiceResult, ReplayEventResult, ReplayRangeInput, ReplayRangeResult,
  new_row, is_visible_at, event_of_row, result_of_row, reset, is_replayable, is_replayable_at,
  range_ids,
}
use outboxy.Mysql.Errors.{MysqlError, MysqlSession, map_mysql_error, with_mysql_errors}

-- The time as a `TIMESTAMP` column keeps it: to the nearest second.
abbrev pub to_second : ℕ → ℕ
to_second t = (t + 500000) / 1000000 * 1000000

module _ (collation : Text → Text) where
  -- Two keys that the collation does not tell apart.
  abbrev pub same_key : Option Text → Text → Bool
  same_key none key = false
  same_key (some k) key = text_eq (collation k) (collation key)

  -- Rows that the unique index on `idempotency_key` holds under a key, in any status.
  unfoldable pub takes_key : Option Text → OutboxEventRow → Bool
  takes_key none r = false
  takes_key (some key) r = same_key r.idempotency_key key

  abbrev pub duplicate_entry : MysqlError
  duplicate_entry = record {
    code = some (codes "ER_DUP_ENTRY");
    errno = some 1062;
    sql_message = codes "Duplicate entry for key 'idx_outbox_idempotency'";
    message = codes "Duplicate entry for key 'idx_outbox_idempotency'";
  }

  -- `id` is what `crypto.randomUUID()` returns and `date` what `new Date()` does. An insert that the
  -- unique index refuses throws.
  unfoldable pub create_event :
      MysqlSession → Text → ℕ → CreateEventInput → Table → Table × Result EventServiceResult
  create_event s id date input rows =
      if is_none (find (takes_key input.idempotency_key) rows)
      then with_mysql_errors s rows (
        rows ++ new_row (to_second date) id input ∷ [],
        record { id = id; status = EventStatus.pending; created_at = date },
      )
      else (rows, err (map_mysql_error (s.fault or_else duplicate_entry)))

  unfoldable pub find_by_idempotency_key :
      MysqlSession → Text → Table → Table × Result (Option EventServiceResult)
  find_by_idempotency_key s key rows = with_mysql_errors s rows (
    rows,
    result_of_row (
        find
          (λ r.
            same_key r.idempotency_key key && not (is_succeeded r.status) && is_none r.deleted_at)
          rows),
  )

unfoldable pub get_event_by_id : MysqlSession → Text → Table → Table × Result (Option OutboxEvent)
get_event_by_id s id rows =
    with_mysql_errors s rows (rows, event_of_row (find (is_visible_at id) rows))

-- The second statement of `replayEvent`.
unfoldable pub replay_update :
    MysqlSession → Text → EventStatus → Table → Table × Result (Option ReplayEventResult)
replay_update s id previous_status rows = with_mysql_errors s rows (
  update_where (is_replayable_at id) (reset s.now) rows,
  (if is_empty (select (is_replayable_at id) rows)
      then none
      else some (record {
        id = id;
        previous_status = previous_status;
        new_status = EventStatus.pending;
        replayed_at = s.now;
      })),
)

-- Two statements: the read in session `s`, the update in `t`.
unfoldable pub replay_event :
    MysqlSession
    → MysqlSession
    → (Table → Table)
    → Text
    → Table
    → Table × Result (Option ReplayEventResult)
replay_event s t between id rows = elim s.fault [
  | some e ↦ (rows, err (map_mysql_error e))
  | none ↦ elim (find (is_visible_at id) rows) [
    | none ↦ (rows, ok none)
    | some row ↦
        if is_replayable row.status
        then replay_update t id row.status (between rows)
        else (rows, ok none)
  ]
]

-- The second statement of `replayEventsInRange`; the ids are those that the first found, also where a
-- row is gone since.
unfoldable pub replay_range_update :
    MysqlSession → List Text → Table → Table × Result ReplayRangeResult
replay_range_update s event_ids rows = with_mysql_errors s rows (
  update_where (λ r. member r.id event_ids) (reset s.now) rows,
  record { replayed_count = count_where (λ r. member r.id event_ids) rows; event_ids = event_ids },
)

unfoldable pub replay_events_in_range :
    MysqlSession
    → MysqlSession
    → (Table → Table)
    → ReplayRangeInput
    → Table
    → Table × Result ReplayRangeResult
replay_events_in_range s t between input rows = elim s.fault [
  | some e ↦ (rows, err (map_mysql_error e))
  | none ↦
      if is_empty (range_ids input rows)
      then (rows, ok (record { replayed_count = 0; event_ids = [] }))
      else replay_range_update t (range_ids input rows) (between rows)
]
