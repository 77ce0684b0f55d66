-- ===== src/Tests/Claims.antt =====
-- Claims, replays and idempotency keys.
use outboxy.Base.{
  ◌≡◌, ◌≤◌, refl, true, false, [], some, none, Text, codes, member, length, find, select, text_eq,
}
use outboxy.Schema.{OutboxEventRow, EventStatus}
use outboxy.Sql.Update.{row_at, Unique, ids}
use outboxy.Postgres.Errors.{ok, err, constraint_violation_error}
use outboxy.Postgres.EventRepository.{claimed_ids, claim_pending_events, is_claimable}
use outboxy.Postgres.EventRepository.Claim.{is_eligible, claim-passes_over}
use outboxy.Postgres.EventRepository.Claimed.{claims_exclusive}
use outboxy.Postgres.EventService.{
  create_event, find_by_idempotency_key, unique_violation, replay_update, is_visible_at, holds_key,
}
use outboxy.Postgres.EventService.Keys.{create_event-refuses, find_by_idempotency_key-create_event}
use outboxy.Postgres.EventService.Replay.{replay_update-once}
use outboxy.Api.{HandlerSessions, replay_event_handler}
use outboxy.Api.Replay.{Undisturbed, replay_answer, replay_event_handler-answers}
use outboxy.Tests.Data.{invoice_row, shop_rows, at_time, locking, order_input}
use outboxy.Sql.Sort.{order_by_created_at, insert_by_created_at}

pub shop_rows-Unique : Unique shop_rows
unfolding outboxy.Sql.Update.ids member text_eq
shop_rows-Unique = (refl, (refl, tt))

first_claim : member (codes "order") (claimed_ids (at_time 50) 1 shop_rows) ≡ true
unfolding claimed_ids member ids order_by_created_at select insert_by_created_at text_eq
first_claim = refl

claims_exclusive_example :
    ((locking 60).locked (codes "order") ≡ true
      → member (codes "order") (claimed_ids (locking 60) 5 shop_rows) ≡ false)
    × (member
          (codes "order")
          (claimed_ids (locking 60) 5 (claim_pending_events (at_time 50) 1 shop_rows).0)
        ≡ false)
claims_exclusive_example =
    claims_exclusive (at_time 50) (locking 60) 1 5 shop_rows (codes "order") shop_rows-Unique refl
      first_claim

invoice_found : row_at (codes "invoice") shop_rows ≡ some invoice_row
unfolding row_at text_eq
invoice_found = refl

invoice_eligible : is_eligible (at_time 50) invoice_row ≡ true
unfolding is_claimable
invoice_eligible = refl

invoice_missed : member (codes "invoice") (claimed_ids (at_time 50) 1 shop_rows) ≡ false
unfolding claimed_ids member ids order_by_created_at select insert_by_created_at text_eq
invoice_missed = refl

claim-passes_over_example :
    (length (claimed_ids (at_time 50) 1 shop_rows) ≡ 1)
    × ((other : Text)
        → member other (claimed_ids (at_time 50) 1 shop_rows) ≡ true
        → (x : OutboxEventRow) × (row_at other shop_rows ≡ some x)
          × (x.created_at ≤ invoice_row.created_at))
claim-passes_over_example =
    claim-passes_over (at_time 50) 1 shop_rows shop_rows-Unique (codes "invoice") {r = invoice_row}
      invoice_found invoice_eligible invoice_missed

replay_update-once_example :
    let rows' = (replay_update (at_time 50) (codes "invoice") EventStatus.failed shop_rows).0 in
    replay_update (at_time 60) (codes "invoice") EventStatus.failed rows' ≡ (rows', ok none)
replay_update-once_example =
    replay_update-once (at_time 50) (at_time 60) (codes "invoice") shop_rows EventStatus.failed
      EventStatus.failed refl refl

no_key_in_use : find (holds_key (some (codes "k"))) [] ≡ none
unfolding find
no_key_in_use = refl

create_event-refuses_example :
    let rows' = (create_event (at_time 50) (codes "order") order_input []).0 in
    create_event (at_time 60) (codes "again") order_input rows' ≡ (
      rows',
      err (
          constraint_violation_error
            (codes
              "Unique constraint violation: duplicate key value violates unique constraint \"idx_outbox_idempotency\"")
            (some (codes "idx_outbox_idempotency"))
            unique_violation),
    )
create_event-refuses_example =
    create_event-refuses (at_time 50) (at_time 60) refl refl (codes "order") (codes "k") order_input
      refl [] no_key_in_use (codes "again") order_input refl

find_by_idempotency_key-create_event_example :
    (find_by_idempotency_key
      (at_time 60)
      (codes "k")
      (create_event (at_time 50) (codes "order") order_input []).0).1
    ≡ ok (some (record { id = codes "order"; status = EventStatus.pending; created_at = 50 }))
find_by_idempotency_key-create_event_example =
    find_by_idempotency_key-create_event (at_time 50) (at_time 60) refl refl (codes "order")
      (codes "k") order_input refl [] no_key_in_use

abbrev calm_sessions : HandlerSessions
calm_sessions = record {
  read = at_time 50;
  update = at_time 51;
  explain = at_time 52;
  before_update = λ rows. rows;
  before_explain = λ rows. rows;
}

calm_sessions-Undisturbed : Undisturbed calm_sessions
calm_sessions-Undisturbed = record {
  read_works = refl;
  update_works = refl;
  explain_works = refl;
  update_alone = λ rows. refl;
  explain_alone = λ rows. refl;
}

replay_event_handler-answers_example :
    replay_event_handler calm_sessions (codes "invoice") shop_rows
    ≡ replay_answer 51
        (codes "invoice")
        shop_rows
        (find (is_visible_at (codes "invoice")) shop_rows)
replay_event_handler-answers_example =
    replay_event_handler-answers calm_sessions calm_sessions-Undisturbed (codes "invoice") shop_rows
