-- ===== src/Tests/Inboxes.antt =====
-- The inbox: one event received twice, and a batch with a key twice.
use outboxy.Base.{◌≡◌, refl, [], ◌∷◌, List, some, none, codes, map, find, text_eq}
use outboxy.Schema.{Json, InboxOutcome}
use outboxy.Postgres.Errors.{ok}
use outboxy.Postgres.Inbox.{InboxEventInput, receive, mark_failed, receive_batch}
use outboxy.Postgres.Inbox.Receive.{receive-once}
use outboxy.Postgres.Inbox.Batch.{Received, answer_for, receive_batch-answers}
use outboxy.Tests.Data.{at_time}

abbrev payment : InboxEventInput
payment = record {
  idempotency_key = codes "pay-1";
  aggregate_type = codes "Payment";
  aggregate_id = codes "1";
  event_type = codes "Paid";
  payload = Json.null;
  source = none;
  event_version = none;
  headers = none;
  metadata = none;
}

receive-once_example :
    let rows' =
      (mark_failed
        (at_time 7)
        (codes "a")
        (codes "no")
        (receive (at_time 5) (codes "a") payment []).0).0 in
    receive (at_time 9) (codes "b") payment rows'
    ≡ (rows', ok (record { event_id = none; status = InboxOutcome.duplicate }))
receive-once_example =
    receive-once (at_time 5) (at_time 9) (at_time 7) (codes "a") (codes "b") (codes "a")
      (codes "no") payment payment [] refl refl refl

abbrev doubled : List Received
doubled = (codes "a", payment) ∷ (codes "b", payment) ∷ []

receive_batch-answers_example :
    (receive_batch (at_time 5) (at_time 6) doubled []).1
    ≡ ok (map (λ p. answer_for doubled [] p.1.idempotency_key) doubled)
receive_batch-answers_example =
    receive_batch-answers (at_time 5) (at_time 6) doubled [] refl refl
      (record { not_in_table = tt; not_empty = (refl, (refl, tt)) })

-- Both events of the batch are answered as processed, with one id.
doubled-answers :
    map (λ p. answer_for doubled [] p.1.idempotency_key) doubled
    ≡ record { event_id = some (codes "a"); status = InboxOutcome.processed }
      ∷ record { event_id = some (codes "a"); status = InboxOutcome.processed }
      ∷ []
unfolding find text_eq
doubled-answers = refl
