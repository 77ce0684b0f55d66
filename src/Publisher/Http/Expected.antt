-- ===== src/Publisher/Http/Expected.antt =====
-- What the HTTP publisher answers for each event, field by field, and what its requests carry.
use outboxy.Base.{
  ℕ, ◌≡◌, refl, ap, ◌∙◌, Bool, true, ◌&&◌, ◌||◌, List, ◌++◌, map, Option, some, Text, Map, get,
  get-set, text_eq_self, is_none, if◌then◌else◌, Bool-cases, inl, inr, codes, leb, ltb, ◌==◌,
  length,
}
use outboxy.Schema.{OutboxEvent}
use outboxy.Schema.Events.{event_at, event_ids, DistinctIds}
use outboxy.Publisher.{PublishResult, resolved}
use outboxy.Publisher.Groups.{group_of}
use outboxy.Publisher.Http.{
  World, HttpPublisherConfig, HttpRequest, PublishedEvent, Response, Reply, replied, network_error,
  batch_request, request_headers, join, publish,
}
use outboxy.Publisher.Http.Delivery.{outcome_in, published, get-published}
use outboxy.Publisher.Http.Verdicts.{verdict, refusal_text, refusal_passes, results_of-verdict}

-- The error of an event by a reply, if it is one.
abbrev pub error_in : World → Reply → Text → Option Text
error_in world (network_error message) id = some message
error_in world (replied status_code body) id =
    if leb 200 status_code && ltb status_code 300
    then refusal_text (verdict body id)
    else some (codes "HTTP " ++ world.digits status_code)

-- Whether the error may pass.
abbrev pub passes_in : Reply → Text → Bool
passes_in (network_error message) id = true
passes_in (replied status_code body) id =
    if leb 200 status_code && ltb status_code 300
    then refusal_passes (verdict body id)
    else leb 500 status_code || status_code == 408 || status_code == 429

-- What a response comes to for an event, field by field.
abbrev pub expected_result : World → Response → Text → PublishResult
expected_result world response id = record {
  success = is_none (error_in world response.reply id);
  error = error_in world response.reply id;
  retryable = passes_in response.reply id;
  duration_ms = some response.duration_ms;
}

reply_outcome :
    (world : World) (d : ℕ) (id : Text) (reply : Reply)
    → outcome_in world reply d id
      ≡ expected_result world (record { reply = reply; duration_ms = d }) id
unfolding outcome_in
reply_outcome world d id (network_error message) = refl
reply_outcome world d id (replied status_code body) =
    elim (Bool-cases (leb 200 status_code && ltb status_code 300)) [
      | inl fine ↦ rw fine (results_of-verdict d id body)
      | inr fails ↦ rw fails refl
    ]

outcome_in-expected :
    (world : World) (response : Response) (id : Text)
    → outcome_in world response.reply response.duration_ms id ≡ expected_result world response id
outcome_in-expected world response id = reply_outcome world response.duration_ms id response.reply

names_ids :
    (world : World) (config : HttpPublisherConfig) (group : List OutboxEvent)
    → get (codes "X-Outbox-Event-IDs") (request_headers world config group)
      ≡ some (join (event_ids group))
unfolding request_headers
names_ids world config group =
    get-set (codes "X-Outbox-Event-IDs") (codes "X-Outbox-Event-IDs") (join (event_ids group)) _
    ∙ rw (text_eq_self (codes "X-Outbox-Event-IDs")) refl

-- The event as it is sent.
abbrev pub expected_event : OutboxEvent → PublishedEvent
expected_event e = record {
  event_id = e.id;
  event_type = e.event_type;
  aggregate_type = e.aggregate_type;
  aggregate_id = e.aggregate_id;
  payload = e.payload;
  created_at = e.created_at;
}

-- `publish` resolves, and each event gets what the response to one request means: it is delivered on a
-- status from 200 to 299 whose body does not refuse it by its id; else its error is the network's, the
-- status or the one that the body gives, and it may be retried after a network error, on a status from
-- 500 or of 408 or 429, and unless the body says otherwise. The request goes to the event's own
-- destination with the configured timeout, carries all events for it, in their order, and names them in
-- its header `X-Outbox-Event-IDs`. The events have distinct ids.
pub get-publish :
    (world : World) (config : HttpPublisherConfig) (id : Text) (events : List OutboxEvent)
    (e : OutboxEvent)
    → DistinctIds events
    → event_at id events ≡ some e
    → let group = group_of (λ e. e.destination_url) e.destination_url events in
      (results : Map PublishResult) × (request : HttpRequest) × (publish world config events
        ≡ resolved results)
      × (request.destination_url ≡ e.destination_url)
      × (request.events ≡ map expected_event group)
      × (request.count ≡ length group)
      × (request.body_timeout ≡ config.timeout_ms)
      × (get (codes "X-Outbox-Event-IDs") request.headers ≡ some (join (event_ids group)))
      × (get id results ≡ some (expected_result world (world.request request) id))
unfolding batch_request
get-publish world config id events e distinct here =
    let group = group_of (λ e. e.destination_url) e.destination_url events in
    let (resolves, answered) = get-published world config id events e distinct here in
    (
      published world config events,
      batch_request world config e.destination_url group,
      resolves,
      refl,
      refl,
      refl,
      refl,
      names_ids world config group,
      answered
          ∙ ap some (
              outcome_in-expected world
                (world.request (batch_request world config e.destination_url group)) id),
    )
