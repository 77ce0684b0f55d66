-- ===== src/Publisher/Http.antt =====
-- packages/publisher-http/src/http.publisher.ts. The HTTP client and `JSON.parse` are a parameter:
-- what a request comes to. An event id is taken to name no property of `Object.prototype` and no
-- index of an array. The log lines are left out.
pub mod JsonValues
pub mod Delivery
pub mod Expected
pub mod Verdicts
use outboxy.Base.{
  ℕ, Bool, true, false, not, ◌&&◌, ◌||◌, List, [], ◌∷◌, ◌++◌, map, Option, none, some, Text, codes,
  Map, set, text_eq, member, to_lower_case, leb, ltb, ◌==◌, if◌then◌else◌, length, is_empty,
}
use outboxy.Schema.{Json, Items, Entries, OutboxEvent}
use outboxy.Schema.Events.{event_ids}
use outboxy.Publisher.{PublishResult, Publication, resolved}
use outboxy.Publisher.Groups.{group_by, set_each, assemble}
use outboxy.Publisher.Http.JsonValues.{property, is_truthy, to_text}

pub record HttpPublisherConfig : Type 0 where
  pub timeout_ms : ℕ
  pub user_agent : Text

-- The elements of `batchPayload.events`.
pub record PublishedEvent : Type 0 where
  pub event_id : Text
  pub event_type : Text
  pub aggregate_type : Text
  pub aggregate_id : Text
  pub payload : Json
  pub created_at : ℕ

-- What `request` of the HTTP client is called with. The body is the payload before
-- `JSON.stringify`.
pub record HttpRequest : Type 0 where
  pub destination_url : Text
  pub headers : Map Text
  pub batch : Bool
  pub count : ℕ
  pub events : List PublishedEvent
  pub body_timeout : ℕ
  pub headers_timeout : ℕ

-- What a request comes to: a status with what `JSON.parse` makes of the body (`none` where it
-- throws), or the message of a network error.
pub data Reply : Type 0 where
  replied : ℕ → Option Json → Reply
  network_error : Text → Reply

pub record Response : Type 0 where
  pub reply : Reply
  pub duration_ms : ℕ

pub record World : Type 0 where
  pub request : HttpRequest → Response
  -- `String(n)` of a number.
  pub digits : ℕ → Text

abbrev pub blocked_headers : List Text
blocked_headers =
    codes "host"
    ∷ codes "content-length"
    ∷ codes "content-type"
    ∷ codes "transfer-encoding"
    ∷ codes "connection"
    ∷ codes "user-agent"
    ∷ codes "authorization"
    ∷ codes "cookie"
    ∷ codes "proxy-authorization"
    ∷ codes "x-forwarded-for"
    ∷ codes "x-forwarded-host"
    ∷ codes "x-forwarded-proto"
    ∷ codes "x-real-ip"
    ∷ []

-- A header goes on if it is a text, is not blocked, and is not the accessor of `Object.prototype`,
-- which an assignment does not define.
unfoldable pub forwards : Text → Bool
forwards key =
    not (member (to_lower_case key) blocked_headers) && not (text_eq key (codes "__proto__"))

unfoldable pub forwardable : Entries → Map Text → Map Text
unfolding forwards
forwardable Entries.end result = result
forwardable (Entries.entry key (Json.string value) rest) result =
    forwardable rest (if forwards key then set key value result else result)
forwardable (Entries.entry key _ rest) result = forwardable rest result

unfoldable pub extract_forwardable_headers : Json → Map Text
unfolding forwardable
extract_forwardable_headers (Json.object entries) = forwardable entries []
extract_forwardable_headers _ = []

-- `events[0]?.headers`.
abbrev pub first_headers : List OutboxEvent → Json
first_headers [] = Json.null
first_headers (e ∷ events) = e.headers

abbrev pub join : List Text → Text
join [] = []
join (t ∷ []) = t
join (t ∷ u ∷ ts) = t ++ codes "," ++ join (u ∷ ts)

abbrev pub published_event : OutboxEvent → PublishedEvent
published_event e = record {
  event_id = e.id;
  event_type = e.event_type;
  aggregate_type = e.aggregate_type;
  aggregate_id = e.aggregate_id;
  payload = e.payload;
  created_at = e.created_at;
}

-- The headers of the publisher's own, which replace those of the event with the same name.
unfoldable pub request_headers : World → HttpPublisherConfig → List OutboxEvent → Map Text
unfolding extract_forwardable_headers
request_headers world config events = set (codes "X-Outbox-Event-IDs") (join (event_ids events)) (
    set (codes "X-Outbox-Batch-Size") (world.digits (length events)) (
      set (codes "X-Outbox-Batch") (codes "true") (
        set (codes "User-Agent") config.user_agent (
          set (codes "Content-Type") (codes "application/json")
            (extract_forwardable_headers (first_headers events))))))

unfoldable pub batch_request : World → HttpPublisherConfig → Text → List OutboxEvent → HttpRequest
unfolding request_headers
batch_request world config destination_url events = record {
  destination_url = destination_url;
  headers = request_headers world config events;
  batch = true;
  count = length events;
  events = map published_event events;
  body_timeout = config.timeout_ms;
  headers_timeout = config.timeout_ms;
}

unfoldable pub build_uniform_results : List Text → PublishResult → Map PublishResult
build_uniform_results ids result = set_each (λ id. result) ids []

abbrev pub delivered : ℕ → PublishResult
delivered duration_ms = record {
  success = true;
  error = none;
  retryable = false;
  duration_ms = some duration_ms;
}

-- What `eventResult.retryable ?? true` comes to in a test.
abbrev pub may_retry : Option Json → Bool
may_retry none = true
may_retry (some Json.null) = true
may_retry (some v) = is_truthy v

-- `eventResult.error ? new Error(eventResult.error) : new Error("Unknown error")`.
abbrev pub error_of : Option Json → Text
error_of none = codes "Unknown error"
error_of (some v) = if is_truthy v then to_text v else codes "Unknown error"

abbrev pub truthy_property : Text → Json → Bool
truthy_property key v = elim (property key v) [ none ↦ false | some w ↦ is_truthy w ]

-- The body of the loop of `parseIndividualResults`, for `parsed.results[eventId]`.
unfoldable pub individual_result : ℕ → Option Json → PublishResult
individual_result duration_ms none = delivered duration_ms
individual_result duration_ms (some v) =
    if is_truthy v
    then (if truthy_property (codes "success") v then delivered duration_ms else record {
      success = false;
      error = some (error_of (property (codes "error") v));
      retryable = may_retry (property (codes "retryable") v);
      duration_ms = some duration_ms;
    })
    else delivered duration_ms

-- `!parsed.results || typeof parsed.results !== "object"`, where a body that is `null` throws.
unfoldable pub results_of : Option Json → Option Json
results_of none = none
results_of (some parsed) = elim (property (codes "results") parsed) [
  | some (Json.array items) ↦ some (Json.array items)
  | some (Json.object entries) ↦ some (Json.object entries)
  | _ ↦ none
]

unfoldable pub parse_individual_results : Option Json → List Text → ℕ → Option (Map PublishResult)
unfolding results_of individual_result
parse_individual_results body ids duration_ms = elim (results_of body) [
  | none ↦ none
  | some results ↦
      some (set_each (λ id. individual_result duration_ms (property id results)) ids [])
]

abbrev pub failure : Text → Bool → ℕ → PublishResult
failure message retryable duration_ms = record {
  success = false;
  error = some message;
  retryable = retryable;
  duration_ms = some duration_ms;
}

abbrev pub is_ok : ℕ → Bool
is_ok status_code = leb 200 status_code && ltb status_code 300

abbrev pub is_retryable_status : ℕ → Bool
is_retryable_status status_code = leb 500 status_code || status_code == 408 || status_code == 429

unfoldable pub results_of_response : World → Reply → ℕ → List Text → Map PublishResult
unfolding build_uniform_results parse_individual_results
results_of_response world (network_error message) duration_ms ids =
    build_uniform_results ids (failure message true duration_ms)
results_of_response world (replied status_code body) duration_ms ids =
    if is_ok status_code
    then elim (parse_individual_results body ids duration_ms) [
      | some individual ↦ individual
      | none ↦ build_uniform_results ids (delivered duration_ms)
    ]
    else build_uniform_results ids (
        failure (codes "HTTP " ++ world.digits status_code) (is_retryable_status status_code)
          duration_ms)

unfoldable pub publish_to_destination :
    World → HttpPublisherConfig → Text → List OutboxEvent → Map PublishResult
unfolding batch_request results_of_response
publish_to_destination world config destination_url events =
    let response = world.request (batch_request world config destination_url events) in
    results_of_response world response.reply response.duration_ms (event_ids events)

unfoldable pub group_by_destination : List OutboxEvent → Map (List OutboxEvent)
unfolding group_by
group_by_destination events = group_by (λ e. e.destination_url) events

-- No destination's answer is an error of the promise, so `publish` always resolves.
unfoldable pub publish : World → HttpPublisherConfig → List OutboxEvent → Publication
unfolding group_by_destination publish_to_destination assemble
publish world config events =
    resolved (assemble (publish_to_destination world config) (group_by_destination events) [])
