-- ===== src/Publisher/Http/Delivery.antt =====
-- What the HTTP publisher answers for each event: the description, and that `publish` fits it.
use outboxy.Base.{
  ℕ, ◌≡◌, refl, true, not, List, [], none, some, Text, Map, get, member, is_none, if◌then◌else◌,
  UniqueKeys, arith, Bool-cases, Option-cases, inl, inr, ◌||◌, codes, ◌++◌,
}
use outboxy.Schema.{OutboxEvent}
use outboxy.Schema.Events.{event_at, event_ids, DistinctIds}
use outboxy.Publisher.{PublishResult, resolved}
use outboxy.Publisher.Groups.{group_of, assemble}
use outboxy.Publisher.Answers.{Answers, get-set_each, set_each-UniqueKeys, get-assemble-group_by}
use outboxy.Publisher.Http.JsonValues.{property}
use outboxy.Publisher.Http.{
  World, HttpPublisherConfig, Response, Reply, replied, network_error, delivered, failure, is_ok,
  is_retryable_status, results_of, individual_result, parse_individual_results,
  build_uniform_results, batch_request, results_of_response, publish_to_destination,
  group_by_destination, publish,
}

-- What a reply means for one event of its request.
unfoldable pub outcome_in : World → Reply → ℕ → Text → PublishResult
outcome_in world (network_error message) duration_ms id = failure message true duration_ms
outcome_in world (replied status_code body) duration_ms id =
    if is_ok status_code
    then elim (results_of body) [
      | none ↦ delivered duration_ms
      | some results ↦ individual_result duration_ms (property id results)
    ]
    else failure (codes "HTTP " ++ world.digits status_code) (is_retryable_status status_code)
        duration_ms

-- A reply is read one event at a time.
get-results_of_response :
    (world : World) (reply : Reply) (d : ℕ) (ids : List Text) (j : Text)
    → get j (results_of_response world reply d ids)
      ≡ (if member j ids then some (outcome_in world reply d j) else none)
unfolding results_of_response build_uniform_results parse_individual_results outcome_in get
get-results_of_response world (network_error message) d ids j = get-set_each _ j ids []
get-results_of_response world (replied status_code body) d ids j =
    elim (Bool-cases (is_ok status_code)) [
      | inr fails ↦ rw fails (get-set_each _ j ids [])
      | inl fine ↦ elim (Option-cases (results_of body)) [
        | inl nothing ↦ rw (fine, nothing) (get-set_each _ j ids [])
        | inr (results, found) ↦ rw (fine, found) (get-set_each _ j ids [])
      ]
    ]

results_of_response-UniqueKeys :
    (world : World) (reply : Reply) (d : ℕ) (ids : List Text)
    → UniqueKeys (results_of_response world reply d ids)
unfolding results_of_response build_uniform_results parse_individual_results
results_of_response-UniqueKeys world (network_error message) d ids = set_each-UniqueKeys _ ids [] tt
results_of_response-UniqueKeys world (replied status_code body) d ids =
    elim (Bool-cases (is_ok status_code)) [
      | inr fails ↦ rw fails (set_each-UniqueKeys _ ids [] tt)
      | inl fine ↦ elim (Option-cases (results_of body)) [
        | inl nothing ↦ rw (fine, nothing) (set_each-UniqueKeys _ ids [] tt)
        | inr (results, found) ↦ rw (fine, found) (set_each-UniqueKeys _ ids [] tt)
      ]
    ]

module _ (world : World) (config : HttpPublisherConfig) where
  -- The response that answers a destination's request.
  abbrev pub response_for : Text → List OutboxEvent → Response
  response_for url events = world.request (batch_request world config url events)

  -- What the response to a destination's request means for an event.
  abbrev pub outcome_for : Text → List OutboxEvent → Text → PublishResult
  outcome_for url events =
      outcome_in world (response_for url events).reply (response_for url events).duration_ms

  answers : Answers (publish_to_destination world config) outcome_for
  unfolding publish_to_destination
  answers url events =
      let response = response_for url events in
      (
        results_of_response-UniqueKeys world response.reply response.duration_ms (event_ids events),
        get-results_of_response world response.reply response.duration_ms (event_ids events),
      )

  -- The results of a call of `publish`.
  abbrev pub published : List OutboxEvent → Map PublishResult
  published events = assemble (publish_to_destination world config) (group_by_destination events) []

  -- `publish` resolves, and gives each event what the response to its own destination's request means.
  pub get-published :
      (id : Text) (events : List OutboxEvent) (e : OutboxEvent)
      → DistinctIds events
      → event_at id events ≡ some e
      → (publish world config events ≡ resolved (published events))
        × (get id (published events)
            ≡ some (
                outcome_for e.destination_url
                  (group_of (λ e. e.destination_url) e.destination_url events)
                  id))
  unfolding publish group_by_destination
  get-published id events e distinct here = (
    refl,
    get-assemble-group_by (λ e. e.destination_url) (publish_to_destination world config) outcome_for
        answers id events e distinct here,
  )

-- A failure that the publisher answers with carries an error.
pub outcome_in-error :
    (world : World) (reply : Reply) (d : ℕ) (id : Text)
    → ((outcome_in world reply d id).success || not (is_none (outcome_in world reply d id).error))
      ≡ true
unfolding outcome_in individual_result
outcome_in-error world (network_error message) d id = refl
outcome_in-error world (replied status_code body) d id = ground arith
