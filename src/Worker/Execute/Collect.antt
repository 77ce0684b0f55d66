-- ===== src/Worker/Execute/Collect.antt =====
-- What the first loop of `executeBatchProcessing` leaves in its maps, for events with distinct ids.
use mathlib.Core.Path.{subst, sym}
use outboxy.Base.{
  ℕ, ◌≡◌, refl, ap, Bool, true, false, not, ◌||◌, List, [], ◌∷◌, ◌++◌, map, Option, none, some,
  Text, Map, get, get-set, UniqueKeys, set-UniqueKeys, text_eq_iff, member, find, is_none, All,
  arith, Bool-cases, Option-cases, ◌∙◌, inl, inr,
}
use outboxy.Schema.{OutboxEvent}
use outboxy.Schema.Events.{event_at, event_ids, DistinctIds, event_at-none}
use outboxy.Publisher.{PublishResult, Publication, resolved, rejected}
use outboxy.Worker.Metrics.{Sample, record_success, record_failure}
use outboxy.Worker.Execute.{
  EventProcessingResult, processing_result, publish_events, Collected, collected, collect_maps,
  set_some, record_result, collect_from,
}

-- What publishing came to for one event.
unfoldable pub result_of : Publication → ℕ → OutboxEvent → EventProcessingResult
unfolding processing_result
result_of (resolved results) duration_ms e = processing_result duration_ms e (get e.id results)
result_of (rejected error) duration_ms e = record {
  event = e;
  success = false;
  error = some error;
  retryable = true;
  duration_ms = duration_ms;
}

pub publish_events-map :
    (p : Publication) (duration_ms : ℕ) (events : List OutboxEvent)
    → publish_events p duration_ms events ≡ map (result_of p duration_ms) events
unfolding publish_events result_of
publish_events-map (resolved results) duration_ms events = refl
publish_events-map (rejected error) duration_ms events = refl

pub result_of-event :
    (p : Publication) (duration_ms : ℕ) (e : OutboxEvent) → (result_of p duration_ms e).event ≡ e
unfolding result_of
result_of-event (resolved results) duration_ms e = ground arith
result_of-event (rejected error) duration_ms e = refl

-- The entry for an event in the map of results.
abbrev pub entry_of : EventProcessingResult → PublishResult
entry_of r = record {
  success = r.success;
  error = r.error;
  retryable = r.retryable;
  duration_ms = none;
}

-- Recording the metrics of an event does not throw: there are none, or it succeeded, or it failed
-- with an error.
abbrev pub is_explained : Bool → EventProcessingResult → Bool
is_explained metrics r = not metrics || r.success || not (is_none r.error)

record_failure-some :
    (metrics : Bool) (e : OutboxEvent) (error : Option Text) (retryable : Bool) (duration_ms : ℕ)
    → (not metrics || not (is_none error)) ≡ true
    → (samples : List Sample) × (record_failure metrics e error retryable duration_ms
        ≡ some samples)
unfolding record_failure
record_failure-some false e error retryable duration_ms h = ([], refl)
record_failure-some true e none retryable duration_ms h = cc
record_failure-some true e (some error) retryable duration_ms h = (_, refl)

pub record_result-some :
    (metrics : Bool) (r : EventProcessingResult)
    → is_explained metrics r ≡ true
    → (samples : List Sample) × (record_result metrics r ≡ some samples)
unfolding record_result
record_result-some metrics r h = elim (Bool-cases r.success) [
  | inl t ↦ (record_success metrics r.event r.duration_ms, rw t)
  | inr f ↦
      rw f (record_failure-some metrics r.event r.error r.retryable r.duration_ms (ground arith))
]

module _ (metrics : Bool) (p : Publication) (duration_ms : ℕ) where
  abbrev pub Explained : List OutboxEvent → Type 0
  Explained = All (λ e. is_explained metrics (result_of p duration_ms e) ≡ true)

  -- What stands under an id in the maps after the loop, from what stood there before.
  abbrev pub after_event {ℓ} :
      {V : Type ℓ} → (EventProcessingResult → Option V) → Option V → Option OutboxEvent → Option V
  after_event value old none = old
  after_event value old (some e) = elim (value (result_of p duration_ms e)) [
    | none ↦ old
    | some v ↦ some v
  ]

  after_own_event :
      {V : Type 0} (value : EventProcessingResult → Option V) (m : Map V) (id : Text)
      (e : OutboxEvent) (es : List OutboxEvent)
      → member e.id (event_ids es) ≡ false
      → after_event value
          (get id (set_some e.id (value (result_of p duration_ms e)) m))
          (event_at id es)
        ≡ after_event value (get id m) (event_at id (e ∷ es))
  unfolding find
  after_own_event value m id e es fresh = elim (Option-cases (value (result_of p duration_ms e))) [
    | inl nothing ↦ ground (arith, text_eq_iff e.id id, event_at-none e.id es fresh)
    | inr (v, present) ↦
        ground (arith, text_eq_iff e.id id, event_at-none e.id es fresh, get-set e.id id v m)
  ]

  after_event-cons :
      {V : Type 0} (value : EventProcessingResult → Option V) (m : Map V) (id : Text)
      (e : OutboxEvent) (es : List OutboxEvent)
      → member e.id (event_ids es) ≡ false
      → after_event value
          (get id
            (set_some (result_of p duration_ms e).event.id (value (result_of p duration_ms e)) m))
          (event_at id es)
        ≡ after_event value (get id m) (event_at id (e ∷ es))
  after_event-cons value m id e es fresh =
      subst
        (λ k.
          after_event value (get id (set_some k (value (result_of p duration_ms e)) m))
            (event_at id es)
          ≡ after_event value (get id m) (event_at id (e ∷ es)))
        (ap (λ x. x.id) (sym (result_of-event p duration_ms e)))
        (after_own_event value m id e es fresh)

  pub record Collects (c : Collected) (es : List OutboxEvent) (c' : Collected) : Type 0 where
    pub results :
        (id : Text)
        → get id c'.results_map
          ≡ after_event (λ r. some (entry_of r)) (get id c.results_map) (event_at id es)
    pub counts :
        (id : Text)
        → get id c'.retry_count_map
          ≡ after_event (λ r. some r.event.retry_count) (get id c.retry_count_map) (event_at id es)
    pub errors :
        (id : Text)
        → get id c'.error_messages
          ≡ after_event (λ r. r.error) (get id c.error_messages) (event_at id es)
    pub unique : UniqueKeys c.results_map → UniqueKeys c'.results_map

  Collects-cons :
      (c c' : Collected) (samples : List Sample) (e : OutboxEvent) (es : List OutboxEvent)
      → member e.id (event_ids es) ≡ false
      → Collects (record (collect_maps (result_of p duration_ms e) c) { samples = samples }) es c'
      → Collects c (e ∷ es) c'
  unfolding collect_maps
  Collects-cons c c' samples e es fresh ih = record {
    results =
        λ id. ih.results id ∙ after_event-cons (λ r. some (entry_of r)) c.results_map id e es fresh;
    counts = λ id.
        ih.counts id
        ∙ after_event-cons (λ r. some r.event.retry_count) c.retry_count_map id e es fresh;
    errors = λ id. ih.errors id ∙ after_event-cons (λ r. r.error) c.error_messages id e es fresh;
    unique = λ u. ih.unique (set-UniqueKeys _ _ c.results_map u);
  }

  pub collect_from-Collects :
      (c : Collected) (es : List OutboxEvent)
      → DistinctIds es
      → Explained es
      → (c' : Collected) × (collect_from metrics c (map (result_of p duration_ms) es)
          ≡ collected c')
        × Collects c es c'
  unfolding collect_from find
  collect_from-Collects c [] d x = (
    c,
    refl,
    record { results = λ id. refl; counts = λ id. refl; errors = λ id. refl; unique = λ u. u },
  )
  collect_from-Collects c (e ∷ es) d x =
      let r = result_of p duration_ms e in
      let (samples, recorded) = record_result-some metrics r x.0 in
      let c₁ = record (collect_maps r c) { samples = c.samples ++ samples } in
      let (c', run, ih) = collect_from-Collects c₁ es d.1 x.1 in
      (c', rw (recorded, collect_from) run, Collects-cons c c' _ e es d.0 ih)
