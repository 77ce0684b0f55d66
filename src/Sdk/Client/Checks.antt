-- ===== src/Sdk/Client/Checks.antt =====
-- What `publishBatch` refuses, and that it refuses before any call of the database.
use outboxy.Base.{
  ℕ, ◌+◌, ◌≡◌, refl, ap, Bool, true, false, not, ◌&&◌, List, [], ◌∷◌, map, Option, none, some, Text,
  member, is_empty, ◌or_else◌, arith, Bool-cases, inl, inr,
}
use mathlib.Core.Path.{subst}
use outboxy.Dialect.{whole}
use outboxy.Sdk.{
  validate_fields, validate_optional_key, validate_destination_type, destination_types,
}
use outboxy.Sdk.Calls.Verdicts.{
  Verdict, Verdict-and_then, Verdict-then, is_valid_key, is_valid_version, validate_fields-Verdict,
  validate_destination_type-Verdict, validate_optional_key-Verdict, all_different,
  refuse_duplicates-Verdict, and-true,
}
use outboxy.Sdk.Calls.{refuse_duplicates}
use outboxy.Sdk.Events.{
  OutboxyClient, PublishEventInput, ValidatedEvent, text_or, require_url, validate_event,
  validate_events, keys_in_batch, validate_batch,
}

abbrev pub is_given : Option Text → Bool
is_given none = false
is_given (some t) = not (is_empty t)

-- What an event must have: a URL of its own or by default, a known destination type, a positive
-- version if any, and if any a key of 1 to 255 of the allowed characters.
unfoldable pub is_publishable : OutboxyClient → PublishEventInput → Bool
is_publishable c e =
    is_given (text_or e.destination_url c.default_destination_url)
    && member (e.destination_type or_else c.default_destination_type) destination_types
    && is_valid_version e.event_version
    && is_valid_key e.idempotency_key

unfoldable pub all_publishable : OutboxyClient → List PublishEventInput → Bool
all_publishable c [] = true
all_publishable c (e ∷ events) = is_publishable c e && all_publishable c events

-- The event with the defaults of the client.
unfoldable pub with_defaults : OutboxyClient → PublishEventInput → ValidatedEvent
with_defaults c event = record {
  aggregate_type = event.aggregate_type;
  aggregate_id = event.aggregate_id;
  event_type = event.event_type;
  event_version = event.event_version or_else whole 1;
  payload = event.payload;
  headers = event.headers or_else c.default_headers;
  destination_url = text_or event.destination_url c.default_destination_url or_else [];
  destination_type = event.destination_type or_else c.default_destination_type;
  idempotency_key = event.idempotency_key;
  max_retries = event.max_retries or_else c.default_max_retries;
  metadata = event.metadata or_else c.default_metadata;
}

require_url-Verdict :
    (message : Text) (url : Option Text)
    → Verdict (require_url message url) (url or_else []) (is_given url)
require_url-Verdict message none = (_, _, refl)
require_url-Verdict message (some url) = elim (Bool-cases (is_empty url)) [
  | inl empty ↦ rw empty (_, _, refl)
  | inr full ↦ rw full refl
]

and_assoc : (a b c d : Bool) → (a && (b && (c && (d && true)))) ≡ (a && b && c && d)
and_assoc a b c d = ground arith

validate_event-Verdict :
    (c : OutboxyClient) (message : Text) (e : PublishEventInput)
    → Verdict (validate_event c message e) (with_defaults c e) (is_publishable c e)
unfolding validate_event is_publishable with_defaults
validate_event-Verdict c message e =
    subst (Verdict (validate_event c message e) (with_defaults c e))
      (and_assoc given known version key)
      (Verdict-and_then (require_url message url) _ (url or_else []) (with_defaults c e) given
        (known && (version && (key && true))) (require_url-Verdict message url)
        (Verdict-then
          (validate_destination_type (e.destination_type or_else c.default_destination_type)) _ _
          known _
          (validate_destination_type-Verdict
            (e.destination_type or_else c.default_destination_type))
          (Verdict-then (validate_fields e.event_version) _ _ version _
            (validate_fields-Verdict e.event_version)
            (Verdict-then (validate_optional_key e.idempotency_key) _ _ key true
              (validate_optional_key-Verdict e.idempotency_key) refl))))
  where
    url : Option Text
    url = text_or e.destination_url c.default_destination_url

    given : Bool
    given = is_given url

    known : Bool
    known = member (e.destination_type or_else c.default_destination_type) destination_types

    version : Bool
    version = is_valid_version e.event_version

    key : Bool
    key = is_valid_key e.idempotency_key

validate_events-Verdict :
    (c : OutboxyClient) (index : ℕ) (events : List PublishEventInput)
    → Verdict
        (validate_events c index events)
        (map (with_defaults c) events)
        (all_publishable c events)
unfolding validate_events all_publishable
validate_events-Verdict c index [] = refl
validate_events-Verdict c index (e ∷ events) =
    subst (Verdict (validate_events c index (e ∷ events)) (map (with_defaults c) (e ∷ events)))
      (ap (λ b. is_publishable c e && b) (and-true (all_publishable c events)))
      (Verdict-and_then (validate_event c _ e) _ (with_defaults c e) _ (is_publishable c e) _
        (validate_event-Verdict c _ e)
        (Verdict-and_then (validate_events c (index + 1) events) _ (map (with_defaults c) events) _
          (all_publishable c events) true (validate_events-Verdict c (index + 1) events) refl))

pub validate_batch-Verdict :
    (c : OutboxyClient) (events : List PublishEventInput)
    → Verdict
        (validate_batch c events)
        (map (with_defaults c) events)
        (all_publishable c events && all_different (keys_in_batch (map (with_defaults c) events)))
unfolding validate_batch
validate_batch-Verdict c events =
    subst (Verdict (validate_batch c events) (map (with_defaults c) events))
      (ap (λ b. all_publishable c events && b) (and-true _))
      (Verdict-and_then (validate_events c 0 events) _ (map (with_defaults c) events) _
        (all_publishable c events) _ (validate_events-Verdict c 0 events)
        (Verdict-then (refuse_duplicates keys) _ _ (all_different keys) true
          (refuse_duplicates-Verdict keys) refl))
  where
    keys : List Text
    keys = keys_in_batch (map (with_defaults c) events)
