-- ===== src/Sdk/InboxClient/Checks.antt =====
-- What `receiveBatch` refuses, and that it refuses before any call of the database.
use outboxy.Base.{
  ℕ, ◌+◌, ◌≡◌, refl, ap, ◌∙◌, Bool, true, false, not, ◌&&◌, List, [], ◌∷◌, map, some, Text,
  is_empty, if◌then◌else◌, ◌or_else◌,
}
use mathlib.Core.Path.{subst}
use outboxy.Dialect.{whole, returned, threw}
use outboxy.Sdk.{validation_error, Runtime, validate_fields, validate_idempotency_key, key_field}
use outboxy.Sdk.Calls.{refuse_duplicates}
use outboxy.Sdk.Calls.Verdicts.{
  Verdict, Verdict-and_then, Verdict-then, is_valid_key, is_valid_version, validate_fields-Verdict,
  validate_idempotency_key-Verdict, all_different, refuse_duplicates-Verdict, and-true,
}
use outboxy.Sdk.InboxClient.{receive_batch}
use outboxy.Sdk.InboxEvents.{
  InboxyClient, InboxReceiveEventInput, ValidatedInboxEvent, validate_inbox_event,
  validate_inbox_events, validate_inbox_batch,
}

-- What an event must have: a key of 1 to 255 of the allowed characters, and a positive version if any.
unfoldable pub is_receivable : InboxReceiveEventInput → Bool
is_receivable e = is_valid_key (some e.idempotency_key) && is_valid_version e.event_version

unfoldable pub all_receivable : List InboxReceiveEventInput → Bool
all_receivable [] = true
all_receivable (e ∷ events) = is_receivable e && all_receivable events

-- The event with the defaults of the client.
unfoldable pub with_inbox_defaults : InboxyClient → InboxReceiveEventInput → ValidatedInboxEvent
with_inbox_defaults c event = record {
  idempotency_key = event.idempotency_key;
  aggregate_type = event.aggregate_type;
  aggregate_id = event.aggregate_id;
  event_type = event.event_type;
  event_version = event.event_version or_else whole 1;
  payload = event.payload;
  source = event.source;
  headers = event.headers or_else c.default_headers;
  metadata = event.metadata or_else c.default_metadata;
}

nonempty_key-Verdict :
    (message key : Text)
    → Verdict
        (if is_empty key then threw (validation_error message key_field) else returned (tt {0}))
        tt
        (not (is_empty key))
nonempty_key-Verdict message [] = (_, _, refl)
nonempty_key-Verdict message (c ∷ key) = refl

validate_inbox_event-Verdict :
    (c : InboxyClient) (message : Text) (e : InboxReceiveEventInput)
    → Verdict (validate_inbox_event c message e) (with_inbox_defaults c e) (is_receivable e)
unfolding validate_inbox_event is_receivable with_inbox_defaults
validate_inbox_event-Verdict c message e =
    subst (Verdict (validate_inbox_event c message e) (with_inbox_defaults c e))
      (absorbed e.idempotency_key (is_valid_version e.event_version))
      (Verdict-then _ _ _ (not (is_empty e.idempotency_key)) _
        (nonempty_key-Verdict message e.idempotency_key)
        (Verdict-then (validate_idempotency_key e.idempotency_key) _ _
          (is_valid_key (some e.idempotency_key)) _
          (validate_idempotency_key-Verdict e.idempotency_key)
          (Verdict-then (validate_fields e.event_version) _ _ (is_valid_version e.event_version)
            true (validate_fields-Verdict e.event_version) refl)))
  where
    absorbed :
        (key : Text) (b : Bool)
        → (not (is_empty key) && (is_valid_key (some key) && (b && true)))
          ≡ (is_valid_key (some key) && b)
    absorbed [] b = refl
    absorbed (k ∷ key) b = ap (λ a. is_valid_key (some (k ∷ key)) && a) (and-true b)

validate_inbox_events-Verdict :
    (c : InboxyClient) (index : ℕ) (events : List InboxReceiveEventInput)
    → Verdict
        (validate_inbox_events c index events)
        (map (with_inbox_defaults c) events)
        (all_receivable events)
unfolding validate_inbox_events all_receivable
validate_inbox_events-Verdict c index [] = refl
validate_inbox_events-Verdict c index (e ∷ events) =
    subst
      (Verdict (validate_inbox_events c index (e ∷ events))
        (map (with_inbox_defaults c) (e ∷ events)))
      (ap (λ b. is_receivable e && b) (and-true (all_receivable events)))
      (Verdict-and_then (validate_inbox_event c _ e) _ (with_inbox_defaults c e) _ (is_receivable e)
        _ (validate_inbox_event-Verdict c _ e)
        (Verdict-and_then (validate_inbox_events c (index + 1) events) _
          (map (with_inbox_defaults c) events) _ (all_receivable events) true
          (validate_inbox_events-Verdict c (index + 1) events) refl))

abbrev pub batch_keys : List InboxReceiveEventInput → List Text
batch_keys [] = []
batch_keys (e ∷ events) = e.idempotency_key ∷ batch_keys events

pub keys-with_inbox_defaults :
    (c : InboxyClient) (events : List InboxReceiveEventInput)
    → map (λ e. e.idempotency_key) (map (with_inbox_defaults c) events) ≡ batch_keys events
unfolding with_inbox_defaults
keys-with_inbox_defaults c [] = refl
keys-with_inbox_defaults c (e ∷ events) =
    ap (λ ks. e.idempotency_key ∷ ks) (keys-with_inbox_defaults c events)

-- Every event is receivable, and no key is given twice.
abbrev pub is_valid_inbox_batch : List InboxReceiveEventInput → Bool
is_valid_inbox_batch events = all_receivable events && all_different (batch_keys events)

pub validate_inbox_batch-Verdict :
    (c : InboxyClient) (events : List InboxReceiveEventInput)
    → Verdict
        (validate_inbox_batch c events)
        (map (with_inbox_defaults c) events)
        (is_valid_inbox_batch events)
unfolding validate_inbox_batch
validate_inbox_batch-Verdict c events =
    subst (Verdict (validate_inbox_batch c events) (map (with_inbox_defaults c) events))
      (ap (λ b. all_receivable events && b)
        (and-true _ ∙ ap all_different (keys-with_inbox_defaults c events)))
      (Verdict-and_then (validate_inbox_events c 0 events) _ (map (with_inbox_defaults c) events) _
        (all_receivable events) _ (validate_inbox_events-Verdict c 0 events)
        (Verdict-then (refuse_duplicates keys) _ _ (all_different keys) true
          (refuse_duplicates-Verdict keys) refl))
  where
    keys : List Text
    keys = map (λ e. e.idempotency_key) (map (with_inbox_defaults c) events)

-- A batch with an event that is not receivable (a key that is empty, longer than 255, or of other
-- characters than allowed, or an event version that is no positive integer), or with a key twice, is
-- refused by a validation error before any statement is run and any id is drawn.
pub receive_batch-refuses {ℓ} :
    {W : Type ℓ} (r : Runtime W) (c : InboxyClient) (fuel : ℕ)
    (events : List InboxReceiveEventInput) (w : W)
    → is_valid_inbox_batch events ≡ false
    → (message : Text) × (field : Text) × (receive_batch r c fuel events w
        ≡ some (w, threw (validation_error message field)))
unfolding receive_batch all_receivable all_different
receive_batch-refuses r c fuel [] w invalid = absurd cc
receive_batch-refuses r c fuel (e ∷ events) w invalid =
    let (message, field, refused) =
      subst
        (Verdict (validate_inbox_batch c (e ∷ events)) (map (with_inbox_defaults c) (e ∷ events)))
        invalid (validate_inbox_batch-Verdict c (e ∷ events)) in
    (message, field, rw refused refl)
