-- ===== src/Sdk/Client/Batches.antt =====
-- `publishBatch`: what it refuses, and what it sends.
use outboxy.Base.{
  ℕ, ◌+◌, ◌≤◌, ◌≡◌, refl, Bool, true, false, ◌&&◌, List, [], ◌∷◌, map, some, Text, length, arith,
  All, length-map, Bool-cases, inl, inr,
}
use mathlib.Core.Path.{subst}
use outboxy.Dialect.{returned, threw}
use outboxy.Sdk.{validation_error, Runtime}
use outboxy.Sdk.Calls.Verdicts.{Verdict, all_different}
use outboxy.Sdk.Chunks.Lists.{concat}
use outboxy.Sdk.Chunks.Termination.{in_turn, bulk_insert-ends}
use outboxy.Sdk.Client.{insert_events, max_events_per_batch, publish_batch}
use outboxy.Sdk.Events.{
  OutboxyClient, PublishEventInput, ValidatedEvent, keys_in_batch, validate_batch,
}
use outboxy.Sdk.Client.Checks.{all_publishable, with_defaults, validate_batch-Verdict}

-- Every event is publishable, and no idempotency key is given twice.
abbrev pub is_valid_batch : OutboxyClient → List PublishEventInput → Bool
is_valid_batch c events =
    all_publishable c events && all_different (keys_in_batch (map (with_defaults c) events))

pub max_events_per_batch-pos :
    (c : OutboxyClient) → 13 ≤ c.dialect.max_parameters → 1 ≤ max_events_per_batch c
unfolding max_events_per_batch
max_events_per_batch-pos c room = elim (Bool-cases c.dialect.supports_returning) [
  | inl returns ↦ rw returns (omega arith)
  | inr none ↦ rw none (omega arith)
]

module _ {ℓ} {W : Type ℓ} (r : Runtime W) (c : OutboxyClient) where
  -- A batch with an event that is not publishable (no URL of its own or by default, an unknown
  -- destination type, an event version that is no positive integer, or a key that is empty, longer than
  -- 255, or of other characters than allowed), or with a key twice, is refused by a validation error
  -- before any statement is run and any id is drawn.
  pub publish_batch-refuses :
      (fuel : ℕ) (events : List PublishEventInput) (w : W)
      → is_valid_batch c events ≡ false
      → (message : Text) × (field : Text) × (publish_batch r c fuel events w
          ≡ some (w, threw (validation_error message field)))
  unfolding publish_batch all_publishable keys_in_batch all_different
  publish_batch-refuses fuel [] w invalid = absurd cc
  publish_batch-refuses fuel (e ∷ events) w invalid =
      let (message, field, refused) =
        subst (Verdict (validate_batch c (e ∷ events)) (map (with_defaults c) (e ∷ events))) invalid
          (validate_batch-Verdict c (e ∷ events)) in
      (message, field, rw refused refl)

  -- `publishBatch` of a valid batch ends, if a statement may have 13 parameters or more: it inserts the
  -- events with their defaults, all of them and in order, by statements of at most as many events as
  -- have room, up to the first that throws. As many rounds of fuel as there are events, and two more,
  -- are enough.
  pub publish_batch-sends :
      (fuel : ℕ) (events : List PublishEventInput) (w : W)
      → 13 ≤ c.dialect.max_parameters
      → is_valid_batch c events ≡ true
      → length events + 2 ≤ fuel
      → (chunks : List (List ValidatedEvent)) × (concat chunks ≡ map (with_defaults c) events)
        × All (λ chunk. length chunk ≤ max_events_per_batch c) chunks
        × (publish_batch r c fuel events w ≡ some (in_turn (insert_events r c) chunks w))
  unfolding publish_batch in_turn
  publish_batch-sends fuel [] w room valid enough = ([], refl, tt, refl)
  publish_batch-sends fuel (e ∷ events) w room valid enough =
      let validated : validate_batch c (e ∷ events)
          ≡ returned (map (with_defaults c) (e ∷ events)) =
        subst (Verdict (validate_batch c (e ∷ events)) (map (with_defaults c) (e ∷ events))) valid
          (validate_batch-Verdict c (e ∷ events)) in
      let (chunks, all, small, sent) =
        bulk_insert-ends (insert_events r c) (max_events_per_batch c)
          (max_events_per_batch-pos c room) (map (with_defaults c) (e ∷ events)) fuel w
          (omega (arith, length-map (with_defaults c) (e ∷ events))) in
      (chunks, all, small, rw (validated) sent)
