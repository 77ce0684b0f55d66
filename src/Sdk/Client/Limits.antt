-- ===== src/Sdk/Client/Limits.antt =====
-- No statement of `publishBatch` has more parameters than the dialect allows.
use outboxy.Base.{
  ℕ, ◌+◌, ◌*◌, ◌/◌, ◌≤◌, ◌≡◌, refl, Bool, true, false, List, [], ◌∷◌, map, Option, none, some, Text,
  codes, length, if◌then◌else◌, arith, Bool-cases, inl, inr,
}
use outboxy.Dialect.{Value, threw}
use outboxy.Dialect.Render.{all_params}
use outboxy.Dialect.Placeholders.{HasWidth}
use outboxy.Dialect.Contract.{PassesIds, IsLawful}
use outboxy.Sdk.{validation_error, Runtime, safe_stringify}
use outboxy.Sdk.Calls.{new_ids, each_id, columns_for}
use outboxy.Sdk.Calls.Holds.{
  Holds, Holds->>=, Holds-any, new_ids-keeps, length-all_params, Holds-Carries, Keeps,
  run_statement-keeps, with_values-keeps,
}
use outboxy.Sdk.Chunks.{Answer}
use outboxy.Sdk.Chunks.Termination.{in_turn, in_turn-keeps}
use outboxy.Sdk.Client.{
  base_columns, base_values, event_rows, inserted, insert_events, max_events_per_batch,
  publish_batch,
}
use outboxy.Sdk.Events.{OutboxyClient, PublishEventInput, ValidatedEvent}
use outboxy.Sdk.Client.Batches.{is_valid_batch, publish_batch-refuses, publish_batch-sends}

-- The number of columns.
abbrev pub width_of : Bool → ℕ
width_of true = 12
width_of false = 13

module _ {ℓ} {W : Type ℓ} (r : Runtime W) where
  base_values-length : (e : ValidatedEvent) → Holds (λ vs. length vs ≡ 12) (base_values r e)
  unfolding base_values
  base_values-length e =
      Holds->>= (λ v. Unit) _ (safe_stringify e.payload _) _ (Holds-any _)
        λ payload h.
          Holds->>= (λ v. Unit) _ (safe_stringify (r.inject e.headers) _) _ (Holds-any _)
            λ headers h.
              Holds->>= (λ v. Unit) _ (safe_stringify e.metadata _) _ (Holds-any _)
                λ metadata h. refl

  -- The rows, if they are made: one for each event, as wide as the columns.
  abbrev pub AreRows : ℕ → ℕ → List (List Value) → Type 0
  AreRows width n rows = HasWidth width rows × (length rows ≡ n)

  pub event_rows-AreRows :
      (returning : Bool) (ids : Option (List Text)) (events : List ValidatedEvent)
      → PassesIds returning ids (length events)
      → Holds (AreRows (width_of returning) (length events)) (event_rows r (each_id ids) events)
  unfolding event_rows
  event_rows-AreRows false none events h = absurd h
  event_rows-AreRows true (some _) events h = absurd h
  event_rows-AreRows true none [] h = (tt, refl)
  event_rows-AreRows true none (e ∷ events) h =
      Holds->>= _ _ (base_values r e) _ (base_values-length e) λ values wide.
        Holds->>= _ _ (event_rows r [] events) _ (event_rows-AreRows true none events tt)
          λ rows h'. ((wide, h'.0), omega (arith, h'.1))
  event_rows-AreRows false (some []) [] h = (tt, refl)
  event_rows-AreRows false (some (id ∷ ids)) [] h = absurd (omega arith)
  event_rows-AreRows false (some []) (e ∷ events) h = absurd (omega arith)
  event_rows-AreRows false (some (id ∷ ids)) (e ∷ events) h =
      Holds->>= _ _ (base_values r e) _ (base_values-length e) λ values wide.
        Holds->>= _ _ (event_rows r (map some ids) events) _
          (event_rows-AreRows false (some ids) events (omega arith))
          λ rows h'. ((omega (arith, wide), h'.0), omega (arith, h'.1))

fits :
    (returning : Bool) (n limit : ℕ)
    → n ≤ limit / (if returning then 12 else 13)
    → n * width_of returning ≤ limit
fits true n limit h = omega arith
fits false n limit h = omega arith

module _ {ℓ} {W : Type ℓ} (r : Runtime W) (c : OutboxyClient) (lawful : IsLawful c.dialect)
    (Inv : W → Type 0) (keeps : Keeps r c.dialect.max_parameters Inv) where
  insert_events-keeps :
      (events : List ValidatedEvent) (w : W)
      → length events ≤ max_events_per_batch c
      → Inv w
      → Inv (insert_events r c events w).0
  unfolding insert_events max_events_per_batch
  insert_events-keeps events w few h =
      let ids =
        new_ids-keeps r c.dialect.max_parameters Inv keeps c.dialect.supports_returning events w
          h in
      with_values-keeps r _ Inv keeps
        (AreRows r (width_of c.dialect.supports_returning) (length events))
        (event_rows r (each_id (new_ids r c.dialect.supports_returning events w).1) events) _ _
        (event_rows-AreRows r c.dialect.supports_returning _ events ids.1)
        (λ rows shape.
          run_statement-keeps r _ Inv keeps
            (codes "Database connection failed while inserting events")
            (inserted r (new_ids r c.dialect.supports_returning events w).1) _ _
            (Holds-Carries _ _ (all_params rows)
              (lawful.bulk_insert_carries
                (record {
                  columns = columns_for c.dialect.supports_returning base_columns;
                  rows = rows;
                  generated_ids = (new_ids r c.dialect.supports_returning events w).1;
                })
                (rw shape.1 ids.1))
              (rw (length-all_params _ rows shape.0, shape.1)
                (fits c.dialect.supports_returning (length events) c.dialect.max_parameters few)))
            ids.0)
        ids.0

  -- `publishBatch` keeps whatever the runtime keeps of the world as long as no statement has more
  -- parameters than the dialect allows: so it runs no statement with more, however long the batch is.
  -- The dialect carries the values of the rows, and allows 13 parameters or more; as many rounds of fuel
  -- as there are events, and two more, are given.
  pub publish_batch-within_limit :
      (fuel : ℕ) (events : List PublishEventInput) (w : W)
      → 13 ≤ c.dialect.max_parameters
      → length events + 2 ≤ fuel
      → Inv w
      → (answer : Answer W Text) × (publish_batch r c fuel events w ≡ some answer) × Inv answer.0
  publish_batch-within_limit fuel events w room enough h =
      elim (Bool-cases (is_valid_batch c events)) [
        | inl valid ↦
            let (chunks, all, small, sent) =
              publish_batch-sends r c fuel events w room valid enough in
            (
              in_turn (insert_events r c) chunks w,
              sent,
              in_turn-keeps (insert_events r c) Inv (λ chunk. length chunk ≤ max_events_per_batch c)
                  insert_events-keeps chunks w small h,
            )
        | inr invalid ↦
            let (message, field, refused) = publish_batch-refuses r c fuel events w invalid in
            ((w, threw (validation_error message field)), refused, h)
      ]
