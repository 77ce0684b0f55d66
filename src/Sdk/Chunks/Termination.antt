-- ===== src/Sdk/Chunks/Termination.antt =====
-- The chunking ends, and amounts to the inserts of the chunks one after another.
use outboxy.Base.{
  ℕ, zero, suc, ◌+◌, ◌≤◌, ◌<◌, ◌≡◌, refl, sym, ap, ◌∙◌, true, false, List, [], ◌∷◌, ◌++◌, Option,
  some, length, take, drop, ltb, arith, All, length-take-le, Bool-cases, inl, inr,
}
use mathlib.Core.List.{append_assoc, append-nil}
use outboxy.Dialect.{returned, threw}
use outboxy.Sdk.Chunks.Lists.{
  concat, chunks, length-drop, drop-drop, chunks-cons, chunks-end, chunks-small, concat-chunks,
}
use outboxy.Sdk.Chunks.{Answer, await, chunk_loop, bulk_insert}

module _ {ℓ μ} {W : Type ℓ} {R : Type μ} where
  -- The results before, and those of an answer.
  abbrev pub with_results : List R → Answer W R → Answer W R
  with_results before (w, threw f) = (w, threw f)
  with_results before (w, returned rs) = (w, returned (before ++ rs))

  -- The next call, unless one threw.
  abbrev pub and_then : Answer W R → (W → Answer W R) → Answer W R
  and_then (w, threw f) next = (w, threw f)
  and_then (w, returned rs) next = with_results rs (next w)

  with_results-append :
      (before rs : List R) (a : Answer W R)
      → with_results (before ++ rs) a ≡ with_results before (with_results rs a)
  with_results-append before rs (w, threw f) = refl
  with_results-append before rs (w, returned rs') =
      ap (λ r. (w, returned r)) (append_assoc before rs rs')

  with_results-world :
      (Inv : W → Type 0) (rs : List R) (a : Answer W R) → Inv a.0 → Inv (with_results rs a).0
  with_results-world Inv rs (w, threw f) h = h
  with_results-world Inv rs (w, returned rs') h = h

  with_results-nil : (a : Answer W R) → with_results [] a ≡ a
  with_results-nil (w, threw f) = refl
  with_results-nil (w, returned rs) = refl

  and_then-done : (a : Answer W R) → and_then a (λ w. (w, returned [])) ≡ a
  and_then-done (w, threw f) = refl
  and_then-done (w, returned rs) = ap (λ r. (w, returned r)) (append-nil rs)

module _ {ℓ κ μ} {W : Type ℓ} {E : Type κ} {R : Type μ} (insert : List E → W → Answer W R) where
  -- An insert for each list, one after another, up to the first that throws.
  unfoldable pub in_turn : List (List E) → W → Answer W R
  in_turn [] w = (w, returned [])
  in_turn (c ∷ cs) w = and_then (insert c w) (in_turn cs)

  and_then-keeps :
      (Inv : W → Type 0) (a : Answer W R) (next : W → Answer W R)
      → Inv a.0
      → ((w : W) → Inv w → Inv (next w).0)
      → Inv (and_then a next).0
  and_then-keeps Inv (w, threw f) next h k = h
  and_then-keeps Inv (w, returned rs) next h k = with_results-world Inv rs (next w) (k w h)

  -- What each insert keeps is kept.
  pub in_turn-keeps :
      (Inv : W → Type 0) (P : List E → Type 0)
      → ((c : List E) (w : W) → P c → Inv w → Inv (insert c w).0)
      → (cs : List (List E)) (w : W) → All P cs
      → Inv w
      → Inv (in_turn cs w).0
  unfolding in_turn
  in_turn-keeps Inv P keep [] w small h = h
  in_turn-keeps Inv P keep (c ∷ cs) w small h =
      and_then-keeps Inv (insert c w) (in_turn cs) (keep c w small.0 h)
        (λ w' h'. in_turn-keeps Inv P keep cs w' small.1 h')

module _ {ℓ κ μ} {W : Type ℓ} {E : Type κ} {R : Type μ} (insert : List E → W → Answer W R)
    (size : ℕ) (pos : 1 ≤ size) where
  module _ (send : List E → W → Option (Answer W R))
      (sends : (c : List E) (w : W) → length c ≤ size → send c w ≡ some (insert c w)) where
    await-in_turn :
        (a : Answer W R) (acc : List R) (next : List R → W → Option (Answer W R))
        (rest : W → Answer W R)
        → ((rs : List R) (w : W) → next rs w ≡ some (with_results (acc ++ rs) (rest w)))
        → await (some a) next ≡ some (with_results acc (and_then a rest))
    await-in_turn (w, threw f) acc next rest h = refl
    await-in_turn (w, returned rs) acc next rest h =
        h rs w ∙ ap some (with_results-append acc rs (rest w))

    chunk_loop-ends :
        (k fuel i : ℕ) (acc : List R) (events : List E) (w : W)
        → ltb i (length events) ≡ false
        → chunk_loop send size (suc fuel) i acc events w
          ≡ some (with_results acc (in_turn insert (chunks size k (drop i events)) w))
    unfolding chunk_loop in_turn
    chunk_loop-ends k fuel i acc events w over =
        rw
          (
            chunk_loop,
            over,
            chunks-end size k (drop i events) (length-drop i events ∙ ground arith),
            append-nil acc,
          )
          refl

    chunk_loop-in_turn :
        (k fuel i : ℕ) (acc : List R) (events : List E) (w : W)
        → length (drop i events) ≤ k
        → k < fuel
        → chunk_loop send size fuel i acc events w
          ≡ some (with_results acc (in_turn insert (chunks size k (drop i events)) w))
    unfolding chunk_loop in_turn
    chunk_loop-in_turn k zero i acc events w few enough = absurd (omega arith)
    chunk_loop-in_turn zero (suc fuel) i acc events w few enough =
        chunk_loop-ends zero fuel i acc events w (ground (arith, length-drop i events))
    chunk_loop-in_turn (suc k) (suc fuel) i acc events w few enough =
        elim (Bool-cases (ltb i (length events))) [
          | inr over ↦ chunk_loop-ends (suc k) fuel i acc events w over
          | inl more ↦
              let left : 0 < length (drop i events) = ground (arith, length-drop i events) in
              rw
                (
                  chunk_loop,
                  more,
                  sends (take size (drop i events)) w (length-take-le size (drop i events)),
                  chunks-cons size k (drop i events) left,
                )
                (await-in_turn (insert (take size (drop i events)) w) acc _
                  (in_turn insert (chunks size k (drop size (drop i events))))
                  λ rs w'.
                    chunk_loop-in_turn k fuel (i + size) (acc ++ rs) events w'
                      (omega (arith, length-drop i events, length-drop (i + size) events))
                      (omega arith)
                    ∙ ap
                        (λ r. some (with_results (acc ++ rs) (in_turn insert (chunks size k r) w')))
                        (sym (drop-drop i size events)))
        ]

  pub bulk_insert-small :
      (fuel : ℕ) (events : List E) (w : W)
      → 1 ≤ fuel
      → length events ≤ size
      → bulk_insert insert size fuel events w ≡ some (insert events w)
  unfolding bulk_insert
  bulk_insert-small zero events w enough few = absurd (omega arith)
  bulk_insert-small (suc fuel) events w enough few =
      let fits : ltb size (length events) ≡ false = ground arith in rw (bulk_insert, fits) refl

  bulk_insert-large :
      (fuel : ℕ) (events : List E) (w : W)
      → ltb size (length events) ≡ true
      → length events + 2 ≤ fuel
      → bulk_insert insert size fuel events w
        ≡ some (in_turn insert (chunks size (length events) events) w)
  unfolding bulk_insert
  bulk_insert-large zero events w large enough = absurd (omega arith)
  bulk_insert-large (suc fuel) events w large enough =
      rw (bulk_insert, large)
        (chunk_loop-in_turn (bulk_insert insert size fuel)
            (λ c w' few. bulk_insert-small fuel c w' (omega arith) few) (length events) fuel 0 []
            events w (omega arith) (omega arith)
          ∙ ap some (with_results-nil _))

  -- `bulkInsert` ends, with `length events + 2` rounds of fuel as with more, if a chunk has room for an
  -- event: it sends the events in order, in chunks of at most `size`, up to the first chunk that
  -- throws, and answers with the results of all chunks in order.
  pub bulk_insert-ends :
      (events : List E) (fuel : ℕ) (w : W)
      → length events + 2 ≤ fuel
      → (cs : List (List E)) × (concat cs ≡ events)
        × All (λ c. length c ≤ size) cs
        × (bulk_insert insert size fuel events w ≡ some (in_turn insert cs w))
  unfolding in_turn
  bulk_insert-ends events fuel w enough = elim (Bool-cases (ltb size (length events))) [
    | inl large ↦ (
      chunks size (length events) events,
      concat-chunks size (length events) events pos (omega arith),
      chunks-small size (length events) events,
      bulk_insert-large fuel events w large enough,
    )
    | inr small ↦ (
      events ∷ [],
      append-nil events,
      (ground arith, tt),
      bulk_insert-small fuel events w (omega arith) (ground arith)
          ∙ ap some (sym (and_then-done (insert events w))),
    )
  ]
