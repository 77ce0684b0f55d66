-- ===== src/Sdk/Chunks/Lists.antt =====
-- The chunks of a list: what `slice(i, i + size)` gives for i = 0, size, 2 size, ...
use outboxy.Base.{
  ℕ, zero, suc, ◌+◌, ◌-◌, ◌≤◌, ◌<◌, ◌≡◌, refl, sym, ap, ◌∙◌, List, [], ◌∷◌, ◌++◌, length, take,
  drop, arith, All, length-take-le, take-append-drop,
}

abbrev pub concat {ℓ} : {E : Type ℓ} → List (List E) → List E
concat [] = []
concat (c ∷ cs) = c ++ concat cs

-- The chunks of a list, at most `n`.
unfoldable pub chunks {κ} : {E : Type κ} → ℕ → ℕ → List E → List (List E)
chunks size zero events = []
chunks size (suc n) [] = []
chunks size (suc n) (e ∷ events) = take size (e ∷ events) ∷ chunks size n (drop size (e ∷ events))

module _ {κ} {E : Type κ} where
  pub length-drop : (n : ℕ) (xs : List E) → length (drop n xs) ≡ length xs - n
  length-drop zero xs = omega arith
  length-drop (suc n) [] = omega arith
  length-drop (suc n) (x ∷ xs) = omega (arith, length-drop n xs)

  drop-nil : (n : ℕ) → drop {A = E} n [] ≡ []
  drop-nil zero = refl
  drop-nil (suc n) = refl

  pub drop-drop : (n m : ℕ) (xs : List E) → drop m (drop n xs) ≡ drop (n + m) xs
  drop-drop zero m xs = ap (λ k. drop k xs) {x = m} (omega arith)
  drop-drop (suc n) m [] = drop-nil m ∙ sym (drop-nil (suc n + m))
  drop-drop (suc n) m (x ∷ xs) =
      drop-drop n m xs ∙ ap (λ k. drop k (x ∷ xs)) {x = suc (n + m)} (omega arith)

  pub chunks-cons :
      (size n : ℕ) (xs : List E)
      → 0 < length xs
      → chunks size (suc n) xs ≡ take size xs ∷ chunks size n (drop size xs)
  unfolding chunks
  chunks-cons size n [] h = absurd (omega arith)
  chunks-cons size n (x ∷ xs) h = refl

  pub chunks-end : (size n : ℕ) (xs : List E) → length xs ≡ 0 → chunks size n xs ≡ []
  unfolding chunks
  chunks-end size zero xs h = refl
  chunks-end size (suc n) [] h = refl
  chunks-end size (suc n) (x ∷ xs) h = absurd (omega arith)

  -- Enough chunks are the whole list.
  pub concat-chunks :
      (size n : ℕ) (xs : List E) → 1 ≤ size → length xs ≤ n → concat (chunks size n xs) ≡ xs
  unfolding chunks
  concat-chunks size zero [] pos h = refl
  concat-chunks size zero (x ∷ xs) pos h = absurd (omega arith)
  concat-chunks size (suc n) [] pos h = refl
  concat-chunks size (suc n) (x ∷ xs) pos h =
      ap (λ t. take size (x ∷ xs) ++ t)
        (concat-chunks size n (drop size (x ∷ xs)) pos (omega (arith, length-drop size (x ∷ xs))))
      ∙ take-append-drop size (x ∷ xs)

  pub chunks-small : (size n : ℕ) (xs : List E) → All (λ c. length c ≤ size) (chunks size n xs)
  unfolding chunks
  chunks-small size zero xs = tt
  chunks-small size (suc n) [] = tt
  chunks-small size (suc n) (x ∷ xs) =
      (length-take-le size (x ∷ xs), chunks-small size n (drop size (x ∷ xs)))
