-- ===== src/Sdk/Chunks.antt =====
-- packages/sdk/src/client.ts and inbox-client.ts: the chunking in `bulkInsert`, the same in both
-- clients. On fuel, since its loop need not end; out of fuel is `none`.
pub mod Lists
pub mod Termination
use outboxy.Base.{
  ℕ, zero, suc, ◌+◌, true, false, List, [], ◌∷◌, ◌++◌, Option, none, some, length, take, drop, ltb,
}
use outboxy.Dialect.{Outcome, returned, threw}
use outboxy.Sdk.{Failure}

-- The world after a call, and what the call came to.
abbrev pub Answer {ℓ μ} : Type ℓ → Type μ → Type (ℓ ⊔ μ)
Answer W R = W × Outcome Failure (List R)

-- `await`: what follows has the results of the call; `none` where the call did not end.
abbrev pub await {ℓ μ} :
    {W : Type ℓ} {R : Type μ}
    → Option (Answer W R)
    → (List R → W → Option (Answer W R))
    → Option (Answer W R)
await none next = none
await (some (w, threw f)) next = some (w, threw f)
await (some (w, returned rs)) next = next rs w

module _ {ℓ κ μ} {W : Type ℓ} {E : Type κ} {R : Type μ} where
  -- `for (let i = 0; i < events.length; i += size)`, from `i` with the results before it. Each chunk is
  -- sent by the recursive call.
  unfoldable pub chunk_loop :
      (List E → W → Option (Answer W R)) → ℕ → ℕ → ℕ → List R → List E → W → Option (Answer W R)
  chunk_loop send size zero i results events w = none
  chunk_loop send size (suc fuel) i results events w = elim (ltb i (length events)) [
    | false ↦ some (w, returned results)
    | true ↦
        await (send (take size (drop i events)) w)
          (λ rs w'. chunk_loop send size fuel (i + size) (results ++ rs) events w')
  ]

  -- `bulkInsert`: a list longer than `size` in chunks, any other by one insert.
  unfoldable pub bulk_insert : (List E → W → Answer W R) → ℕ → ℕ → List E → W → Option (Answer W R)
  bulk_insert insert size zero events w = none
  bulk_insert insert size (suc fuel) events w = elim (ltb size (length events)) [
    | true ↦ chunk_loop (bulk_insert insert size fuel) size fuel 0 [] events w
    | false ↦ some (insert events w)
  ]
