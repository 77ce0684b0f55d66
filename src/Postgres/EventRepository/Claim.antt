-- ===== src/Postgres/EventRepository/Claim.antt =====
-- What `claimPendingEvents` claims: only rows that may be claimed, none twice, the oldest first, and
-- no fewer than it can.
use mathlib.Core.List.{Memᴰ}
use outboxy.Base.{
  ℕ, ◌≤◌, ◌≡◌, refl, sym, ap, ◌∙◌, inl, inr, Bool, true, false, not, ◌&&◌, [], ◌∷◌, zero, suc, some,
  Text, member, length, take, select, All, All-take, All-select, All-Memᴰ, text_eq_self,
  Memᴰ-select, length-take-le, arith, Bool-cases,
}
use outboxy.Schema.{OutboxEventRow}
use outboxy.Sql.Update.{Table, row_at, ids, Unique, row_at_self, All-ids, row_at-Memᴰ, row_at-id}
use outboxy.Sql.Sort.{
  order_by_created_at, Sorted, order_by_created_at-All, order_by_created_at-Sorted,
  order_by_created_at-Memᴰ,
}
use outboxy.Postgres.Errors.{Session}
use outboxy.Postgres.EventRepository.{is_claimable, claimed_ids}
use mathlib.Core.Path.{subst}
use mathlib.Core.Option.{some-injective}
use mathlib.Core.Bool.{true≢false}

-- Whether a claim in a session may take a row.
abbrev pub is_eligible : Session → OutboxEventRow → Bool
is_eligible s r = is_claimable s.now r && not (s.locked r.id)

-- The rows that the subquery picks.
abbrev picked : Session → ℕ → Table → Table
picked s n rows = take n (order_by_created_at (select (is_eligible s) rows))

module _ (s : Session) (n : ℕ) (rows : Table) where
  picked-All :
      Unique rows
      → All (λ r. (row_at r.id rows ≡ some r) × (is_eligible s r ≡ true)) (picked s n rows)
  picked-All u = All-take _ n (order_by_created_at (select (is_eligible s) rows)) (
      order_by_created_at-All _ (select (is_eligible s) rows)
        (All-select (is_eligible s) _ rows (row_at_self rows u)))

  -- Every claimed id is that of a row that is due, not deleted, `pending` or `failed`, and not locked
  -- by another transaction.
  pub claimed_ids-eligible :
      (id : Text)
      → Unique rows
      → member id (claimed_ids s n rows) ≡ true
      → (r : OutboxEventRow) × (row_at id rows ≡ some r) × (is_eligible s r ≡ true)
  unfolding claimed_ids
  claimed_ids-eligible id u m =
      let (r, same, facts) = All-ids _ id (picked s n rows) (picked-All u) m in
      (r, subst (λ k. row_at k rows ≡ some r) same facts.0, facts.1)

passed_over :
    (n : ℕ) (t : Table) {r : OutboxEventRow}
    → Sorted t
    → Memᴰ r t
    → member r.id (ids (take n t)) ≡ false
    → (length (take n t) ≡ n) × All (λ x. x.created_at ≤ r.created_at) (take n t)
unfolding ids member
passed_over zero t s m h = (refl, tt)
passed_over (suc n) [] s m h = elim m [ ]
passed_over (suc n) (x ∷ t) {r} s (Memᴰ.head e) h = absurd (true≢false (sym (first_missed e) ∙ h))
  where
    first_missed : r ≡ x → member r.id (ids (take (suc n) (x ∷ t))) ≡ true
    first_missed e = rw (ap (λ y. y.id) e, text_eq_self x.id)
passed_over (suc n) (x ∷ t) {r} s (Memᴰ.tail m) h =
    let (full, older) = passed_over n t s.1 m (ground arith) in
    (ap suc full, (All-Memᴰ (λ y. x.created_at ≤ y.created_at) t s.0 m, older))

length-ids : (t : Table) → length (ids t) ≡ length t
unfolding ids
length-ids [] = refl
length-ids (x ∷ t) = ap suc (length-ids t)

All-zip : (P Q : OutboxEventRow → Type 0) (t : Table) → All P t → All Q t → All (λ r. P r × Q r) t
All-zip P Q [] p q = tt
All-zip P Q (x ∷ t) p q = ((p.0, q.0), All-zip P Q t p.1 q.1)

module _ (s : Session) (n : ℕ) (rows : Table) (unique : Unique rows) where
  claimed_ids-length : length (claimed_ids s n rows) ≤ n
  unfolding claimed_ids
  claimed_ids-length =
      rw (length-ids (picked s n rows))
        (length-take-le n (order_by_created_at (select (is_eligible s) rows)))

  -- A row that could be claimed is passed over only if the batch is full, and full of rows that are
  -- at least as old.
  pub claim-passes_over :
      (id : Text) {r : OutboxEventRow}
      → row_at id rows ≡ some r
      → is_eligible s r ≡ true
      → member id (claimed_ids s n rows) ≡ false
      → (length (claimed_ids s n rows) ≡ n)
        × ((other : Text)
            → member other (claimed_ids s n rows) ≡ true
            → (x : OutboxEventRow) × (row_at other rows ≡ some x) × (x.created_at ≤ r.created_at))
  unfolding claimed_ids
  claim-passes_over id {r} found eligible missed =
      let chosen = select (is_eligible s) rows in
      let (full, older) =
        passed_over n (order_by_created_at chosen) {r = r} (order_by_created_at-Sorted chosen)
          (order_by_created_at-Memᴰ r chosen
            (Memᴰ-select (is_eligible s) rows eligible (row_at-Memᴰ id rows found)))
          (subst (λ k. member k (ids (picked s n rows)) ≡ false) (sym (row_at-id id rows found))
            missed) in
      (
        length-ids (picked s n rows) ∙ full,
        λ other m.
            let (x, same, facts) =
              All-ids _ other (picked s n rows)
                (All-zip _ (λ y. y.created_at ≤ r.created_at) (picked s n rows)
                  (picked-All s n rows unique) older)
                m in
            (x, subst (λ k. row_at k rows ≡ some x) same facts.0.0, facts.1),
      )

  -- A row in another status than `pending` and `failed`, or locked, is not claimed.
  pub not-claimed :
      (id : Text) {r : OutboxEventRow}
      → row_at id rows ≡ some r
      → is_eligible s r ≡ false
      → member id (claimed_ids s n rows) ≡ false
  not-claimed id {r} found ineligible = elim (Bool-cases (member id (claimed_ids s n rows))) [
    | inr f ↦ f
    | inl t ↦
        let (x, there, eligible) = claimed_ids-eligible s n rows id unique t in
        let same : x ≡ r = some-injective x r (sym there ∙ found) in
        absurd (true≢false (sym eligible ∙ ap (is_eligible s) same ∙ ineligible))
  ]
