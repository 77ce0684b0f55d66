-- ===== src/Mysql/EventRepository/Claims.antt =====
-- The claim on MySQL: the rows that it may take, against PostgreSQL, and that no two claims take one
-- event.
use outboxy.Base.{
  ℕ, ◌≡◌, refl, sym, ap, ◌∙◌, Bool, true, false, not, ◌&&◌, ◌||◌, List, [], ◌∷◌, Option, none, some,
  Text, member, is_empty, is_none, take, select, arith, Bool-cases, Option-cases, inl, inr,
  All-take, All-select,
}
use mathlib.Core.Path.{subst}
use mathlib.Core.Option.{some-injective}
use mathlib.Core.Bool.{true≢false}
use outboxy.Schema.{EventStatus, OutboxEventRow, is_pending, is_failed}
use outboxy.Sql.Update.{
  Table, update_where, row_at, Unique, row_at-update_where, update_where-Unique, row_at-id,
  row_at_self, All-ids,
}
use outboxy.Postgres.EventRepository
use outboxy.Postgres.EventRepository.{start_processing}
use outboxy.Lifecycle.WellFormedRows.{WellFormed}
use outboxy.Mysql.Errors.{MysqlSession, invalid_id, with_mysql_errors}
use outboxy.Mysql.EventRepository.{
  is_claimable, claimed_ids, has_come, claim_ids, claim_found, claim_pending_events,
}

conditions-agree :
    (now : ℕ) (status : EventStatus) (next : Option ℕ)
    → (is_pending status ≡ true → next ≡ none)
    → (is_failed status ≡ true → is_none next ≡ false)
    → (is_pending status || (is_failed status && has_come now next))
      ≡ ((is_pending status || is_failed status) && EventRepository.is_due now next)
conditions-agree now status none fresh scheduled = ground arith
conditions-agree now status (some t) fresh scheduled =
    ground (arith, λ (p : is_pending status ≡ true). ap is_none (fresh p))

-- The two adapters may claim the same rows, although their conditions differ: MySQL takes a pending row
-- whenever its next retry is, and a failed one only if it has a next retry. The columns of the row fit
-- its status.
pub is_claimable-agrees :
    (now : ℕ) (r : OutboxEventRow)
    → WellFormed r
    → is_claimable now r ≡ EventRepository.is_claimable now r
unfolding is_claimable EventRepository.is_claimable
is_claimable-agrees now r fits = ground (
  arith,
  conditions-agree now r.status r.next_retry_at (λ p. (fits.pending_fresh p).1)
      fits.failed_scheduled,
)

-- Whether a claim in a session may take a row.
abbrev is_eligible : MysqlSession → OutboxEventRow → Bool
is_eligible s r = is_claimable s.now r && not (s.locked r.id)

module _ (s : MysqlSession) (n : ℕ) (rows : Table) (unique : Unique rows) where
  claimed_ids-eligible :
      (id : Text)
      → member id (claimed_ids s n rows) ≡ true
      → (r : OutboxEventRow) × (row_at id rows ≡ some r) × (is_eligible s r ≡ true)
  unfolding claimed_ids
  claimed_ids-eligible id m =
      let (r, same, facts) =
        All-ids _ id (take n (select (is_eligible s) rows))
          (All-take _ n (select (is_eligible s) rows)
            (All-select (is_eligible s) _ rows (row_at_self rows unique)))
          m in
      (r, subst (λ k. row_at k rows ≡ some r) same facts.0, facts.1)

  not-claimed :
      (id : Text) {r : OutboxEventRow}
      → row_at id rows ≡ some r
      → is_eligible s r ≡ false
      → member id (claimed_ids s n rows) ≡ false
  not-claimed id {r} found ineligible = elim (Bool-cases (member id (claimed_ids s n rows))) [
    | inr f ↦ f
    | inl t ↦
        let (x, there, eligible) = claimed_ids-eligible id t in
        let same : x ≡ r = some-injective x r (sym there ∙ found) in
        absurd (true≢false (sym eligible ∙ ap (is_eligible s) same ∙ ineligible))
  ]

claim_pending_events-ids :
    (a u q : MysqlSession) (between : Table → Table) (n : ℕ) (rows : Table)
    → a.fault ≡ none
    → claim_pending_events a u q between n rows ≡ claim_ids u q between (claimed_ids a n rows) rows
unfolding claim_pending_events claimed_ids
claim_pending_events-ids a u q between n rows works = rw (works, claim_pending_events) refl

-- The table after a claim that takes something.
claim_ids-table :
    (u q : MysqlSession) (claimed : List Text) (rows : Table)
    → u.fault ≡ none
    → is_empty claimed ≡ false
    → invalid_id claimed ≡ none
    → (claim_ids u q (λ t. t) claimed rows).0
      ≡ update_where (λ r. member r.id claimed) (start_processing u.now) rows
unfolding claim_ids claim_found with_mysql_errors
claim_ids-table u q claimed rows works some_ids valid = elim (Option-cases q.fault) [
  | inl replies ↦ rw (some_ids, claim_found, valid, works, with_mysql_errors, replies) refl
  | inr (e, fails) ↦ rw (some_ids, claim_found, valid, works, with_mysql_errors, fails) refl
]

pub nonempty :
    (id : Text) (claimed : List Text) → member id claimed ≡ true → is_empty claimed ≡ false
unfolding member
nonempty id [] m = cc
nonempty id (x ∷ claimed) m = refl

-- Two claims on MySQL never take one event. What the first has claimed, the second does not claim:
-- neither while the first holds the rows locked, nor on the table that the first has left, also where
-- the last query of the first fails. The ids of the table are unique and those claimed are UUIDs, and
-- no other transaction changes the table in between.
pub mysql_claims_exclusive :
    (a u q b : MysqlSession) (n m : ℕ) (rows : Table) (id : Text)
    → Unique rows
    → a.fault ≡ none
    → u.fault ≡ none
    → invalid_id (claimed_ids a n rows) ≡ none
    → member id (claimed_ids a n rows) ≡ true
    → (b.locked id ≡ true → member id (claimed_ids b m rows) ≡ false)
      × (member id (claimed_ids b m (claim_pending_events a u q (λ t. t) n rows).0) ≡ false)
unfolding is_claimable start_processing
mysql_claims_exclusive a u q b n m rows id unique works works' valid claimed =
    let (r, found, eligible) = claimed_ids-eligible a n rows unique id claimed in
    let own : r.id ≡ id = row_at-id id rows found in
    let is_claimed : OutboxEventRow → Bool = λ x. member x.id (claimed_ids a n rows) in
    (
      λ locked. not-claimed b m rows unique id {r = r} found (ground (arith, own, ap b.locked own)),
      rw
          (
            claim_pending_events-ids a u q (λ t. t) n rows works,
            claim_ids-table u q (claimed_ids a n rows) rows works'
                (nonempty id (claimed_ids a n rows) claimed) valid,
          )
          (not-claimed b m (update_where is_claimed (start_processing u.now) rows)
            (update_where-Unique is_claimed (start_processing u.now) (λ x. refl) rows unique) id
            {r = start_processing u.now r}
            (row_at-update_where is_claimed (start_processing u.now) (λ x. refl) id rows
              ∙ rw (found, own, claimed) refl)
            (ground arith)),
    )
