-- ===== src/Sql/Sort.antt =====
-- `ORDER BY created_at ASC`: rows with one creation time stay in scan order.
use outboxy.Base.{[], ◌∷◌, leb, if◌then◌else◌, ◌≤◌, All, arith, Bool-cases, All-imp, inl, inr}
use outboxy.Schema.{OutboxEventRow}
use outboxy.Sql.Update.{Table}
use mathlib.Core.List.{Memᴰ}
use native.Mathlib.Nat.{le_trans}

unfoldable pub insert_by_created_at : OutboxEventRow → Table → Table
insert_by_created_at r [] = r ∷ []
insert_by_created_at r (x ∷ xs) =
    if leb r.created_at x.created_at then r ∷ x ∷ xs else x ∷ insert_by_created_at r xs

unfoldable pub order_by_created_at : Table → Table
order_by_created_at [] = []
order_by_created_at (r ∷ rows) = insert_by_created_at r (order_by_created_at rows)

-- Each row is at most as young as those after it.
abbrev pub Sorted : Table → Type 0
Sorted [] = Unit
Sorted (r ∷ rows) = All (λ x. r.created_at ≤ x.created_at) rows × Sorted rows

module _ (P : OutboxEventRow → Type 0) where
  insert_by_created_at-All :
      (r : OutboxEventRow) (xs : Table) → P r → All P xs → All P (insert_by_created_at r xs)
  unfolding insert_by_created_at
  insert_by_created_at-All r [] p h = (p, tt)
  insert_by_created_at-All r (x ∷ xs) p h = elim (Bool-cases (leb r.created_at x.created_at)) [
    | inl t ↦ rw t (p, h)
    | inr f ↦ rw f (h.0, insert_by_created_at-All r xs p h.1)
  ]

  pub order_by_created_at-All : (rows : Table) → All P rows → All P (order_by_created_at rows)
  unfolding order_by_created_at
  order_by_created_at-All [] h = tt
  order_by_created_at-All (r ∷ rows) h =
      insert_by_created_at-All r (order_by_created_at rows) h.0 (order_by_created_at-All rows h.1)

insert_by_created_at-Sorted :
    (r : OutboxEventRow) (xs : Table) → Sorted xs → Sorted (insert_by_created_at r xs)
unfolding insert_by_created_at
insert_by_created_at-Sorted r [] s = (tt, tt)
insert_by_created_at-Sorted r (x ∷ xs) s = elim (Bool-cases (leb r.created_at x.created_at)) [
  | inl t ↦
      let older : r.created_at ≤ x.created_at = ground arith in
      rw t (
        (
          older,
          All-imp (λ y. x.created_at ≤ y.created_at) (λ y. r.created_at ≤ y.created_at)
              (λ y h. le_trans older h) xs s.0,
        ),
        s,
      )
  | inr f ↦ rw f (
    insert_by_created_at-All (λ y. x.created_at ≤ y.created_at) r xs (ground arith) s.0,
    insert_by_created_at-Sorted r xs s.1,
  )
]

pub order_by_created_at-Sorted : (rows : Table) → Sorted (order_by_created_at rows)
unfolding order_by_created_at
order_by_created_at-Sorted [] = tt
order_by_created_at-Sorted (r ∷ rows) =
    insert_by_created_at-Sorted r (order_by_created_at rows) (order_by_created_at-Sorted rows)

insert_by_created_at-Memᴰ :
    (a r : OutboxEventRow) (xs : Table) → Memᴰ a (r ∷ xs) → Memᴰ a (insert_by_created_at r xs)
unfolding insert_by_created_at
insert_by_created_at-Memᴰ a r [] m = m
insert_by_created_at-Memᴰ a r (x ∷ xs) (Memᴰ.head e) =
    elim (Bool-cases (leb r.created_at x.created_at)) [
      | inl t ↦ rw t (Memᴰ.head e)
      | inr f ↦ rw f (Memᴰ.tail (insert_by_created_at-Memᴰ a r xs (Memᴰ.head e)))
    ]
insert_by_created_at-Memᴰ a r (x ∷ xs) (Memᴰ.tail (Memᴰ.head e)) =
    elim (Bool-cases (leb r.created_at x.created_at)) [
      | inl t ↦ rw t (Memᴰ.tail (Memᴰ.head e))
      | inr f ↦ rw f (Memᴰ.head e)
    ]
insert_by_created_at-Memᴰ a r (x ∷ xs) (Memᴰ.tail (Memᴰ.tail m)) =
    elim (Bool-cases (leb r.created_at x.created_at)) [
      | inl t ↦ rw t (Memᴰ.tail (Memᴰ.tail m))
      | inr f ↦ rw f (Memᴰ.tail (insert_by_created_at-Memᴰ a r xs (Memᴰ.tail m)))
    ]

pub order_by_created_at-Memᴰ :
    (a : OutboxEventRow) (rows : Table) → Memᴰ a rows → Memᴰ a (order_by_created_at rows)
unfolding order_by_created_at
order_by_created_at-Memᴰ a [] m = elim m [ ]
order_by_created_at-Memᴰ a (r ∷ rows) (Memᴰ.head e) =
    insert_by_created_at-Memᴰ a r (order_by_created_at rows) (Memᴰ.head e)
order_by_created_at-Memᴰ a (r ∷ rows) (Memᴰ.tail m) =
    insert_by_created_at-Memᴰ a r (order_by_created_at rows)
      (Memᴰ.tail (order_by_created_at-Memᴰ a rows m))
