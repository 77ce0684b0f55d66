-- ===== src/Migrations/Sorted.antt =====
-- The names of the migrations stand in the order of their files.
use mathlib.Core.List.{Perm}
use mathlib.Core.List.Perm
use outboxy.Base.{
  ◌≡◌, refl, true, false, List, [], ◌∷◌, Text, All, All-imp, arith, Bool-cases, inl, inr,
}
use outboxy.Migrations.Names.{is_before, insert_name, sort_names}

-- Each text is not after those behind it, in the order of the code units.
abbrev pub IsSorted : List Text → Type 0
IsSorted [] = Unit
IsSorted (t ∷ ts) = All (λ u. is_before t u ≡ true) ts × IsSorted ts

is_before-total : (s t : Text) → is_before s t ≡ false → is_before t s ≡ true
unfolding is_before
is_before-total [] t h = ground arith
is_before-total (c ∷ s) [] h = refl
is_before-total (c ∷ s) (d ∷ t) h = ground (arith, is_before-total s t)

is_before_trans :
    (s t u : Text) → is_before s t ≡ true → is_before t u ≡ true → is_before s u ≡ true
unfolding is_before
is_before_trans [] t u h h' = refl
is_before_trans (c ∷ s) [] u h h' = ground arith
is_before_trans (c ∷ s) (d ∷ t) [] h h' = ground arith
is_before_trans (c ∷ s) (d ∷ t) (e ∷ u) h h' = ground (arith, is_before_trans s t u)

insert_name-All :
    (P : Text → Type 0) (t : Text) (xs : List Text) → P t → All P xs → All P (insert_name t xs)
unfolding insert_name
insert_name-All P t [] p h = (p, tt)
insert_name-All P t (x ∷ xs) p h = elim (Bool-cases (is_before t x)) [
  | inl first ↦ rw first (p, h)
  | inr later ↦ rw later (h.0, insert_name-All P t xs p h.1)
]

insert_name-IsSorted : (t : Text) (xs : List Text) → IsSorted xs → IsSorted (insert_name t xs)
unfolding insert_name
insert_name-IsSorted t [] h = (tt, tt)
insert_name-IsSorted t (x ∷ xs) h = elim (Bool-cases (is_before t x)) [
  | inl first ↦ rw first (
    (
      first,
      All-imp (λ u. is_before x u ≡ true) (λ u. is_before t u ≡ true)
          (λ u. is_before_trans t x u first) xs h.0,
    ),
    h,
  )
  | inr later ↦ rw later (
    insert_name-All (λ u. is_before x u ≡ true) t xs (is_before-total t x later) h.0,
    insert_name-IsSorted t xs h.1,
  )
]

pub sort_names-IsSorted : (ts : List Text) → IsSorted (sort_names ts)
unfolding sort_names
sort_names-IsSorted [] = tt
sort_names-IsSorted (t ∷ ts) = insert_name-IsSorted t (sort_names ts) (sort_names-IsSorted ts)

insert_name-perm : (t : Text) (xs : List Text) → Perm (insert_name t xs) (t ∷ xs)
unfolding insert_name
insert_name-perm t [] = Perm.refl (t ∷ [])
insert_name-perm t (x ∷ xs) = elim (Bool-cases (is_before t x)) [
  | inl first ↦ rw first (Perm.refl (t ∷ x ∷ xs))
  | inr later ↦ rw later (Perm.trans (Perm.cons x (insert_name-perm t xs)) (Perm.swap t x xs))
]

pub sort_names-perm : (ts : List Text) → Perm (sort_names ts) ts
unfolding sort_names
sort_names-perm [] = Perm.refl []
sort_names-perm (t ∷ ts) =
    Perm.trans (insert_name-perm t (sort_names ts)) (Perm.cons t (sort_names-perm ts))
