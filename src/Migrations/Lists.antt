-- ===== src/Migrations/Lists.antt =====
-- Lists of names, and of the rows that record them.
use outboxy.Base.{
  ◌≡◌, refl, ap, ◌∙◌, Bool, true, false, not, ◌||◌, List, [], ◌∷◌, ◌++◌, Text, member,
  member-append, text_eq, select, arith, Bool-cases, inl, inr, All,
}
use outboxy.Sdk.Calls.Verdicts.{all_different}
use outboxy.Migrations.{MigrationRow, insert_by_applied_at, order_by_applied_at, names}

pub names-append :
    (rows rows' : List MigrationRow) → names (rows ++ rows') ≡ names rows ++ names rows'
names-append [] rows' = refl
names-append (r ∷ rows) rows' = ap (λ ns. r.name ∷ ns) (names-append rows rows')

member-insert :
    (t : Text) (r : MigrationRow) (rows : List MigrationRow)
    → member t (names (insert_by_applied_at r rows)) ≡ member t (names (r ∷ rows))
unfolding member insert_by_applied_at
member-insert t r [] = refl
member-insert t r (x ∷ rows) = ground (arith, member-insert t r rows)

pub member-order :
    (t : Text) (rows : List MigrationRow)
    → member t (names (order_by_applied_at rows)) ≡ member t (names rows)
unfolding member order_by_applied_at
member-order t [] = refl
member-order t (r ∷ rows) =
    member-insert t r (order_by_applied_at rows)
    ∙ ap (λ b. text_eq r.name t || b) (member-order t rows)

pub select-ext :
    (p q : Text → Bool) (ts : List Text) → ((t : Text) → p t ≡ q t) → select p ts ≡ select q ts
unfolding select
select-ext p q [] same = refl
select-ext p q (t ∷ ts) same = ground (arith, same t, select-ext p q ts same)

text_eq_comm : (s t : Text) → text_eq s t ≡ text_eq t s
unfolding text_eq
text_eq_comm [] [] = refl
text_eq_comm [] (d ∷ t) = refl
text_eq_comm (c ∷ s) [] = refl
text_eq_comm (c ∷ s) (d ∷ t) = ground (arith, text_eq_comm s t)

-- None of the names stands among others.
abbrev pub None : List Text → List Text → Type 0
None ns others = All (λ n. member n others ≡ false) ns

pub None-snoc :
    (ns others : List Text) (n : Text)
    → None ns others
    → member n ns ≡ false
    → None ns (others ++ n ∷ [])
unfolding member
None-snoc [] others n h new = tt
None-snoc (k ∷ ns) others n h new =
    let same = text_eq_comm k n in
    (
      ground (arith, member-append k others (n ∷ []), same, h.0, new),
      None-snoc ns others n h.1 (ground (arith, new)),
    )

pub None-select : (applied ns : List Text) → None (select (λ n. not (member n applied)) ns) applied
unfolding select
None-select applied [] = tt
None-select applied (n ∷ ns) = elim (Bool-cases (member n applied)) [
  | inl there ↦ rw there (None-select applied ns)
  | inr new ↦ rw new (new, None-select applied ns)
]

member-select :
    (t : Text) (p : Text → Bool) (ts : List Text)
    → member t ts ≡ false
    → member t (select p ts) ≡ false
unfolding select member
member-select t p [] out = refl
member-select t p (x ∷ ts) out = elim (Bool-cases (p x)) [
  | inl kept ↦ rw kept (ground (arith, out, member-select t p ts (ground (arith, out))))
  | inr passed ↦ rw passed (member-select t p ts (ground (arith, out)))
]

pub all_different-select :
    (p : Text → Bool) (ts : List Text)
    → all_different ts ≡ true
    → all_different (select p ts) ≡ true
unfolding select all_different
all_different-select p [] h = refl
all_different-select p (t ∷ ts) h =
    let rest = all_different-select p ts (ground (arith, h)) in
    let out : member t ts ≡ false = ground (arith, h) in
    elim (Bool-cases (p t)) [
      | inl kept ↦ rw kept (ground (arith, rest, member-select t p ts out))
      | inr passed ↦ rw passed rest
    ]

pub different_split :
    (t : Text) (ts : List Text)
    → all_different (t ∷ ts) ≡ true
    → (member t ts ≡ false) × (all_different ts ≡ true)
unfolding all_different
different_split t ts h = (ground (arith, h), ground (arith, h))
