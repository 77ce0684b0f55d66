-- ===== src/Sql/Update.antt =====
-- `UPDATE ... SET ... WHERE ... RETURNING *`, and what stands in a table under a primary key.
use mathlib.Core.Path.{subst}
use outboxy.Base.{
  ap, ◌≡◌, refl, Bool, true, false, List, [], ◌∷◌, Option, none, some, Text, text_eq, text_eq_iff,
  if◌then◌else◌, member, Bool-cases, arith, text_eq_self, All, sym,
}
use outboxy.Base.{All, inl, inr}
use outboxy.Schema.{OutboxEventRow}
use mathlib.Core.List.{Memᴰ}
use mathlib.Core.Option.{some-injective}

abbrev pub Table : Type 0
Table = List OutboxEventRow

unfoldable pub update_where :
    (OutboxEventRow → Bool) → (OutboxEventRow → OutboxEventRow) → Table → Table
update_where p f [] = []
update_where p f (r ∷ rows) = (if p r then f r else r) ∷ update_where p f rows

-- The updated rows, as they are after the update.
unfoldable pub returning :
    (OutboxEventRow → Bool) → (OutboxEventRow → OutboxEventRow) → Table → Table
returning p f [] = []
returning p f (r ∷ rows) = let rest = returning p f rows in if p r then f r ∷ rest else rest

-- The row that stands under a primary key.
unfoldable pub row_at : Text → Table → Option OutboxEventRow
row_at id [] = none
row_at id (r ∷ rows) = if text_eq r.id id then some r else row_at id rows

unfoldable pub ids : Table → List Text
ids [] = []
ids (r ∷ rows) = r.id ∷ ids rows

-- No two rows have one primary key.
abbrev pub Unique : Table → Type 0
Unique [] = Unit
Unique (r ∷ rows) = (member r.id (ids rows) ≡ false) × Unique rows

abbrev pub KeepsId : (OutboxEventRow → OutboxEventRow) → Type 0
KeepsId f = (r : OutboxEventRow) → (f r).id ≡ r.id

-- `UPDATE` as one row sees it.
abbrev pub updated :
    (OutboxEventRow → Bool) → (OutboxEventRow → OutboxEventRow) → OutboxEventRow → OutboxEventRow
updated p f r = if p r then f r else r

abbrev pub map_option {ℓ κ} : {A : Type ℓ} {B : Type κ} → (A → B) → Option A → Option B
map_option f none = none
map_option f (some a) = some (f a)

module _ (p : OutboxEventRow → Bool) (f : OutboxEventRow → OutboxEventRow) (keeps : KeepsId f) where
  pub row_at-update_where :
      (id : Text) (rows : Table)
      → row_at id (update_where p f rows) ≡ map_option (updated p f) (row_at id rows)
  unfolding row_at update_where
  row_at-update_where id [] = refl
  row_at-update_where id (r ∷ rows) = ground (arith, keeps r, row_at-update_where id rows)

  pub ids-update_where : (rows : Table) → ids (update_where p f rows) ≡ ids rows
  unfolding ids update_where
  ids-update_where [] = refl
  ids-update_where (r ∷ rows) = ground (arith, keeps r, ids-update_where rows)

  pub update_where-Unique : (rows : Table) → Unique rows → Unique (update_where p f rows)
  unfolding update_where
  update_where-Unique [] u = tt
  update_where-Unique (r ∷ rows) u =
      ground (arith, keeps r, ids-update_where rows, update_where-Unique rows u.1)

module _ (P : OutboxEventRow → Type 0) (p : OutboxEventRow → Bool)
    (f : OutboxEventRow → OutboxEventRow) where
  -- A row invariant that the assignment keeps on the rows that it changes holds of the table.
  pub update_where-All :
      ((r : OutboxEventRow) → p r ≡ true → P r → P (f r))
      → (rows : Table) → All P rows
      → All P (update_where p f rows)
  unfolding update_where
  update_where-All keep [] h = tt
  update_where-All keep (r ∷ rows) h = elim (Bool-cases (p r)) [
    | inl e ↦ rw e (keep r e h.0, update_where-All keep rows h.1)
    | inr e ↦ rw e (h.0, update_where-All keep rows h.1)
  ]

pub All-row_at :
    (P : OutboxEventRow → Type 0) (id : Text) (rows : Table) {r : OutboxEventRow}
    → All P rows
    → row_at id rows ≡ some r
    → P r
unfolding row_at
All-row_at P id [] h e = cc
All-row_at P id (x ∷ rows) {r} h e = elim (Bool-cases (text_eq x.id id)) [
  | inl t ↦ subst P (ground arith) h.0
  | inr t ↦ All-row_at P id rows h.1 (ground arith)
]

pub row_at-id :
    (id : Text) (rows : Table) {r : OutboxEventRow} → row_at id rows ≡ some r → r.id ≡ id
unfolding row_at
row_at-id id [] e = cc
row_at-id id (x ∷ rows) {r} e = elim (Bool-cases (text_eq x.id id)) [
  | inl t ↦ ground (arith, text_eq_iff x.id id)
  | inr t ↦ row_at-id id rows {r = r} (ground arith)
]

pub map_option_id {ℓ} :
    {A : Type ℓ} (f : A → A) (o : Option A) → ((a : A) → f a ≡ a) → map_option f o ≡ o
map_option_id f none h = refl
map_option_id f (some a) h = rw (h a)

pub map_option_map {ℓ} :
    {A : Type ℓ} (f g h : A → A) (o : Option A)
    → map_option f (map_option g (map_option h o)) ≡ map_option (λ a. f (g (h a))) o
map_option_map f g h none = refl
map_option_map f g h (some a) = refl

pub map_option_ext {ℓ κ} :
    {A : Type ℓ} {B : Type κ} (f g : A → B) (o : Option A)
    → ((a : A) → f a ≡ g a)
    → map_option f o ≡ map_option g o
map_option_ext f g none h = refl
map_option_ext f g (some a) h = ap some (h a)

-- A row whose id another row does not have is not found at that other row.
row_at-cons :
    (x : OutboxEventRow) (rows t : Table)
    → member x.id (ids t) ≡ false
    → All (λ r. row_at r.id rows ≡ some r) t
    → All (λ r. row_at r.id (x ∷ rows) ≡ some r) t
unfolding row_at ids member
row_at-cons x rows [] fresh h = tt
row_at-cons x rows (y ∷ t) fresh h = (
  ground (arith, text_eq_iff x.id y.id, text_eq_iff y.id x.id),
  row_at-cons x rows t (ground arith) h.1,
)

-- With unique ids each row stands under its own id.
pub row_at_self : (rows : Table) → Unique rows → All (λ r. row_at r.id rows ≡ some r) rows
unfolding row_at
row_at_self [] u = tt
row_at_self (r ∷ rows) u =
    (rw (text_eq_self r.id), row_at-cons r rows rows u.0 (row_at_self rows u.1))

pub All-ids :
    (P : OutboxEventRow → Type 0) (id : Text) (t : Table)
    → All P t
    → member id (ids t) ≡ true
    → (r : OutboxEventRow) × (r.id ≡ id) × P r
unfolding ids member
All-ids P id [] h m = cc
All-ids P id (x ∷ t) h m = elim (Bool-cases (text_eq x.id id)) [
  | inl e ↦ (x, (text_eq_iff x.id id).0 e, h.0)
  | inr e ↦ All-ids P id t h.1 (rw e at m)
]

pub Memᴰ-ids : {r : OutboxEventRow} (t : Table) → Memᴰ r t → member r.id (ids t) ≡ true
unfolding ids member
Memᴰ-ids [] m = elim m [ ]
Memᴰ-ids {r} (x ∷ t) (Memᴰ.head e) = rw (ap (λ y. y.id) e, text_eq_self x.id)
Memᴰ-ids {r} (x ∷ t) (Memᴰ.tail m) = ground (arith, Memᴰ-ids t m)

pub row_at-Memᴰ :
    (id : Text) (rows : Table) {r : OutboxEventRow} → row_at id rows ≡ some r → Memᴰ r rows
unfolding row_at
row_at-Memᴰ id [] e = cc
row_at-Memᴰ id (x ∷ rows) {r} e = elim (Bool-cases (text_eq x.id id)) [
  | inl t ↦ Memᴰ.head (sym (some-injective x r (rw t at e)))
  | inr t ↦ Memᴰ.tail (row_at-Memᴰ id rows {r = r} (rw t at e))
]

-- An update that returns no row changes none.
pub update_where-nothing :
    (p : OutboxEventRow → Bool) (f : OutboxEventRow → OutboxEventRow) (rows : Table)
    → returning p f rows ≡ []
    → update_where p f rows ≡ rows
unfolding update_where returning
update_where-nothing p f [] nothing = refl
update_where-nothing p f (r ∷ rows) nothing = elim (Bool-cases (p r)) [
  | inl yes_p ↦ cc (rw yes_p at nothing)
  | inr no_p ↦ rw no_p (ap (λ t. r ∷ t) (update_where-nothing p f rows (rw no_p at nothing)))
]
