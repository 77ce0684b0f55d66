-- ===== src/Sdk/Calls/Holds.antt =====
-- What holds of the result of code that may throw, if it returns, and what the calls keep of the world.
use outboxy.Base.{
  ℕ, ◌*◌, ◌≤◌, ◌≡◌, refl, Bool, true, false, List, [], ◌∷◌, Text, length, arith, length-append,
}
use outboxy.Dialect.{Value, JsError, Outcome, returned, threw, ◌>>=◌, SqlStatement}
use outboxy.Dialect.Render.{all_params}
use outboxy.Dialect.Placeholders.{HasWidth}
use outboxy.Dialect.Contract.{Carries, PassesIds}
use outboxy.Sdk.{Failure, ReturnedRow, Runtime}
use outboxy.Sdk.Calls.{draw_ids, new_ids, run_statement, with_values}

abbrev pub Holds {ℓ κ} : {E : Type ℓ} {A : Type κ} → (A → Type 0) → Outcome E A → Type 0
Holds P (returned a) = P a
Holds P (threw e) = Unit

pub Holds->>= {ℓ κ μ} :
    {E : Type ℓ} {A : Type κ} {B : Type μ} (P : A → Type 0) (Q : B → Type 0) (o : Outcome E A)
    (next : A → Outcome E B)
    → Holds P o
    → ((a : A) → P a → Holds Q (next a))
    → Holds Q (o >>= next)
Holds->>= P Q (returned a) next h k = k a h
Holds->>= P Q (threw e) next h k = tt

pub Holds-any {ℓ κ} : {E : Type ℓ} {A : Type κ} (o : Outcome E A) → Holds (λ a. Unit) o
Holds-any (returned a) = tt
Holds-any (threw e) = tt

-- Rows of one width.
pub length-all_params :
    (width : ℕ) (rows : List (List Value))
    → HasWidth width rows
    → length (all_params rows) ≡ length rows * width
unfolding all_params
length-all_params width [] h = omega arith
length-all_params width (row ∷ rows) h =
    omega (arith, length-append row (all_params rows), length-all_params width rows h.1, h.0)

-- A statement with few values.
pub Holds-Carries :
    (limit : ℕ) (o : Outcome JsError SqlStatement) (vs : List Value)
    → Carries o vs
    → length vs ≤ limit
    → Holds (λ st. length st.params ≤ limit) o
Holds-Carries limit (returned st) vs carries few = rw carries few
Holds-Carries limit (threw e) vs carries few = tt

-- A property of worlds that the runtime keeps, as long as no statement has more than `limit` parameters.
pub record Keeps {ℓ} {W : Type ℓ} (r : Runtime W) (limit : ℕ) (Inv : W → Type 0) : Type ℓ where
  pub on_draw : (w : W) → Inv w → Inv (r.random_uuid w).0
  pub on_query :
      (sql : Text) (params : List Value) (w : W)
      → length params ≤ limit
      → Inv w
      → Inv (r.query sql params w).0

module _ {ℓ} {W : Type ℓ} (r : Runtime W) (limit : ℕ) (Inv : W → Type 0)
    (keeps : Keeps r limit Inv) where
  pub draw_ids-keeps {κ} :
      {E : Type κ} (events : List E) (w : W)
      → Inv w
      → Inv (draw_ids r events w).0 × (length (draw_ids r events w).1 ≡ length events)
  unfolding draw_ids
  draw_ids-keeps [] w h = (h, refl)
  draw_ids-keeps (e ∷ events) w h =
      let rest = draw_ids-keeps events (r.random_uuid w).0 (keeps.on_draw w h) in
      (rest.0, omega (arith, rest.1))

  pub new_ids-keeps {κ} :
      {E : Type κ} (returning : Bool) (events : List E) (w : W)
      → Inv w
      → Inv (new_ids r returning events w).0
        × PassesIds returning (new_ids r returning events w).1 (length events)
  new_ids-keeps true events w h = (h, tt)
  new_ids-keeps false events w h = draw_ids-keeps events w h

  pub run_statement-keeps {κ} :
      {A : Type κ} (message : Text)
      (answer : Outcome JsError (List ReturnedRow) → Outcome Failure A)
      (o : Outcome JsError SqlStatement) (w : W)
      → Holds (λ st. length st.params ≤ limit) o
      → Inv w
      → Inv (run_statement r message answer o w).0
  run_statement-keeps message answer (threw e) w few h = h
  run_statement-keeps message answer (returned st) w few h = keeps.on_query st.sql st.params w few h

  pub with_values-keeps {κ μ} :
      {A : Type κ} {B : Type μ} (P : A → Type 0) (o : Outcome Failure A)
      (next : A → W → W × Outcome Failure B) (w : W)
      → Holds P o
      → ((a : A) → P a → Inv (next a w).0)
      → Inv w
      → Inv (with_values o next w).0
  with_values-keeps P (threw f) next w few k h = h
  with_values-keeps P (returned a) next w few k h = k a few
