-- ===== src/Sdk/Calls.antt =====
-- packages/sdk/src: the steps that both clients take alike, for a database that returns ids and for one
-- that does not.
pub mod Verdicts
pub mod Holds
use outboxy.Base.{
  ℕ, Bool, true, false, not, List, [], ◌∷◌, ◌++◌, map, Option, none, some, Text, codes, member,
  length, ◌==◌, if◌then◌else◌,
}
use outboxy.Dialect.{Value, JsError, Outcome, returned, threw, SqlStatement}
use outboxy.Sdk.{Failure, validation_error, ReturnedRow, Runtime, translate, key_field}

-- `set.add(text)`.
abbrev pub add_to_set : List Text → Text → List Text
add_to_set seen t = if member t seen then seen else seen ++ t ∷ []

-- `new Set(texts)` after the texts `seen`, in insertion order.
unfoldable pub set_of : List Text → List Text → List Text
set_of seen [] = seen
set_of seen (t ∷ texts) = set_of (add_to_set seen t) texts

-- `if (keys.length !== new Set(keys).size) throw ...`.
unfoldable pub refuse_duplicates : List Text → Outcome Failure (Unit {0})
refuse_duplicates keys =
    if length keys == length (set_of [] keys)
    then returned tt
    else threw (
        validation_error (codes "Duplicate idempotency keys within batch are not allowed")
          key_field)

-- The id as the first column, where one is generated.
abbrev pub columns_for : Bool → List Text → List Text
columns_for true columns = columns
columns_for false columns = codes "id" ∷ columns

abbrev pub values_for : Option Text → List Value → List Value
values_for none values = values
values_for (some id) values = Value.text id ∷ values

-- `generatedIds[index]`, index by index; nothing where none are generated.
abbrev pub each_id : Option (List Text) → List (Option Text)
each_id none = []
each_id (some ids) = map some ids

abbrev pub with_values {ℓ κ μ} :
    {W : Type ℓ} {A : Type κ} {B : Type μ}
    → Outcome Failure A
    → (A → W → W × Outcome Failure B)
    → W
    → W × Outcome Failure B
with_values (threw f) next w = (w, threw f)
with_values (returned a) next w = next a w

module _ {ℓ} {W : Type ℓ} (r : Runtime W) where
  -- `supportsReturning ? undefined : crypto.randomUUID()`.
  abbrev pub new_id : Bool → W → W × Option Text
  new_id true w = (w, none)
  new_id false w = let (w', id) = r.random_uuid w in (w', some id)

  -- One id for each event, in order.
  unfoldable pub draw_ids {κ} : {E : Type κ} → List E → W → W × List Text
  draw_ids [] w = (w, [])
  draw_ids (e ∷ events) w =
      let (w', id) = r.random_uuid w in let (w'', ids) = draw_ids events w' in (w'', id ∷ ids)

  abbrev pub new_ids {κ} : {E : Type κ} → Bool → List E → W → W × Option (List Text)
  new_ids true events w = (w, none)
  new_ids false events w = let (w', ids) = draw_ids events w in (w', some ids)

  -- A statement that was built is run.
  abbrev pub run_statement {κ} :
      {A : Type κ}
      → Text
      → (Outcome JsError (List ReturnedRow) → Outcome Failure A)
      → Outcome JsError SqlStatement
      → W
      → W × Outcome Failure A
  run_statement message answer (threw e) w = (w, threw (translate message e))
  run_statement message answer (returned st) w =
      let (w', reply) = r.query st.sql st.params w in (w', answer reply)
