-- ===== src/Base/Maps.antt =====
-- A JavaScript `Map` with string keys: an association list in insertion order.
use mathlib.Core.Path.{◌≡◌, refl}
use mathlib.Core.Bool.{true}
use mathlib.Core.Option.{Option, none, some}
use mathlib.Core.List.{List, [], ◌∷◌}
use native.Mathlib.Omega.{arith}
use outboxy.Base.Tests.{if◌then◌else◌, is_none}
use outboxy.Base.Strings.{Text, text_eq, text_eq_iff}

abbrev pub Map {ℓ} : Type ℓ → Type ℓ
Map V = List (Text × V)

module _ {ℓ} {V : Type ℓ} where
  unfoldable pub get : Text → Map V → Option V
  get k [] = none
  get k ((j, v) ∷ m) = if text_eq j k then some v else get k m

  -- A key that is present keeps its place.
  unfoldable pub set : Text → V → Map V → Map V
  set k v [] = (k, v) ∷ []
  set k v ((j, w) ∷ m) = if text_eq j k then (j, v) ∷ m else (j, w) ∷ set k v m

  abbrev pub keys : Map V → List Text
  keys [] = []
  keys ((k, v) ∷ m) = k ∷ keys m

  pub get-set :
      (k j : Text) (v : V) (m : Map V)
      → get j (set k v m) ≡ (if text_eq k j then some v else get j m)
  unfolding get set
  get-set k j v [] = refl
  get-set k j v ((i, w) ∷ m) =
      ground (arith, text_eq_iff k j, text_eq_iff i k, text_eq_iff i j, get-set k j v m)

  abbrev pub UniqueKeys : Map V → Type 0
  UniqueKeys [] = Unit
  UniqueKeys ((k, v) ∷ m) = (is_none (get k m) ≡ true) × UniqueKeys m

  pub set-UniqueKeys : (k : Text) (v : V) (m : Map V) → UniqueKeys m → UniqueKeys (set k v m)
  unfolding set get
  set-UniqueKeys k v [] u = (refl, tt)
  set-UniqueKeys k v ((j, w) ∷ m) u =
      ground (arith, text_eq_iff j k, text_eq_iff k j, get-set k j v m, set-UniqueKeys k v m u.1)
