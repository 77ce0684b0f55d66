-- ===== src/Sdk/Calls/Verdicts.antt =====
-- Checks that pass exactly if a test holds, and throw a validation error if not.
use outboxy.Base.{
  ◌+◌, ◌≤◌, ◌<◌, ◌≡◌, refl, Bool, true, false, not, ◌&&◌, List, [], ◌∷◌, ◌++◌, Option, none, some,
  Text, codes, text_eq_iff, member, length, leb, ltb, ◌==◌, arith, Bool-cases, inl, inr,
  member-append, length-append,
}
use outboxy.Dialect.{JsNumber, Outcome, returned, threw, ◌>>=◌, ◌>>◌}
use outboxy.Sdk.{
  Failure, validation_error, validate_fields, validate_optional_key, validate_idempotency_key,
  validate_destination_type, destination_types, is_positive_integer, all_key_characters,
}
use outboxy.Sdk.Calls.{set_of, refuse_duplicates}

-- What a check comes to.
abbrev pub Verdict : {A : Type 0} → Outcome Failure A → A → Bool → Type 0
Verdict o a true = o ≡ returned a
Verdict o a false = (m : Text) × (f : Text) × (o ≡ threw (validation_error m f))

pub and-true : (b : Bool) → (b && true) ≡ b
and-true true = refl
and-true false = refl

pub Verdict-and_then :
    {A B : Type 0} (o : Outcome Failure A) (next : A → Outcome Failure B) (a : A) (b : B)
    (p q : Bool)
    → Verdict o a p
    → Verdict (next a) b q
    → Verdict (o >>= next) b (p && q)
Verdict-and_then o next a b true q h h' = rw h h'
Verdict-and_then o next a b false q (m, f, h) h' = (m, f, rw h refl)

pub Verdict-then :
    {B : Type 0} (o : Outcome Failure (Unit {0})) (next : Outcome Failure B) (b : B) (p q : Bool)
    → Verdict o tt p
    → Verdict next b q
    → Verdict (o >> next) b (p && q)
Verdict-then o next b true q h h' = rw h h'
Verdict-then o next b false q (m, f, h) h' = (m, f, rw h refl)

abbrev pub is_valid_key : Option Text → Bool
is_valid_key none = true
is_valid_key (some key) = leb 1 (length key) && leb (length key) 255 && all_key_characters key

abbrev pub is_valid_version : Option JsNumber → Bool
is_valid_version none = true
is_valid_version (some v) = is_positive_integer v

pub validate_fields-Verdict :
    (v : Option JsNumber) → Verdict (validate_fields v) tt (is_valid_version v)
unfolding validate_fields
validate_fields-Verdict none = refl
validate_fields-Verdict (some v) = elim (Bool-cases (is_positive_integer v)) [
  | inl holds ↦ rw holds refl
  | inr fails ↦ rw fails (_, _, refl)
]

pub validate_destination_type-Verdict :
    (t : Text) → Verdict (validate_destination_type t) tt (member t destination_types)
unfolding validate_destination_type
validate_destination_type-Verdict t = elim (Bool-cases (member t destination_types)) [
  | inl holds ↦ rw holds refl
  | inr fails ↦ rw fails (_, _, refl)
]

pub validate_idempotency_key-Verdict :
    (key : Text) → Verdict (validate_idempotency_key key) tt (is_valid_key (some key))
unfolding validate_idempotency_key
validate_idempotency_key-Verdict [] =
    (codes "Idempotency key cannot be empty", codes "idempotencyKey", refl)
validate_idempotency_key-Verdict (c ∷ key) =
    let some_length : (length (c ∷ key) == 0) ≡ false = ground arith in
    let some_length' : leb 1 (length (c ∷ key)) ≡ true = ground arith in
    elim (Bool-cases (ltb 255 (length (c ∷ key)))) [
      | inl long ↦
          let long' : leb (length (c ∷ key)) 255 ≡ false = ground arith in
          rw (some_length, some_length', long, long') (_, _, refl)
      | inr short ↦
          let short' : leb (length (c ∷ key)) 255 ≡ true = ground arith in
          elim (Bool-cases (all_key_characters (c ∷ key))) [
            | inl legal ↦ rw (some_length, some_length', short, short', legal) refl
            | inr odd ↦ rw (some_length, some_length', short, short', odd) (_, _, refl)
          ]
    ]

pub validate_optional_key-Verdict :
    (key : Option Text) → Verdict (validate_optional_key key) tt (is_valid_key key)
unfolding validate_optional_key
validate_optional_key-Verdict none = refl
validate_optional_key-Verdict (some key) = validate_idempotency_key-Verdict key

-- No text twice.
unfoldable pub all_different : List Text → Bool
all_different [] = true
all_different (t ∷ texts) = not (member t texts) && all_different texts

-- No text twice, and none of those seen before.
all_new : List Text → List Text → Bool
all_new seen [] = true
all_new seen (t ∷ texts) = not (member t seen) && all_new (seen ++ t ∷ []) texts

none_in : List Text → List Text → Bool
none_in seen [] = true
none_in seen (t ∷ texts) = not (member t seen) && none_in seen texts

none_in-append :
    (seen texts : List Text) (t : Text)
    → none_in (seen ++ t ∷ []) texts ≡ (none_in seen texts && not (member t texts))
unfolding none_in member
none_in-append seen [] t = refl
none_in-append seen (u ∷ texts) t = ground (
  arith,
  none_in-append seen texts t,
  member-append u seen (t ∷ []),
  text_eq_iff u t,
  text_eq_iff t u,
)

all_new-eq :
    (seen texts : List Text) → all_new seen texts ≡ (all_different texts && none_in seen texts)
unfolding all_new all_different none_in
all_new-eq seen [] = refl
all_new-eq seen (t ∷ texts) =
    ground (arith, all_new-eq (seen ++ t ∷ []) texts, none_in-append seen texts t)

length-set_of :
    (seen texts : List Text)
    → ((all_new seen texts ≡ true) → length (set_of seen texts) ≡ length seen + length texts)
      × ((all_new seen texts ≡ false) → length (set_of seen texts) < length seen + length texts)
      × (length (set_of seen texts) ≤ length seen + length texts)
unfolding all_new set_of
length-set_of seen [] = ground arith
length-set_of seen (t ∷ texts) = elim (Bool-cases (member t seen)) [
  | inl old ↦ rw (old, set_of, all_new) (ground (arith, length-set_of seen texts))
  | inr new ↦
      rw (new, set_of, all_new)
        (ground (arith, length-set_of (seen ++ t ∷ []) texts, length-append seen (t ∷ [])))
]

none_in-nil : (texts : List Text) → none_in [] texts ≡ true
unfolding none_in member
none_in-nil [] = refl
none_in-nil (t ∷ texts) = none_in-nil texts

-- A set has as many elements as the list exactly if no text comes twice.
size-set_of : (keys : List Text) → (length keys == length (set_of [] keys)) ≡ all_different keys
size-set_of keys = ground (arith, length-set_of [] keys, all_new-eq [] keys, none_in-nil keys)

pub refuse_duplicates-Verdict :
    (keys : List Text) → Verdict (refuse_duplicates keys) tt (all_different keys)
unfolding refuse_duplicates
refuse_duplicates-Verdict keys = elim (Bool-cases (all_different keys)) [
  | inl different ↦ rw (size-set_of keys, different) refl
  | inr repeated ↦ rw (size-set_of keys, repeated) (_, _, refl)
]
