-- ===== src/Publisher/Http/Verdicts.antt =====
-- What the body of a response, as `parseIndividualResults` reads it, says of an event.
use outboxy.Base.{
  ℕ, ◌≡◌, refl, Bool, false, not, ◌&&◌, Option, none, some, Text, is_none, if◌then◌else◌, arith,
  Bool-cases, inl, inr, codes,
}
use outboxy.Schema.{Json}
use outboxy.Publisher.{PublishResult}
use outboxy.Publisher.Http.JsonValues.{property, is_truthy, to_text}
use outboxy.Publisher.Http.{
  results_of, individual_result, delivered, truthy_property, error_of, may_retry,
}

-- What the body of a response says of an event, if it is truthy.
abbrev pub truthy_part : Option Json → Option Json
truthy_part none = none
truthy_part (some v) = if is_truthy v then some v else none

abbrev pub verdict_in : Option Json → Text → Option Json
verdict_in none id = none
verdict_in (some results) id = truthy_part (property id results)

abbrev pub verdict : Option Json → Text → Option Json
verdict none id = none
verdict (some parsed) id = verdict_in (property (codes "results") parsed) id

-- What a refusal gives as its reason.
abbrev pub reason : Option Json → Text
reason none = codes "Unknown error"
reason (some v) = to_text v

abbrev pub refusal_text : Option Json → Option Text
refusal_text none = none
refusal_text (some v) =
    if not (is_none (truthy_part (property (codes "success") v)))
    then none
    else some (reason (truthy_part (property (codes "error") v)))

-- Whether a refusal rules another attempt out: by a value that is neither truthy nor `null`.
abbrev pub is_final : Option Json → Bool
is_final none = false
is_final (some Json.null) = false
is_final (some v) = not (is_truthy v)

abbrev pub refusal_passes : Option Json → Bool
refusal_passes none = false
refusal_passes (some v) =
    is_none (truthy_part (property (codes "success") v))
    && not (is_final (property (codes "retryable") v))

-- The result that a verdict comes to.
abbrev pub result_by : ℕ → Option Json → PublishResult
result_by d v = record {
  success = is_none (refusal_text v);
  error = refusal_text v;
  retryable = refusal_passes v;
  duration_ms = some d;
}

is_none-truthy_part :
    (o : Option Json)
    → is_none (truthy_part o) ≡ not (elim o [ none ↦ false | some w ↦ is_truthy w ])
is_none-truthy_part none = refl
is_none-truthy_part (some w) = ground arith

reason-truthy_part : (o : Option Json) → reason (truthy_part o) ≡ error_of o
reason-truthy_part none = refl
reason-truthy_part (some v) = ground arith

is_final-may_retry : (o : Option Json) → not (is_final o) ≡ may_retry o
is_final-may_retry none = refl
is_final-may_retry (some Json.null) = refl
is_final-may_retry (some (Json.bool b)) = ground arith
is_final-may_retry (some (Json.number n)) = ground arith
is_final-may_retry (some (Json.string t)) = ground arith
is_final-may_retry (some (Json.array items)) = refl
is_final-may_retry (some (Json.object entries)) = refl

-- A truthy part, by its own fields.
by_fields :
    (d : ℕ) (v : Json)
    → (if truthy_property (codes "success") v then delivered d else record {
      success = false;
      error = some (error_of (property (codes "error") v));
      retryable = may_retry (property (codes "retryable") v);
      duration_ms = some d;
    })
      ≡ result_by d (some v)
by_fields d v =
    rw
      (
        is_none-truthy_part (property (codes "success") v),
        reason-truthy_part (property (codes "error") v),
        is_final-may_retry (property (codes "retryable") v),
      )
      (elim (Bool-cases (truthy_property (codes "success") v)) [
        | inl delivers ↦ rw delivers refl
        | inr refuses ↦ rw refuses refl
      ])

individual_result-expected :
    (d : ℕ) (v : Option Json) → individual_result d v ≡ result_by d (truthy_part v)
unfolding individual_result
individual_result-expected d none = refl
individual_result-expected d (some v) = elim (Bool-cases (is_truthy v)) [
  | inl truthy ↦ rw truthy (by_fields d v)
  | inr falsy ↦ rw falsy refl
]

-- The test of `parseIndividualResults` on `results`.
abbrev container : Option Json → Option Json
container (some (Json.array items)) = some (Json.array items)
container (some (Json.object entries)) = some (Json.object entries)
container _ = none

abbrev read : ℕ → Text → Option Json → PublishResult
read d id none = delivered d
read d id (some results) = individual_result d (property id results)

read-container :
    (d : ℕ) (id : Text) (results : Option Json)
    → read d id (container results) ≡ result_by d (verdict_in results id)
read-container d id none = refl
read-container d id (some Json.null) = refl
read-container d id (some (Json.bool b)) = refl
read-container d id (some (Json.number n)) = refl
read-container d id (some (Json.string t)) = refl
read-container d id (some (Json.array items)) = individual_result-expected d none
read-container d id (some (Json.object entries)) =
    individual_result-expected d (property id (Json.object entries))

-- A `results` that is no object and no array has nothing of an event.
pub results_of-verdict :
    (d : ℕ) (id : Text) (body : Option Json)
    → read d id (results_of body) ≡ result_by d (verdict body id)
unfolding results_of
results_of-verdict d id none = refl
results_of-verdict d id (some parsed) = read-container d id (property (codes "results") parsed)
