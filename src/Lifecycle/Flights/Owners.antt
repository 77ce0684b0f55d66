-- ===== src/Lifecycle/Flights/Owners.antt =====
-- No event is held by two workers, and what a worker holds is being processed.
use outboxy.Base.{
  ◌≡◌, refl, sym, ◌∙◌, true, false, not, ◌&&◌, List, [], ◌∷◌, ◌++◌, some, Text, member, select,
  text_eq, text_eq_iff, text_eq_self, arith, Bool-cases, inl, inr, All, All-imp, All-select,
}
use mathlib.Core.Option.{some-injective}
use outboxy.Schema.{OutboxEvent}
use outboxy.Schema.Events.{event_ids, DistinctIds}
use outboxy.Lifecycle.Flights.{Flight, flights, flight_ids, owner, HeldBy, landed, DistinctFlights}

owner-cons :
    (x : Flight) (held t : List Flight)
    → member x.event_id (flight_ids t) ≡ false
    → All (λ f. owner f.event_id held ≡ some f.worker) t
    → All (λ f. owner f.event_id (x ∷ held) ≡ some f.worker) t
unfolding owner member
owner-cons x held [] fresh h = tt
owner-cons x held (y ∷ t) fresh h = (
  ground (arith, text_eq_iff x.event_id y.event_id, text_eq_iff y.event_id x.event_id),
  owner-cons x held t (ground arith) h.1,
)

pub owner_self :
    (held : List Flight)
    → DistinctFlights held
    → All (λ f. owner f.event_id held ≡ some f.worker) held
unfolding owner
owner_self [] d = tt
owner_self (f ∷ held) d =
    (rw (text_eq_self f.event_id) refl, owner-cons f held held d.0 (owner_self held d.1))

not-member-landed :
    (worker id : Text) (xs : List Text) (held : List Flight)
    → member id (flight_ids held) ≡ false
    → member id (flight_ids (landed worker xs held)) ≡ false
unfolding landed select member
not-member-landed worker id xs [] absent = refl
not-member-landed worker id xs (f ∷ held) absent =
    ground (arith, not-member-landed worker id xs held)

pub landed-DistinctFlights :
    (worker : Text) (xs : List Text) (held : List Flight)
    → DistinctFlights held
    → DistinctFlights (landed worker xs held)
unfolding landed select
landed-DistinctFlights worker xs [] d = tt
landed-DistinctFlights worker xs (f ∷ held) d = ground (
  arith,
  not-member-landed worker f.event_id xs held d.0,
  landed-DistinctFlights worker xs held d.1,
)

pub All-zip :
    (P Q : Flight → Type 0) (held : List Flight)
    → All P held
    → All Q held
    → All (λ f. P f × Q f) held
All-zip P Q [] p q = tt
All-zip P Q (f ∷ held) p q = ((p.0, q.0), All-zip P Q held p.1 q.1)

-- A flight that is left after a settlement is of none of the settled events.
pub All-landed :
    (P : Flight → Type 0) (worker : Text) (xs : List Text) (held : List Flight)
    → DistinctFlights held
    → HeldBy worker xs held
    → All P held
    → All (λ f. P f × (member f.event_id xs ≡ false)) (landed worker xs held)
unfolding landed
All-landed P worker xs held d own h =
    All-imp _ _ (λ f facts. (facts.0.0, other_event f facts.0.1 facts.1)) (landed worker xs held)
      (All-select (λ f. not (text_eq f.worker worker && member f.event_id xs)) _ held
        (All-zip P (λ f. owner f.event_id held ≡ some f.worker) held h (owner_self held d)))
  where
    other_event :
        (f : Flight)
        → owner f.event_id held ≡ some f.worker
        → not (text_eq f.worker worker && member f.event_id xs) ≡ true
        → member f.event_id xs ≡ false
    other_event f mine left = elim (Bool-cases (member f.event_id xs)) [
      | inr absent ↦ absent
      | inl settled ↦
          let same : f.worker ≡ worker =
            some-injective f.worker worker (sym mine ∙ own f.event_id settled) in
          ground (arith, same, text_eq_iff f.worker worker, settled)
    ]

pub All-flights :
    (P : Flight → Type 0) (worker : Text) (xs : List Text)
    → ((id : Text) → member id xs ≡ true → P (record { worker = worker; event_id = id }))
    → All P (flights worker xs)
unfolding member
All-flights P worker [] h = tt
All-flights P worker (id ∷ xs) h =
    (h id (rw (text_eq_self id) refl), All-flights P worker xs (λ j m. h j (ground (arith, m))))

pub All-flight_ids :
    (P : Flight → Type 0) (id : Text) (held : List Flight)
    → All P held
    → member id (flight_ids held) ≡ true
    → (f : Flight) × (f.event_id ≡ id) × P f
unfolding member
All-flight_ids P id [] h m = cc
All-flight_ids P id (f ∷ held) h m = elim (Bool-cases (text_eq f.event_id id)) [
  | inl here ↦ (f, (text_eq_iff f.event_id id).0 here, h.0)
  | inr other ↦ All-flight_ids P id held h.1 (rw other at m)
]

member-flight_ids :
    (worker id : Text) (xs : List Text) (held : List Flight)
    → member id xs ≡ false
    → member id (flight_ids held) ≡ false
    → member id (flight_ids (flights worker xs ++ held)) ≡ false
unfolding member
member-flight_ids worker id [] held a b = b
member-flight_ids worker id (x ∷ xs) held a b = ground (arith, member-flight_ids worker id xs held)

pub flights-DistinctFlights :
    (worker : Text) (es : List OutboxEvent) (held : List Flight)
    → DistinctIds es
    → ((id : Text) → member id (event_ids es) ≡ true → member id (flight_ids held) ≡ false)
    → DistinctFlights held
    → DistinctFlights (flights worker (event_ids es) ++ held)
unfolding member
flights-DistinctFlights worker [] held d apart h = h
flights-DistinctFlights worker (e ∷ es) held d apart h = (
  member-flight_ids worker e.id (event_ids es) held d.0 (apart e.id (rw (text_eq_self e.id) refl)),
  flights-DistinctFlights worker es held d.1 (λ id m. apart id (ground (arith, m))) h,
)
