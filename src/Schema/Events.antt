-- ===== src/Schema/Events.antt =====
-- Lists of events by their ids.
use outboxy.Base.{
  ◌≡◌, refl, false, List, [], ◌∷◌, Option, none, Text, text_eq, member, find, arith, some, All,
  text_eq_iff, text_eq_self, Bool-cases, inl, inr, is_none, true,
}
use outboxy.Schema.{OutboxEvent}

abbrev pub event_at : Text → List OutboxEvent → Option OutboxEvent
event_at id events = find (λ e. text_eq e.id id) events

abbrev pub event_ids : List OutboxEvent → List Text
event_ids [] = []
event_ids (e ∷ es) = e.id ∷ event_ids es

abbrev pub DistinctIds : List OutboxEvent → Type 0
DistinctIds [] = Unit
DistinctIds (e ∷ es) = (member e.id (event_ids es) ≡ false) × DistinctIds es

pub event_at-none :
    (id : Text) (es : List OutboxEvent) → member id (event_ids es) ≡ false → event_at id es ≡ none
unfolding member find
event_at-none id [] h = refl
event_at-none id (e ∷ es) h = ground (arith, event_at-none id es)

event_at-cons :
    (x : OutboxEvent) (events es : List OutboxEvent)
    → member x.id (event_ids es) ≡ false
    → All (λ e. event_at e.id events ≡ some e) es
    → All (λ e. event_at e.id (x ∷ events) ≡ some e) es
unfolding find member
event_at-cons x events [] fresh h = tt
event_at-cons x events (y ∷ es) fresh h = (
  ground (arith, text_eq_iff x.id y.id, text_eq_iff y.id x.id),
  event_at-cons x events es (ground arith) h.1,
)

-- With distinct ids each event is found under its own.
pub event_at_self :
    (es : List OutboxEvent) → DistinctIds es → All (λ e. event_at e.id es ≡ some e) es
unfolding find
event_at_self [] u = tt
event_at_self (e ∷ es) u =
    (rw (text_eq_self e.id), event_at-cons e es es u.0 (event_at_self es u.1))

pub event_at-id :
    (id : Text) (es : List OutboxEvent) {e : OutboxEvent} → event_at id es ≡ some e → e.id ≡ id
unfolding find
event_at-id id [] here = cc
event_at-id id (x ∷ es) {e} here = elim (Bool-cases (text_eq x.id id)) [
  | inl t ↦ ground (arith, text_eq_iff x.id id)
  | inr t ↦ event_at-id id es {e = e} (ground arith)
]

pub member-event_at :
    (id : Text) (es : List OutboxEvent)
    → member id (event_ids es) ≡ true
    → is_none (event_at id es) ≡ false
unfolding member find
member-event_at id [] m = cc
member-event_at id (e ∷ es) m = ground (arith, member-event_at id es)
