-- ===== src/Publisher/Groups.antt =====
-- What the publishers share: events grouped by a key, and the map of their results.
use outboxy.Base.{
  ◌≡◌, refl, ap, Bool, List, [], ◌∷◌, ◌++◌, Text, Map, get, set, text_eq, text_eq_iff, select,
  ◌or_else◌, get-set, UniqueKeys, set-UniqueKeys, Bool-cases, inl, inr,
}
use outboxy.Schema.{OutboxEvent}
use outboxy.Publisher.{PublishResult}

-- The loop of `groupByDestination` and `groupByTopic`, from the groups so far.
unfoldable pub group_from :
    (OutboxEvent → Text) → Map (List OutboxEvent) → List OutboxEvent → Map (List OutboxEvent)
group_from key groups [] = groups
group_from key groups (e ∷ events) =
    group_from key (set (key e) ((get (key e) groups or_else []) ++ e ∷ []) groups) events

unfoldable pub group_by : (OutboxEvent → Text) → List OutboxEvent → Map (List OutboxEvent)
unfolding group_from
group_by key events = group_from key [] events

-- `for (const id of ids) results.set(id, f(id))`.
unfoldable pub set_each : (Text → PublishResult) → List Text → Map PublishResult → Map PublishResult
set_each f [] results = results
set_each f (id ∷ ids) results = set_each f ids (set id (f id) results)

-- `for (const [id, result] of batch) results.set(id, result)`.
unfoldable pub set_all : Map PublishResult → Map PublishResult → Map PublishResult
set_all [] results = results
set_all ((id, result) ∷ batch) results = set_all batch (set id result results)

-- The publishers' maps over their groups: each group's answer is added to the results. The groups
-- run concurrently; their answers are added here in the order of the groups.
unfoldable pub assemble :
    (Text → List OutboxEvent → Map PublishResult)
    → Map (List OutboxEvent)
    → Map PublishResult
    → Map PublishResult
unfolding set_all
assemble answer [] results = results
assemble answer ((k, events) ∷ groups) results =
    assemble answer groups (set_all (answer k events) results)

abbrev pub in_group : (OutboxEvent → Text) → Text → OutboxEvent → Bool
in_group key k e = text_eq (key e) k

abbrev pub group_of : (OutboxEvent → Text) → Text → List OutboxEvent → List OutboxEvent
group_of key k events = select (in_group key k) events

-- A group that is not there is empty.
abbrev pub group_at : Text → Map (List OutboxEvent) → List OutboxEvent
group_at k groups = get k groups or_else []

append-nil_assoc :
    (xs : List OutboxEvent) (x : OutboxEvent) (ys : List OutboxEvent)
    → (xs ++ x ∷ []) ++ ys ≡ xs ++ x ∷ ys
append-nil_assoc [] x ys = refl
append-nil_assoc (z ∷ xs) x ys = ap (λ t. z ∷ t) (append-nil_assoc xs x ys)

append-nil : (xs : List OutboxEvent) → xs ++ [] ≡ xs
append-nil [] = refl
append-nil (x ∷ xs) = ap (λ t. x ∷ t) (append-nil xs)

module _ (key : OutboxEvent → Text) where
  group_at-group_from :
      (k : Text) (groups : Map (List OutboxEvent)) (events : List OutboxEvent)
      → group_at k (group_from key groups events) ≡ group_at k groups ++ group_of key k events
  unfolding group_from select
  group_at-group_from k groups [] = rw (append-nil (group_at k groups))
  group_at-group_from k groups (e ∷ events) =
      rw
        (
          group_at-group_from k (set (key e) ((get (key e) groups or_else []) ++ e ∷ []) groups)
              events,
          get-set (key e) k ((get (key e) groups or_else []) ++ e ∷ []) groups,
        )
        (elim (Bool-cases (text_eq (key e) k)) [
          | inl here ↦ rw (here, (text_eq_iff (key e) k).0 here) (append-nil_assoc _ e _)
          | inr there ↦ rw there refl
        ])

  group_from-UniqueKeys :
      (events : List OutboxEvent) (groups : Map (List OutboxEvent))
      → UniqueKeys groups
      → UniqueKeys (group_from key groups events)
  unfolding group_from
  group_from-UniqueKeys [] groups u = u
  group_from-UniqueKeys (e ∷ events) groups u =
      group_from-UniqueKeys events _ (set-UniqueKeys (key e) _ groups u)

  -- The group under a key has the events with that key, in their order.
  pub group_at-group_by :
      (k : Text) (events : List OutboxEvent)
      → group_at k (group_by key events) ≡ group_of key k events
  unfolding group_by get
  group_at-group_by k events = group_at-group_from k [] events

  pub group_by-UniqueKeys : (events : List OutboxEvent) → UniqueKeys (group_by key events)
  unfolding group_by
  group_by-UniqueKeys events = group_from-UniqueKeys events [] tt
