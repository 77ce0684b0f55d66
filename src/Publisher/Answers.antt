-- ===== src/Publisher/Answers.antt =====
-- The map of results that a publisher assembles from one answer for each group.
use outboxy.Base.{
  ◌≡◌, refl, ap, sym, ◌∙◌, Bool, true, false, List, [], ◌∷◌, none, some, Text, Map, get, set,
  text_eq, text_eq_iff, text_eq_self, member, select, find, if◌then◌else◌, ◌or_else◌, arith,
  get-set, UniqueKeys, set-UniqueKeys, All, Bool-cases, Option-cases, inl, inr, is_none,
}
use outboxy.Schema.{OutboxEvent}
use outboxy.Schema.Events.{event_at, event_ids, DistinctIds}
use outboxy.Publisher.{PublishResult}
use outboxy.Publisher.Groups.{
  set_each, set_all, assemble, group_by, group_of, in_group, group_at-group_by, group_by-UniqueKeys,
}
use mathlib.Core.Option.{some-injective}

pub get-set_each :
    (f : Text → PublishResult) (j : Text) (ids : List Text) (results : Map PublishResult)
    → get j (set_each f ids results) ≡ (if member j ids then some (f j) else get j results)
unfolding set_each member
get-set_each f j [] results = refl
get-set_each f j (id ∷ ids) results =
    rw (get-set_each f j ids (set id (f id) results), get-set id j (f id) results)
      (ground (arith, text_eq_iff id j))

pub set_each-UniqueKeys :
    (f : Text → PublishResult) (ids : List Text) (results : Map PublishResult)
    → UniqueKeys results
    → UniqueKeys (set_each f ids results)
unfolding set_each
set_each-UniqueKeys f [] results u = u
set_each-UniqueKeys f (id ∷ ids) results u =
    set_each-UniqueKeys f ids (set id (f id) results) (set-UniqueKeys id (f id) results u)

pub get-set_all :
    (j : Text) (batch results : Map PublishResult)
    → UniqueKeys batch
    → get j (set_all batch results) ≡ (if is_none (get j batch) then get j results else get j batch)
unfolding set_all get
get-set_all j [] results u = refl
get-set_all j ((id, r) ∷ batch) results u =
    rw (get-set_all j batch (set id r results) u.1, get-set id j r results)
      (ground (arith, text_eq_iff id j, text_eq_iff j id, u.0))

not-member-selected :
    (p : OutboxEvent → Bool) (id : Text) (events : List OutboxEvent)
    → member id (event_ids events) ≡ false
    → member id (event_ids (select p events)) ≡ false
unfolding select member
not-member-selected p id [] absent = refl
not-member-selected p id (e ∷ events) absent = ground (arith, not-member-selected p id events)

-- An event of a list is in a selection of it if the test holds of it.
member-selected :
    (p : OutboxEvent → Bool) (id : Text) (events : List OutboxEvent) (e : OutboxEvent)
    → DistinctIds events
    → event_at id events ≡ some e
    → member id (event_ids (select p events)) ≡ p e
unfolding select member find
member-selected p id [] e distinct here = cc
member-selected p id (x ∷ events) e distinct here =
    ground
      (arith, text_eq_iff x.id id, not-member-selected p id events, member-selected p id events e)

-- What holds of every binding of a map holds of its entries.
All-get :
    (P : Text × List OutboxEvent → Type 0) (m : Map (List OutboxEvent))
    → UniqueKeys m
    → ((k : Text) (v : List OutboxEvent) → get k m ≡ some v → P (k, v))
    → All P m
unfolding get
All-get P [] u h = tt
All-get P ((k, v) ∷ m) u h = (
  h k v (rw (text_eq_self k) refl),
  All-get P m u.1 (λ j w e. h j w (ground (arith, text_eq_iff k j, u.0))),
)

-- A group's answer has each of its ids, under a value, and no other.
abbrev pub Answers :
    (Text → List OutboxEvent → Map PublishResult)
    → (Text → List OutboxEvent → Text → PublishResult)
    → Type 0
Answers answer value =
    (k : Text) (events : List OutboxEvent)
    → UniqueKeys (answer k events)
      × ((j : Text)
          → get j (answer k events)
            ≡ (if member j (event_ids events) then some (value k events j) else none))

module _ (answer : Text → List OutboxEvent → Map PublishResult)
    (value : Text → List OutboxEvent → Text → PublishResult) (answers : Answers answer value)
    (id k : Text) where
  -- The id is in the group under the key and in no other.
  abbrev OnlyIn : Text × List OutboxEvent → Type 0
  OnlyIn g = member id (event_ids g.1) ≡ text_eq k g.0

  get-assemble_other :
      (groups : Map (List OutboxEvent)) (results : Map PublishResult)
      → All OnlyIn groups
      → get k groups ≡ none
      → get id (assemble answer groups results) ≡ get id results
  unfolding assemble get
  get-assemble_other [] results only absent = refl
  get-assemble_other ((j, events) ∷ groups) results only absent =
      rw
        (
          get-assemble_other groups (set_all (answer j events) results) only.1 (ground arith),
          get-set_all id (answer j events) results (answers j events).0,
          (answers j events).1 id,
        )
        (ground (arith, only.0, text_eq_iff j k, text_eq_iff k j))

  get-assemble :
      (groups : Map (List OutboxEvent)) (results : Map PublishResult) (events : List OutboxEvent)
      → UniqueKeys groups
      → All OnlyIn groups
      → get k groups ≡ some events
      → get id (assemble answer groups results) ≡ some (value k events id)
  unfolding assemble get
  get-assemble [] results events u only present = cc
  get-assemble ((j, events') ∷ groups) results events u only present =
      elim (Bool-cases (text_eq j k)) [
        | inr other ↦
            get-assemble groups (set_all (answer j events') results) events u.1 only.1
              (rw other at present)
        | inl here ↦
            let same : j ≡ k = (text_eq_iff j k).0 here in
            rw
              (
                get-assemble_other groups (set_all (answer j events') results) only.1
                    (ground (arith, same, u.0)),
                get-set_all id (answer j events') results (answers j events').0,
                (answers j events').1 id,
                only.0,
                some-injective events' events (rw here at present),
                same,
                text_eq_self k,
              )
              refl
      ]

no_members :
    (id : Text) (events : List OutboxEvent) → events ≡ [] → member id (event_ids events) ≡ false
unfolding member
no_members id events empty = rw empty refl

module _ (key : OutboxEvent → Text) (events : List OutboxEvent) where
  group_by-found :
      (k : Text) (v : List OutboxEvent)
      → get k (group_by key events) ≡ some v
      → group_of key k events ≡ v
  group_by-found k v found = sym (group_at-group_by key k events) ∙ ap (λ o. o or_else []) found

  group_by-present :
      (id : Text) (e : OutboxEvent)
      → DistinctIds events
      → event_at id events ≡ some e
      → get (key e) (group_by key events) ≡ some (group_of key (key e) events)
  group_by-present id e distinct here =
      let selected : member id (event_ids (group_of key (key e) events)) ≡ true =
        member-selected (in_group key (key e)) id events e distinct here ∙ text_eq_self (key e) in
      elim (Option-cases (get (key e) (group_by key events))) [
        | inr (v, found) ↦ found ∙ ap some (sym (group_by-found (key e) v found))
        | inl absent ↦
            let empty : group_of key (key e) events ≡ [] =
              sym (group_at-group_by key (key e) events) ∙ ap (λ o. o or_else []) absent in
            cc (no_members id (group_of key (key e) events) empty, selected)
      ]

module _ (key : OutboxEvent → Text) (answer : Text → List OutboxEvent → Map PublishResult)
    (value : Text → List OutboxEvent → Text → PublishResult) (answers : Answers answer value) where
  -- Each event gets the answer of its own group, with the group's events.
  pub get-assemble-group_by :
      (id : Text) (events : List OutboxEvent) (e : OutboxEvent)
      → DistinctIds events
      → event_at id events ≡ some e
      → get id (assemble answer (group_by key events) [])
        ≡ some (value (key e) (group_of key (key e) events) id)
  get-assemble-group_by id events e distinct here =
      let groups = group_by key events in
      get-assemble answer value answers id (key e) groups [] (group_of key (key e) events)
        (group_by-UniqueKeys key events)
        (All-get (OnlyIn answer value answers id (key e)) groups (group_by-UniqueKeys key events)
          (λ k v found.
            ap (λ g. member id (event_ids g)) (sym (group_by-found key events k v found))
            ∙ member-selected (in_group key k) id events e distinct here))
        (group_by-present key events id e distinct here)
