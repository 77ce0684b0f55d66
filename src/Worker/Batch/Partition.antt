-- ===== src/Worker/Batch/Partition.antt =====
-- The three groups partition the results: where each id goes, and that none is lost or doubled.
use mathlib.Core.List.{Perm, append_assoc, append-nil, perm_middle, perm_append_comm}
use mathlib.Core.List.Perm
use outboxy.Base.{
  ℕ, ◌≡◌, Bool, true, false, ◌&&◌, ◌||◌, List, [], ◌∷◌, ◌++◌, Option, none, some, Text, Map, get,
  keys, UniqueKeys, text_eq, text_eq_iff, member, member-append, arith,
}
use outboxy.Publisher.{PublishResult}
use outboxy.Worker.Retry.{RetryDecision}
use outboxy.Worker.Batch.{
  BatchGroupingResult, push_decision, decision_of, group_from, group_batch_results,
}

-- All the ids of a grouping.
abbrev pub all_ids : BatchGroupingResult → List Text
all_ids g = g.succeeded ++ (g.retried ++ g.dlq)

push_decision-perm :
    (d : RetryDecision) (id : Text) (g : BatchGroupingResult)
    → Perm (all_ids (push_decision d id g)) (id ∷ all_ids g)
unfolding push_decision
push_decision-perm RetryDecision.succeeded id g =
    rw append_assoc (perm_middle g.succeeded (g.retried ++ g.dlq))
push_decision-perm RetryDecision.retry id g = rw append_assoc (
    Perm.trans (Perm.append_left g.succeeded (perm_middle g.retried g.dlq))
      (perm_middle g.succeeded (g.retried ++ g.dlq)))
push_decision-perm RetryDecision.dlq id g =
    Perm.trans
      (Perm.append_left g.succeeded (Perm.append_left g.retried (perm_append_comm g.dlq (id ∷ []))))
      (Perm.trans (Perm.append_left g.succeeded (perm_middle g.retried g.dlq))
        (perm_middle g.succeeded (g.retried ++ g.dlq)))

module _ (counts : Map ℕ) (max_retries : ℕ) where
  group_from-perm :
      (g : BatchGroupingResult) (m : Map PublishResult)
      → Perm (all_ids (group_from g m counts max_retries)) (keys m ++ all_ids g)
  unfolding group_from
  group_from-perm g [] = Perm.refl (all_ids g)
  group_from-perm g ((id, result) ∷ m) =
      let d = decision_of id result counts max_retries in
      Perm.trans (group_from-perm (push_decision d id g) m) (
        Perm.trans (Perm.append_left (keys m) (push_decision-perm d id g))
          (perm_middle (keys m) (all_ids g)))

  -- Every id of the results is in exactly one of the three groups, as often as in the results: the
  -- groups together are a permutation of the keys.
  pub group_batch_results-perm :
      (results : Map PublishResult)
      → Perm (all_ids (group_batch_results results counts max_retries)) (keys results)
  unfolding group_batch_results
  group_batch_results-perm results =
      rw (← append-nil (keys results)) (group_from-perm nothing results)
    where
      nothing : BatchGroupingResult
      nothing = record { succeeded = []; retried = []; dlq = [] }

abbrev pub is_decision : RetryDecision → RetryDecision → Bool
is_decision RetryDecision.succeeded RetryDecision.succeeded = true
is_decision RetryDecision.retry RetryDecision.retry = true
is_decision RetryDecision.dlq RetryDecision.dlq = true
is_decision _ _ = false

-- The group for a decision.
abbrev pub group_for : RetryDecision → BatchGroupingResult → List Text
group_for RetryDecision.succeeded g = g.succeeded
group_for RetryDecision.retry g = g.retried
group_for RetryDecision.dlq g = g.dlq

member-push_decision :
    (d e : RetryDecision) (id j : Text) (g : BatchGroupingResult)
    → member j (group_for d (push_decision e id g))
      ≡ (member j (group_for d g) || (text_eq id j && is_decision d e))
unfolding push_decision member
member-push_decision d e id j g = ground (
  arith,
  member-append j g.succeeded (id ∷ []),
  member-append j g.retried (id ∷ []),
  member-append j g.dlq (id ∷ []),
)

module _ (counts : Map ℕ) (max_retries : ℕ) where
  -- Whether the decision on a result of the id `j` is `d`.
  abbrev pub is_decided : RetryDecision → Text → Option PublishResult → Bool
  is_decided d j none = false
  is_decided d j (some result) = is_decision d (decision_of j result counts max_retries)

  member-group_from :
      (d : RetryDecision) (j : Text) (g : BatchGroupingResult) (m : Map PublishResult)
      → UniqueKeys m
      → member j (group_for d (group_from g m counts max_retries))
        ≡ (member j (group_for d g) || is_decided d j (get j m))
  unfolding group_from get
  member-group_from d j g [] u = ground arith
  member-group_from d j g ((id, result) ∷ m) u =
      let e = decision_of id result counts max_retries in
      ground (
        arith,
        text_eq_iff id j,
        member-group_from d j (push_decision e id g) m u.1,
        member-push_decision d e id j g,
      )

  -- An id stands in the group for a decision exactly when the map has a result for it and the
  -- decision on that result is this one.
  pub member-group_batch_results :
      (d : RetryDecision) (j : Text) (results : Map PublishResult)
      → UniqueKeys results
      → member j (group_for d (group_batch_results results counts max_retries))
        ≡ is_decided d j (get j results)
  unfolding group_batch_results member
  member-group_batch_results d j results u = ground (arith, member-group_from d j nothing results u)
    where
      nothing : BatchGroupingResult
      nothing = record { succeeded = []; retried = []; dlq = [] }
