-- ===== src/Worker/Cluster/Pods.antt =====
-- The ids of workers in different pods.
use outboxy.Base.{
  ℕ, suc, ◌≡◌, refl, sym, ap, ◌∙◌, true, false, [], ◌∷◌, ◌++◌, none, Text, codes, includes, ◌==◌,
  All, arith, List,
}
use outboxy.Worker.Identity.{resolve_worker_id}
use outboxy.Worker.Cluster.{WorkerCluster, first_parts, new_cluster, Occurrence, run}

abbrev pub HasNoDash : Text → Type 0
HasNoDash s = All (λ c. (c == b'-') ≡ false) s

-- The name of a pod: that of its deployment, which has two parts, and what tells the pods apart.
abbrev pub pod : Text → Text → Text → Text
pod a b own = a ++ b'-' ∷ (b ++ b'-' ∷ own)

includes-dash : (a s : Text) → includes (codes "-") (a ++ b'-' ∷ s) ≡ true
unfolding includes
includes-dash [] s = refl
includes-dash (c ∷ a) s = ground (arith, includes-dash a s)

first_parts-suc :
    (n : ℕ) (a s : Text)
    → HasNoDash a
    → first_parts (suc n) (a ++ b'-' ∷ s) ≡ a ++ b'-' ∷ first_parts n s
unfolding first_parts
first_parts-suc n [] s plain = refl
first_parts-suc n (c ∷ a) s plain = rw plain.0 (ap (λ t. c ∷ t) (first_parts-suc n a s plain.1))

first_parts-zero : (b s : Text) → HasNoDash b → first_parts 0 (b ++ b'-' ∷ s) ≡ b
unfolding first_parts
first_parts-zero [] s plain = refl
first_parts-zero (c ∷ b) s plain = rw plain.0 (ap (λ t. c ∷ t) (first_parts-zero b s plain.1))

new_cluster-prefix :
    (a b own random : Text)
    → HasNoDash a
    → HasNoDash b
    → (new_cluster none none (pod a b own) random).worker_id_prefix ≡ a ++ b'-' ∷ b
unfolding new_cluster resolve_worker_id
new_cluster-prefix a b own random plain plain' = rw (includes-dash a (b ++ b'-' ∷ own)) (
    first_parts-suc 0 a (b ++ b'-' ∷ own) plain
    ∙ ap (λ t. a ++ b'-' ∷ t) (first_parts-zero b own plain'))

-- A cluster before its first call.
abbrev fresh : Text → WorkerCluster
fresh prefix = record {
  workers = [];
  publishers = [];
  running = false;
  worker_id_prefix = prefix;
  starting = [];
  stopping = [];
  made = 0;
  started = [];
  stopped = [];
  shut_down = [];
}

-- The workers that the clusters of two pods of one deployment start have the same ids, whatever happens to
-- both alike, if neither a prefix nor a worker id is configured and the deployment's name has two parts:
-- what tells the pods apart is cut off.
pub run-shares_ids :
    (a b own own' random random' : Text) (os : List Occurrence)
    → HasNoDash a
    → HasNoDash b
    → (run os (new_cluster none none (pod a b own) random)).started
      ≡ (run os (new_cluster none none (pod a b own') random')).started
unfolding new_cluster
run-shares_ids a b own own' random random' os plain plain' =
    ap (λ prefix. (run os (fresh prefix)).started)
      (new_cluster-prefix a b own random plain plain'
        ∙ sym (new_cluster-prefix a b own' random' plain plain'))
