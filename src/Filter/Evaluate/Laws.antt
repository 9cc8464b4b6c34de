-- ===== src/Filter/Evaluate/Laws.antt =====
-- What the filter says of the cluster: the evidence of the dump, and the verdict on the nodes.
use mathlib.Core.List.{Perm}
use volens.Base.{
  ℕ, String, ◌≡◌, refl, sym, ◌∙◌, ap, Bool, true, false, not, ◌&&◌, ◌||◌, Option, none, some, List,
  [], ◌∷◌, ◌++◌, is_some, is_empty, length, any, all, arith, Option-cases, inl, inr, if◌then◌else◌,
}
use volens.Base.Dict.{Dict, lookup, insert}
use volens.Base.Sort.{sort_by-perm, sort_by-IsSorted, IsSorted, is_empty-sort_by}
use volens.Kube.{Toleration, Taint, Node, Pod}
use volens.Cluster.{CacheNode, CacheDump}
use volens.Model.{Failure, NodeResult}
use volens.Model.Checks.{is_pass, is_failure, is_unknown}
use volens.Filter.Evaluate.{
  Input, is_eligible, eligible_loop, eligible_ready_node_names, match_loop, match_cache_nodes,
  dump_nodes, cache_evidence, count_passed, is_positive, any_unknown, allocation_check,
  evaluate_nodes, evaluate,
}

abbrev pub some_passed : List NodeResult → Bool
some_passed = any (λ node. node.passed)

is_positive-count_passed :
    (nodes : List NodeResult) → is_positive (count_passed nodes) ≡ some_passed nodes
is_positive-count_passed [] = refl
is_positive-count_passed (node ∷ nodes) = ground (arith, is_positive-count_passed nodes)

-- The verdict on the nodes passes when they could be listed and one of them passed; it is a
-- determinate failure when they could be listed, none passed and every one is determinate; and in
-- every other case it is indeterminate.
pub allocation_check_lem :
    (nodes : List NodeResult) (err : Option Failure)
    → (is_pass (allocation_check nodes err) ≡ not (is_some err) && some_passed nodes)
      × (is_failure (allocation_check nodes err)
          ≡ not (is_some err) && not (some_passed nodes) && not (any_unknown nodes))
      × (is_unknown (allocation_check nodes err)
          ≡ is_some err || not (some_passed nodes) && any_unknown nodes)
unfolding allocation_check
allocation_check_lem nodes (some err) = (refl, refl, refl)
allocation_check_lem nodes none = ground (arith, is_positive-count_passed nodes)

module _ (p : String → Bool) where
  abbrev all_keys : {V : Type 0} → Dict V → Bool
  all_keys [] = true
  all_keys ((k, v) ∷ d) = p k && all_keys d

  all_keys-insert :
      {V : Type 0} (k : String) (v : V) (d : Dict V) → all_keys (insert k v d) ≡ p k && all_keys d
  unfolding insert
  all_keys-insert k v [] = refl
  all_keys-insert k v ((j, w) ∷ d) = ground (arith, all_keys-insert k v d)

  all_keys-eligible_loop :
      (names : Dict (Unit {0})) (nodes : List Node) (pod : Pod)
      → all_keys (eligible_loop names nodes pod)
        ≡ all_keys names && all (λ node. not (is_eligible pod node) || p node.name) nodes
  unfolding eligible_loop
  all_keys-eligible_loop names [] pod = ground arith
  all_keys-eligible_loop names (node ∷ nodes) pod =
      all_keys-eligible_loop (if is_eligible pod node then insert node.name tt names else names)
        nodes pod
      ∙ go (is_eligible pod node)
    where
      go :
          (b : Bool)
          → all_keys (if b then insert node.name tt names else names)
              && all (λ n. not (is_eligible pod n) || p n.name) nodes
            ≡ all_keys names
              && ((not b || p node.name) && all (λ n. not (is_eligible pod n) || p n.name) nodes)
      go true = ground (arith, all_keys-insert node.name tt names)
      go false = refl

&&-true_right : (b : Bool) → b && true ≡ b
&&-true_right b = ground arith

is_empty-snoc :
    (xs : List String) (x : String) (b : Bool) → is_empty (xs ++ x ∷ []) && b ≡ is_empty xs && false
is_empty-snoc [] x b = refl
is_empty-snoc (y ∷ xs) x b = refl

module _ (cache_nodes : Dict CacheNode) where
  abbrev is_cached : String → Bool
  is_cached name = is_some (lookup name cache_nodes)

  missing-match_loop :
      (matched : Dict CacheNode) (missing : List String) (expected : Dict (Unit {0}))
      → is_empty (match_loop cache_nodes matched missing expected).1
        ≡ is_empty missing && all_keys is_cached expected
  unfolding match_loop
  missing-match_loop matched missing [] =
      is_empty-sort_by (λ s. s) missing ∙ sym (&&-true_right (is_empty missing))
  missing-match_loop matched missing ((name, u) ∷ expected) =
      elim (Option-cases (lookup name cache_nodes)) [
        | inl e ↦
            rw (e, match_loop)
              (missing-match_loop matched (missing ++ name ∷ []) expected
                ∙ is_empty-snoc missing name (all_keys is_cached expected))
        | inr (c, e) ↦
            rw (e, match_loop) (missing-match_loop (insert name c matched) missing expected)
      ]

  -- What the dump must list for the evidence to be complete.
  missing-match_cache_nodes :
      (nodes : List Node) (pod : Pod)
      → is_empty (match_cache_nodes cache_nodes (eligible_ready_node_names nodes pod)).1
        ≡ all (λ node. not (is_eligible pod node) || is_cached node.name) nodes
  unfolding match_cache_nodes eligible_ready_node_names
  missing-match_cache_nodes nodes pod =
      missing-match_loop [] [] (eligible_loop [] nodes pod)
      ∙ all_keys-eligible_loop is_cached [] nodes pod

cache_evidence-is_pass :
    (dump : CacheDump) (err : Option Failure) (matched : Dict CacheNode) (missing : List String)
    (expected : ℕ)
    → is_pass (cache_evidence dump err matched missing expected)
      ≡ not (is_some err) && is_empty missing
unfolding cache_evidence
cache_evidence-is_pass dump (some err) matched missing expected = refl
cache_evidence-is_pass dump none matched [] expected = refl
cache_evidence-is_pass dump none matched (m ∷ missing) expected = refl

module _ (tolerates : Toleration → Taint → Bool) (input : Input) where
  -- The evidence of the cache dump passes exactly when the capture did not fail and the dump lists
  -- each node that is Ready and that the Pod's selector and required affinity allow.
  pub cache_check-is_pass :
      is_pass (evaluate tolerates input).cache_check
      ≡ not (is_some input.capture_err)
        && all
            (λ node.
              not (is_eligible input.pod node)
              || is_some (lookup node.name (dump_nodes input.dump)))
            input.nodes
  unfolding evaluate
  cache_check-is_pass =
      let cache_nodes = dump_nodes input.dump in
      let expected = eligible_ready_node_names input.nodes input.pod in
      let found = match_cache_nodes cache_nodes expected in
      cache_evidence-is_pass input.dump input.capture_err found.0 found.1 (length expected)
      ∙ ap (λ b. not (is_some input.capture_err) && b)
          (missing-match_cache_nodes cache_nodes input.nodes input.pod)

  -- The reported nodes are the results of the listed nodes, each once, in the order of their names.
  pub nodes-IsSorted :
      Perm
        (evaluate tolerates input).nodes
        (evaluate_nodes tolerates input.pod (dump_nodes input.dump) input.nodes)
      × IsSorted (λ r. r.name) (evaluate tolerates input).nodes
  unfolding evaluate
  nodes-IsSorted =
      let results = evaluate_nodes tolerates input.pod (dump_nodes input.dump) input.nodes in
      (sort_by-perm (λ r. r.name) results, sort_by-IsSorted (λ r. r.name) results)
