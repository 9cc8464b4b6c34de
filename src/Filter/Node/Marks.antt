-- ===== src/Filter/Node/Marks.antt =====
-- Which resources of a node are marked as insufficient.
use volens.Base.{
  String, ◌≡◌, refl, ◌∙◌, ap, Bool, true, false, not, ◌||◌, List, [], ◌∷◌, ◌==◌, is_empty, is_some,
  string_in, arith, if◌then◌else◌,
}
use volens.Base.Int.{ℤ}
use volens.Base.Dict.{Dict, lookup, insert, get_or, NodupKeys, lookup-insert}
use volens.Kube.{Toleration, Taint, Node, Pod}
use volens.Cluster.{Amounts, CacheNode}
use volens.Model.{ResourcePair}
use volens.Filter.Resources.{resource_list_values, pod_requests, has_restartable_init_container}
use volens.Filter.Fit.Laws.{short_names, resource_fit_check_lem}
use volens.Filter.Node.{
  no_pair, set_total, set_free, set_used, set_releasing, set_pairs, node_resource_pairs,
  add_requested, mark_insufficient, volcano_best_effort, resource_check, evaluate_node,
}

abbrev pub insufficient_of : String → Dict ResourcePair → Bool
insufficient_of name d = (get_or no_pair name d).insufficient

insufficient_of-insert :
    (name k : String) (p : ResourcePair) (d : Dict ResourcePair)
    → insufficient_of name (insert k p d)
      ≡ (if name == k then p.insufficient else insufficient_of name d)
insufficient_of-insert name k p d = ground (arith, lookup-insert name k p d)

insufficient_of-set_pairs :
    (set : ℤ → ResourcePair → ResourcePair)
    → ((v : ℤ) (p : ResourcePair) → (set v p).insufficient ≡ p.insufficient)
    → (name : String) (d : Dict ResourcePair) (amounts : Amounts)
    → insufficient_of name (set_pairs set d amounts) ≡ insufficient_of name d
unfolding set_pairs
insufficient_of-set_pairs set h name d [] = refl
insufficient_of-set_pairs set h name d ((k, v) ∷ amounts) =
    let p = set v (get_or no_pair k d) in
    insufficient_of-set_pairs set h name (insert k p d) amounts
    ∙ ground (arith, insufficient_of-insert name k p d, h v (get_or no_pair k d))

insufficient_of-node_resource_pairs :
    (name : String) (node : Node) (cache : CacheNode) (found : Bool)
    → insufficient_of name (node_resource_pairs node cache found) ≡ false
unfolding node_resource_pairs lookup
insufficient_of-node_resource_pairs name node cache false =
    insufficient_of-set_pairs set_total (λ v p. refl) name []
      (resource_list_values node.allocatable)
insufficient_of-node_resource_pairs name node cache true =
    let listed = set_pairs set_total [] (resource_list_values node.allocatable) in
    let totals = set_pairs set_total listed cache.allocatable in
    let frees = set_pairs set_free totals cache.idle in
    let useds = set_pairs set_used frees cache.used in
    insufficient_of-set_pairs set_releasing (λ v p. refl) name useds cache.releasing
    ∙ insufficient_of-set_pairs set_used (λ v p. refl) name frees cache.used
    ∙ insufficient_of-set_pairs set_free (λ v p. refl) name totals cache.idle
    ∙ insufficient_of-set_pairs set_total (λ v p. refl) name listed cache.allocatable
    ∙ insufficient_of-set_pairs set_total (λ v p. refl) name []
        (resource_list_values node.allocatable)

insufficient_of-add_requested :
    (name : String) (d : Dict ResourcePair) (requests : Amounts)
    → insufficient_of name (add_requested d requests) ≡ insufficient_of name d
unfolding add_requested
insufficient_of-add_requested name d [] = refl
insufficient_of-add_requested name d ((k, v) ∷ requests) =
    insufficient_of-add_requested name (if is_some (lookup k d) then d else insert k no_pair d)
      requests
    ∙ ground (arith, insufficient_of-insert name k no_pair d)

insufficient_of-mark_insufficient :
    (name : String) (d : Dict ResourcePair) (names : List String)
    → insufficient_of name (mark_insufficient d names)
      ≡ insufficient_of name d || string_in name names
unfolding mark_insufficient
insufficient_of-mark_insufficient name d [] = ground arith
insufficient_of-mark_insufficient name d (k ∷ names) =
    let p = record (get_or no_pair k d) { insufficient = true } in
    insufficient_of-mark_insufficient name (insert k p d) names
    ∙ ground (arith, insufficient_of-insert name k p d)

kept :
    (b : Bool) (names short : List String)
    → names ≡ short
    → b ≡ not (is_empty short)
    → (if b then names else []) ≡ short
kept true names short e h = e
kept false names [] e h = refl
kept false names (s ∷ short) e h = cc

module _ (tolerates : Toleration → Taint → Bool) (pod : Pod) (node : Node) (cache : CacheNode) where
  insufficient_of-evaluate_node :
      (found : Bool) (name : String)
      → insufficient_of name (evaluate_node tolerates pod node cache found).resources
        ≡ string_in name (resource_check tolerates pod node cache found).1
  unfolding evaluate_node
  insufficient_of-evaluate_node found name =
      let pairs = node_resource_pairs node cache found in
      let names = (resource_check tolerates pod node cache found).1 in
      insufficient_of-mark_insufficient name (add_requested pairs (pod_requests pod)) names
      ∙ ap (λ b. b || string_in name names)
          (insufficient_of-add_requested name pairs (pod_requests pod)
            ∙ insufficient_of-node_resource_pairs name node cache found)

  resource_check-short_names :
      volcano_best_effort (pod_requests pod) ≡ false
      → has_restartable_init_container pod ≡ false
      → NodupKeys cache.releasing
      → (resource_check tolerates pod node cache true).1
        ≡ short_names cache node.allocatable (pod_requests pod)
  unfolding resource_check
  resource_check-short_names e r h =
      let (names, pass, fail) =
        resource_fit_check_lem (pod_requests pod) cache node.allocatable h in
      rw (e, r) (kept _ _ _ names fail)

  -- For a Pod that asks for a resource and has no sidecar, and a node in the cache dump that lists
  -- each releasing resource once, the resources marked insufficient are exactly the short ones.
  pub insufficient_of-evaluate_node-short_names :
      (name : String)
      → volcano_best_effort (pod_requests pod) ≡ false
      → has_restartable_init_container pod ≡ false
      → NodupKeys cache.releasing
      → insufficient_of name (evaluate_node tolerates pod node cache true).resources
        ≡ string_in name (short_names cache node.allocatable (pod_requests pod))
  insufficient_of-evaluate_node-short_names name e r h =
      insufficient_of-evaluate_node true name
      ∙ ap (string_in name) (resource_check-short_names e r h)
