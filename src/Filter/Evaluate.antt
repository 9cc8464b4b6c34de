-- ===== src/Filter/Evaluate.antt =====
-- internal/agent/filter/filter.go: the evidence of the cache dump, every node, and the verdict.
pub mod Laws
use volens.Base.{
  ℕ, zero, suc, String, Bool, true, false, not, ◌&&◌, ◌||◌, Option, none, some, List, [], ◌∷◌, ◌++◌,
  is_empty, length, if◌then◌else◌,
}
use volens.Base.Int.{ℤ, pos}
use volens.Base.Dict.{Dict, lookup, insert}
use volens.Base.Sort.{sort_by, sort_strings}
use volens.Kube.{Toleration, Taint, Node, Pod}
use volens.Cluster.{CacheNode, CacheDump, no_cache_node}
use volens.Model.{text, number, strings, plain, Failure, nil, of_nodes, Check, NodeResult}
use volens.Model.Checks.{known, unknown, with_evidence}
use volens.Filter.Resources.{node_ready}
use volens.Filter.Affinity.{required_node_affinity_matches}
use volens.Filter.Node.{evaluate_node, label_is}

unfoldable pub allocate_sources : List String
allocate_sources =
    "pkg/scheduler/actions/allocate/allocate.go"
    ∷ "pkg/scheduler/framework/session_plugins.go:PrePredicateFn"
    ∷ "pkg/scheduler/framework/session_plugins.go:PredicateFn" ∷ []

pub record Input : Type 0 where
  pub pod : Pod
  pub nodes : List Node
  pub nodes_err : Option Failure
  pub dump : CacheDump
  pub capture_err : Option Failure

pub record FilterResult : Type 0 where
  pub cache_check : Check
  pub nodes : List NodeResult
  pub allocation_check : Check
  pub plugin_check : Check

-- The loop over the selector, which breaks at the first label that differs.
unfoldable pub selector_matches : Dict String → Node → Bool
selector_matches [] node = true
selector_matches ((key, value) ∷ rest) node =
    let r = selector_matches rest node in
    if not (label_is (lookup key node.labels) value) then false else r

abbrev pub is_eligible : Pod → Node → Bool
is_eligible pod node =
    node_ready node
    && (selector_matches pod.spec.node_selector node && required_node_affinity_matches pod node)

-- A set of names is a dictionary into the one value.
pub eligible_loop : Dict (Unit {0}) → List Node → Pod → Dict (Unit {0})
eligible_loop result [] pod = result
eligible_loop result (node ∷ nodes) pod =
    eligible_loop (if is_eligible pod node then insert node.name tt result else result) nodes pod

unfoldable pub eligible_ready_node_names : List Node → Pod → Dict (Unit {0})
unfolding eligible_loop
eligible_ready_node_names nodes pod = eligible_loop [] nodes pod

pub match_loop :
    Dict CacheNode → Dict CacheNode → List String → Dict (Unit {0}) → Dict CacheNode × List String
match_loop cache_nodes matched missing [] = (matched, sort_strings missing)
match_loop cache_nodes matched missing ((name, _) ∷ expected) =
    let absent = match_loop cache_nodes matched (missing ++ name ∷ []) expected in
    elim (lookup name cache_nodes) [
      | none ↦ absent
      | some node ↦ match_loop cache_nodes (insert name node matched) missing expected
    ]

unfoldable pub match_cache_nodes : Dict CacheNode → Dict (Unit {0}) → Dict CacheNode × List String
unfolding match_loop
match_cache_nodes cache_nodes expected = match_loop cache_nodes [] [] expected

abbrev count : {A : Type 0} → List A → ℤ
count l = pos (length l)

abbrev pub dump_nodes : CacheDump → Dict CacheNode
dump_nodes dump = elim dump.nodes [ none ↦ [] | some nodes ↦ nodes ]

unfoldable pub cache_evidence :
    CacheDump → Option Failure → Dict CacheNode → List String → ℕ → Check
cache_evidence dump (some err) matched missing expected =
    unknown "cache.capture" "allocate" "Volcano scheduler cache captured" err.message
      (of_nodes dump.nodes) ("SIGUSR2 Node (...) cache dump" ∷ [])
cache_evidence dump none matched missing expected =
    if not (is_empty missing)
    then unknown "cache.capture" "allocate" "Volcano scheduler cache captured"
        (text "cache dump is missing eligible Ready nodes: " ∷ strings missing ∷ [])
        (of_nodes (some matched)) ("SIGUSR2 Node (...) cache dump" ∷ [])
    else with_evidence (of_nodes (some matched)) (
        known "cache.capture" "allocate" "Volcano scheduler cache captured" true
          (text "captured "
            ∷ number (count (dump_nodes dump))
            ∷ text " scheduler cache nodes; matched "
            ∷ number (count matched)
            ∷ text "/"
            ∷ number (pos expected)
            ∷ text " eligible Ready nodes from "
            ∷ text dump.scheduler.namespace
            ∷ text "/"
            ∷ text dump.scheduler.name
            ∷ [])
          ("SIGUSR2 Node (...) cache dump" ∷ []))

-- `passed` and `unknown` of the loop over the nodes.
abbrev pub count_passed : List NodeResult → ℕ
count_passed [] = 0
count_passed (node ∷ nodes) =
    let rest = count_passed nodes in if node.passed then suc rest else rest

abbrev pub any_unknown : List NodeResult → Bool
any_unknown [] = false
any_unknown (node ∷ nodes) = not node.determinate || any_unknown nodes

abbrev is_positive : ℕ → Bool
is_positive zero = false
is_positive (suc n) = true

unfoldable pub allocation_check : List NodeResult → Option Failure → Check
unfolding allocate_sources
allocation_check nodes (some err) =
    unknown "allocate.nodes" "allocate" "At least one node passes common filters"
      (text "list Kubernetes nodes from informer cache: " ∷ err.message) nil allocate_sources
allocation_check nodes none =
    let passed = count_passed nodes in
    let reason =
      number (pos passed)
      ∷ text "/"
      ∷ number (count nodes)
      ∷ text " nodes passed common filters"
      ∷ [] in
    if not (is_positive passed) && any_unknown nodes
    then unknown "allocate.nodes" "allocate" "At least one node passes common filters"
        (reason ++ text "; one or more nodes lack Volcano cache evidence" ∷ []) nil allocate_sources
    else known "allocate.nodes" "allocate" "At least one node passes common filters"
        (is_positive passed) reason allocate_sources

module _ (tolerates_taint : Toleration → Taint → Bool) where
  -- `cacheNode, found := cacheNodes[name]`, with the zero CacheNode where it is missing.
  abbrev pub evaluate_with : Pod → Dict CacheNode → Node → NodeResult
  evaluate_with pod cache_nodes node = elim (lookup node.name cache_nodes) [
    | none ↦ evaluate_node tolerates_taint pod node no_cache_node false
    | some cache ↦ evaluate_node tolerates_taint pod node cache true
  ]

  unfoldable pub evaluate_nodes : Pod → Dict CacheNode → List Node → List NodeResult
  evaluate_nodes pod cache_nodes [] = []
  evaluate_nodes pod cache_nodes (node ∷ nodes) =
      evaluate_with pod cache_nodes node ∷ evaluate_nodes pod cache_nodes nodes

  unfoldable pub evaluate : Input → FilterResult
  unfolding allocate_sources
  evaluate input =
      let cache_nodes = dump_nodes input.dump in
      let expected = eligible_ready_node_names input.nodes input.pod in
      let (matched, missing) = match_cache_nodes cache_nodes expected in
      let nodes = sort_by (λ r. r.name) (evaluate_nodes input.pod cache_nodes input.nodes) in
      record {
        cache_check = cache_evidence input.dump input.capture_err matched missing (length expected);
        nodes = nodes;
        allocation_check = allocation_check nodes input.nodes_err;
        plugin_check =
            unknown "plugins.predicates" "allocate" "Active PrePredicate and Predicate plugin hooks"
              (plain
                "enabled predicates and plugin-private Session state cannot be reproduced from Kubernetes objects and the node cache dump alone")
              nil allocate_sources;
      }
