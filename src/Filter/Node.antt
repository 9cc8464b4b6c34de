-- ===== src/Filter/Node.antt =====
-- internal/agent/filter/node.go: evaluateNode, the checks of one node and what they come to.
pub mod Outcomes
pub mod Passing
pub mod Marks
use volens.Base.{
  String, Bool, true, false, not, ◌&&◌, ◌||◌, Option, none, some, List, [], ◌∷◌, ◌++◌, ◌==◌,
  is_some, if◌then◌else◌,
}
use volens.Base.Int.{ℤ, pos, ltb_ℤ}
use volens.Base.Dict.{Dict, lookup, insert, get_or}
use volens.Kube.{Toleration, Taint, Node, Pod}
use volens.Cluster.{Amounts, CacheNode}
use volens.Model.{
  text, flag, labels, plain, Evidence, nil, of_amounts, of_node, object, end, field, Check,
  ResourcePair, NodeResult,
}
use volens.Model.Checks.{known, unknown, skipped, with_evidence}
use volens.Filter.Resources.{
  node_ready, taints_tolerated, resource_list_values, pod_requests, has_restartable_init_container,
  fits,
}
use volens.Filter.Affinity.{required_node_affinity_matches}
use volens.Filter.NodeChecks.{
  pod_count_check, host_ports_check, pod_affinity_check, volume_limits_check, volume_zone_check,
  topology_spread_check,
}
use volens.Filter.Fit.{resource_fit_check}

-- The zero value of ResourcePair.
abbrev pub no_pair : ResourcePair
no_pair = record { free = none; total = none; used = none; releasing = none; insufficient = false }

abbrev pub set_total : ℤ → ResourcePair → ResourcePair
set_total v p = record p { total = some v }

abbrev pub set_free : ℤ → ResourcePair → ResourcePair
set_free v p = record p { free = some v }

abbrev pub set_used : ℤ → ResourcePair → ResourcePair
set_used v p = record p { used = some v }

abbrev pub set_releasing : ℤ → ResourcePair → ResourcePair
set_releasing v p = record p { releasing = some v }

-- `for name, v := range amounts { pair := result[name]; set; result[name] = pair }`
pub set_pairs : (ℤ → ResourcePair → ResourcePair) → Dict ResourcePair → Amounts → Dict ResourcePair
set_pairs set result [] = result
set_pairs set result ((name, v) ∷ rest) =
    set_pairs set (insert name (set v (get_or no_pair name result)) result) rest

unfoldable pub node_resource_pairs : Node → CacheNode → Bool → Dict ResourcePair
unfolding set_pairs
node_resource_pairs node cache cache_found =
    let result = set_pairs set_total [] (resource_list_values node.allocatable) in
    if not cache_found
    then result
    else let totals = set_pairs set_total result cache.allocatable in
      let frees = set_pairs set_free totals cache.idle in
      let useds = set_pairs set_used frees cache.used in
      set_pairs set_releasing useds cache.releasing

-- The requested names that the node does not list get the zero pair.
unfoldable pub add_requested : Dict ResourcePair → Amounts → Dict ResourcePair
add_requested result [] = result
add_requested result ((name, v) ∷ requests) =
    add_requested (if is_some (lookup name result) then result else insert name no_pair result)
      requests

unfoldable pub mark_insufficient : Dict ResourcePair → List String → Dict ResourcePair
mark_insufficient result [] = result
mark_insufficient result (name ∷ names) =
    mark_insufficient
      (insert name (record (get_or no_pair name result) { insufficient = true }) result) names

-- `found && actual == value`
abbrev pub label_is : Option String → String → Bool
label_is none value = false
label_is (some actual) value = actual == value

pub selector_loop : Bool → Dict String → Node → Bool
selector_loop selector_ok [] node = selector_ok
selector_loop selector_ok ((key, value) ∷ rest) node =
    selector_loop (selector_ok && label_is (lookup key node.labels) value) rest node

unfoldable pub volcano_best_effort : Amounts → Bool
volcano_best_effort [] = true
volcano_best_effort ((name, request) ∷ requests) =
    let rest = volcano_best_effort requests in
    if not (name == "pods") && ltb_ℤ (pos 0) request then false else rest

-- `if resourceCheck.Evidence == nil { resourceCheck.Evidence = … }`
unfoldable pub or_evidence : Evidence → Evidence → Evidence
or_evidence nil other = other
or_evidence e other = e

module _ (tolerates_taint : Toleration → Taint → Bool) (pod : Pod) (node : Node) (cache : CacheNode)
    (cache_found : Bool) where
  -- The checks that come before the one of the resources.
  unfoldable pub filter_checks : List Check
  unfolding selector_loop
  filter_checks =
      known "node.selector" "allocate" "Node selector"
        (selector_loop true pod.spec.node_selector node)
        (text "wanted=" ∷ labels pod.spec.node_selector ∷ []) []
      ∷ known "node.affinity" "allocate" "Required node affinity"
          (required_node_affinity_matches pod node)
          (plain "requiredDuringSchedulingIgnoredDuringExecution")
          ("pkg/scheduler/plugins/predicates/predicates.go:NodeAffinity" ∷ [])
      ∷ known "node.schedulable" "allocate" "Node schedulable" (not node.unschedulable)
          (plain "spec.unschedulable") []
      ∷ known "node.ready" "allocate" "Node Ready" (node_ready node) (plain "Ready condition") []
      ∷ known "node.taints" "allocate" "Taints tolerated"
          (taints_tolerated tolerates_taint node.taints pod.spec.tolerations)
          (plain "NoSchedule/NoExecute taints") []
      ∷ pod_count_check cache cache_found node.allocatable
      ∷ host_ports_check pod
      ∷ pod_affinity_check pod
      ∷ volume_limits_check pod
      ∷ volume_zone_check pod
      ∷ topology_spread_check pod
      ∷ skipped "node.proportional" "allocate" "Proportional resource predicate"
          (plain
            "the standard predicates plugin default disables this optional rule; a selected branch that enables it is represented by the dynamic plugin hook column")
          ("pkg/scheduler/plugins/predicates/predicates.go:ProportionalPredicate" ∷ [])
      ∷ []

  unfoldable pub best_effort_check : Check
  best_effort_check = with_evidence (of_amounts (pod_requests pod)) (
      skipped "node.resources" "allocate" "Requested resources fit Volcano FutureIdle"
        (plain
          "Volcano allocate skips tasks whose Resreq is empty (the pods scalar is ignored); BestEffort tasks are handled by backfill without the allocate FutureIdle resource gate")
        ("pkg/scheduler/actions/allocate/allocate.go" ∷ "pkg/scheduler/actions/backfill/backfill.go"
          ∷ "pkg/scheduler/api/resource_info.go:IsEmpty" ∷ []))

  -- The resource check of a node that the cache dump lists, and the names it finds short.
  unfoldable pub cached_resource_check : Check × List String
  cached_resource_check =
      let (check, names) = resource_fit_check (pod_requests pod) cache node.allocatable in
      let resource_check =
        if has_restartable_init_container pod
        then unknown "node.resources" "allocate" "Requested resources fit Volcano FutureIdle"
            (plain
              "the Pod has a restartable init container, and Volcano resource-request semantics vary by selected branch; this generic projection is not used as a definitive result")
            (object (
              field "requestProjection" (of_amounts (pod_requests pod))
                (field "cacheNode" (of_node cache) end)))
            ("pkg/scheduler/api/pod_info.go:GetPodResourceRequest" ∷ [])
        else check in
      (
        with_evidence (or_evidence resource_check.evidence (of_node cache)) resource_check,
        if resource_check.determinate && not resource_check.passed then names else [],
      )

  unfoldable pub uncached_resource_check : Check
  uncached_resource_check =
      let allocatable = resource_list_values node.allocatable in
      let (upper_bound_ok, reason) = fits (pod_requests pod) allocatable in
      unknown "node.resources" "allocate" "Requested resources fit Volcano idle"
        (text "cache entry missing; Kubernetes allocatable upper-bound fit="
          ∷ flag upper_bound_ok
          ∷ text ": "
          ∷ reason)
        (of_amounts allocatable) ("SIGUSR2 Node (...).idle" ∷ [])

  unfoldable pub resource_check : Check × List String
  unfolding best_effort_check cached_resource_check uncached_resource_check
  resource_check =
      if volcano_best_effort (pod_requests pod)
      then (best_effort_check, [])
      else if cache_found
      then cached_resource_check
      else (uncached_resource_check, [])

  abbrev pv_bind_check : Check
  pv_bind_check =
      skipped "node.pv-bind" "allocate" "PV binding after node selection"
        (plain
          "Volcano performs GetPodVolumes/AllocateVolumes only after choosing a node; this diagnostic table does not claim that post-filter bind step ran")
        ("pkg/scheduler/framework/statement.go:Allocate" ∷ [])

  unfoldable pub node_checks : List Check
  unfolding filter_checks resource_check
  node_checks = filter_checks ++ resource_check.0 ∷ pv_bind_check ∷ []

-- The variables of the last loop of evaluateNode.
pub record Outcome : Type 0 where
  pub passed : Bool
  pub known_failure : Bool
  pub unknown_seen : Bool

unfoldable pub outcome_loop : Outcome → List Check → Outcome
outcome_loop o [] = o
outcome_loop o (check ∷ checks) =
    outcome_loop
      (record {
        passed = o.passed && check.passed && check.determinate;
        known_failure = o.known_failure || check.determinate && not check.passed;
        unknown_seen = o.unknown_seen || not check.determinate;
      })
      checks

abbrev pub clean : Outcome
clean = record { passed = true; known_failure = false; unknown_seen = false }

unfoldable pub evaluate_node :
    (Toleration → Taint → Bool) → Pod → Node → CacheNode → Bool → NodeResult
unfolding outcome_loop node_checks node_resource_pairs add_requested mark_insufficient
evaluate_node tolerates_taint pod node cache cache_found =
    let resources = add_requested (node_resource_pairs node cache cache_found) (pod_requests pod) in
    let checks = node_checks tolerates_taint pod node cache cache_found in
    let short = (resource_check tolerates_taint pod node cache cache_found).1 in
    let o = outcome_loop clean checks in
    record {
      name = node.name;
      passed = o.passed;
      determinate = o.known_failure || not o.unknown_seen;
      resources = mark_insufficient resources short;
      checks = checks;
    }
