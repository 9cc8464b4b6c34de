-- ===== src/Filter/Node/Passing.antt =====
-- When a node passes.
use volens.Base.{
  String, ◌≡◌, refl, ◌≢◌, sym, ◌∙◌, ◌↔◌, ◌⊎◌, Bool, true, false, not, ◌&&◌, Option, none, some,
  List, [], ◌∷◌, any, all, All, all→All, arith,
}
use volens.Base.Int.{ℤ, pos, ◌≤ℤ◌}
use volens.Base.Dict.{Dict, lookup}
use volens.Kube.{ResourceList, TopologySpreadConstraint, Toleration, Taint, Node, Pod}
use volens.Cluster.{Amounts, CacheNode}
use volens.Model.Checks.{is_pass}
use volens.Filter.Resources.{node_ready, taints_tolerated, pod_requests}
use volens.Filter.Affinity.{required_node_affinity_matches, required_terms}
use volens.Filter.Affinity.Laws.{AffinityHolds, required_node_affinity_matches_iff}
use volens.Filter.NodeChecks.{
  pod_count_check, host_ports_check, pod_affinity_check, volume_limits_check, volume_zone_check,
  topology_spread_check, spread_loop, idle_pods, pod_uses_host_ports, has_required_pod_affinity,
  pod_uses_volumes_with_node_limits, pod_uses_persistent_volumes,
}
use volens.Filter.Fit.Laws.{resource_fit_check-is_pass}
use volens.Filter.Node.{
  selector_loop, label_is, volcano_best_effort, resource_check, node_checks, evaluate_node,
}
use volens.Filter.Node.Outcomes.{evaluate_node-flags}

selector_loop_iff :
    (b : Bool) (selector : Dict String) (node : Node)
    → (selector_loop b selector node ≡ true)
      ↔ ((b ≡ true) × All (λ (key, value). lookup key node.labels ≡ some value) selector)
unfolding selector_loop
selector_loop_iff b [] node = (λ h. (h, tt), λ h. h.0)
selector_loop_iff b ((key, value) ∷ rest) node =
    ground (arith, selector_loop_iff (b && label_is (lookup key node.labels) value) rest node)

-- A taint that keeps Pods away from its node.
abbrev pub Blocks : Taint → Type 0
Blocks taint = (taint.effect ≡ "NoSchedule") ⊎ (taint.effect ≡ "NoExecute")

abbrev pub Tolerated : (Toleration → Taint → Bool) → List Toleration → Taint → Type 0
Tolerated tolerates tolerations taint =
    Blocks taint → any (λ t. tolerates t taint) tolerations ≡ true

taints_tolerated_iff :
    (tolerates : Toleration → Taint → Bool) (taints : List Taint) (tolerations : List Toleration)
    → (taints_tolerated tolerates taints tolerations ≡ true)
      ↔ All (Tolerated tolerates tolerations) taints
unfolding taints_tolerated
taints_tolerated_iff tolerates [] tolerations = (λ _. tt, λ _. refl)
taints_tolerated_iff tolerates (taint ∷ taints) tolerations =
    ground (arith, taints_tolerated_iff tolerates taints tolerations)

spread_loop-is_pass :
    (cs : List TopologySpreadConstraint)
    → (is_pass (spread_loop cs) ≡ true) ↔ All (λ c. c.when_unsatisfiable ≢ "DoNotSchedule") cs
unfolding spread_loop
spread_loop-is_pass [] = (λ _. tt, λ _. refl)
spread_loop-is_pass (c ∷ cs) = ground (arith, spread_loop-is_pass cs)

topology_spread_check-is_pass :
    (pod : Pod)
    → (is_pass (topology_spread_check pod) ≡ true)
      ↔ All (λ c. c.when_unsatisfiable ≢ "DoNotSchedule") pod.spec.topology_spread_constraints
unfolding topology_spread_check
topology_spread_check-is_pass pod = spread_loop-is_pass pod.spec.topology_spread_constraints

resource_check-is_pass :
    (t : Toleration → Taint → Bool) (pod : Pod) (node : Node) (cache : CacheNode) (found : Bool)
    → is_pass (resource_check t pod node cache found).0 ≡ volcano_best_effort (pod_requests pod)
unfolding resource_check
resource_check-is_pass t pod node cache found =
    ground (arith, resource_fit_check-is_pass (pod_requests pod) cache node.allocatable)

volcano_best_effort_iff :
    (requests : Amounts)
    → (volcano_best_effort requests ≡ true)
      ↔ All (λ (name, request). name ≢ "pods" → request ≤ℤ pos 0) requests
unfolding volcano_best_effort
volcano_best_effort_iff [] = (λ _. tt, λ _. refl)
volcano_best_effort_iff ((name, request) ∷ requests) =
    ground (arith, volcano_best_effort_iff requests)

abbrev pub HasIdlePod : Option ℤ → Type 0
HasIdlePod none = ⊥
HasIdlePod (some free) = pos 1000 ≤ℤ free

pod_count_check-is_pass :
    (cache : CacheNode) (found : Bool) (k : ResourceList)
    → (is_pass (pod_count_check cache found k) ≡ true) ↔ HasIdlePod (idle_pods cache found)
unfolding pod_count_check
pod_count_check-is_pass cache found k = ground arith

&&-true_right : (b : Bool) → b && true ≡ b
&&-true_right b = ground arith

host_ports_check-is_pass :
    (pod : Pod) → is_pass (host_ports_check pod) ≡ not (pod_uses_host_ports pod)
unfolding host_ports_check
host_ports_check-is_pass pod = ground arith

pod_affinity_check-is_pass :
    (pod : Pod) → is_pass (pod_affinity_check pod) ≡ not (has_required_pod_affinity pod)
unfolding pod_affinity_check
pod_affinity_check-is_pass pod = ground arith

volume_limits_check-is_pass :
    (pod : Pod) → is_pass (volume_limits_check pod) ≡ not (pod_uses_volumes_with_node_limits pod)
unfolding volume_limits_check
volume_limits_check-is_pass pod = ground arith

volume_zone_check-is_pass :
    (pod : Pod) → is_pass (volume_zone_check pod) ≡ not (pod_uses_persistent_volumes pod)
unfolding volume_zone_check
volume_zone_check-is_pass pod = ground arith

pub record Passes (tolerates : Toleration → Taint → Bool) (pod : Pod) (node : Node)
    (cache : CacheNode) (found : Bool) : Type 0 where
  pub selector : All (λ (key, value). lookup key node.labels ≡ some value) pod.spec.node_selector
  pub affinity : AffinityHolds (required_terms pod.spec.affinity) node
  pub schedulable : node.unschedulable ≡ false
  pub ready : node_ready node ≡ true
  pub taints : All (Tolerated tolerates pod.spec.tolerations) node.taints
  pub idle_pod : HasIdlePod (idle_pods cache found)
  pub no_ports : pod_uses_host_ports pod ≡ false
  pub no_pod_affinity : has_required_pod_affinity pod ≡ false
  pub no_limited_volumes : pod_uses_volumes_with_node_limits pod ≡ false
  pub no_persistent_volumes : pod_uses_persistent_volumes pod ≡ false
  pub no_spread :
      All (λ c. c.when_unsatisfiable ≢ "DoNotSchedule") pod.spec.topology_spread_constraints
  pub best_effort : All (λ (name, request). name ≢ "pods" → request ≤ℤ pos 0) (pod_requests pod)

not-true : {b : Bool} → (not b ≡ true) ↔ (b ≡ false)
not-true {b = true} = (λ e. cc, λ e. cc)
not-true {b = false} = (λ _. refl, λ _. refl)

module _ (tolerates : Toleration → Taint → Bool) (pod : Pod) (node : Node) (cache : CacheNode)
    (found : Bool) where
  -- The checks of the node, as the tests that decide them.
  abbrev tests : List Bool
  tests =
      selector_loop true pod.spec.node_selector node
      ∷ required_node_affinity_matches pod node
      ∷ not node.unschedulable
      ∷ node_ready node
      ∷ taints_tolerated tolerates node.taints pod.spec.tolerations
      ∷ is_pass (pod_count_check cache found node.allocatable)
      ∷ not (pod_uses_host_ports pod)
      ∷ not (has_required_pod_affinity pod)
      ∷ not (pod_uses_volumes_with_node_limits pod)
      ∷ not (pod_uses_persistent_volumes pod)
      ∷ is_pass (topology_spread_check pod)
      ∷ volcano_best_effort (pod_requests pod)
      ∷ []

  all-node_checks : all is_pass (node_checks tolerates pod node cache found) ≡ all (λ b. b) tests
  unfolding node_checks
  all-node_checks = simp (
    &&-true_right, host_ports_check-is_pass, pod_affinity_check-is_pass,
    volume_limits_check-is_pass, volume_zone_check-is_pass, resource_check-is_pass,
  )

  tests→Passes : All (λ b. b ≡ true) tests → Passes tolerates pod node cache found
  tests→Passes (s, (a, (u, (r, (t, (c, (hp, (pa, (vl, (vz, (sp, (be, _)))))))))))) = record {
    selector = ((selector_loop_iff true pod.spec.node_selector node).0 s).1;
    affinity = (required_node_affinity_matches_iff pod node).0 a;
    schedulable = not-true.0 u;
    ready = r;
    taints = (taints_tolerated_iff tolerates node.taints pod.spec.tolerations).0 t;
    idle_pod = (pod_count_check-is_pass cache found node.allocatable).0 c;
    no_ports = not-true.0 hp;
    no_pod_affinity = not-true.0 pa;
    no_limited_volumes = not-true.0 vl;
    no_persistent_volumes = not-true.0 vz;
    no_spread = (topology_spread_check-is_pass pod).0 sp;
    best_effort = (volcano_best_effort_iff (pod_requests pod)).0 be;
  }

  Passes→tests : Passes tolerates pod node cache found → All (λ b. b ≡ true) tests
  Passes→tests p = (
    (selector_loop_iff true pod.spec.node_selector node).1 (refl, p.selector),
    (
      (required_node_affinity_matches_iff pod node).1 p.affinity,
      (
        not-true.1 p.schedulable,
        (
          p.ready,
          (
            (taints_tolerated_iff tolerates node.taints pod.spec.tolerations).1 p.taints,
            (
              (pod_count_check-is_pass cache found node.allocatable).1 p.idle_pod,
              (
                not-true.1 p.no_ports,
                (
                  not-true.1 p.no_pod_affinity,
                  (
                    not-true.1 p.no_limited_volumes,
                    (
                      not-true.1 p.no_persistent_volumes,
                      (
                        (topology_spread_check-is_pass pod).1 p.no_spread,
                        ((volcano_best_effort_iff (pod_requests pod)).1 p.best_effort, tt),
                      ),
                    ),
                  ),
                ),
              ),
            ),
          ),
        ),
      ),
    ),
  )

  -- A node passes exactly when its labels match the selector and the required affinity, it is
  -- schedulable and Ready, its taints are tolerated, the cache dump shows room for one more Pod,
  -- the Pod uses no host ports, no required Pod affinity, no limited or persistent volumes and no
  -- hard topology spread, and the Pod asks for no resource but pods.
  pub passed_iff :
      ((evaluate_node tolerates pod node cache found).passed ≡ true)
      ↔ Passes tolerates pod node cache found
  unfolding evaluate_node
  passed_iff =
      let flags = evaluate_node-flags tolerates pod node cache found in
      (
        λ h. tests→Passes ((all→All (λ b. b) tests).0 (sym all-node_checks ∙ sym flags.0 ∙ h)),
        λ p. flags.0 ∙ all-node_checks ∙ (all→All (λ b. b) tests).1 (Passes→tests p),
      )
