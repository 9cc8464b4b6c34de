-- ===== src/Filter/NodeChecks.antt =====
-- internal/agent/filter/node.go: the checks of a node that look at the Pod, or at one resource.
use volens.Base.{
  String, Bool, true, false, not, ◌||◌, Option, none, some, List, [], ◌∷◌, ◌++◌, ◌==◌, any,
  is_empty, if◌then◌else◌,
}
use volens.Base.Int.{ℤ, pos, leb_ℤ, is_zero}
use volens.Base.Dict.{lookup}
use volens.Kube.{ResourceList, PodAffinity, TopologySpreadConstraint, Pod}
use volens.Cluster.{CacheNode}
use volens.Model.{
  text, amount, plain, nil, of_amounts, of_node, of_constraint, object, end, field, Check,
}
use volens.Model.Checks.{known, unknown, with_evidence}
use volens.Filter.Resources.{resource_list_values}

unfoldable pub pod_uses_host_ports : Pod → Bool
pod_uses_host_ports pod =
    any (λ c. any (λ port. not (is_zero port.host_port)) c.ports)
      (pod.spec.init_containers ++ pod.spec.containers)

abbrev has_terms : Option PodAffinity → Bool
has_terms none = false
has_terms (some a) = not (is_empty a.required)

unfoldable pub has_required_pod_affinity : Pod → Bool
has_required_pod_affinity pod = elim pod.spec.affinity [
  | none ↦ false
  | some affinity ↦ has_terms affinity.pod_affinity || has_terms affinity.pod_anti_affinity
]

unfoldable pub pod_uses_volumes_with_node_limits : Pod → Bool
pod_uses_volumes_with_node_limits pod =
    any (λ v. v.persistent_volume_claim || v.csi || v.ephemeral) pod.spec.volumes

unfoldable pub pod_uses_persistent_volumes : Pod → Bool
pod_uses_persistent_volumes pod =
    any (λ v. v.persistent_volume_claim || v.ephemeral) pod.spec.volumes

unfoldable pub kubernetes_pods_allocatable_omitted : ResourceList → Bool
kubernetes_pods_allocatable_omitted allocatable = elim (lookup "pods" allocatable) [
  | none ↦ true
  | some quantity ↦ quantity.is_zero
]

pod_number_source : List String
pod_number_source = "pkg/scheduler/plugins/predicates/predicates.go:NodePodNumberExceeded" ∷ []

-- The idle count of Pods that the cache dump reports for the node.
abbrev pub idle_pods : CacheNode → Bool → Option ℤ
idle_pods cache_node false = none
idle_pods cache_node true = lookup "pods" cache_node.idle

unfoldable pub pod_count_check : CacheNode → Bool → ResourceList → Check
unfolding pod_number_source
pod_count_check cache_node cache_found kubernetes_allocatable =
    elim (idle_pods cache_node cache_found) [
      | some free ↦
          known "node.pod-count" "allocate" "Pod count limit" (leb_ℤ (pos 1000) free)
            (text "cache dump reports idle pods="
              ∷ amount free
              ∷ text "; the target task contributes one implicit pods request"
              ∷ [])
            pod_number_source
      | none ↦
          if kubernetes_pods_allocatable_omitted kubernetes_allocatable
          then with_evidence
              (object (
                field "k8sAllocatable" (of_amounts (resource_list_values kubernetes_allocatable))
                  (field "cacheNode" (of_node cache_node) end)))
              (known "node.pod-count" "allocate" "Pod count limit" false
                (plain
                  "node status.allocatable omits pods or sets it to zero; the target task has an implicit pods=1 request, so the node cannot satisfy Volcano's pod-count/resource dimension")
                pod_number_source)
          else unknown "node.pod-count" "allocate" "Pod count limit"
              (plain "the cache dump does not contain the pods scalar") (of_node cache_node)
              pod_number_source
    ]

unfoldable pub host_ports_check : Pod → Check
host_ports_check pod =
    let source = "pkg/scheduler/plugins/predicates/predicates.go:NodePorts" ∷ [] in
    if not (pod_uses_host_ports pod)
    then known "node.ports" "allocate" "Host ports" true (plain "the Pod requests no host ports")
        source
    else unknown "node.ports" "allocate" "Host ports"
        (plain
          "the Pod requests host ports; occupied ports from the exact predicates NodeInfo snapshot are not present in the cache dump")
        nil source

unfoldable pub pod_affinity_check : Pod → Check
pod_affinity_check pod =
    let source = "pkg/scheduler/plugins/predicates/predicates.go:InterPodAffinity" ∷ [] in
    if not (has_required_pod_affinity pod)
    then known "node.pod-affinity" "allocate" "Inter-pod affinity" true
        (plain "the Pod has no required pod affinity or anti-affinity terms") source
    else unknown "node.pod-affinity" "allocate" "Inter-pod affinity"
        (plain
          "required pod affinity is present; exact evaluation needs the predicates PodLister and namespace snapshot from the scheduler Session")
        nil source

unfoldable pub volume_limits_check : Pod → Check
volume_limits_check pod =
    let source = "pkg/scheduler/plugins/predicates/predicates.go:NodeVolumeLimits" ∷ [] in
    if not (pod_uses_volumes_with_node_limits pod)
    then known "node.volume-limits" "allocate" "CSI volume limits" true
        (plain "the Pod has no PVC, CSI, or ephemeral volume requiring node attachment limits")
        source
    else unknown "node.volume-limits" "allocate" "CSI volume limits"
        (plain
          "volume attachment limits require the scheduler's CSINode and attached-volume snapshot")
        nil source

unfoldable pub volume_zone_check : Pod → Check
volume_zone_check pod =
    let source = "pkg/scheduler/plugins/predicates/predicates.go:VolumeZone" ∷ [] in
    if not (pod_uses_persistent_volumes pod)
    then known "node.volume-zone" "allocate" "PV and volume-zone affinity" true
        (plain "the Pod has no PVC-backed volumes") source
    else unknown "node.volume-zone" "allocate" "PV and volume-zone affinity"
        (plain
          "PVC/PV topology must be read from the matching scheduler snapshot; it is not emitted by the generic node cache dump")
        nil source

unfoldable pub spread_loop : List TopologySpreadConstraint → Check
spread_loop [] =
    known "node.topology-spread" "allocate" "Pod topology spread" true
      (plain "the Pod has no DoNotSchedule topology spread constraint")
      ("pkg/scheduler/plugins/predicates/predicates.go:PodTopologySpread" ∷ [])
spread_loop (constraint ∷ rest) =
    if constraint.when_unsatisfiable == "DoNotSchedule"
    then unknown "node.topology-spread" "allocate" "Pod topology spread"
        (plain
          "a hard topology spread constraint is present; exact domain counts require the predicates PodLister snapshot")
        (of_constraint constraint)
        ("pkg/scheduler/plugins/predicates/predicates.go:PodTopologySpread" ∷ [])
    else spread_loop rest

unfoldable pub topology_spread_check : Pod → Check
unfolding spread_loop
topology_spread_check pod = spread_loop pod.spec.topology_spread_constraints
