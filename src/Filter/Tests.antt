-- ===== src/Filter/Tests.antt =====
-- A Pod and two nodes, on which the theorems about the filter are applied.
use volens.Base.{
  ℕ, String, ◌≡◌, refl, ◌↔◌, Bool, true, false, not, ◌&&◌, ◌||◌, Option, none, some, List, [], ◌∷◌,
  ◌==◌, is_some, is_empty, all, any, string_in, All, arith, str_dec,
}
use volens.Base.Int.{pos, ◌≤ℤ◌, ◌+ℤ◌}
use volens.Base.Dict.{lookup, insert, NodupKeys}
use volens.Kube.{
  Quantity, ResourceList, Container, Toleration, Taint, NodeSelectorRequirement, Pod, Node,
}
use volens.Cluster.{Amounts, CacheNode}
use volens.Model.{NodeResult}
use volens.Model.Checks.{is_pass, is_failure, is_unknown}
use volens.Filter.Resources.{value_of, pod_requests, has_restartable_init_container}
use volens.Filter.Resources.Spec.{IsValidList, IsValidPod, app_sum, of_list, effective_request}
use volens.Filter.Resources.Formula.{pod_requests-effective_request, requests_le_pod_requests}
use volens.Filter.Affinity.{
  node_selector_requirement_matches, required_node_affinity_matches, required_terms,
}
use volens.Filter.Affinity.Laws.{
  Satisfied, AffinityHolds, node_selector_requirement_matches_iff,
  required_node_affinity_matches_iff,
}
use volens.Filter.Fit.{resource_fit_check}
use volens.Filter.Fit.Laws.{short_names, resource_fit_check_lem}
use volens.Filter.Node.{evaluate_node, volcano_best_effort}
use volens.Filter.Node.Outcomes.{evaluate_node-flags}
use volens.Filter.Node.Passing.{Passes, passed_iff}
use volens.Filter.Node.Marks.{insufficient_of, insufficient_of-evaluate_node-short_names}
use volens.Filter.Evaluate.{Input, is_eligible, dump_nodes, evaluate}
use volens.Filter.Evaluate.Laws.{cache_check-is_pass}

abbrev millis : ℕ → Quantity
millis n = record { milli_value = pos n; value = pos n; is_zero = false }

abbrev container : String → Option String → ResourceList → Container
container name policy requests = record {
  name = name;
  requests = requests;
  restart_policy = policy;
  ports = [];
}

abbrev ssd : NodeSelectorRequirement
ssd = record { key = "disk"; operator = "In"; values = "ssd" ∷ "nvme" ∷ [] }

abbrev pod_of : List Container → List Container → ResourceList → Pod
pod_of containers init_containers overhead = record {
  namespace = "default";
  name = "train-0";
  labels = [];
  annotations = [];
  deletion_timestamp = none;
  phase = "Pending";
  spec = record {
    scheduler_name = "volcano";
    node_name = "";
    node_selector = ("zone", "a") ∷ [];
    scheduling_gates = [];
    containers = containers;
    init_containers = init_containers;
    overhead = overhead;
    tolerations = record { key = "gpu"; operator = "Exists"; value = ""; effect = "" } ∷ [];
    affinity = some (record {
      node_affinity = some (record {
        required = some (record { match_expressions = ssd ∷ []; match_fields = [] } ∷ []);
      });
      pod_affinity = none;
      pod_anti_affinity = none;
    });
    volumes = [];
    topology_spread_constraints = [];
  };
}

abbrev worker : Pod
worker =
    pod_of (container "main" none (("cpu", millis 4000) ∷ []) ∷ []) [] (("cpu", millis 100) ∷ [])

abbrev with_sidecar : Pod
with_sidecar =
    pod_of (container "main" none (("cpu", millis 500) ∷ []) ∷ [])
      (container "logs" (some "Always") (("cpu", millis 200) ∷ [])
        ∷ container "setup" none (("cpu", millis 2000) ∷ [])
        ∷ [])
      (("cpu", millis 100) ∷ [])

abbrev idle_pod : Pod
idle_pod = pod_of (container "main" none [] ∷ []) [] []

abbrev node_named : String → Node
node_named name = record {
  name = name;
  labels = ("zone", "a") ∷ ("disk", "ssd") ∷ [];
  unschedulable = false;
  taints = record { key = "gpu"; value = "yes"; effect = "NoSchedule" } ∷ [];
  conditions = record { type = "Ready"; status = "True" } ∷ [];
  allocatable = ("cpu", millis 8000) ∷ ("pods", millis 110) ∷ [];
}

abbrev cache : CacheNode
cache = record {
  name = "n1";
  allocatable = ("cpu", pos 8000) ∷ ("pods", pos 110000) ∷ [];
  idle = ("cpu", pos 1000) ∷ ("pods", pos 9000) ∷ [];
  used = ("cpu", pos 7000) ∷ [];
  releasing = ("cpu", pos 500) ∷ [];
}

-- What the documentation of ToleratesTaint says, for the operators Exists and Equal.
abbrev tolerates : Toleration → Taint → Bool
tolerates t taint =
    ((t.effect == "") || (t.effect == taint.effect))
    && ((t.key == "") || (t.key == taint.key))
    && ((t.operator == "Exists") || (t.value == taint.value))

abbrev input : Input
input = record {
  pod = worker;
  nodes = node_named "n2" ∷ node_named "n1" ∷ [];
  nodes_err = none;
  dump = record {
    scheduler = record {
      namespace = "volcano-system";
      name = "scheduler-0";
      uid = "u1";
      scheduler_names = "volcano" ∷ [];
      default_queue = "default";
      configuration_determinate = true;
      configuration_reason = "";
    };
    nodes = some (("n1", cache) ∷ []);
    jobs = [];
  };
  capture_err = none;
}

one-IsValidList : (n : ℕ) → IsValidList (("cpu", millis n) ∷ [])
unfolding lookup
one-IsValidList n = ((refl, tt), ((ground arith, ground arith), tt))

with_sidecar-IsValidPod : IsValidPod with_sidecar
with_sidecar-IsValidPod = record {
  containers = (one-IsValidList 500, tt);
  init_containers = (one-IsValidList 200, (one-IsValidList 2000, tt));
  overhead = one-IsValidList 100;
}

pod_requests-effective_request_example :
    value_of "cpu" (pod_requests with_sidecar) ≡ effective_request "cpu" with_sidecar
pod_requests-effective_request_example =
    pod_requests-effective_request with_sidecar "cpu" with_sidecar-IsValidPod

requests_le_pod_requests_example :
    (app_sum "cpu" with_sidecar.spec.containers +ℤ of_list "cpu" with_sidecar.spec.overhead
      ≤ℤ value_of "cpu" (pod_requests with_sidecar))
    × All
        (λ c.
          of_list "cpu" c.requests +ℤ of_list "cpu" with_sidecar.spec.overhead
          ≤ℤ value_of "cpu" (pod_requests with_sidecar))
        with_sidecar.spec.init_containers
requests_le_pod_requests_example =
    requests_le_pod_requests with_sidecar "cpu" with_sidecar-IsValidPod

node_selector_requirement_matches_iff_example :
    (node_selector_requirement_matches ssd (some "nvme") ≡ true) ↔ Satisfied ssd (some "nvme")
node_selector_requirement_matches_iff_example =
    node_selector_requirement_matches_iff ssd (some "nvme")

required_node_affinity_matches_iff_example :
    (required_node_affinity_matches worker (node_named "n1") ≡ true)
    ↔ AffinityHolds (required_terms worker.spec.affinity) (node_named "n1")
required_node_affinity_matches_iff_example =
    required_node_affinity_matches_iff worker (node_named "n1")

releasing-NodupKeys : NodupKeys cache.releasing
unfolding lookup
releasing-NodupKeys = (refl, tt)

abbrev requests : Amounts
requests = ("pods", pos 1000) ∷ ("cpu", pos 4100) ∷ []

abbrev listed : ResourceList
listed = (node_named "n1").allocatable

resource_fit_check_lem_example :
    ((resource_fit_check requests cache listed).1 ≡ short_names cache listed requests)
    × (is_pass (resource_fit_check requests cache listed).0 ≡ false)
    × (is_failure (resource_fit_check requests cache listed).0
        ≡ not (is_empty (short_names cache listed requests)))
resource_fit_check_lem_example = resource_fit_check_lem requests cache listed releasing-NodupKeys

abbrev result : NodeResult
result = evaluate_node tolerates worker (node_named "n1") cache true

evaluate_node-flags_example :
    (result.passed ≡ all is_pass result.checks)
    × (result.determinate ≡ any is_failure result.checks || not (any is_unknown result.checks))
    × (result.passed ≡ true → result.determinate ≡ true)
evaluate_node-flags_example = evaluate_node-flags tolerates worker (node_named "n1") cache true

passed_iff_example :
    ((evaluate_node tolerates idle_pod (node_named "n1") cache true).passed ≡ true)
    ↔ Passes tolerates idle_pod (node_named "n1") cache true
passed_iff_example = passed_iff tolerates idle_pod (node_named "n1") cache true

worker_asks : volcano_best_effort (pod_requests worker) ≡ false
unfolding volcano_best_effort pod_requests lookup insert str_dec ◌+ℤ◌
worker_asks = refl

worker_has_no_sidecar : has_restartable_init_container worker ≡ false
unfolding has_restartable_init_container
worker_has_no_sidecar = refl

insufficient_of-evaluate_node-short_names_example :
    insufficient_of "cpu" result.resources
    ≡ string_in "cpu" (short_names cache (node_named "n1").allocatable (pod_requests worker))
insufficient_of-evaluate_node-short_names_example =
    insufficient_of-evaluate_node-short_names tolerates worker (node_named "n1") cache "cpu"
      worker_asks worker_has_no_sidecar releasing-NodupKeys

cache_check-is_pass_example :
    is_pass (evaluate tolerates input).cache_check
    ≡ not (is_some input.capture_err)
      && all
          (λ node.
            not (is_eligible worker node) || is_some (lookup node.name (dump_nodes input.dump)))
          input.nodes
cache_check-is_pass_example = cache_check-is_pass tolerates input
