-- ===== src/Validate/Tests.antt =====
-- A Pod, its PodGroup and tasks, on which the theorems about the preflight checks are applied.
use volens.Base.{◌<◌, ◌^◌, String, ◌≡◌, true, none, List, [], ◌∷◌, any, count_if, length, arith}
use volens.Base.Int.{pos}
use volens.Base.Dict.{get_or}
use volens.Kube.{Pod}
use volens.Cluster.{Scheduler, PodGroup}
use volens.Model.Checks.{is_failure}
use volens.Validate.Gang.{task_spec_annotation, is_valid_task, no_counts, count_loop}
use volens.Validate.Tasks.{
  is_of, count_loop-no_counts, is_missing, any-is_failure-evaluate_pod_group,
}
use volens.Validate.{evaluate_pod_group}

abbrev task : String → String → Pod
task name phase = record {
  namespace = "default";
  name = name;
  labels = [];
  annotations = (task_spec_annotation, "worker") ∷ ("scheduling.k8s.io/group-name", "train") ∷ [];
  deletion_timestamp = none;
  phase = phase;
  spec = record {
    scheduler_name = "volcano";
    node_name = "";
    node_selector = [];
    scheduling_gates = [];
    containers = record { name = "main"; requests = []; restart_policy = none; ports = [] } ∷ [];
    init_containers = [];
    overhead = [];
    tolerations = [];
    affinity = none;
    volumes = [];
    topology_spread_constraints = [];
  };
}

abbrev tasks : List Pod
tasks = task "train-0" "Pending" ∷ task "train-1" "Failed" ∷ task "train-2" "Running" ∷ []

abbrev group : PodGroup
group = record {
  namespace = "default";
  name = "train";
  uid = "g1";
  queue = "research";
  min_member = pos 3;
  min_task_member = ("worker", pos 3) ∷ [];
  creation_timestamp = 0;
  priority_class_name = "";
  priority = none;
  min_resources = none;
  phase = "Pending";
}

abbrev scheduler : Scheduler
scheduler = record {
  namespace = "volcano-system";
  name = "scheduler-0";
  uid = "u1";
  scheduler_names = "volcano" ∷ [];
  default_queue = "default";
  configuration_determinate = true;
  configuration_reason = "";
}

any-is_failure-evaluate_pod_group_example :
    any is_failure (evaluate_pod_group "train" group none tasks none)
    ≡ is_missing "train" group none
any-is_failure-evaluate_pod_group_example =
    any-is_failure-evaluate_pod_group "train" group none tasks none

few_tasks : length tasks < 2 ^ 31
few_tasks = omega arith

count_loop-no_counts_example :
    ((count_loop no_counts tasks).valid_tasks ≡ pos (count_if is_valid_task tasks))
    × ((name : String)
        → get_or (pos 0) name (count_loop no_counts tasks).task_counts
          ≡ pos (count_if (is_of name) tasks))
count_loop-no_counts_example = count_loop-no_counts tasks few_tasks
