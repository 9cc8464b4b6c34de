-- ===== src/Analysis/Tests.antt =====
-- An analysis on a small cluster, on which the theorems about the analyses are applied.
use volens.Base.{
  String, ◌≡◌, refl, Bool, true, false, ◌||◌, Option, none, some, List, [], ◌∷◌, ◌==◌, any, str_dec,
}
use volens.Kube.{Toleration, Taint, Pod}
use volens.Cluster.{Scheduler, PodGroup}
use volens.Model.{Failure, plain, Result, ok}
use volens.Analysis.Stages.{stops}
use volens.Analysis.Steps.{EndsWith}
use volens.Analysis.Outcome.{preflight, reported, analyze-EndsWith}
use volens.Analysis.Run.{analyze}
use volens.Analysis.{Request, Answers, no_queue}

abbrev request : Request
request = record { namespace = "default"; pod = "train-0" }

abbrev pod : Pod
pod = record {
  namespace = "default";
  name = "train-0";
  labels = [];
  annotations = ("scheduling.k8s.io/group-name", "train") ∷ [];
  deletion_timestamp = none;
  phase = "Pending";
  spec = record {
    scheduler_name = "volcano";
    node_name = "";
    node_selector = [];
    scheduling_gates = [];
    containers = record { name = "main"; requests = []; restart_policy = none; ports = [] } ∷ [];
    init_containers = [];
    overhead = [];
    tolerations = [];
    affinity = none;
    volumes = [];
    topology_spread_constraints = [];
  };
}

abbrev scheduler : Scheduler
scheduler = record {
  namespace = "volcano-system";
  name = "scheduler-0";
  uid = "u1";
  scheduler_names = "volcano" ∷ [];
  default_queue = "default";
  configuration_determinate = true;
  configuration_reason = "";
}

abbrev group : PodGroup
group = record {
  namespace = "default";
  name = "train";
  uid = "g1";
  queue = "research";
  min_member = volens.Base.Int.ℤ.pos 1;
  min_task_member = [];
  creation_timestamp = 0;
  priority_class_name = "";
  priority = none;
  min_resources = none;
  phase = "Inqueue";
}

abbrev answers_with : Result Pod → Answers
answers_with found = record {
  pod = found;
  scheduler = scheduler;
  scheduler_err = none;
  configuration = record {
    determinate = true;
    reason = "";
    scheduler_namespace = "volcano-system";
    scheduler_pod = "scheduler-0";
    scheduler_uid = "u1";
    scheduler_conf_path = "/volcano.scheduler/volcano-scheduler.conf";
    config_map_namespace = "volcano-system";
    config_map_name = "volcano-scheduler-configmap";
    config_map_key = "volcano-scheduler.conf";
    config_map_uid = "c1";
    config_map_resource_version = "7";
    actions = "enqueue" ∷ "allocate" ∷ [];
    tiers = [];
  };
  configuration_err = none;
  pod_group = λ name. (group, none);
  tasks = λ name. (pod ∷ [], none);
  queue = λ name. (record no_queue { name = name }, none);
  pod_events = ([], none);
  group_events = λ name uid. ([], none);
  nodes = ([], none);
  dump = (record { scheduler = scheduler; nodes = some []; jobs = [] }, none);
}

abbrev nothing_tolerated : Toleration → Taint → Bool
nothing_tolerated toleration taint = false

abbrev missing : Failure
missing = record { message = plain "not found"; is_not_found = true; is_not_ready = false }

named : (request.namespace == "") || (request.pod == "") ≡ false
unfolding str_dec
named = refl

analyze-EndsWith_example :
    EndsWith nothing_tolerated
      (answers_with (ok pod))
      request
      (reported nothing_tolerated (answers_with (ok pod)) request pod)
      (any (stops "preflight") (preflight nothing_tolerated (answers_with (ok pod)) request pod))
      (analyze nothing_tolerated (answers_with (ok pod)) request)
analyze-EndsWith_example =
    analyze-EndsWith nothing_tolerated (answers_with (ok pod)) request pod named refl
