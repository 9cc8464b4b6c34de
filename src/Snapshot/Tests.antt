-- ===== src/Snapshot/Tests.antt =====
-- A cache dump with two nodes and a job, on which the theorems about the snapshots are applied.
use volens.Base.{
  ℕ, String, ◌≡◌, ◌≢◌, refl, true, false, not, ◌||◌, none, some, List, [], ◌∷◌, ◌==◌, is_some,
  str_dec, count_if, All, if◌then◌else◌,
}
use volens.Base.Int.{ℤ, pos, ◌+ℤ◌, ◌-ℤ◌, ltb_ℤ}
use volens.Base.Dict.{lookup, insert, NodupKeys}
use volens.Base.Text.{has_prefix, is_space, to_lower}
use volens.Kube.{Quantity, ResourceList}
use volens.Cluster.{PodGroup, Queue, CacheNode, CacheTask, CacheJob, CacheDump}
use volens.Snapshot.Quota.{amount_of, resource_list_values, positive_resource_diff}
use volens.Snapshot.Priority.{or_else, last_amount, resource_list_values-last_amount}
use volens.Snapshot.Diff.{lookup-positive_resource_diff}
use volens.Snapshot.Capability.{AreMaps, nodes_of, capability_sum}
use volens.Snapshot.Sets.{pointer, amount_in}
use volens.Snapshot.Usage.{job_sum}
use volens.Snapshot.Tasks.{task_sum, is_requesting, job_task_resources_lem}
use volens.Snapshot.Deserved.{find_queue, IsClamped, populate_capacity_deserved-IsClamped}
use volens.Snapshot.Errors.{is_listed, build_queue_snapshot-is_listed}
use volens.Snapshot.Result.{build_queue_snapshot-capability_sum, build_queue_snapshot-job_sum}
use volens.Snapshot.Resources.{
  QueueSnapshotResource, QueueSnapshot, capacity_set, deserved_set, inqueue_set, new_queue_snapshot,
  no_resource,
}
use volens.Snapshot.Build.{populate_capacity_deserved, build_queue_snapshot}
use volens.Snapshot.{is_allocated_status, job_task_resources, queue_by_name, pod_group_by_key}

abbrev cores : ℕ → Quantity
cores n = record { milli_value = pos n; value = pos 1; is_zero = false }

abbrev queue_of : String → ResourceList → ResourceList → Queue
queue_of name guarantee capability = record {
  name = name;
  state = "Open";
  guarantee = guarantee;
  capability = capability;
  deserved = ("cpu", cores 4000) ∷ [];
}

abbrev research : Queue
research = queue_of "research" (("cpu", cores 2000) ∷ []) (("requests.cpu", cores 9000) ∷ [])

abbrev queues : List Queue
queues = queue_of "default" (("cpu", cores 1000) ∷ []) [] ∷ research ∷ []

abbrev queue_name : String
queue_name = "research"

abbrev node_of : String → ℤ → CacheNode
node_of name cpu = record {
  name = name;
  allocatable = ("cpu", cpu) ∷ [];
  idle = [];
  used = [];
  releasing = [];
}

abbrev task_of : String → String → CacheTask
task_of name status = record {
  uid = name;
  namespace = "default";
  name = name;
  job = "default/train";
  status = status;
  resreq = ("cpu", pos 500) ∷ [];
}

abbrev job : CacheJob
job = record {
  uid = "j1";
  namespace = "default";
  name = "train";
  queue = queue_name;
  min_available = pos 1;
  tasks = task_of "train-0" "Running" ∷ task_of "train-1" "Pending" ∷ [];
}

abbrev group : PodGroup
group = record {
  namespace = "default";
  name = "train";
  uid = "g1";
  queue = queue_name;
  min_member = pos 1;
  min_task_member = [];
  creation_timestamp = 0;
  priority_class_name = "";
  priority = none;
  min_resources = some (("cpu", cores 2000) ∷ []);
  phase = "Running";
}

abbrev dump : CacheDump
dump = record {
  scheduler = record {
    namespace = "volcano-system";
    name = "scheduler-0";
    uid = "u1";
    scheduler_names = "volcano" ∷ [];
    default_queue = "default";
    configuration_determinate = true;
    configuration_reason = "";
  };
  nodes = some (("n1", node_of "n1" (pos 8000)) ∷ ("n2", node_of "n2" (pos 4000)) ∷ []);
  jobs = ("j1", job) ∷ [];
}

abbrev snapshot : QueueSnapshot
snapshot = record (new_queue_snapshot queue_name) {
  resources =
      ("cpu", record no_resource { capability = some (pos 3000); request = some (pos 1000) }) ∷ [];
}

named : queue_name ≢ ""
unfolding str_dec
named e = cc

found : lookup queue_name (queue_by_name [] queues) ≡ some research
unfolding queue_by_name lookup insert str_dec
found = refl

dump-AreMaps : AreMaps (nodes_of dump)
unfolding lookup
dump-AreMaps = ((refl, tt), ((refl, tt), tt))

abbrev both : ResourceList
both = ("requests.cpu", cores 9000) ∷ ("cpu", cores 1000) ∷ []

-- The capability of `research` on this cluster: 12 cores less 3, with its own 2, and at most 9.
computed : capability_sum "cpu" dump queues research ≡ some (pos 9000)
unfolding lookup insert str_dec resource_list_values ◌+ℤ◌ ◌-ℤ◌ has_prefix is_space to_lower
computed = refl

resource_list_values-last_amount_example :
    lookup "cpu" (resource_list_values both)
    ≡ or_else (last_amount true "cpu" both) (last_amount false "cpu" both)
resource_list_values-last_amount_example = resource_list_values-last_amount "cpu" both

lookup-positive_resource_diff_example :
    lookup "cpu" (positive_resource_diff (("cpu", pos 9) ∷ []) (("cpu", pos 4) ∷ [])) ≡ (
      if ltb_ℤ
        (pos 0)
        (amount_of "cpu" (("cpu", pos 9) ∷ []) -ℤ amount_of "cpu" (("cpu", pos 4) ∷ []))
      then some (amount_of "cpu" (("cpu", pos 9) ∷ []) -ℤ amount_of "cpu" (("cpu", pos 4) ∷ []))
      else none)
lookup-positive_resource_diff_example =
    lookup-positive_resource_diff "cpu" (("cpu", pos 9) ∷ []) (("cpu", pos 4) ∷ [])

tasks-maps : All (λ task. NodupKeys task.resreq) job.tasks
unfolding lookup
tasks-maps = ((refl, tt), ((refl, tt), tt))

job_task_resources_lem_example :
    (amount_of "cpu" (job_task_resources job).allocated
      ≡ task_sum is_allocated_status "cpu" job.tasks)
    × (amount_of "cpu" (job_task_resources job).request ≡ task_sum is_requesting "cpu" job.tasks)
    × ((job_task_resources job).allocated_tasks
        ≡ count_if (λ task. is_allocated_status task.status) job.tasks)
job_task_resources_lem_example = job_task_resources_lem job "cpu" tasks-maps

build_queue_snapshot-capability_sum_example :
    ((build_queue_snapshot dump queues (group ∷ []) queue_name "capacity").1 ≡ none)
    × (pointer capacity_set "cpu"
          (build_queue_snapshot dump queues (group ∷ []) queue_name "capacity").0.resources
        ≡ capability_sum "cpu" dump queues research)
build_queue_snapshot-capability_sum_example =
    build_queue_snapshot-capability_sum dump queues (group ∷ []) queue_name "capacity" research
      "cpu" named found dump-AreMaps

build_queue_snapshot-job_sum_example :
    amount_in inqueue_set "cpu"
      (build_queue_snapshot dump queues (group ∷ []) queue_name "proportion").0.resources
    ≡ job_sum inqueue_set "cpu" queue_name (pod_group_by_key [] (group ∷ [])) dump.jobs
build_queue_snapshot-job_sum_example =
    build_queue_snapshot-job_sum dump queues (group ∷ []) queue_name "proportion" research
      inqueue_set "cpu" named found refl refl

build_queue_snapshot-is_listed_example :
    is_some (build_queue_snapshot dump queues (group ∷ []) "missing" "proportion").1
    ≡ ("missing" == "") || not (is_listed "missing" queues)
build_queue_snapshot-is_listed_example =
    build_queue_snapshot-is_listed dump queues (group ∷ []) "missing" "proportion"

one_resource : NodupKeys snapshot.resources
unfolding lookup
one_resource = (refl, tt)

abbrev cpu_resource : QueueSnapshotResource
cpu_resource = record no_resource { capability = some (pos 3000); request = some (pos 1000) }

cpu_there : lookup "cpu" snapshot.resources ≡ some cpu_resource
unfolding lookup str_dec
cpu_there = refl

abbrev own_queue : List Queue
own_queue = research ∷ []

own_found : find_queue queue_name own_queue ≡ some research
unfolding str_dec
own_found = refl

populate_capacity_deserved-IsClamped_example :
    (v : ℤ) × (pointer deserved_set "cpu"
        (populate_capacity_deserved snapshot own_queue queue_name).resources
      ≡ some v)
    × IsClamped
        (amount_of "cpu" (resource_list_values research.guarantee))
        (amount_of "cpu" (resource_list_values research.deserved))
        cpu_resource
        v
populate_capacity_deserved-IsClamped_example =
    populate_capacity_deserved-IsClamped snapshot own_queue queue_name "cpu" research cpu_resource
      own_found one_resource cpu_there
