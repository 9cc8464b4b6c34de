-- ===== src/Snapshot.antt =====
-- internal/cluster/proportion_snapshot.go and queue_snapshot.go: the attributes of a queue, from a
-- cache dump, the queues and the PodGroups.
pub mod Quota
pub mod Resources
pub mod Diff
pub mod Tasks
pub mod Build
pub mod Priority
pub mod Arithmetic
pub mod Sets
pub mod Capability
pub mod Usage
pub mod Deserved
pub mod Result
pub mod Errors
mod Tests
use Prim.Native.String.{◌++◌ as ◌<>◌}
use volens.Base.{
  ℕ, suc, String, Bool, not, ◌||◌, Option, none, some, List, [], ◌∷◌, ◌==◌, if◌then◌else◌,
}
use volens.Base.Int.{pos, leb_ℤ}
use volens.Base.Dict.{Dict, lookup, insert}
use volens.Base.Text.{codes, lower, same}
use volens.Cluster.{Amounts, PodGroup, Queue, CacheNode, CacheTask, CacheJob, CacheDump}
use volens.Snapshot.Resources.{
  QueueSnapshotResource, allocated_set, request_set, inqueue_set, elastic_set, add_all,
}
use volens.Snapshot.Quota.{
  resource_list_values, add_resource_values, sub_resource_values, min_resource_values,
  positive_resource_diff,
}

unfoldable pub total_node_allocatable : Amounts → Dict CacheNode → Amounts
unfolding add_resource_values
total_node_allocatable result [] = result
total_node_allocatable result ((name, node) ∷ nodes) =
    total_node_allocatable (add_resource_values result node.allocatable) nodes

abbrev pub is_allocated_status : String → Bool
is_allocated_status s = (s == "Bound") || (s == "Binding") || (s == "Running") || (s == "Allocated")

-- The results of jobTaskResources.
pub record JobUsage : Type 0 where
  pub allocated : Amounts
  pub request : Amounts
  pub allocated_tasks : ℕ

unfoldable pub usage_step : JobUsage → CacheTask → JobUsage
usage_step u task =
    if is_allocated_status task.status
    then record {
      allocated = add_resource_values u.allocated task.resreq;
      request = add_resource_values u.request task.resreq;
      allocated_tasks = suc u.allocated_tasks;
    }
    else if task.status == "Pending"
    then record u { request = add_resource_values u.request task.resreq }
    else u

unfoldable pub usage_loop : JobUsage → List CacheTask → JobUsage
unfolding usage_step
usage_loop u [] = u
usage_loop u (task ∷ tasks) = usage_loop (usage_step u task) tasks

abbrev pub no_usage : JobUsage
no_usage = record { allocated = []; request = []; allocated_tasks = 0 }

unfoldable pub job_task_resources : CacheJob → JobUsage
unfolding usage_loop
job_task_resources job = usage_loop no_usage job.tasks

-- `resourceListValues(podGroup.MinResources)`: the nil map has no entries.
abbrev pub min_resources_of : PodGroup → Amounts
min_resources_of group = elim group.min_resources [
  | none ↦ resource_list_values []
  | some l ↦ resource_list_values l
]

-- The amounts that a job with a PodGroup adds to `inqueue`.
unfoldable pub inqueue_amounts : PodGroup → JobUsage → Amounts
inqueue_amounts group u =
    let phase = lower (codes group.phase) in
    if same phase (codes "inqueue")
    then min_resources_of group
    else if same phase (codes "running")
    then (if leb_ℤ group.min_member (pos u.allocated_tasks)
        then positive_resource_diff (min_resources_of group) u.allocated
        else [])
    else []

-- The body of the loop over the jobs, for a job of the queue.
unfoldable pub job_step :
    Dict QueueSnapshotResource → Option PodGroup → JobUsage → Dict QueueSnapshotResource
unfolding add_all inqueue_amounts
job_step resources pod_group u =
    let used = add_all (add_all resources allocated_set u.allocated) request_set u.request in
    elim pod_group [
      | none ↦ used
      | some group ↦
          add_all (add_all used inqueue_set (inqueue_amounts group u)) elastic_set
            (positive_resource_diff u.allocated (min_resources_of group))
    ]

abbrev pub job_key : String → String → String
job_key namespace name = namespace <> ("/" <> name)

unfoldable pub job_loop :
    Dict QueueSnapshotResource → String → Dict PodGroup → Dict CacheJob → Dict QueueSnapshotResource
unfolding job_step job_task_resources
job_loop resources queue_name groups [] = resources
job_loop resources queue_name groups ((id, job) ∷ jobs) =
    job_loop
      (if not (job.queue == queue_name)
        then resources
        else job_step resources (lookup (job_key job.namespace job.name) groups)
            (job_task_resources job))
      queue_name groups jobs

unfoldable pub queue_by_name : Dict Queue → List Queue → Dict Queue
queue_by_name result [] = result
queue_by_name result (queue ∷ queues) = queue_by_name (insert queue.name queue result) queues

unfoldable pub total_guarantee : Amounts → List Queue → Amounts
total_guarantee result [] = result
total_guarantee result (queue ∷ queues) =
    total_guarantee (add_resource_values result (resource_list_values queue.guarantee)) queues

unfoldable pub pod_group_by_key : Dict PodGroup → List PodGroup → Dict PodGroup
pod_group_by_key result [] = result
pod_group_by_key result (group ∷ groups) =
    pod_group_by_key (insert (job_key group.namespace group.name) group result) groups

abbrev pub allocatable_of : CacheDump → Amounts
allocatable_of dump = elim dump.nodes [
  | none ↦ total_node_allocatable [] []
  | some nodes ↦ total_node_allocatable [] nodes
]

-- What the queues leave of the nodes to one of them.
unfoldable pub real_capability : CacheDump → List Queue → Queue → Amounts
real_capability dump queues queue =
    min_resource_values
      (add_resource_values (sub_resource_values (allocatable_of dump) (total_guarantee [] queues))
        (resource_list_values queue.guarantee))
      (resource_list_values queue.capability)
