-- ===== src/Snapshot/Build.antt =====
-- internal/cluster/proportion_snapshot.go: BuildQueueSnapshot, and what a queue deserves under the
-- capacity plugin.
use volens.Base.{String, not, Option, none, some, List, [], ◌∷◌, ◌==◌, if◌then◌else◌}
use volens.Base.Int.{ℤ, ltb_ℤ}
use volens.Base.Dict.{Dict, lookup}
use volens.Cluster.{Amounts, PodGroup, Queue, CacheDump}
use volens.Model.{text, Failure, failure}
use volens.Snapshot.Quota.{resource_list_values, amount_of}
use volens.Snapshot.Resources.{
  QueueSnapshotResource, QueueSnapshot, capacity_set, deserved_set, new_queue_snapshot,
  set_resource_value, set_all,
}
use volens.Snapshot.{job_loop, queue_by_name, pod_group_by_key, real_capability}

unfoldable pub build_queue_snapshot_common :
    CacheDump → List Queue → List PodGroup → String → QueueSnapshot × Option Failure
unfolding set_all job_loop queue_by_name pod_group_by_key real_capability
build_queue_snapshot_common dump queues pod_groups queue_name =
    let result = new_queue_snapshot queue_name in
    if queue_name == ""
    then (result, some (failure (text "queue name is required" ∷ [])))
    else elim (lookup queue_name (queue_by_name [] queues)) [
      | none ↦ (
        result,
        some (
            failure
              (text "queue " ∷ text queue_name ∷ text " is unavailable from informer cache" ∷ [])),
      )
      | some queue ↦ (
        record result {
          resources =
              job_loop (set_all [] capacity_set (real_capability dump queues queue)) queue_name
                (pod_group_by_key [] pod_groups) dump.jobs;
        },
        none,
      )
    ]

-- `if bound != nil && value > *bound { value = *bound }`
abbrev pub cap_by : Option ℤ → ℤ → ℤ
cap_by none v = v
cap_by (some bound) v = if ltb_ℤ bound v then bound else v

-- The amount that the loop sets for one resource.
unfoldable pub deserved_value : Amounts → Amounts → String → QueueSnapshotResource → ℤ
deserved_value deserved guarantee name resource =
    let value = cap_by resource.request (cap_by resource.capability (amount_of name deserved)) in
    if ltb_ℤ value (amount_of name guarantee) then amount_of name guarantee else value

-- The loop writes only under the key that it visits, so that it visits each entry as it was.
unfoldable pub deserved_loop :
    Amounts
    → Amounts
    → Dict QueueSnapshotResource
    → Dict QueueSnapshotResource
    → Dict QueueSnapshotResource
deserved_loop deserved guarantee resources [] = resources
deserved_loop deserved guarantee resources ((name, resource) ∷ rest) =
    deserved_loop deserved guarantee
      (set_resource_value resources name deserved_set
        (deserved_value deserved guarantee name resource))
      rest

unfoldable pub populate_capacity_deserved : QueueSnapshot → List Queue → String → QueueSnapshot
unfolding deserved_loop
populate_capacity_deserved snapshot [] queue_name = snapshot
populate_capacity_deserved snapshot (queue ∷ queues) queue_name =
    let rest = populate_capacity_deserved snapshot queues queue_name in
    if not (queue.name == queue_name) then rest else record snapshot {
      resources =
          deserved_loop (resource_list_values queue.deserved) (resource_list_values queue.guarantee)
            snapshot.resources snapshot.resources;
    }

-- What BuildQueueSnapshot does with the two results of buildQueueSnapshot.
unfoldable pub with_strategy :
    List Queue → String → String → QueueSnapshot × Option Failure → QueueSnapshot × Option Failure
unfolding populate_capacity_deserved
with_strategy queues queue_name strategy (built, some e) =
    (record built { strategy = strategy }, some e)
with_strategy queues queue_name strategy (built, none) =
    let result = record built { strategy = strategy } in
    if strategy == "capacity"
    then (populate_capacity_deserved result queues queue_name, none)
    else (result, none)

unfoldable pub build_queue_snapshot :
    CacheDump → List Queue → List PodGroup → String → String → QueueSnapshot × Option Failure
unfolding build_queue_snapshot_common with_strategy
build_queue_snapshot dump queues pod_groups queue_name strategy =
    with_strategy queues queue_name strategy
      (build_queue_snapshot_common dump queues pod_groups queue_name)

unfoldable pub build_proportion_queue_snapshot :
    CacheDump → List Queue → List PodGroup → String → QueueSnapshot × Option Failure
unfolding build_queue_snapshot
build_proportion_queue_snapshot dump queues pod_groups queue_name =
    build_queue_snapshot dump queues pod_groups queue_name "proportion"
