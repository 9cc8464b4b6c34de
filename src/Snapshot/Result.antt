-- ===== src/Snapshot/Result.antt =====
-- What BuildQueueSnapshot reports of a queue.
use volens.Base.{
  String, ◌≡◌, ◌≢◌, refl, sym, subst, ◌∙◌, ap, false, Option, none, some, List, [], ◌∷◌, ◌==◌,
  arith, Bool-cases, inl, inr,
}
use volens.Base.Int.{ℤ, pos, ◌+ℤ◌, +ℤ_assoc, +ℤ_zero, zero_+ℤ}
use volens.Base.Dict.{Dict, lookup, or_zero, lookup-nil, NodupKeys}
use volens.Cluster.{Amounts, PodGroup, Queue, CacheJob, CacheDump}
use volens.Snapshot.Priority.{or_else}
use volens.Snapshot.Capability.{
  AreMaps, nodes_of, capability_sum, lookup-real_capability, real_capability-NodupKeys,
}
use volens.Snapshot.Sets.{same_set, pointer, amount_in, pointer-set_all}
use volens.Snapshot.Usage.{
  job_amount, job_sum, amount_in-job_step, pointer-job_step, job_task_resources-UsageMaps,
}
use volens.Snapshot.Deserved.{pointer-populate_capacity_deserved}
use volens.Snapshot.Build.{build_queue_snapshot_common, with_strategy, build_queue_snapshot}
use volens.Snapshot.Resources.{
  QueueSnapshotResource, ResourceSet, capacity_set, deserved_set, new_queue_snapshot, QueueSnapshot,
  set_all,
}
use volens.Snapshot.{
  job_task_resources, job_step, job_key, job_loop, queue_by_name, pod_group_by_key, real_capability,
}

amount_in-job_loop :
    (s : ResourceSet) (n : String) (resources : Dict QueueSnapshotResource) (queue_name : String)
    (groups : Dict PodGroup) (jobs : Dict CacheJob)
    → amount_in s n (job_loop resources queue_name groups jobs)
      ≡ amount_in s n resources +ℤ job_sum s n queue_name groups jobs
unfolding job_loop
amount_in-job_loop s n resources queue_name groups [] = sym (+ℤ_zero (amount_in s n resources))
amount_in-job_loop s n resources queue_name groups ((id, job) ∷ jobs) =
    let group = lookup (job_key job.namespace job.name) groups in
    let u = job_task_resources job in
    let rest = job_sum s n queue_name groups jobs in
    elim (Bool-cases (job.queue == queue_name)) [
      | inl e ↦ rw e (
          amount_in-job_loop s n (job_step resources group u) queue_name groups jobs
          ∙ ap (λ a. a +ℤ rest)
              (amount_in-job_step s n resources group u (job_task_resources-UsageMaps job))
          ∙ +ℤ_assoc (amount_in s n resources) (job_amount s n group u) rest)
      | inr e ↦ rw e (
          amount_in-job_loop s n resources queue_name groups jobs
          ∙ ap (λ a. amount_in s n resources +ℤ a) (sym (zero_+ℤ rest)))
    ]

pointer-job_loop :
    (n : String) (resources : Dict QueueSnapshotResource) (queue_name : String)
    (groups : Dict PodGroup) (jobs : Dict CacheJob)
    → pointer capacity_set n (job_loop resources queue_name groups jobs)
      ≡ pointer capacity_set n resources
unfolding job_loop
pointer-job_loop n resources queue_name groups [] = refl
pointer-job_loop n resources queue_name groups ((id, job) ∷ jobs) =
    let group = lookup (job_key job.namespace job.name) groups in
    let u = job_task_resources job in
    elim (Bool-cases (job.queue == queue_name)) [
      | inl e ↦ rw e (
          pointer-job_loop n (job_step resources group u) queue_name groups jobs
          ∙ pointer-job_step n resources group u)
      | inr e ↦ rw e (pointer-job_loop n resources queue_name groups jobs)
    ]

-- The resources that the loop over the jobs leaves, from the capabilities.
abbrev job_resources :
    CacheDump → List Queue → List PodGroup → String → Queue → Dict QueueSnapshotResource
job_resources dump queues groups queue_name queue =
    job_loop (set_all [] capacity_set (real_capability dump queues queue)) queue_name
      (pod_group_by_key [] groups) dump.jobs

common-found :
    (dump : CacheDump) (queues : List Queue) (groups : List PodGroup) (queue_name : String)
    (queue : Queue)
    → queue_name ≢ ""
    → lookup queue_name (queue_by_name [] queues) ≡ some queue
    → build_queue_snapshot_common dump queues groups queue_name ≡ (
      record (new_queue_snapshot queue_name) {
        resources = job_resources dump queues groups queue_name queue;
      },
      none,
    )
unfolding build_queue_snapshot_common
common-found dump queues groups queue_name queue named found = rw found (ground arith)

with_strategy-none :
    (queues : List Queue) (queue_name strategy : String) (built : QueueSnapshot) (s : ResourceSet)
    (n : String)
    → same_set s deserved_set ≡ false
    → ((with_strategy queues queue_name strategy (built, none)).1 ≡ none)
      × (pointer s n (with_strategy queues queue_name strategy (built, none)).0.resources
          ≡ pointer s n built.resources)
unfolding with_strategy
with_strategy-none queues queue_name strategy built s n other = ground (
  arith,
  pointer-populate_capacity_deserved s n (record built { strategy = strategy }) queues queue_name
      other,
)

-- The resources of a built snapshot are those of the jobs, but for what the queue deserves.
build_queue_snapshot-found :
    (dump : CacheDump) (queues : List Queue) (groups : List PodGroup) (queue_name strategy : String)
    (queue : Queue) (s : ResourceSet) (n : String)
    → queue_name ≢ ""
    → lookup queue_name (queue_by_name [] queues) ≡ some queue
    → same_set s deserved_set ≡ false
    → ((build_queue_snapshot dump queues groups queue_name strategy).1 ≡ none)
      × (pointer s n (build_queue_snapshot dump queues groups queue_name strategy).0.resources
          ≡ pointer s n (job_resources dump queues groups queue_name queue))
unfolding build_queue_snapshot
build_queue_snapshot-found dump queues groups queue_name strategy queue s n named found other =
    subst
      (λ p.
        ((with_strategy queues queue_name strategy p).1 ≡ none)
        × (pointer s n (with_strategy queues queue_name strategy p).0.resources
            ≡ pointer s n (job_resources dump queues groups queue_name queue)))
      (sym (common-found dump queues groups queue_name queue named found))
      (with_strategy-none queues queue_name strategy
        (record (new_queue_snapshot queue_name) {
          resources = job_resources dump queues groups queue_name queue;
        })
        s n other)

or_else_none : (n : String) (o : Option ℤ) → or_else o (pointer capacity_set n []) ≡ o
unfolding lookup
or_else_none n none = refl
or_else_none n (some v) = refl

pointer-set_all_other :
    (s : ResourceSet) (n : String) (amounts : Amounts)
    → same_set s capacity_set ≡ false
    → NodupKeys amounts
    → pointer s n (set_all [] capacity_set amounts) ≡ none
pointer-set_all_other s n amounts other h =
    ground (
      arith,
      pointer-set_all s capacity_set n [] amounts h,
      lookup-nil {V = QueueSnapshotResource} n,
    )

module _ (dump : CacheDump) (queues : List Queue) (groups : List PodGroup)
    (queue_name strategy : String) (queue : Queue) where
  -- For a named queue that the list has, and a dump whose nodes are maps, the snapshot is built, and
  -- its capability of each resource is what all nodes have of it, less the guarantees of all queues,
  -- with the queue's own guarantee, and at most the queue's limit.
  pub build_queue_snapshot-capability_sum :
      (n : String)
      → queue_name ≢ ""
      → lookup queue_name (queue_by_name [] queues) ≡ some queue
      → AreMaps (nodes_of dump)
      → ((build_queue_snapshot dump queues groups queue_name strategy).1 ≡ none)
        × (pointer capacity_set n
              (build_queue_snapshot dump queues groups queue_name strategy).0.resources
            ≡ capability_sum n dump queues queue)
  build_queue_snapshot-capability_sum n named found maps =
      let (built, same) =
        build_queue_snapshot-found dump queues groups queue_name strategy queue capacity_set n named
          found refl in
      let capability = real_capability dump queues queue in
      (
        built,
        same
            ∙ pointer-job_loop n (set_all [] capacity_set capability) queue_name
                (pod_group_by_key [] groups) dump.jobs
            ∙ pointer-set_all capacity_set capacity_set n [] capability
                (real_capability-NodupKeys dump queues queue)
            ∙ or_else_none n (lookup n capability)
            ∙ lookup-real_capability n dump queues queue maps,
      )

  -- For a named queue that the list has, the amount in each set other than capability and deserved
  -- is the sum, over the jobs of the queue, of what each adds: its allocated tasks; these and its
  -- pending tasks; what is reserved, which is all of its minimum while its PodGroup is Inqueue, what
  -- the allocated tasks have not got of it while the PodGroup runs with at least its minimal member
  -- count allocated, and nothing otherwise; and what the allocated tasks have beyond the minimum.
  pub build_queue_snapshot-job_sum :
      (s : ResourceSet) (n : String)
      → queue_name ≢ ""
      → lookup queue_name (queue_by_name [] queues) ≡ some queue
      → same_set s deserved_set ≡ false
      → same_set s capacity_set ≡ false
      → amount_in s n (build_queue_snapshot dump queues groups queue_name strategy).0.resources
        ≡ job_sum s n queue_name (pod_group_by_key [] groups) dump.jobs
  build_queue_snapshot-job_sum s n named found deserved capacity =
      let same =
        (build_queue_snapshot-found dump queues groups queue_name strategy queue s n named found
          deserved).1 in
      let capability = real_capability dump queues queue in
      ap (or_zero (pos 0)) same
      ∙ amount_in-job_loop s n (set_all [] capacity_set capability) queue_name
          (pod_group_by_key [] groups) dump.jobs
      ∙ ap (λ a. a +ℤ job_sum s n queue_name (pod_group_by_key [] groups) dump.jobs)
          (ap (or_zero (pos 0)) (
            pointer-set_all_other s n capability capacity
              (real_capability-NodupKeys dump queues queue)))
      ∙ zero_+ℤ (job_sum s n queue_name (pod_group_by_key [] groups) dump.jobs)
