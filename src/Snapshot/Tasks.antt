-- ===== src/Snapshot/Tasks.antt =====
-- What jobTaskResources counts of a job's tasks.
use volens.Base.{
  String, ◌≡◌, sym, ◌∙◌, ap, Bool, ◌||◌, List, [], ◌∷◌, ◌==◌, All, count_if, ◌+◌, arith,
  if◌then◌else◌,
}
use volens.Base.Int.{ℤ, pos, ◌+ℤ◌, +ℤ_assoc, +ℤ_zero, zero_+ℤ}
use volens.Base.Dict.{lookup, NodupKeys}
use volens.Cluster.{Amounts, CacheTask, CacheJob}
use volens.Snapshot.Quota.{amount_of, add_resource_values}
use volens.Snapshot.Arithmetic.{lookup-add_resource_values}
use volens.Snapshot.{
  is_allocated_status, JobUsage, usage_step, usage_loop, no_usage, job_task_resources,
}

-- The sum of what the tasks of some statuses ask for.
abbrev pub task_sum : (String → Bool) → String → List CacheTask → ℤ
task_sum counts n [] = pos 0
task_sum counts n (task ∷ tasks) =
    (if counts task.status then amount_of n task.resreq else pos 0) +ℤ task_sum counts n tasks

abbrev pub is_requesting : String → Bool
is_requesting status = is_allocated_status status || (status == "Pending")

amount_of-add_resource_values :
    (n : String) (target source : Amounts)
    → NodupKeys source
    → amount_of n (add_resource_values target source) ≡ amount_of n target +ℤ amount_of n source
amount_of-add_resource_values n target source h =
    ground (arith, lookup-add_resource_values n target source h, +ℤ_zero (amount_of n target))

usage_step_lem :
    (n : String) (u : JobUsage) (task : CacheTask)
    → NodupKeys task.resreq
    → (amount_of n (usage_step u task).allocated
        ≡ amount_of n u.allocated
          +ℤ (if is_allocated_status task.status then amount_of n task.resreq else pos 0))
      × (amount_of n (usage_step u task).request
          ≡ amount_of n u.request
            +ℤ (if is_requesting task.status then amount_of n task.resreq else pos 0))
      × ((usage_step u task).allocated_tasks
          ≡ u.allocated_tasks + (if is_allocated_status task.status then 1 else 0))
unfolding usage_step
usage_step_lem n u task h = ground (
  arith,
  amount_of-add_resource_values n u.allocated task.resreq h,
  amount_of-add_resource_values n u.request task.resreq h,
  +ℤ_zero (amount_of n u.allocated),
  +ℤ_zero (amount_of n u.request),
)

usage_loop_lem :
    (n : String) (u : JobUsage) (tasks : List CacheTask)
    → All (λ task. NodupKeys task.resreq) tasks
    → (amount_of n (usage_loop u tasks).allocated
        ≡ amount_of n u.allocated +ℤ task_sum is_allocated_status n tasks)
      × (amount_of n (usage_loop u tasks).request
          ≡ amount_of n u.request +ℤ task_sum is_requesting n tasks)
      × ((usage_loop u tasks).allocated_tasks
          ≡ u.allocated_tasks + count_if (λ task. is_allocated_status task.status) tasks)
unfolding usage_loop
usage_loop_lem n u [] h =
    (sym (+ℤ_zero (amount_of n u.allocated)), sym (+ℤ_zero (amount_of n u.request)), omega arith)
usage_loop_lem n u (task ∷ tasks) (one, h) =
    let (a, r, c) = usage_loop_lem n (usage_step u task) tasks h in
    let (a', r', c') = usage_step_lem n u task one in
    (
      a
          ∙ ap (λ x. x +ℤ task_sum is_allocated_status n tasks) a'
          ∙ +ℤ_assoc (amount_of n u.allocated) _ (task_sum is_allocated_status n tasks),
      r
          ∙ ap (λ x. x +ℤ task_sum is_requesting n tasks) r'
          ∙ +ℤ_assoc (amount_of n u.request) _ (task_sum is_requesting n tasks),
      omega arith,
    )

-- For tasks whose requests are maps: of each resource, a job has allocated the sum over its tasks
-- that are Bound, Binding, Running or Allocated, and requests the sum over these and the Pending
-- ones; and it counts the tasks of the first kind.
pub job_task_resources_lem :
    (job : CacheJob) (n : String)
    → All (λ task. NodupKeys task.resreq) job.tasks
    → (amount_of n (job_task_resources job).allocated ≡ task_sum is_allocated_status n job.tasks)
      × (amount_of n (job_task_resources job).request ≡ task_sum is_requesting n job.tasks)
      × ((job_task_resources job).allocated_tasks
          ≡ count_if (λ task. is_allocated_status task.status) job.tasks)
unfolding job_task_resources lookup
job_task_resources_lem job n h =
    let (a, r, c) = usage_loop_lem n no_usage job.tasks h in
    (
      a ∙ zero_+ℤ (task_sum is_allocated_status n job.tasks),
      r ∙ zero_+ℤ (task_sum is_requesting n job.tasks),
      c ∙ omega arith,
    )
