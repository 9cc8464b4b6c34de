-- ===== src/Snapshot/Usage.antt =====
-- What the jobs of a queue add to the sets of its snapshot.
use volens.Base.{
  String, ◌≡◌, refl, sym, subst, ◌∙◌, ap, true, ◌&&◌, Option, none, some, List, [], ◌∷◌, ◌==◌,
  arith, Bool-cases, Option-cases, inl, inr, if◌then◌else◌,
}
use volens.Base.Int.{ℤ, pos, ◌+ℤ◌, ◌-ℤ◌, ltb_ℤ, leb_ℤ, +ℤ_zero}
use volens.Base.Dict.{Dict, lookup, or_zero, lookup-nil, insert, NodupKeys, insert-NodupKeys}
use volens.Cluster.{Amounts, PodGroup, CacheTask, CacheJob}
use volens.Snapshot.Quota.{amount_of, diff_loop, ordered_names, positive_resource_diff}
use volens.Base.Text.{codes, equal_fold, to_lower}
use volens.Snapshot.Diff.{lookup-positive_resource_diff}
use volens.Snapshot.Priority.{resource_list_values-NodupKeys}
use volens.Snapshot.Arithmetic.{add_resource_values-NodupKeys}
use volens.Snapshot.Sets.{same_set, pointer, amount_in, pointer-add_all, amount_in-add_all}
use volens.Snapshot.Resources.{
  QueueSnapshotResource, ResourceSet, capacity_set, deserved_set, allocated_set, request_set,
  inqueue_set, elastic_set, add_all,
}
use volens.Snapshot.{
  JobUsage, usage_step, usage_loop, no_usage, job_task_resources, min_resources_of, inqueue_amounts,
  job_step, job_key,
}

diff_loop-NodupKeys :
    (left right result : Amounts) (names : List String)
    → NodupKeys result
    → NodupKeys (diff_loop left right result names)
unfolding diff_loop
diff_loop-NodupKeys left right result [] h = h
diff_loop-NodupKeys left right result (name ∷ names) h =
    let v = amount_of name left -ℤ amount_of name right in
    diff_loop-NodupKeys left right (if ltb_ℤ (pos 0) v then insert name v result else result) names
      (ground (arith, insert-NodupKeys name v result h))

pub positive_resource_diff-NodupKeys :
    (left right : Amounts) → NodupKeys (positive_resource_diff left right)
unfolding positive_resource_diff
positive_resource_diff-NodupKeys left right =
    diff_loop-NodupKeys left right [] (ordered_names left right) tt

min_resources_of-NodupKeys : (group : PodGroup) → NodupKeys (min_resources_of group)
min_resources_of-NodupKeys group = elim (Option-cases group.min_resources) [
  | inl e ↦ rw e (resource_list_values-NodupKeys [])
  | inr (l, e) ↦ rw e (resource_list_values-NodupKeys l)
]

inqueue_amounts-NodupKeys : (group : PodGroup) (u : JobUsage) → NodupKeys (inqueue_amounts group u)
unfolding inqueue_amounts
inqueue_amounts-NodupKeys group u = ground (
  arith,
  min_resources_of-NodupKeys group,
  positive_resource_diff-NodupKeys (min_resources_of group) u.allocated,
)

-- The usage of a job is two maps.
abbrev UsageMaps : JobUsage → Type 0
UsageMaps u = NodupKeys u.allocated × NodupKeys u.request

usage_step-UsageMaps :
    (u : JobUsage) (task : CacheTask) → UsageMaps u → UsageMaps (usage_step u task)
unfolding usage_step
usage_step-UsageMaps u task (a, r) = ground (
  arith,
  add_resource_values-NodupKeys u.allocated task.resreq a,
  add_resource_values-NodupKeys u.request task.resreq r,
)

usage_loop-UsageMaps :
    (u : JobUsage) (tasks : List CacheTask) → UsageMaps u → UsageMaps (usage_loop u tasks)
unfolding usage_loop
usage_loop-UsageMaps u [] h = h
usage_loop-UsageMaps u (task ∷ tasks) h =
    usage_loop-UsageMaps (usage_step u task) tasks (usage_step-UsageMaps u task h)

pub job_task_resources-UsageMaps : (job : CacheJob) → UsageMaps (job_task_resources job)
unfolding job_task_resources
job_task_resources-UsageMaps job = usage_loop-UsageMaps no_usage job.tasks (tt, tt)

-- The amounts that the step adds to a set.
abbrev job_amounts : ResourceSet → Option PodGroup → JobUsage → Amounts
job_amounts capacity_set group u = []
job_amounts deserved_set group u = []
job_amounts allocated_set group u = u.allocated
job_amounts request_set group u = u.request
job_amounts inqueue_set none u = []
job_amounts inqueue_set (some group) u = inqueue_amounts group u
job_amounts elastic_set none u = []
job_amounts elastic_set (some group) u = positive_resource_diff u.allocated (min_resources_of group)

same_set_eq : (s t : ResourceSet) → same_set s t ≡ true → s ≡ t
same_set_eq s t h = ground arith

amount_in-add_to :
    (s t : ResourceSet) (n : String) (resources : Dict QueueSnapshotResource) (amounts : Amounts)
    → NodupKeys amounts
    → amount_in s n (add_all resources t amounts)
      ≡ amount_in s n resources +ℤ (if same_set s t then amount_of n amounts else pos 0)
amount_in-add_to s t n resources amounts h = elim (Bool-cases (same_set s t)) [
  | inl e ↦ rw e (
      subst
        (λ t.
          amount_in s n (add_all resources t amounts)
          ≡ amount_in s n resources +ℤ amount_of n amounts)
        (same_set_eq s t e) (amount_in-add_all s n resources amounts h))
  | inr e ↦ rw e (
      ap (or_zero (pos 0)) (pointer-add_all s t n resources amounts e)
      ∙ sym (+ℤ_zero (amount_in s n resources)))
]

amount_in-amounts_step :
    (s : ResourceSet) (n : String) (resources : Dict QueueSnapshotResource)
    (group : Option PodGroup) (u : JobUsage)
    → UsageMaps u
    → amount_in s n (job_step resources group u)
      ≡ amount_in s n resources +ℤ amount_of n (job_amounts s group u)
unfolding job_step
amount_in-amounts_step s n resources none u (a, r) =
    let one = add_all resources allocated_set u.allocated in
    ground (
      arith,
      amount_in-add_to s allocated_set n resources u.allocated a,
      amount_in-add_to s request_set n one u.request r,
      lookup-nil {V = ℤ} n,
      +ℤ_zero (amount_in s n resources),
      +ℤ_zero (amount_in s n resources +ℤ amount_of n u.allocated),
    )
amount_in-amounts_step s n resources (some group) u (a, r) =
    let one = add_all resources allocated_set u.allocated in
    let two = add_all one request_set u.request in
    let three = add_all two inqueue_set (inqueue_amounts group u) in
    let elastic = positive_resource_diff u.allocated (min_resources_of group) in
    ground (
      arith,
      amount_in-add_to s allocated_set n resources u.allocated a,
      amount_in-add_to s request_set n one u.request r,
      amount_in-add_to s inqueue_set n two (inqueue_amounts group u)
          (inqueue_amounts-NodupKeys group u),
      amount_in-add_to s elastic_set n three elastic
          (positive_resource_diff-NodupKeys u.allocated (min_resources_of group)),
      lookup-nil {V = ℤ} n,
      +ℤ_zero (amount_in s n resources),
      +ℤ_zero (amount_in s n resources +ℤ amount_of n u.allocated),
      +ℤ_zero (amount_in s n resources +ℤ amount_of n u.request),
      +ℤ_zero (amount_in s n resources +ℤ amount_of n (inqueue_amounts group u)),
    )

pub pointer-job_step :
    (n : String) (resources : Dict QueueSnapshotResource) (group : Option PodGroup) (u : JobUsage)
    → pointer capacity_set n (job_step resources group u) ≡ pointer capacity_set n resources
unfolding job_step
pointer-job_step n resources none u =
    let one = add_all resources allocated_set u.allocated in
    pointer-add_all capacity_set request_set n one u.request refl
    ∙ pointer-add_all capacity_set allocated_set n resources u.allocated refl
pointer-job_step n resources (some group) u =
    let one = add_all resources allocated_set u.allocated in
    let two = add_all one request_set u.request in
    let three = add_all two inqueue_set (inqueue_amounts group u) in
    pointer-add_all capacity_set elastic_set n three
      (positive_resource_diff u.allocated (min_resources_of group)) refl
    ∙ pointer-add_all capacity_set inqueue_set n two (inqueue_amounts group u) refl
    ∙ pointer-add_all capacity_set request_set n one u.request refl
    ∙ pointer-add_all capacity_set allocated_set n resources u.allocated refl

abbrev pub positive_part : ℤ → ℤ
positive_part v = if ltb_ℤ (pos 0) v then v else pos 0

-- What is reserved of a PodGroup's minimum: all of it while the PodGroup is Inqueue; what the
-- allocated tasks have not got of it while it runs with as many allocated tasks as its minimal
-- member count asks for; and nothing in another phase.
abbrev pub reserved : String → PodGroup → JobUsage → ℤ
reserved n group u =
    let minimum = amount_of n (min_resources_of group) in
    if equal_fold (codes group.phase) (codes "Inqueue")
    then minimum
    else if equal_fold (codes group.phase) (codes "Running")
        && leb_ℤ group.min_member (pos u.allocated_tasks)
    then positive_part (minimum -ℤ amount_of n u.allocated)
    else pos 0

-- What one job adds to a set of one resource: the amount of its allocated tasks, that with the
-- pending ones, what is reserved for it, and what it has beyond its minimum. Without a PodGroup it
-- adds to the first two alone.
abbrev pub job_amount : ResourceSet → String → Option PodGroup → JobUsage → ℤ
job_amount capacity_set n group u = pos 0
job_amount deserved_set n group u = pos 0
job_amount allocated_set n group u = amount_of n u.allocated
job_amount request_set n group u = amount_of n u.request
job_amount inqueue_set n none u = pos 0
job_amount inqueue_set n (some group) u = reserved n group u
job_amount elastic_set n none u = pos 0
job_amount elastic_set n (some group) u =
    positive_part (amount_of n u.allocated -ℤ amount_of n (min_resources_of group))

amount_of-positive_resource_diff :
    (n : String) (left right : Amounts)
    → amount_of n (positive_resource_diff left right)
      ≡ positive_part (amount_of n left -ℤ amount_of n right)
amount_of-positive_resource_diff n left right =
    ground (arith, lookup-positive_resource_diff n left right)

amount_of-inqueue_amounts :
    (n : String) (group : PodGroup) (u : JobUsage)
    → amount_of n (inqueue_amounts group u) ≡ reserved n group u
unfolding inqueue_amounts equal_fold to_lower
amount_of-inqueue_amounts n group u = ground (
  arith,
  lookup-nil {V = ℤ} n,
  amount_of-positive_resource_diff n (min_resources_of group) u.allocated,
)

amount_of-job_amounts :
    (s : ResourceSet) (n : String) (group : Option PodGroup) (u : JobUsage)
    → amount_of n (job_amounts s group u) ≡ job_amount s n group u
amount_of-job_amounts capacity_set n group u = ap (or_zero (pos 0)) (lookup-nil n)
amount_of-job_amounts deserved_set n group u = ap (or_zero (pos 0)) (lookup-nil n)
amount_of-job_amounts allocated_set n group u = refl
amount_of-job_amounts request_set n group u = refl
amount_of-job_amounts inqueue_set n none u = ap (or_zero (pos 0)) (lookup-nil n)
amount_of-job_amounts inqueue_set n (some group) u = amount_of-inqueue_amounts n group u
amount_of-job_amounts elastic_set n none u = ap (or_zero (pos 0)) (lookup-nil n)
amount_of-job_amounts elastic_set n (some group) u =
    amount_of-positive_resource_diff n u.allocated (min_resources_of group)

pub amount_in-job_step :
    (s : ResourceSet) (n : String) (resources : Dict QueueSnapshotResource)
    (group : Option PodGroup) (u : JobUsage)
    → UsageMaps u
    → amount_in s n (job_step resources group u) ≡ amount_in s n resources +ℤ job_amount s n group u
amount_in-job_step s n resources group u maps =
    amount_in-amounts_step s n resources group u maps
    ∙ ap (λ a. amount_in s n resources +ℤ a) (amount_of-job_amounts s n group u)

-- The sum over the jobs of the queue.
abbrev pub job_sum : ResourceSet → String → String → Dict PodGroup → Dict CacheJob → ℤ
job_sum s n queue_name groups [] = pos 0
job_sum s n queue_name groups ((id, job) ∷ jobs) =
    (if job.queue == queue_name
      then job_amount s n (lookup (job_key job.namespace job.name) groups) (job_task_resources job)
      else pos 0)
    +ℤ job_sum s n queue_name groups jobs
