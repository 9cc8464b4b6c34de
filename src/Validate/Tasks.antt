-- ===== src/Validate/Tasks.antt =====
-- How the gang's tasks are counted, and that the gang's checks only inform.
use volens.Base.{
  ℕ, suc, ◌+◌, ◌<◌, ◌^◌, String, ◌≡◌, refl, sym, ◌∙◌, ap, Bool, false, not, ◌&&◌, Option, none,
  some, List, [], ◌∷◌, ◌==◌, ==_iff, any, any-append, length, count_if, arith, Bool-cases, inl, inr,
  if◌then◌else◌,
}
use volens.Base.Int.{ℤ, pos, ◌+ℤ◌, wrap32}
use volens.Base.Sort.{sort_strings}
use volens.Base.Dict.{keys, Dict, lookup, get_or, get_or-insert}
use volens.Validate.{unknown_plugin_check, evaluate_pod_group}
use volens.Kube.{Pod}
use volens.Cluster.{PodGroup}
use volens.Model.{Failure}
use volens.Model.Checks.{is_failure}
use volens.Validate.Gang.{
  is_valid_task, task_spec, increment, Counts, count_task, count_loop, no_counts, minimum_check,
  task_check, task_checks, evaluate_gang_tasks,
}

increment_small : (n : ℕ) → suc n < 2 ^ 31 → increment (pos n) ≡ pos (suc n)
unfolding wrap32 ◌+ℤ◌
increment_small n h = ground arith

abbrev count_of : String → Dict ℤ → ℤ
count_of name d = get_or (pos 0) name d

-- The valid tasks of one task spec.
abbrev pub is_of : String → Pod → Bool
is_of name task = is_valid_task task && (name == task_spec task)

count_task-valid_tasks :
    (task : Pod) (c : Counts) (v : ℕ)
    → c.valid_tasks ≡ pos v
    → suc v < 2 ^ 31
    → (count_task c task).valid_tasks ≡ pos (v + (if is_valid_task task then 1 else 0))
unfolding count_task
count_task-valid_tasks task c v e h = elim (Bool-cases (is_valid_task task)) [
  | inl t ↦ rw t (ap increment e ∙ increment_small v h ∙ ap pos (omega arith))
  | inr f ↦ rw f (e ∙ ap pos (omega arith))
]

increment_same :
    (name spec : String) (d : Dict ℤ) (v : ℕ)
    → count_of name d ≡ pos v
    → suc v < 2 ^ 31
    → (if name == spec then increment (count_of spec d) else count_of name d)
      ≡ pos (v + (if name == spec then 1 else 0))
increment_same name spec d v e h = elim (Bool-cases (name == spec)) [
  | inl t ↦ rw t (
      ap (λ s. increment (count_of s d)) (sym ((==_iff name spec).0 t))
      ∙ ap increment e
      ∙ increment_small v h
      ∙ ap pos (omega arith))
  | inr f ↦ rw f (e ∙ ap pos (omega arith))
]

count_task-count_of :
    (name : String) (task : Pod) (c : Counts) (v : ℕ)
    → count_of name c.task_counts ≡ pos v
    → suc v < 2 ^ 31
    → count_of name (count_task c task).task_counts ≡ pos (v + (if is_of name task then 1 else 0))
unfolding count_task
count_task-count_of name task c v e h = elim (Bool-cases (is_valid_task task)) [
  | inl t ↦ rw t (
      get_or-insert (pos 0) name (task_spec task)
        (increment (count_of (task_spec task) c.task_counts)) c.task_counts
      ∙ increment_same name (task_spec task) c.task_counts v e h)
  | inr f ↦ rw f (e ∙ ap pos (omega arith))
]

count_loop-valid_tasks :
    (tasks : List Pod) (c : Counts) (v : ℕ)
    → c.valid_tasks ≡ pos v
    → v + length tasks < 2 ^ 31
    → (count_loop c tasks).valid_tasks ≡ pos (v + count_if is_valid_task tasks)
unfolding count_loop
count_loop-valid_tasks [] c v e h = e ∙ ap pos (omega arith)
count_loop-valid_tasks (task ∷ tasks) c v e h =
    count_loop-valid_tasks tasks (count_task c task) (v + (if is_valid_task task then 1 else 0))
      (count_task-valid_tasks task c v e (omega arith)) (ground arith)
    ∙ ap pos (ground arith)

count_loop-count_of :
    (name : String) (tasks : List Pod) (c : Counts) (v : ℕ)
    → count_of name c.task_counts ≡ pos v
    → v + length tasks < 2 ^ 31
    → count_of name (count_loop c tasks).task_counts ≡ pos (v + count_if (is_of name) tasks)
unfolding count_loop
count_loop-count_of name [] c v e h = e ∙ ap pos (omega arith)
count_loop-count_of name (task ∷ tasks) c v e h =
    count_loop-count_of name tasks (count_task c task) (v + (if is_of name task then 1 else 0))
      (count_task-count_of name task c v e (omega arith)) (ground arith)
    ∙ ap pos (ground arith)

-- With fewer than 2^31 tasks no int32 counter wraps: the loop over the gang's tasks leaves as the
-- valid tasks the number of tasks that are Pending or Running and not being deleted, or Succeeded,
-- and under each task spec the number of those that are of it.
pub count_loop-no_counts :
    (tasks : List Pod)
    → length tasks < 2 ^ 31
    → ((count_loop no_counts tasks).valid_tasks ≡ pos (count_if is_valid_task tasks))
      × ((name : String)
          → get_or (pos 0) name (count_loop no_counts tasks).task_counts
            ≡ pos (count_if (is_of name) tasks))
unfolding lookup
count_loop-no_counts tasks h = (
  count_loop-valid_tasks tasks no_counts 0 refl (omega arith) ∙ ap pos (omega arith),
  λ name. count_loop-count_of name tasks no_counts 0 refl (omega arith) ∙ ap pos (omega arith),
)

task_checks-is_failure :
    (c : Counts) (group : PodGroup) (names : List String)
    → any is_failure (task_checks c group names) ≡ false
unfolding task_checks task_check
task_checks-is_failure c group [] = refl
task_checks-is_failure c group (name ∷ names) = task_checks-is_failure c group names

pub evaluate_gang_tasks-is_failure :
    (group : PodGroup) (tasks : List Pod) (err : Option Failure)
    → any is_failure (evaluate_gang_tasks group tasks err) ≡ false
unfolding evaluate_gang_tasks minimum_check
evaluate_gang_tasks-is_failure group tasks (some e) = refl
evaluate_gang_tasks-is_failure group tasks none = ground (
  arith,
  task_checks-is_failure (count_loop no_counts tasks) group
      (sort_strings (keys group.min_task_member)),
)

-- Whether the PodGroup is known not to be there: the lookup answered not-found, or it returned an
-- object of another name or of no namespace.
abbrev pub is_missing : String → PodGroup → Option Failure → Bool
is_missing group_name group (some e) = e.is_not_found
is_missing group_name group none = not ((group.name == group_name) && not (group.namespace == ""))

-- Of the checks on the PodGroup and the gang's tasks, a determinate failure is there exactly when
-- the PodGroup is known not to be there: a gang that is too small is only reported, never a failure.
pub any-is_failure-evaluate_pod_group :
    (group_name : String) (group : PodGroup) (err : Option Failure) (tasks : List Pod)
    (tasks_err : Option Failure)
    → any is_failure (evaluate_pod_group group_name group err tasks tasks_err)
      ≡ is_missing group_name group err
unfolding evaluate_pod_group unknown_plugin_check
any-is_failure-evaluate_pod_group group_name group (some e) tasks tasks_err = ground arith
any-is_failure-evaluate_pod_group group_name group none tasks tasks_err = ground (
  arith,
  any-append is_failure (evaluate_gang_tasks group tasks tasks_err) (unknown_plugin_check ∷ []),
  evaluate_gang_tasks-is_failure group tasks tasks_err,
)
