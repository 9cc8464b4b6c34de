-- ===== src/Validate/Gang.antt =====
-- internal/agent/validate/validate.go, evaluateGangTasks: the tasks that count for the gang.
use Prim.Native.String.{◌++◌ as ◌<>◌}
use volens.Base.{
  String, Bool, not, ◌||◌, Option, none, some, List, [], ◌∷◌, ◌==◌, is_some, if◌then◌else◌,
}
use volens.Base.Int.{ℤ, pos, ◌+ℤ◌, ltb_ℤ, leb_ℤ, wrap32}
use volens.Base.Dict.{Dict, keys, insert, get_or}
use volens.Base.Sort.{sort_strings}
use volens.Kube.{Pod}
use volens.Cluster.{PodGroup}
use volens.Model.{
  text, number, flag, Failure, nil, of_number, of_flag, of_counts, object, end, field, Check,
}
use volens.Model.Checks.{unknown, with_evidence}

abbrev pub task_spec_annotation : String
task_spec_annotation = "volcano.sh/task-spec"

-- A task that the `switch` on the phase does not pass over by `continue`.
abbrev pub is_valid_task : Pod → Bool
is_valid_task task =
    if (task.phase == "Pending") || (task.phase == "Running")
    then not (is_some task.deletion_timestamp)
    else task.phase == "Succeeded"

abbrev pub task_spec : Pod → String
task_spec task = get_or "" task_spec_annotation task.annotations

-- `int32` counters.
abbrev pub increment : ℤ → ℤ
increment n = wrap32 (n +ℤ pos 1)

pub record Counts : Type 0 where
  pub valid_tasks : ℤ
  pub task_counts : Dict ℤ

-- One turn of the loop over the tasks.
unfoldable pub count_task : Counts → Pod → Counts
count_task c task =
    if is_valid_task task
    then record {
      valid_tasks = increment c.valid_tasks;
      task_counts =
          insert (task_spec task) (increment (get_or (pos 0) (task_spec task) c.task_counts))
            c.task_counts;
    }
    else c

unfoldable pub count_loop : Counts → List Pod → Counts
unfolding count_task
count_loop c [] = c
count_loop c (task ∷ tasks) = count_loop (count_task c task) tasks

abbrev pub no_counts : Counts
no_counts = record { valid_tasks = pos 0; task_counts = [] }

unfoldable pub total_loop : ℤ → Dict ℤ → ℤ
total_loop total [] = total
total_loop total ((name, minimum) ∷ rest) = total_loop (wrap32 (total +ℤ minimum)) rest

abbrev gang_sources : List String
gang_sources = "pkg/scheduler/plugins/gang/gang.go:validJobFn" ∷ []

unfoldable pub minimum_check : Counts → PodGroup → Check
minimum_check c group =
    let passed = leb_ℤ group.min_member c.valid_tasks in
    with_evidence
      (object (
        field "validTasks" (of_number c.valid_tasks) (
          field "minMember" (of_number group.min_member) (
            field "wouldPass" (of_flag passed)
              (field "taskCounts" (of_counts c.task_counts) end)))))
      (unknown "plugins.gang.min-member" "jobValid" "Active gang minMember rule"
        (text "calculated valid tasks="
          ∷ number c.valid_tasks
          ∷ text " minMember="
          ∷ number group.min_member
          ∷ text " wouldPass="
          ∷ flag passed
          ∷ text "; active gang plugin configuration is unavailable"
          ∷ [])
        nil gang_sources)

unfoldable pub task_check : Counts → PodGroup → String → Check
task_check c group name =
    let minimum = get_or (pos 0) name group.min_task_member in
    let valid = get_or (pos 0) name c.task_counts in
    let would_pass = leb_ℤ minimum valid in
    unknown ("plugins.gang.min-task-member." <> name) "jobValid"
      ("Active gang minTaskMember " <> name)
      (text "calculated valid tasks="
        ∷ number valid
        ∷ text " minimum="
        ∷ number minimum
        ∷ text " wouldPass="
        ∷ flag would_pass
        ∷ text "; active gang plugin configuration is unavailable"
        ∷ [])
      (object (
        field "validTasks" (of_number valid)
          (field "minimum" (of_number minimum) (field "wouldPass" (of_flag would_pass) end))))
      gang_sources

unfoldable pub task_checks : Counts → PodGroup → List String → List Check
unfolding task_check
task_checks c group [] = []
task_checks c group (name ∷ names) = task_check c group name ∷ task_checks c group names

unfoldable pub evaluate_gang_tasks : PodGroup → List Pod → Option Failure → List Check
unfolding count_loop minimum_check total_loop task_checks
evaluate_gang_tasks group tasks (some e) =
    unknown "plugins.gang.tasks" "jobValid" "Gang minimum task counts" e.message nil gang_sources
    ∷ []
evaluate_gang_tasks group tasks none =
    let c = count_loop no_counts tasks in
    if ltb_ℤ group.min_member (total_loop (pos 0) group.min_task_member)
    then minimum_check c group ∷ []
    else minimum_check c group ∷ task_checks c group (sort_strings (keys group.min_task_member))
