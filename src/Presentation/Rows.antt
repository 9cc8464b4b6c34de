-- ===== src/Presentation/Rows.antt =====
-- internal/agent/presentation.go: the rows of the PodGroups of a queue and of the Pods of a workload.
use Prim.Native.String.{◌++◌ as ◌<>◌}
use volens.Base.{
  ℕ, ◌-◌, ◌/◌, ◌^◌, String, ◌&&◌, Option, none, some, List, [], ◌∷◌, ◌==◌, map, eqb, if◌then◌else◌,
}
use volens.Base.Sort.{sort_by}
use volens.Kube.{Container, Pod}
use volens.Cluster.{Amounts, PodGroup}
use volens.Model.{Check}
use volens.Model.Reports.{PodGroupSummary, WorkloadRow}
use volens.Presentation.Amounts.{resource_list_values, pod_resource_values}

abbrev pub min_amounts : PodGroup → Amounts
min_amounts group = elim group.min_resources [
  | none ↦ resource_list_values []
  | some resources ↦ resource_list_values resources
]

-- `now` and the timestamps count nanoseconds; an age is in whole seconds, and 0 for a time to come.
unfoldable pub pod_group_summary : ℕ → PodGroup → PodGroup → PodGroupSummary
unfolding resource_list_values
pod_group_summary now target group = record {
  namespace = group.namespace;
  name = group.name;
  target = (group.namespace == target.namespace) && (group.name == target.name);
  phase = group.phase;
  priority_class_name = group.priority_class_name;
  priority = group.priority;
  created_at = if eqb group.creation_timestamp 0 then none else some group.creation_timestamp;
  age_seconds =
      if eqb group.creation_timestamp 0 then 0 else (now - group.creation_timestamp) / 10 ^ 9;
  min_member = group.min_member;
  resources = min_amounts group;
}

unfoldable pub pod_group_summaries : ℕ → List PodGroup → PodGroup → List PodGroupSummary
unfolding pod_group_summary
pod_group_summaries now groups target = map (pod_group_summary now target) groups

abbrev pub container_names : List Container → List String
container_names containers = map (λ c. c.name) containers

unfoldable pub workload_row : List Check → Pod → WorkloadRow
unfolding pod_resource_values
workload_row checks pod = record {
  namespace = pod.namespace;
  pod = pod.name;
  containers = container_names pod.spec.containers;
  resources = pod_resource_values pod;
  checks = checks;
}

abbrev pub row_key : WorkloadRow → String
row_key row = row.namespace <> ("/" <> row.pod)

-- Without tasks the target stands alone.
abbrev pub tasks_or_target : Option Pod → List Pod → List Pod
tasks_or_target none tasks = tasks
tasks_or_target (some target) [] = target ∷ []
tasks_or_target (some target) (task ∷ tasks) = task ∷ tasks

unfoldable pub workload_rows : Option Pod → List Pod → List Check → List WorkloadRow
unfolding workload_row
workload_rows target tasks checks =
    sort_by row_key (map (workload_row checks) (tasks_or_target target tasks))
