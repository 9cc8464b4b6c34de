-- ===== src/Validate.antt =====
-- internal/agent/validate: the preflight checks of the Pod, its PodGroup and the gang's tasks.
pub mod Gang
pub mod Preflight
pub mod Tasks
mod Tests
use volens.Base.{
  String, Bool, false, not, ◌&&◌, Option, none, some, List, [], ◌∷◌, ◌++◌, ◌==◌, is_some, is_empty,
  string_in, if◌then◌else◌,
}
use volens.Base.Dict.{get_or}
use volens.Kube.{Pod}
use volens.Cluster.{Scheduler, PodGroup}
use volens.Model.{text, quoted, strings, plain, Failure, nil, of_names, of_pod_group, Check}
use volens.Model.Checks.{known, unknown, with_evidence}
use volens.Validate.Gang.{evaluate_gang_tasks}

abbrev pub job_valid_sources : List String
job_valid_sources =
    "pkg/scheduler/actions/allocate/allocate.go:JobValid"
    ∷ "pkg/scheduler/framework/session_plugins.go:JobValid"
    ∷ "pkg/scheduler/framework/session.go:OpenSession" ∷ []

abbrev pub scheduler_configuration_sources : List String
scheduler_configuration_sources =
    "cmd/scheduler/app/options/options.go" ∷ "pkg/scheduler/cache/event_handlers.go:getOrCreateJob"
    ∷ "pkg/scheduler/api/job_info.go:getJobID" ∷ []

-- `none` is the nil Pod.
unfoldable pub pod_group_name : Option Pod → String
pod_group_name none = ""
pod_group_name (some pod) = get_or "" "scheduling.k8s.io/group-name" pod.annotations

unfoldable pub evaluate_scheduler_name : String → Scheduler → Option Failure → Check
evaluate_scheduler_name pod_scheduler_name scheduler (some e) =
    if e.is_not_ready
    then known "task.scheduler" "preflight" "Ready Volcano scheduler instance exists" false
        e.message scheduler_configuration_sources
    else unknown "task.scheduler" "preflight" "Scheduler name is handled by this Volcano instance"
        e.message nil scheduler_configuration_sources
evaluate_scheduler_name pod_scheduler_name scheduler none =
    if not scheduler.configuration_determinate
    then unknown "task.scheduler" "preflight" "Scheduler name is handled by this Volcano instance"
        (plain scheduler.configuration_reason) (of_names scheduler.scheduler_names)
        scheduler_configuration_sources
    else with_evidence (of_names scheduler.scheduler_names) (
        known "task.scheduler" "preflight" "Scheduler name is handled by this Volcano instance"
          (string_in pod_scheduler_name scheduler.scheduler_names)
          (text "pod schedulerName="
            ∷ quoted pod_scheduler_name
            ∷ text " configured names="
            ∷ strings scheduler.scheduler_names
            ∷ [])
          scheduler_configuration_sources)

unfoldable pub evaluate : Pod → Scheduler → Option Failure → List Check
evaluate pod scheduler scheduler_err =
    let group = pod_group_name (some pod) in
    let reason =
      if (group == "") && not (get_or "" "volcano.sh/job-name" pod.labels == "")
      then text
          "scheduling.k8s.io/group-name is missing; volcano.sh/job-name is a VolcanoJob label, not the scheduler PodGroup association"
        ∷ []
      else text "scheduling.k8s.io/group-name=" ∷ text group ∷ [] in
    known "task.pending" "preflight" "Pod is Pending" (pod.phase == "Pending") (plain pod.phase) []
    ∷ evaluate_scheduler_name pod.spec.scheduler_name scheduler scheduler_err
    ∷ known "task.unbound" "preflight" "Pod has not been assigned to a node"
        (pod.spec.node_name == "")
        (text "spec.nodeName="
          ∷ text pod.spec.node_name
          ∷ text
              "; assigned Pending Pods require kubelet, runtime, image, or volume debugging instead of scheduler analysis"
          ∷ [])
        []
    ∷ known "task.active" "preflight" "Pod is not terminating"
        (not (is_some pod.deletion_timestamp)) (plain "deletionTimestamp must be empty") []
    ∷ known "task.scheduling-gates" "preflight" "Pod has no scheduling gates"
        (is_empty pod.spec.scheduling_gates)
        (text "schedulingGates=" ∷ strings pod.spec.scheduling_gates ∷ []) []
    ∷ known "task.containers" "preflight" "Has containers" (not (is_empty pod.spec.containers))
        (plain "Pod must contain at least one container") []
    ∷ known "job.podgroup" "preflight" "PodGroup association" (not (group == "")) reason
        scheduler_configuration_sources
    ∷ []

unfoldable pub unknown_plugin_check : Check
unknown_plugin_check =
    unknown "plugins.job-valid" "jobValid" "Remaining active JobValid plugin hooks"
      (plain
        "branch-specific hooks depend on the scheduler Session and plugin-private state; the common gang rules were evaluated separately")
      nil job_valid_sources

abbrev pub pod_group_exists : String → PodGroup → Bool
pod_group_exists group_name group = (group.name == group_name) && not (group.namespace == "")

abbrev pub pod_group_check : String → PodGroup → Check
pod_group_check group_name group = with_evidence (of_pod_group group) (
    known "job.podgroup.exists" "preflight" "PodGroup exists" (pod_group_exists group_name group)
      (text "PodGroup="
        ∷ text group.namespace
        ∷ text "/"
        ∷ text group.name
        ∷ text " phase="
        ∷ text group.phase
        ∷ [])
      job_valid_sources)

unfoldable pub evaluate_pod_group :
    String → PodGroup → Option Failure → List Pod → Option Failure → List Check
unfolding unknown_plugin_check
evaluate_pod_group group_name group (some e) tasks tasks_err =
    (if e.is_not_found
      then known "job.podgroup.exists" "preflight" "PodGroup exists" false e.message
          job_valid_sources
      else unknown "job.podgroup.exists" "preflight" "PodGroup exists" e.message nil
          job_valid_sources)
    ∷ unknown_plugin_check
    ∷ []
evaluate_pod_group group_name group none tasks tasks_err =
    if not (pod_group_exists group_name group)
    then pod_group_check group_name group ∷ unknown_plugin_check ∷ []
    else pod_group_check group_name group ∷ evaluate_gang_tasks group tasks tasks_err
      ++ unknown_plugin_check ∷ []
