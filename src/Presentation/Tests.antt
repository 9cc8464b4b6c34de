-- ===== src/Presentation/Tests.antt =====
-- A report with two nodes that fail alike, and a queue with its PodGroup, on which the theorems are
-- applied.
use volens.Base.{◌++◌, ◌≡◌, refl, true, false, none, some, [], ◌∷◌, all, if◌then◌else◌, str_dec}
use volens.Base.Int.{ℤ, pos}
use volens.Kube.{Quantity}
use volens.Cluster.{PodGroup}
use volens.Model.{plain, nil, Check, NodeResult}
use volens.Model.Checks.{known, unknown, skipped}
use volens.Model.Reports.{
  outcome_fail, outcome_pass, outcome_unknown, Report, QueueSummary, no_report, no_queue_summary,
}
use volens.Analysis.{no_pod_group, no_queue}
use volens.Snapshot.Resources.{QueueSnapshot, no_resource, new_queue_snapshot}
use volens.Presentation.Checks.{merge_checks}
use volens.Presentation.Checks.Merge.{ids, new_ids, or_else, last_check, last_check-merge_checks}
use volens.Presentation.Checks.Replace.{with_id}
use volens.Presentation.States.{state_from_checks, recompute_node_outcome, node_availability_check}
use volens.Presentation.States.Verdicts.{
  settled, stage_verdict, is_skipped, state_from_checks-stage_verdict,
}
use volens.Presentation.States.Nodes.{state_from_checks-recompute_node_outcome}
use volens.Presentation.Predicates.{normalize_predicate_checks}
use volens.Presentation.Activation.{activation_unknown}
use volens.Presentation.Predicates.Normalize.{AllProject, normalize_predicate_checks-Projects}
use volens.Presentation.Queue.{queue_resource_values}
use volens.Presentation.NodeFailures.{
  failures_of_nodes, no_failures, common_failure, ordered_node_check_ids,
}
use volens.Presentation.NodeFailures.Common.{
  AllNodup, IsCommonFailure, common_failure-IsCommonFailure,
}
use volens.Presentation.Evidence.{PresentationEvidence}
use volens.Presentation.Build.{finish_report}
use volens.Presentation.Build.Finish.{IsCoherent, finish_report-IsCoherent, finish_report-nodes}

abbrev ready : Check
ready = known "node.ready" "allocate" "Node Ready" true (plain "Ready condition") []

abbrev taints : Check
taints = known "node.taints" "allocate" "Taints tolerated" false (plain "NoSchedule") []

abbrev zone : Check
zone = unknown "node.volume-zone" "allocate" "Volume zone" (plain "no zone") nil []

abbrev bind : Check
bind = skipped "node.pv-bind" "allocate" "PV binding after node selection" (plain "after") []

abbrev node : NodeResult
node = record {
  name = "n1";
  passed = false;
  determinate = true;
  resources = [];
  checks = ready ∷ taints ∷ zone ∷ bind ∷ [];
}

abbrev other : NodeResult
other = record node { name = "n2"; checks = zone ∷ taints ∷ [] }

abbrev report : Report
report = record no_report { nodes = node ∷ other ∷ []; checks = bind ∷ [] }

abbrev quantity : ℤ → Quantity
quantity n = record { milli_value = n; value = n; is_zero = false }

abbrev group : PodGroup
group = record no_pod_group {
  name = "pg";
  min_resources = some (("cpu", quantity (pos 2000)) ∷ []);
}

abbrev snapshot : QueueSnapshot
snapshot = record (new_queue_snapshot "default") {
  resources =
      ("cpu", record no_resource { capability = some (pos 8000); allocated = some (pos 4000) })
      ∷ [];
}

abbrev queue : QueueSummary
queue = record no_queue_summary {
  strategy = "proportion";
  resources = queue_resource_values snapshot group;
}

abbrev evidence : PresentationEvidence
evidence = record {
  pod = none;
  tasks = [];
  pod_group = group;
  queue_name = "default";
  queue = no_queue;
  queue_err = none;
  queue_snapshot = snapshot;
  queue_snapshot_err = none;
  queue_pod_groups = group ∷ [];
  queue_pod_groups_err = none;
  preflight_stopped = false;
  enqueue_stopped = false;
  job_valid_stopped = false;
  allocate_stopped = false;
  stop_reason = [];
}

state_from_checks-stage_verdict_example :
    (state_from_checks node.checks).outcome ≡ settled (stage_verdict node.checks)
state_from_checks-stage_verdict_example = state_from_checks-stage_verdict node.checks

state_from_checks-recompute_node_outcome_example : (state_from_checks node.checks).outcome ≡ (
    if (recompute_node_outcome node).passed
    then (if all is_skipped node.checks then outcome_unknown else outcome_pass)
    else if (recompute_node_outcome node).determinate
    then outcome_fail
    else outcome_unknown)
state_from_checks-recompute_node_outcome_example = state_from_checks-recompute_node_outcome node

last_check-merge_checks_example :
    (ids (merge_checks node.checks (zone ∷ []))
      ≡ ids node.checks ++ new_ids (ids node.checks) (zone ∷ []))
    × (last_check "node.taints" (merge_checks node.checks (zone ∷ []))
        ≡ or_else (last_check "node.taints" (zone ∷ [])) (last_check "node.taints" node.checks))
last_check-merge_checks_example = last_check-merge_checks node.checks (zone ∷ []) "node.taints"

normalize_predicate_checks-Projects_example :
    AllProject node.checks
      (normalize_predicate_checks node.checks report activation_unknown (plain "unknown"))
normalize_predicate_checks-Projects_example =
    normalize_predicate_checks-Projects node.checks report activation_unknown (plain "unknown")

distinct : AllNodup report.nodes
unfolding str_dec
distinct = ((refl, (refl, (refl, (refl, tt)))), ((refl, (refl, tt)), tt))

common_failure-IsCommonFailure_example :
    IsCommonFailure report.nodes (ordered_node_check_ids report.nodes) (
      common_failure
        (failures_of_nodes no_failures report.nodes)
        2
        (ordered_node_check_ids report.nodes))
common_failure-IsCommonFailure_example =
    common_failure-IsCommonFailure report.nodes (ordered_node_check_ids report.nodes) distinct

finish_report-IsCoherent_example : IsCoherent (finish_report 0 report evidence)
finish_report-IsCoherent_example = finish_report-IsCoherent 0 report evidence

finish_report-nodes_example :
    ((finish_report 0 report evidence).nodes ≡ (finish_report 0 report evidence).allocate.nodes)
    × (with_id "allocate.nodes" (finish_report 0 report evidence).checks
        ≡ node_availability_check (finish_report 0 report evidence).nodes ∷ [])
finish_report-nodes_example = finish_report-nodes 0 report evidence refl
