-- ===== src/Analysis/Run.antt =====
-- internal/agent/analyzer.go and rules.go: the allocate rule, and the loop of Analyze over the rules.
use volens.Base.{
  String, Bool, true, false, not, ◌&&◌, ◌||◌, none, some, List, [], ◌∷◌, ◌++◌, ◌==◌, if◌then◌else◌,
}
use volens.Kube.{Toleration, Taint, Pod}
use volens.Cluster.{Scheduler}
use volens.Model.{
  text, quoted, plain, nil, Failure, failure, Result, ok, err, Check, SchedulerPolicy,
}
use volens.Model.Reports.{no_policy}
use volens.Model.Checks.{known, unknown}
use volens.Filter.Evaluate.{FilterResult, evaluate}
use volens.Analysis.{
  Request, Answers, RuleState, no_pod_group, not_loaded, validate_rule, enqueue_rule,
  job_valid_rule,
}

unfoldable pub scheduler_evidence_identity_check : SchedulerPolicy → Scheduler → Check
scheduler_evidence_identity_check policy evidence =
    let name : String = "Policy and cache dump use the same scheduler Pod" in
    let sources : List String = "clusterManager.CaptureCacheDump" ∷ [] in
    if (policy.scheduler_uid == "") || (evidence.uid == "")
    then unknown "scheduler.evidence.identity" "allocate" name
        (text "policy scheduler="
          ∷ text policy.scheduler_namespace
          ∷ text "/"
          ∷ text policy.scheduler_pod
          ∷ text " uid="
          ∷ quoted policy.scheduler_uid
          ∷ text "; cache scheduler="
          ∷ text evidence.namespace
          ∷ text "/"
          ∷ text evidence.name
          ∷ text " uid="
          ∷ quoted evidence.uid
          ∷ [])
        nil sources
    else if not (
        (policy.scheduler_uid == evidence.uid)
        && (policy.scheduler_namespace == evidence.namespace)
        && (policy.scheduler_pod == evidence.name))
    then unknown "scheduler.evidence.identity" "allocate" name
        (text "scheduler leadership changed during analysis: policy="
          ∷ text policy.scheduler_namespace
          ∷ text "/"
          ∷ text policy.scheduler_pod
          ∷ text " uid="
          ∷ text policy.scheduler_uid
          ∷ text " cache="
          ∷ text evidence.namespace
          ∷ text "/"
          ∷ text evidence.name
          ∷ text " uid="
          ∷ text evidence.uid
          ∷ [])
        nil sources
    else known "scheduler.evidence.identity" "allocate" name true
        (text "scheduler="
          ∷ text evidence.namespace
          ∷ text "/"
          ∷ text evidence.name
          ∷ text " uid="
          ∷ text evidence.uid
          ∷ [])
        sources

-- The rules that `init` registers, by their names.
pub data Rule : Type 0 where
  validate enqueue job_valid allocate : Rule

abbrev pub rule_name : Rule → String
rule_name validate = "validate"
rule_name enqueue = "enqueue"
rule_name job_valid = "jobValid"
rule_name allocate = "allocate"

abbrev pub analysis_rules : List Rule
analysis_rules = validate ∷ enqueue ∷ job_valid ∷ allocate ∷ []

abbrev pub new_rule_state : RuleState
new_rule_state = record {
  checks = [];
  policy = no_policy;
  nodes = [];
  pod = none;
  pod_group_name = "";
  pod_group = no_pod_group;
  pod_group_err = none;
  scheduler = record {
    namespace = "";
    name = "";
    uid = "";
    scheduler_names = [];
    default_queue = "";
    configuration_determinate = false;
    configuration_reason = "";
  };
  scheduler_err = none;
  finish_without_source = false;
  stopped = false;
  stop_reason = [];
}

module _ (tolerates_taint : Toleration → Taint → Bool) (answers : Answers) where
  unfoldable pub filter_result : Pod → FilterResult
  filter_result pod = evaluate tolerates_taint (record {
    pod = pod;
    nodes = answers.nodes.0;
    nodes_err = answers.nodes.1;
    dump = answers.dump.0;
    capture_err = answers.dump.1;
  })

  unfoldable pub allocate_checks : SchedulerPolicy → Pod → List Check
  allocate_checks policy pod =
      (filter_result pod).cache_check
      ∷ scheduler_evidence_identity_check policy answers.dump.0.scheduler
      ∷ (filter_result pod).allocation_check
      ∷ (filter_result pod).plugin_check
      ∷ []

  unfoldable pub allocate_rule : RuleState → Result RuleState
  allocate_rule s = elim s.pod [
    | none ↦ err not_loaded
    | some pod ↦ ok (record s {
      checks = s.checks ++ allocate_checks s.policy pod;
      nodes = (filter_result pod).nodes;
    })
  ]

  unfoldable pub evaluate_rule : Request → Rule → RuleState → Result RuleState
  evaluate_rule request validate s = ok (validate_rule request answers s)
  evaluate_rule request enqueue s = enqueue_rule answers s
  evaluate_rule request job_valid s = ok (job_valid_rule s)
  evaluate_rule request allocate s = allocate_rule s

  abbrev pub wrap_rule : Rule → Failure → Failure
  wrap_rule rule e = record e {
    message = text "evaluate rule " ∷ text (rule_name rule) ∷ text ": " ∷ e.message;
  }

  -- The loop, which breaks at an error and at a stopped state.
  unfoldable pub run_rules : Request → List Rule → RuleState → Result RuleState
  unfolding evaluate_rule
  run_rules request [] s = ok s
  run_rules request (rule ∷ rules) s = elim (evaluate_rule request rule s) [
    | err e ↦ err (wrap_rule rule e)
    | ok next ↦ elim next.stopped [ true ↦ ok next | false ↦ run_rules request rules next ]
  ]

  -- Analyze, up to the report that it finishes.
  unfoldable pub analyze : Request → Result RuleState
  unfolding run_rules
  analyze request =
      if (request.namespace == "") || (request.pod == "")
      then err (failure (plain "namespace and pod are required"))
      else run_rules request analysis_rules new_rule_state
