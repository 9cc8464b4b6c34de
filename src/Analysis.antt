-- ===== src/Analysis.antt =====
-- internal/agent/rules.go and analyzer.go: the rules in their order, and where an analysis stops. What
-- the calls of the cluster client return is given as a record of answers.
pub mod Policy
pub mod Run
pub mod Stages
pub mod Steps
pub mod Outcome
pub mod Total
mod Tests
use volens.Base.{
  String, Bool, true, false, not, ◌&&◌, ◌||◌, Option, none, some, List, [], ◌∷◌, ◌++◌, ◌==◌, any,
  if◌then◌else◌,
}
use volens.Kube.{Pod, Node, Event}
use volens.Cluster.{Scheduler, PodGroup, Queue, CacheDump}
use volens.Model.{
  Message, text, plain, nil, Failure, failure, wrap, Result, ok, err, Check, NodeResult,
  SchedulerPolicy,
}
use volens.Model.Checks.{known, unknown}
use volens.Analysis.Policy.{SchedulerRuntimeConfig, observe_policy}
use volens.Validate.{pod_group_name}
use volens.Validate as Validate
use volens.Enqueue as Enqueue
use volens.Enqueue.Queues.{resolve_queue_name}
use volens.Filter.Evaluate

pub record Request : Type 0 where
  pub namespace : String
  pub pod : String

-- The answers of the cluster client to the calls that an analysis makes, each with its error.
pub record Answers : Type 0 where
  pub pod : Result Pod
  pub scheduler : Scheduler
  pub scheduler_err : Option Failure
  pub configuration : SchedulerRuntimeConfig
  pub configuration_err : Option Failure
  pub pod_group : String → PodGroup × Option Failure
  pub tasks : String → List Pod × Option Failure
  pub queue : String → Queue × Option Failure
  pub pod_events : List Event × Option Failure
  pub group_events : String → String → List Event × Option Failure
  pub nodes : List Node × Option Failure
  pub dump : CacheDump × Option Failure

-- The zero values that stand beside an error.
abbrev pub no_pod_group : PodGroup
no_pod_group = record {
  namespace = "";
  name = "";
  uid = "";
  queue = "";
  min_member = volens.Base.Int.ℤ.pos 0;
  min_task_member = [];
  creation_timestamp = 0;
  priority_class_name = "";
  priority = none;
  min_resources = none;
  phase = "";
}

abbrev pub no_queue : Queue
no_queue = record { name = ""; state = ""; guarantee = []; capability = []; deserved = [] }

-- The fields of RuleState and of its presentationEvidence that decide how the analysis goes on.
pub record RuleState : Type 0 where
  pub checks : List Check
  pub policy : SchedulerPolicy
  pub nodes : List NodeResult
  pub pod : Option Pod
  pub pod_group_name : String
  pub pod_group : PodGroup
  pub pod_group_err : Option Failure
  pub scheduler : Scheduler
  pub scheduler_err : Option Failure
  pub finish_without_source : Bool
  pub stopped : Bool
  pub stop_reason : Message

unfoldable pub known_stage_failure : List Check → String → Option Check
known_stage_failure [] stage = none
known_stage_failure (c ∷ cs) stage =
    let rest = known_stage_failure cs stage in
    if (c.stage == stage) && c.determinate && not c.passed && not c.skipped then some c else rest

unfoldable pub target_pod_lookup_check : Request → Failure → Check
target_pod_lookup_check request e =
    let message = text request.namespace ∷ text "/" ∷ text request.pod ∷ text ": " ∷ e.message in
    if e.is_not_found
    then known "task.exists" "preflight" "Target Pod exists" false message []
    else unknown "task.load" "preflight" "Target Pod loaded from informer cache" message nil []

abbrev pub preflight_reason : Check → Message
preflight_reason c =
    text (
      if c.determinate && not c.passed && not c.skipped then "preflight 明确失败" else "preflight 无法完成")
    ∷ text "："
    ∷ text c.name
    ∷ text " — "
    ∷ c.reason

unfoldable pub collect_pod_group :
    Answers → String → PodGroup × Option Failure × List Pod × Option Failure
collect_pod_group answers name =
    if name == ""
    then (let e = failure (plain "PodGroup association is unavailable") in
        (no_pod_group, some e, [], some e))
    else (
      (answers.pod_group name).0,
      (answers.pod_group name).1,
      (answers.tasks name).0,
      (answers.tasks name).1,
    )

abbrev pub stop_without_source : Check → RuleState → RuleState
stop_without_source c s = record s {
  finish_without_source = true;
  stopped = true;
  stop_reason = preflight_reason c;
}

-- The report's checks after the validate rule has loaded the Pod.
unfoldable pub validate_checks : Answers → Pod → List Check
validate_checks answers pod =
    let name = pod_group_name (some pod) in
    let (group, group_err, tasks, tasks_err) = collect_pod_group answers name in
    Validate.evaluate pod answers.scheduler answers.scheduler_err
    ++ (observe_policy answers.configuration answers.configuration_err).1
    ++ Validate.evaluate_pod_group name group group_err tasks tasks_err

-- The state once everything about the Pod has been read.
unfoldable pub load : Answers → Pod → RuleState → RuleState
load answers pod s =
    let name = pod_group_name (some pod) in
    record s {
      checks = s.checks ++ validate_checks answers pod;
      policy = (observe_policy answers.configuration answers.configuration_err).0;
      pod = some pod;
      pod_group_name = name;
      pod_group = (collect_pod_group answers name).0;
      pod_group_err = (collect_pod_group answers name).1;
      scheduler = answers.scheduler;
      scheduler_err = answers.scheduler_err;
    }

unfoldable pub validate_rule : Request → Answers → RuleState → RuleState
validate_rule request answers s = elim answers.pod [
  | err e ↦
      let c = target_pod_lookup_check request e in
      stop_without_source c (record s { checks = s.checks ++ c ∷ [] })
  | ok pod ↦ elim (known_stage_failure (load answers pod s).checks "preflight") [
    | none ↦ load answers pod s
    | some c ↦ stop_without_source c (load answers pod s)
  ]
]

unfoldable pub observed_enqueue_action : SchedulerPolicy → Bool
observed_enqueue_action policy =
    if not policy.determinate || not policy.active_determinate
    then true
    else any (λ action. action == "enqueue") policy.actions

-- `name, nameErr, queue, queueErr`
unfoldable pub collect_queue :
    Answers
    → PodGroup
    → Option Failure
    → Scheduler
    → Option Failure
    → String × Option Failure × Queue × Option Failure
collect_queue answers group (some e) scheduler scheduler_err =
    let unavailable = wrap "resolve effective Queue: PodGroup is unavailable: " e in
    ("", some unavailable, no_queue, some unavailable)
collect_queue answers group none scheduler scheduler_err =
    elim (resolve_queue_name group scheduler scheduler_err) [
      | err e ↦ ("", some e, no_queue, some e)
      | ok name ↦ (name, none, (answers.queue name).0, (answers.queue name).1)
    ]

unfoldable pub collect_group_events : Answers → RuleState → List Event × Option Failure
collect_group_events answers s = elim s.pod_group_err [
  | some e ↦ ([], some (wrap "collect PodGroup events: PodGroup is unavailable: " e))
  | none ↦
      if s.pod_group_name == ""
      then (
        [],
        some (
            wrap "collect PodGroup events: PodGroup is unavailable: "
              (failure (plain "PodGroup association is unavailable"))),
      )
      else answers.group_events s.pod_group_name s.pod_group.uid
]

unfoldable pub enqueue_input : Answers → RuleState → Pod → Enqueue.Input
enqueue_input answers s pod =
    let (name, name_err, queue, queue_err) =
      collect_queue answers s.pod_group s.pod_group_err s.scheduler s.scheduler_err in
    record {
      scheduler_name = pod.spec.scheduler_name;
      actions = s.policy.actions;
      actions_determinate = s.policy.determinate;
      active_determinate = s.policy.active_determinate;
      pod_group = s.pod_group;
      pod_group_err = s.pod_group_err;
      queue_name = name;
      queue_name_err = name_err;
      queue = queue;
      queue_err = queue_err;
      pod_events = answers.pod_events.0;
      pod_events_err = answers.pod_events.1;
      group_events = (collect_group_events answers s).0;
      group_events_err = (collect_group_events answers s).1;
    }

unfoldable pub enqueue_checks : Answers → RuleState → Pod → List Check
enqueue_checks answers s pod = Enqueue.evaluate (enqueue_input answers s pod)

abbrev pub stop_with_source : String → Check → RuleState → RuleState
stop_with_source prefix c s = record s {
  stopped = true;
  stop_reason = text prefix ∷ text c.name ∷ text " — " ∷ c.reason;
}

abbrev pub not_loaded : Failure
not_loaded = failure (plain "validate rule did not load target Pod")

unfoldable pub enqueue_rule : Answers → RuleState → Result RuleState
enqueue_rule answers s = elim s.pod [
  | none ↦ err not_loaded
  | some pod ↦
      let next = record s { checks = s.checks ++ enqueue_checks answers s pod } in
      if not (observed_enqueue_action s.policy)
      then ok next
      else elim (known_stage_failure next.checks "enqueue") [
        | none ↦ ok next
        | some c ↦ ok (stop_with_source "enqueue 明确失败：" c next)
      ]
]

unfoldable pub job_valid_rule : RuleState → RuleState
job_valid_rule s = elim (known_stage_failure s.checks "jobValid") [
  | none ↦ s
  | some c ↦ stop_with_source "JobValid 明确失败：" c s
]
