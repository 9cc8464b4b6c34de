-- ===== src/Enqueue.antt =====
-- internal/agent/enqueue: whether Volcano admitted the PodGroup to its queue.
pub mod Events
pub mod Newest
pub mod Queues
pub mod Admission
mod Tests
use volens.Base.{
  String, Bool, true, false, not, ◌&&◌, ◌||◌, Option, none, some, List, [], ◌∷◌, ◌++◌, ◌==◌,
  is_some, any, if◌then◌else◌,
}
use volens.Base.Text.{codes, trim, same, equal_fold}
use volens.Kube.{Event}
use volens.Cluster.{PodGroup, Queue}
use volens.Model.{
  Message, text, plain, Failure, Evidence, nil, of_names, of_flag, of_queue, of_event, object, end,
  field, Check,
}
use volens.Model.Checks.{known, unknown, skipped, with_evidence}
use volens.Enqueue.Events.{
  EnqueueOutcome, unknown_outcome, rejected, succeeded, newest_enqueue_evidence, event_reason,
  event_errors,
}

abbrev pub enqueue_sources : List String
enqueue_sources =
    "pkg/scheduler/actions/enqueue/enqueue.go"
    ∷ "pkg/scheduler/framework/session_plugins.go:JobEnqueueable" ∷ []

abbrev pub queue_sources : List String
queue_sources =
    "cmd/scheduler/app/options/options.go" ∷ "pkg/scheduler/cache/event_handlers.go:setPodGroup"
    ∷ "pkg/scheduler/actions/enqueue/enqueue.go" ∷ []

pub record Input : Type 0 where
  pub scheduler_name : String
  pub actions : List String
  pub actions_determinate : Bool
  pub active_determinate : Bool
  pub pod_group : PodGroup
  pub pod_group_err : Option Failure
  pub queue_name : String
  pub queue_name_err : Option Failure
  pub queue : Queue
  pub queue_err : Option Failure
  pub pod_events : List Event
  pub pod_events_err : Option Failure
  pub group_events : List Event
  pub group_events_err : Option Failure

unfoldable pub contains_action : List String → String → Bool
contains_action actions wanted = any (λ action. same (trim (codes action)) (codes wanted)) actions

unfoldable pub pod_group_in_queue : PodGroup → Bool
pod_group_in_queue group =
    equal_fold (codes group.phase) (codes "Inqueue")
    || equal_fold (codes group.phase) (codes "Running")

unfoldable pub evaluate_queue : Input → Check
evaluate_queue input = elim input.queue_name_err [
  | some e ↦
      unknown "job.queue.exists" "enqueue" "Effective Queue exists" e.message nil queue_sources
  | none ↦ elim input.queue_err [
    | some e ↦
        if e.is_not_found
        then known "job.queue.exists" "enqueue" "Queue exists" false e.message enqueue_sources
        else unknown "job.queue.exists" "enqueue" "Queue exists" e.message nil enqueue_sources
    | none ↦ with_evidence (of_queue input.queue) (
        known "job.queue.exists" "enqueue" "Queue exists" (input.queue.name == input.queue_name)
          (text "queue=" ∷ text input.queue.name ∷ text " state=" ∷ text input.queue.state ∷ [])
          queue_sources)
  ]
]

abbrev pub is_succeeded : EnqueueOutcome → Bool
is_succeeded succeeded = true
is_succeeded rejected = false
is_succeeded unknown_outcome = false

plugin_hooks_reason : Input → EnqueueOutcome → String
plugin_hooks_reason input outcome =
    if not (is_some input.pod_group_err) && not (is_some input.pod_group.min_resources)
    then "PodGroup minResources is nil: the standard enqueue action would bypass JobEnqueueable, but the active action configuration is not available"
    else if not (is_some input.pod_group_err)
        && (is_succeeded outcome || pod_group_in_queue input.pod_group)
    then "PodGroup entered the queue, but allocate can do that when the enqueue action is disabled, so JobEnqueueable execution is not proven"
    else "active actions, plugin tiers, vote short-circuiting, arguments, and Session state are not reproducible from the available evidence"

unfoldable pub evaluate_plugin_hooks : Input → EnqueueOutcome → Check
unfolding plugin_hooks_reason
evaluate_plugin_hooks input outcome =
    unknown "plugins.job-enqueueable" "enqueue" "Active JobEnqueueable plugin hooks"
      (plain (plugin_hooks_reason input outcome)) nil enqueue_sources

-- The two checks of a branch that say the same of the evidence and of the plugins.
abbrev skip_both : Message → List Check
skip_both reason =
    skipped "job.enqueue.evidence" "enqueue" "Enqueue evidence" reason enqueue_sources
    ∷ skipped "plugins.job-enqueueable" "enqueue" "Active JobEnqueueable plugin hooks" reason
        enqueue_sources
    ∷ []

abbrev unknown_both : Message → Evidence → List Check
unknown_both reason evidence =
    unknown "job.enqueue.evidence" "enqueue" "Enqueue evidence" reason evidence enqueue_sources
    ∷ unknown "plugins.job-enqueueable" "enqueue" "Active JobEnqueueable plugin hooks" reason
        evidence enqueue_sources
    ∷ []

-- What the events say, where the phase does not decide.
unfoldable pub evaluate_events : Input → List Check
evaluate_events input =
    let (event, outcome) =
      newest_enqueue_evidence (input.pod_events ++ input.group_events) input.scheduler_name in
    elim outcome [
      | unknown_outcome ↦
          unknown "job.enqueue.evidence" "enqueue" "Enqueue evidence"
            (if is_some input.pod_events_err || is_some input.group_events_err
              then event_errors input.pod_events_err input.group_events_err
              else plain "no Pod or PodGroup event proves enqueue success or rejection")
            nil enqueue_sources
          ∷ evaluate_plugin_hooks input unknown_outcome
          ∷ []
      | decided ↦
          unknown "job.enqueue.evidence" "enqueue" "Enqueue evidence"
            (event_reason event
              ∷ text
                  "; this Event is historical evidence and is not tied to the current scheduler Session, PodGroup transition, or queue resource snapshot"
              ∷ [])
            (of_event event) enqueue_sources
          ∷ evaluate_plugin_hooks input decided
          ∷ []
    ]

unfoldable pub evaluate_admission : Input → List Check
evaluate_admission input =
    let standalone_enqueue = contains_action input.actions "enqueue" in
    if input.actions_determinate && not standalone_enqueue && input.active_determinate
    then skip_both (
        plain
          "the observed scheduler actions do not contain enqueue; PodGroup phase and old Events are not a currently reachable enqueue gate")
    else if input.actions_determinate && not standalone_enqueue
    then unknown_both
        (plain
          "the observed scheduler actions do not contain enqueue, but that ConfigMap version is not proven active in the scheduler's in-memory Session; PodGroup phase and Events cannot prove the current enqueue gate")
        (object (
          field "observedActions" (of_names input.actions)
            (field "activeDeterminate" (of_flag input.active_determinate) end)))
    else if input.actions_determinate
        && standalone_enqueue
        && not (is_some input.pod_group_err)
        && not (pod_group_in_queue input.pod_group)
    then known "job.enqueue.evidence" "enqueue" "Enqueue evidence" false
        (text "PodGroup phase="
          ∷ text input.pod_group.phase
          ∷ text "; Volcano allocate only schedules jobs after they enter Inqueue/Running"
          ∷ [])
        enqueue_sources
      ∷ evaluate_plugin_hooks input rejected
      ∷ []
    else if pod_group_in_queue input.pod_group && not (is_some input.pod_group_err)
    then known "job.enqueue.evidence" "enqueue" "Enqueue evidence" true
        (text "PodGroup phase=" ∷ text input.pod_group.phase ∷ []) enqueue_sources
      ∷ evaluate_plugin_hooks input succeeded
      ∷ []
    else evaluate_events input

unfoldable pub evaluate : Input → List Check
evaluate input = evaluate_queue input ∷ evaluate_admission input
