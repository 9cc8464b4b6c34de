-- ===== src/Enqueue/Tests.antt =====
-- A PodGroup, a queue and two events, on which the theorems about the enqueue stage are applied.
use volens.Base.{none, ℕ, String, ◌≡◌, ◌≢◌, ◌⊎◌, ◌↔◌, true, false, none, some, List, [], ◌∷◌, All}
use volens.Base.Int.{pos}
use volens.Kube.{Event}
use volens.Cluster.{Scheduler, PodGroup}
use volens.Model.{Failure, plain, ok}
use volens.Enqueue.Events.{
  unknown_outcome, is_unknown_outcome, is_relevant, no_event, newest_enqueue_evidence,
}
use volens.Enqueue.Newest.{IsNewest, newest_enqueue_evidence-IsNewest}
use volens.Enqueue.Queues.{resolve_queue_name, HasDefault, resolve_queue_name-ok}
use volens.Enqueue.Admission.{ids, evidence_ids, evidence_of, by_phase, evaluate-by_phase}
use volens.Enqueue.{Input, evaluate_admission, evaluate}

abbrev group : PodGroup
group = record {
  namespace = "default";
  name = "train";
  uid = "g1";
  queue = "";
  min_member = pos 2;
  min_task_member = [];
  creation_timestamp = 0;
  priority_class_name = "";
  priority = none;
  min_resources = none;
  phase = "Pending";
}

abbrev scheduler : Scheduler
scheduler = record {
  namespace = "volcano-system";
  name = "scheduler-0";
  uid = "u1";
  scheduler_names = "volcano" ∷ [];
  default_queue = "research";
  configuration_determinate = true;
  configuration_reason = "";
}

abbrev event_at : ℕ → String → Event
event_at time reason = record no_event {
  reason = reason;
  source_component = "volcano";
  last_timestamp = time;
}

abbrev events : List Event
events = event_at 5 "Enqueued" ∷ event_at 9 "EnqueueFailed" ∷ event_at 9 "Scheduled" ∷ []

abbrev queue_error : Failure
queue_error = record { message = plain "not found"; is_not_found = true; is_not_ready = false }

abbrev input : Input
input = record {
  scheduler_name = "volcano";
  actions = "enqueue" ∷ " allocate" ∷ [];
  actions_determinate = true;
  active_determinate = false;
  pod_group = group;
  pod_group_err = none;
  queue_name = "research";
  queue_name_err = none;
  queue = record { name = ""; state = ""; guarantee = []; capability = []; deserved = [] };
  queue_err = some queue_error;
  pod_events = events;
  pod_events_err = none;
  group_events = [];
  group_events_err = none;
}

abbrev named_group : PodGroup
named_group = record group { queue = "batch" }

resolve_queue_name-ok_example :
    (resolve_queue_name named_group scheduler (some queue_error) ≡ ok "batch") ↔ (
      ((named_group.queue ≢ "") × ("batch" ≡ named_group.queue))
      ⊎ ((named_group.queue ≡ "")
          × HasDefault scheduler (some queue_error)
          × ("batch" ≡ scheduler.default_queue)))
resolve_queue_name-ok_example =
    resolve_queue_name-ok named_group scheduler (some queue_error) "batch"

newest_enqueue_evidence-IsNewest_example :
    let (e, o) = newest_enqueue_evidence events "volcano" in
    ((o ≡ unknown_outcome) × All (λ x. is_relevant "volcano" x ≡ false) events)
    ⊎ (IsNewest "volcano" events e o × (is_unknown_outcome o ≡ false))
newest_enqueue_evidence-IsNewest_example = newest_enqueue_evidence-IsNewest events "volcano"

evaluate-by_phase_example :
    (ids (evaluate input) ≡ "job.queue.exists" ∷ evidence_ids)
    × (evidence_of (evaluate_admission input) ≡ by_phase input)
evaluate-by_phase_example = evaluate-by_phase input
