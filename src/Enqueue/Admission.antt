-- ===== src/Enqueue/Admission.antt =====
-- What the checks of the enqueue stage decide.
use volens.Base.{
  String, ◌≡◌, Bool, false, not, ◌&&◌, ◌||◌, Option, none, some, List, [], ◌∷◌, ◌==◌, is_some,
  arith, if◌then◌else◌,
}
use volens.Model.{Failure, Check}
use volens.Model.Checks.{is_pass, is_failure, is_unknown}
use volens.Enqueue.{
  Input, contains_action, pod_group_in_queue, evaluate_queue, evaluate_plugin_hooks,
  evaluate_events, evaluate_admission, evaluate,
}

-- What the evidence of the admission comes to.
pub data Admission : Type 0 where
  not_a_gate admitted held undecided : Admission

abbrev pub admission : Check → Admission
admission c =
    if c.skipped
    then not_a_gate
    else if is_pass c
    then admitted
    else if is_failure c
    then held
    else undecided

-- The admission by the scheduler's actions and the PodGroup's phase alone.
abbrev pub by_phase : Input → Admission
by_phase input =
    let gate = contains_action input.actions "enqueue" in
    let readable = not (is_some input.pod_group_err) in
    if input.actions_determinate && not gate
    then (if input.active_determinate then not_a_gate else undecided)
    else if readable && pod_group_in_queue input.pod_group
    then admitted
    else if input.actions_determinate && readable
    then held
    else undecided

-- The checks of a stage, by what each of them is about.
abbrev pub ids : List Check → List String
ids [] = []
ids (c ∷ cs) = c.id ∷ ids cs

abbrev pub evidence_of : List Check → Admission
evidence_of [] = undecided
evidence_of (c ∷ cs) = admission c

abbrev pub not_found : Option Failure → Bool
not_found none = false
not_found (some e) = e.is_not_found

abbrev pub evidence_ids : List String
evidence_ids = "job.enqueue.evidence" ∷ "plugins.job-enqueueable" ∷ []

evaluate_events-undecided :
    (input : Input)
    → (ids (evaluate_events input) ≡ evidence_ids)
      × (evidence_of (evaluate_events input) ≡ undecided)
unfolding evaluate_events evaluate_plugin_hooks
evaluate_events-undecided input = ground arith

-- The enqueue stage gives three checks: of the queue, of the admission and of the plugins. Where the
-- actions are known and lack enqueue, the admission is not a gate if they are proven active, and
-- undecided if they are not, whatever the PodGroup says. Elsewhere it is granted where the PodGroup
-- was read and its phase is past the queue, and held where it was read, its phase is not and the
-- actions are known. In every other case it is undecided.
pub evaluate-by_phase :
    (input : Input)
    → (ids (evaluate input) ≡ "job.queue.exists" ∷ evidence_ids)
      × (evidence_of (evaluate_admission input) ≡ by_phase input)
unfolding evaluate evaluate_admission evaluate_plugin_hooks evaluate_queue
evaluate-by_phase input = ground (arith, evaluate_events-undecided input)

-- The check of the queue passes when a queue name was found, the queue was read and has that name.
-- It is a determinate failure when the name was found and the queue is not there, or has another
-- name. It is indeterminate when the name was not found or the read failed in another way.
pub evaluate_queue_lem :
    (input : Input)
    → (is_pass (evaluate_queue input)
        ≡ not (is_some input.queue_name_err)
          && not (is_some input.queue_err)
          && (input.queue.name == input.queue_name))
      × (is_failure (evaluate_queue input)
          ≡ not (is_some input.queue_name_err)
            && (if is_some input.queue_err
                then not_found input.queue_err
                else not (input.queue.name == input.queue_name)))
      × (is_unknown (evaluate_queue input)
          ≡ is_some input.queue_name_err
            || is_some input.queue_err && not (not_found input.queue_err))
unfolding evaluate_queue
evaluate_queue_lem input = ground arith
