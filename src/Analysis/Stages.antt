-- ===== src/Analysis/Stages.antt =====
-- Which stages the checks of the rules are of.
use volens.Base.{
  String, ◌≡◌, refl, ◌∙◌, ap, Bool, true, false, not, ◌&&◌, Option, none, some, List, [], ◌∷◌, ◌++◌,
  ◌==◌, is_some, all, any, any-append, arith, Bool-cases, inl, inr, str_dec, ==_iff,
}
use volens.Kube.{Pod}
use volens.Cluster.{Scheduler, PodGroup}
use volens.Model.{Failure, Check}
use volens.Model.Checks.{known, is_failure}
use volens.Analysis.{
  Answers, collect_pod_group, known_stage_failure, validate_checks, enqueue_input, enqueue_checks,
  RuleState,
}
use volens.Analysis.Policy.{observe_policy, SchedulerRuntimeConfig}
use volens.Enqueue as Enqueue
use volens.Enqueue.{evaluate_queue, evaluate_plugin_hooks, evaluate_events, evaluate_admission}
use volens.Validate as Validate
use volens.Validate.Tasks.{any-is_failure-evaluate_pod_group}
use volens.Validate.{
  pod_group_name, pod_group_check, job_valid_sources, evaluate_scheduler_name, unknown_plugin_check,
  evaluate_pod_group,
}

-- The check stops a stage.
abbrev pub stops : String → Check → Bool
stops stage c = (c.stage == stage) && c.determinate && not c.passed && not c.skipped

pub known_stage_failure-any :
    (cs : List Check) (stage : String)
    → is_some (known_stage_failure cs stage) ≡ any (stops stage) cs
unfolding known_stage_failure
known_stage_failure-any [] stage = refl
known_stage_failure-any (c ∷ cs) stage = ground (arith, known_stage_failure-any cs stage)

pub stops-is_failure :
    (stage : String) (cs : List Check) → any is_failure cs ≡ false → any (stops stage) cs ≡ false
stops-is_failure stage [] h = refl
stops-is_failure stage (c ∷ cs) h = ground (arith, stops-is_failure stage cs)

-- The stages that come after the preflight.
pub data Later : String → Type 0 where
  later_enqueue : Later "enqueue"
  later_job_valid : Later "jobValid"

abbrev is_preflight : Check → Bool
is_preflight c = c.stage == "preflight"

preflight_stops :
    {stage : String} → Later stage → (c : Check) → c.stage ≡ "preflight" → stops stage c ≡ false
unfolding str_dec
preflight_stops later_enqueue c e =
    ap (λ s. (s == "enqueue") && c.determinate && not c.passed && not c.skipped) e
preflight_stops later_job_valid c e =
    ap (λ s. (s == "jobValid") && c.determinate && not c.passed && not c.skipped) e

preflight-stops :
    {stage : String}
    → Later stage
    → (cs : List Check) → all is_preflight cs ≡ true
    → any (stops stage) cs ≡ false
preflight-stops later [] h = refl
preflight-stops {stage} later (c ∷ cs) h =
    let first = preflight_stops later c ((==_iff c.stage "preflight").0 (ground arith)) in
    let rest = preflight-stops later cs (ground arith) in ground (arith, first, rest)

scheduler_name-preflight :
    (name : String) (scheduler : Scheduler) (e : Option Failure)
    → (evaluate_scheduler_name name scheduler e).stage ≡ "preflight"
unfolding evaluate_scheduler_name
scheduler_name-preflight name scheduler (some e) = elim (Bool-cases e.is_not_ready) [
  | inl t ↦ rw t refl
  | inr f ↦ rw f refl
]
scheduler_name-preflight name scheduler none =
    elim (Bool-cases scheduler.configuration_determinate) [ inl t ↦ rw t refl | inr f ↦ rw f refl ]

evaluate-preflight :
    (pod : Pod) (scheduler : Scheduler) (e : Option Failure)
    → all is_preflight (Validate.evaluate pod scheduler e) ≡ true
unfolding Validate.evaluate
evaluate-preflight pod scheduler e = ground (
  arith,
  (==_iff (evaluate_scheduler_name pod.spec.scheduler_name scheduler e).stage "preflight").1
      (scheduler_name-preflight pod.spec.scheduler_name scheduler e),
)

observe_policy-preflight :
    (c : SchedulerRuntimeConfig) (e : Option Failure)
    → all is_preflight (observe_policy c e).1 ≡ true
unfolding observe_policy
observe_policy-preflight c (some e) = ground arith
observe_policy-preflight c none = elim (Bool-cases c.determinate) [
  | inl t ↦ rw t (ground arith)
  | inr f ↦ rw f (ground arith)
]

two_checks :
    {stage : String}
    → Later stage
    → (c d : Check) → c.stage ≡ "preflight"
    → d.determinate ≡ false
    → any (stops stage) (c ∷ d ∷ []) ≡ false
two_checks later c d e k = ground (arith, preflight_stops later c e)

evaluate_pod_group-stops :
    {stage : String}
    → Later stage
    → (name : String) (group : PodGroup) (e : Option Failure) (tasks : List Pod)
      (tasks_err : Option Failure)
    → any (stops stage) (evaluate_pod_group name group e tasks tasks_err) ≡ false
unfolding evaluate_pod_group unknown_plugin_check
evaluate_pod_group-stops {stage} later name group (some e) tasks tasks_err =
    elim (Bool-cases e.is_not_found) [
      | inl t ↦ rw t (
          two_checks later
            (known "job.podgroup.exists" "preflight" "PodGroup exists" false e.message
              job_valid_sources)
            unknown_plugin_check refl refl)
      | inr f ↦ rw f (ground arith)
    ]
evaluate_pod_group-stops {stage} later name group none tasks tasks_err =
    elim (Bool-cases ((group.name == name) && not (group.namespace == ""))) [
      | inl t ↦
          stops-is_failure stage (evaluate_pod_group name group none tasks tasks_err)
            (any-is_failure-evaluate_pod_group name group none tasks tasks_err ∙ ap not t)
      | inr f ↦ rw f (
          two_checks later (record (pod_group_check name group) { passed = false })
            unknown_plugin_check refl refl)
    ]

-- No check of the validate rule stops the enqueue or the jobValid stage.
pub validate_checks-stops :
    {stage : String}
    → Later stage
    → (answers : Answers) (pod : Pod) → any (stops stage) (validate_checks answers pod) ≡ false
unfolding validate_checks
validate_checks-stops {stage} later answers pod =
    let name = pod_group_name (some pod) in
    let (group, group_err, tasks, tasks_err) = collect_pod_group answers name in
    let first = Validate.evaluate pod answers.scheduler answers.scheduler_err in
    let second = (observe_policy answers.configuration answers.configuration_err).1 in
    let third = evaluate_pod_group name group group_err tasks tasks_err in
    ground (
      arith,
      any-append (stops stage) (first ++ second) third,
      any-append (stops stage) first second,
      preflight-stops later first (evaluate-preflight pod answers.scheduler answers.scheduler_err),
      preflight-stops later second
          (observe_policy-preflight answers.configuration answers.configuration_err),
      evaluate_pod_group-stops later name group group_err tasks tasks_err,
    )

abbrev is_enqueue : Check → Bool
is_enqueue c = c.stage == "enqueue"

enqueue_job_valid : (c : Check) → c.stage ≡ "enqueue" → stops "jobValid" c ≡ false
unfolding str_dec
enqueue_job_valid c e =
    ap (λ s. (s == "jobValid") && c.determinate && not c.passed && not c.skipped) e

enqueue-job_valid : (cs : List Check) → all is_enqueue cs ≡ true → any (stops "jobValid") cs ≡ false
enqueue-job_valid [] h = refl
enqueue-job_valid (c ∷ cs) h =
    let first = enqueue_job_valid c ((==_iff c.stage "enqueue").0 (ground arith)) in
    let rest = enqueue-job_valid cs (ground arith) in ground (arith, first, rest)

events-enqueue : (input : Enqueue.Input) → all is_enqueue (evaluate_events input) ≡ true
unfolding evaluate_events evaluate_plugin_hooks
events-enqueue input = ground arith

queue-enqueue : (input : Enqueue.Input) → (evaluate_queue input).stage ≡ "enqueue"
unfolding evaluate_queue
queue-enqueue input = ground arith

admission-enqueue : (input : Enqueue.Input) → all is_enqueue (evaluate_admission input) ≡ true
unfolding evaluate_admission evaluate_plugin_hooks
admission-enqueue input = ground (arith, events-enqueue input)

-- No check of the enqueue rule stops the jobValid stage.
pub enqueue_checks-stops :
    (answers : Answers) (s : RuleState) (pod : Pod)
    → any (stops "jobValid") (enqueue_checks answers s pod) ≡ false
unfolding enqueue_checks Enqueue.evaluate
enqueue_checks-stops answers s pod =
    let input = enqueue_input answers s pod in
    enqueue-job_valid (evaluate_queue input ∷ evaluate_admission input) (
      ground (
        arith,
        (==_iff (evaluate_queue input).stage "enqueue").1 (queue-enqueue input),
        admission-enqueue input,
      ))
