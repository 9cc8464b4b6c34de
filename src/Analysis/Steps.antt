-- ===== src/Analysis/Steps.antt =====
-- One turn of the loop over the rules.
use volens.Base.{
  String, ◌≡◌, refl, ap, Bool, true, false, ◌||◌, Option, none, some, List, [], ◌∷◌, ◌==◌, any,
  arith, Option-cases, inl, inr,
}
use volens.Kube.{Toleration, Taint}
use volens.Model.{Result, ok, err, Failure, Check}
use volens.Analysis.Policy.{scheduler_policy, observe_policy}
use volens.Analysis.Stages.{stops, known_stage_failure-any}
use volens.Analysis.Run.{
  Rule, validate, enqueue, job_valid, allocate, evaluate_rule, run_rules, new_rule_state, analyze,
}
use volens.Analysis.{
  Request, Answers, RuleState, target_pod_lookup_check, known_stage_failure, validate_rule,
  observed_enqueue_action, job_valid_rule, stop_without_source,
}

-- The mounted policy is never known to be the active one, so that enqueue always counts.
pub observed_enqueue_action-observe_policy :
    (answers : Answers)
    → observed_enqueue_action (observe_policy answers.configuration answers.configuration_err).0
      ≡ true
unfolding observed_enqueue_action observe_policy scheduler_policy
observed_enqueue_action-observe_policy answers = go answers.configuration_err
  where
    go :
        (e : Option Failure)
        → observed_enqueue_action (observe_policy answers.configuration e).0 ≡ true
    go none = ground arith
    go (some e) = ground arith

pub no_failure :
    (cs : List Check) (stage : String)
    → any (stops stage) cs ≡ false
    → known_stage_failure cs stage ≡ none
no_failure cs stage h = ground (arith, known_stage_failure-any cs stage)

pub failure_of :
    (cs : List Check) (stage : String)
    → any (stops stage) cs ≡ true
    → (c : Check) × (known_stage_failure cs stage ≡ some c)
failure_of cs stage h = elim (Option-cases (known_stage_failure cs stage)) [
  | inl e ↦ absurd (ground (arith, e, known_stage_failure-any cs stage))
  | inr found ↦ found
]

-- No check of the rules before it lets the jobValid rule stop.
pub job_valid_rule_same :
    (s : RuleState) → any (stops "jobValid") s.checks ≡ false → job_valid_rule s ≡ s
unfolding job_valid_rule
job_valid_rule_same s h = rw (no_failure s.checks "jobValid" h, job_valid_rule) refl

module _ (tolerates : Toleration → Taint → Bool) (answers : Answers) (request : Request) where
  pub run_on :
      (rule : Rule) (rules : List Rule) (s next : RuleState)
      → evaluate_rule tolerates answers request rule s ≡ ok next
      → next.stopped ≡ false
      → run_rules tolerates answers request (rule ∷ rules) s
        ≡ run_rules tolerates answers request rules next
  unfolding run_rules
  run_on rule rules s next e h =
      rw (e, run_rules)
        (ap
          (λ b. elim b [ true ↦ ok next | false ↦ run_rules tolerates answers request rules next ])
          h)

  pub run_stop :
      (rule : Rule) (rules : List Rule) (s next : RuleState)
      → evaluate_rule tolerates answers request rule s ≡ ok next
      → next.stopped ≡ true
      → run_rules tolerates answers request (rule ∷ rules) s ≡ ok next
  unfolding run_rules
  run_stop rule rules s next e h =
      rw (e, run_rules)
        (ap
          (λ b. elim b [ true ↦ ok next | false ↦ run_rules tolerates answers request rules next ])
          h)

  -- The loop ends in a state with these checks.
  abbrev pub EndsWith : List Check → Bool → Result RuleState → Type 0
  EndsWith checks without_source r =
      (s : RuleState) × (r ≡ ok s)
      × (s.checks ≡ checks)
      × (s.finish_without_source ≡ without_source)

  -- An analysis of a Pod that could not be read ends without an error, with the one check of the
  -- lookup, and without the sources.
  pub analyze-lookup :
      (e : Failure)
      → (request.namespace == "") || (request.pod == "") ≡ false
      → answers.pod ≡ err e
      → EndsWith (target_pod_lookup_check request e ∷ []) true (analyze tolerates answers request)
  unfolding analyze evaluate_rule
  analyze-lookup e named unread =
      let c = target_pod_lookup_check request e in
      let s = stop_without_source c (record new_rule_state { checks = c ∷ [] }) in
      let stop : validate_rule request answers new_rule_state ≡ s =
        unfold validate_rule in rw (unread, validate_rule) refl in
      rw named (
        s,
        run_stop validate (enqueue ∷ job_valid ∷ allocate ∷ []) new_rule_state s (ap ok stop) refl,
        refl,
        refl,
      )
