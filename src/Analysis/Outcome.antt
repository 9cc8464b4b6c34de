-- ===== src/Analysis/Outcome.antt =====
-- Where an analysis stops, and what it then reports.
use volens.Base.{
  ◌≡◌, refl, sym, ◌∙◌, ap, Bool, true, false, ◌||◌, List, [], ◌∷◌, ◌++◌, ◌==◌, any, any-append,
  arith, Bool-cases, inl, inr, if◌then◌else◌,
}
use volens.Kube.{Toleration, Taint, Pod}
use volens.Model.{ok, Check}
use volens.Analysis.Stages.{
  stops, later_enqueue, later_job_valid, validate_checks-stops, enqueue_checks-stops,
}
use volens.Analysis.Steps.{
  observed_enqueue_action-observe_policy, no_failure, failure_of, job_valid_rule_same, run_on,
  run_stop, EndsWith,
}
use volens.Analysis.Run.{
  validate, enqueue, job_valid, allocate, analysis_rules, allocate_checks, allocate_rule,
  evaluate_rule, run_rules, new_rule_state, filter_result, analyze,
}
use volens.Analysis.{
  Request, Answers, RuleState, load, collect_pod_group, validate_checks, validate_rule,
  enqueue_checks, enqueue_rule, stop_without_source, stop_with_source,
}

module _ (tolerates : Toleration → Taint → Bool) (answers : Answers) (request : Request)
    (pod : Pod) where
  abbrev loaded : RuleState
  loaded = load answers pod new_rule_state

  abbrev pub preflight : List Check
  preflight = validate_checks answers pod

  abbrev pub admission : List Check
  admission = enqueue_checks answers loaded pod

  abbrev pub placement : List Check
  placement = allocate_checks tolerates answers loaded.policy pod

  abbrev admitted : RuleState
  admitted = record loaded { checks = loaded.checks ++ admission }

  validate_next :
      answers.pod ≡ ok pod
      → any (stops "preflight") preflight ≡ false
      → validate_rule request answers new_rule_state ≡ loaded
  unfolding validate_rule load validate_checks collect_pod_group
  validate_next e h = rw (e, no_failure preflight "preflight" h, validate_rule) refl

  enqueue_next : any (stops "enqueue") admission ≡ false → enqueue_rule answers loaded ≡ ok admitted
  unfolding enqueue_rule load
  enqueue_next h =
      let quiet : any (stops "enqueue") (preflight ++ admission) ≡ false =
        any-append (stops "enqueue") preflight admission
        ∙ ground (arith, h, validate_checks-stops later_enqueue answers pod) in
      rw
        (
          observed_enqueue_action-observe_policy answers,
          no_failure (preflight ++ admission) "enqueue" quiet,
          enqueue_rule,
        )
        refl

  admitted-stops : any (stops "jobValid") admitted.checks ≡ false
  unfolding load
  admitted-stops =
      any-append (stops "jobValid") preflight admission
      ∙ ground (
        arith,
        validate_checks-stops later_job_valid answers pod,
        enqueue_checks-stops answers loaded pod,
      )

  validate_stop :
      answers.pod ≡ ok pod
      → any (stops "preflight") preflight ≡ true
      → (c : Check) × (validate_rule request answers new_rule_state ≡ stop_without_source c loaded)
  unfolding validate_rule load validate_checks collect_pod_group
  validate_stop e h =
      let (c, found) = failure_of preflight "preflight" h in (c, rw (e, found, validate_rule) refl)

  enqueue_stop :
      any (stops "enqueue") admission ≡ true
      → (c : Check) × (enqueue_rule answers loaded
          ≡ ok (stop_with_source "enqueue 明确失败：" c admitted))
  unfolding enqueue_rule load
  enqueue_stop h =
      let loud : any (stops "enqueue") (preflight ++ admission) ≡ true =
        any-append (stops "enqueue") preflight admission ∙ ground (arith, h) in
      let (c, found) = failure_of (preflight ++ admission) "enqueue" loud in
      (c, rw (observed_enqueue_action-observe_policy answers, found, enqueue_rule) refl)

  abbrev placed : RuleState
  placed = record admitted {
    checks = admitted.checks ++ placement;
    nodes = (filter_result tolerates answers pod).nodes;
  }

  allocate_next : allocate_rule tolerates answers admitted ≡ ok placed
  unfolding allocate_rule load
  allocate_next = refl

  -- What the report has when all rules are done.
  abbrev pub reported : List Check
  reported =
      if any (stops "preflight") preflight
      then preflight
      else if any (stops "enqueue") admission
      then preflight ++ admission
      else preflight ++ admission ++ placement

  -- From the jobValid rule on, nothing stops the analysis.
  run_rest : run_rules tolerates answers request (job_valid ∷ allocate ∷ []) admitted ≡ ok placed
  unfolding evaluate_rule run_rules load
  run_rest =
      run_on tolerates answers request job_valid (allocate ∷ []) admitted admitted
        (ap ok (job_valid_rule_same admitted admitted-stops)) refl
      ∙ run_on tolerates answers request allocate [] admitted placed allocate_next refl

  run_admission :
      any (stops "preflight") preflight ≡ false
      → EndsWith tolerates answers request reported false
          (run_rules tolerates answers request (enqueue ∷ job_valid ∷ allocate ∷ []) loaded)
  unfolding evaluate_rule load
  run_admission f = elim (Bool-cases (any (stops "enqueue") admission)) [
    | inl t ↦
        let (c, stop) = enqueue_stop t in
        (
          stop_with_source "enqueue 明确失败：" c admitted,
          run_stop tolerates answers request enqueue (job_valid ∷ allocate ∷ []) loaded
              (stop_with_source "enqueue 明确失败：" c admitted) stop refl,
          rw (f, t) refl,
          refl,
        )
    | inr quiet ↦ (
      placed,
      run_on tolerates answers request enqueue (job_valid ∷ allocate ∷ []) loaded admitted
            (enqueue_next quiet) refl
          ∙ run_rest,
      rw (f, quiet) refl,
      refl,
    )
  ]

  run_rules-EndsWith :
      answers.pod ≡ ok pod
      → EndsWith tolerates answers request reported
          (any (stops "preflight") preflight)
          (run_rules tolerates answers request analysis_rules new_rule_state)
  unfolding evaluate_rule load
  run_rules-EndsWith e = elim (Bool-cases (any (stops "preflight") preflight)) [
    | inl t ↦
        let (c, stop) = validate_stop e t in
        (
          stop_without_source c loaded,
          run_stop tolerates answers request validate (enqueue ∷ job_valid ∷ allocate ∷ [])
              new_rule_state (stop_without_source c loaded) (ap ok stop) refl,
          rw t refl,
          sym t,
        )
    | inr f ↦
        let (s, ended, checks, source) = run_admission f in
        (
          s,
          run_on tolerates answers request validate (enqueue ∷ job_valid ∷ allocate ∷ [])
                new_rule_state loaded (ap ok (validate_next e f)) refl
              ∙ ended,
          checks,
          source ∙ sym f,
        )
  ]

  -- An analysis of a Pod that was read ends without an error. Its report has the preflight checks;
  -- where none of these stops it, also those of the enqueue stage; and where none of these stops it
  -- either, those of the nodes: the jobValid rule never stops an analysis. It finishes without the
  -- sources exactly when it stops at the preflight.
  pub analyze-EndsWith :
      (request.namespace == "") || (request.pod == "") ≡ false
      → answers.pod ≡ ok pod
      → EndsWith tolerates answers request reported
          (any (stops "preflight") preflight)
          (analyze tolerates answers request)
  unfolding analyze
  analyze-EndsWith named e = rw named (run_rules-EndsWith e)
