-- ===== src/Presentation/Build/Stages.antt =====
-- Which stages of a report are skipped.
use volens.Base.{
  ℕ, ◌≡◌, ◌∙◌, refl, String, Bool, true, false, not, ◌||◌, List, [], ◌∷◌, arith, map, any, all,
  is_empty, Bool-cases, inl, inr, if◌then◌else◌,
}
use volens.Model.{Message, Check}
use volens.Model.Reports.{Report, Outcome, outcome_fail, outcome_pass}
use volens.Presentation.States.{state_from_checks, enqueue_state, proves_enqueue}
use volens.Presentation.Checks.{checks_for_stage, skipped_checks}
use volens.Presentation.States.Verdicts.{
  stage_verdict, settled, is_skipped, stage_verdict-tests, settled-tests, state_from_checks-tests,
}
use volens.Presentation.Evidence.{PresentationEvidence, or_reason}
use volens.Presentation.EnqueueStage.{build_enqueue_presentation, enqueue_presented_checks}
use volens.Presentation.JobValidStage.{build_job_valid_presentation, job_valid_checks}
use volens.Presentation.AllocateStage.{
  build_allocate_presentation, allocate_is_skipped, allocate_checks, presented_node,
}
use volens.Presentation.Diagnose.{is_skipped_stage}

-- A stage that ran is never shown as skipped.
pub state_from_checks-not_skipped :
    (checks : List Check) → is_skipped_stage (state_from_checks checks) ≡ false
state_from_checks-not_skipped checks = ground (arith, state_from_checks-tests checks)

enqueue_state-not_skipped : (checks : List Check) → is_skipped_stage (enqueue_state checks) ≡ false
unfolding enqueue_state
enqueue_state-not_skipped checks = ground (arith, state_from_checks-not_skipped checks)

abbrev is_fail : Outcome → Bool
is_fail outcome_fail = true
is_fail other = false

-- What checks of the enqueue stage come to: their meet, which a proof that the PodGroup was enqueued
-- turns into a pass, unless a check fails.
abbrev pub enqueue_outcome : List Check → Outcome
enqueue_outcome checks =
    if is_fail (stage_verdict checks)
    then outcome_fail
    else if any proves_enqueue checks
    then outcome_pass
    else settled (stage_verdict checks)

enqueue_state-outcome :
    (checks : List Check) → (enqueue_state checks).outcome ≡ enqueue_outcome checks
unfolding enqueue_state
enqueue_state-outcome checks =
    ground (arith, state_from_checks-tests checks, settled-tests checks, stage_verdict-tests checks)

all-skipped_checks :
    (checks : List Check) (stage : String) (reason : Message)
    → all is_skipped (skipped_checks checks stage reason) ≡ true
unfolding skipped_checks
all-skipped_checks [] stage reason = refl
all-skipped_checks (check ∷ checks) stage reason = all-skipped_checks checks stage reason

module _ (now : ℕ) (report : Report) (evidence : PresentationEvidence) where
  pub enqueue_skipped :
      is_skipped_stage (build_enqueue_presentation now report evidence).state
      ≡ evidence.preflight_stopped
  unfolding build_enqueue_presentation
  enqueue_skipped =
      ground (arith, enqueue_state-not_skipped (enqueue_presented_checks report evidence))

  pub job_valid_skipped :
      is_skipped_stage (build_job_valid_presentation report evidence).state
      ≡ evidence.preflight_stopped || evidence.enqueue_stopped || evidence.job_valid_stopped
  unfolding build_job_valid_presentation
  job_valid_skipped = ground (arith, state_from_checks-not_skipped (job_valid_checks report))

  pub allocate_skipped :
      is_skipped_stage (build_allocate_presentation report evidence).state
      ≡ allocate_is_skipped evidence
  unfolding build_allocate_presentation
  allocate_skipped = ground (
    arith,
    state_from_checks-not_skipped
        (allocate_checks report (map (presented_node report) report.nodes)),
  )

  pub enqueue_outcome_lem :
      is_skipped_stage (build_enqueue_presentation now report evidence).state ≡ false
      → (build_enqueue_presentation now report evidence).state.outcome
        ≡ enqueue_outcome (build_enqueue_presentation now report evidence).checks
  unfolding build_enqueue_presentation
  enqueue_outcome_lem runs = elim (Bool-cases evidence.preflight_stopped) [
    | inl stop ↦ absurd (cc (enqueue_skipped, stop, runs))
    | inr on ↦
        rw (on, build_enqueue_presentation)
          (enqueue_state-outcome (enqueue_presented_checks report evidence))
  ]

  pub enqueue_skipped_checks :
      not (is_skipped_stage (build_enqueue_presentation now report evidence).state)
        || all is_skipped (build_enqueue_presentation now report evidence).checks
      ≡ true
  unfolding build_enqueue_presentation
  enqueue_skipped_checks = elim (Bool-cases evidence.preflight_stopped) [
    | inl stop ↦
        rw (stop, build_enqueue_presentation)
          (all-skipped_checks (checks_for_stage report.checks "enqueue") "enqueue" (
            or_reason evidence.stop_reason
              "preflight did not pass, so Volcano does not reach enqueue"))
    | inr on ↦ let runs = enqueue_skipped ∙ on in ground arith
  ]

  pub allocate_nodes :
      not (is_skipped_stage (build_allocate_presentation report evidence).state)
        || is_empty (build_allocate_presentation report evidence).nodes
      ≡ true
  unfolding build_allocate_presentation
  allocate_nodes = elim (Bool-cases (allocate_is_skipped evidence)) [
    | inl stop ↦ rw (stop, build_allocate_presentation) refl
    | inr on ↦ let runs = allocate_skipped ∙ on in ground arith
  ]
