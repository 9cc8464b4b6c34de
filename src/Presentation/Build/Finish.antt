-- ===== src/Presentation/Build/Finish.antt =====
-- What holds of a finished report.
use volens.Base.{
  ℕ, ◌≡◌, refl, sym, ap, subst, ◌∙◌, ◌⊎◌, true, false, not, all, is_empty, ◌||◌, List, [], ◌∷◌,
  arith, Bool-cases, inl, inr, ==_refl,
}
use volens.Model.{NodeResult}
use volens.Model.Reports.{Report}
use volens.Report.Finalize.{finalize_report}
use volens.Presentation.Checks.Replace.{with_id, replace_check_lem}
use volens.Presentation.States.{node_availability_check}
use volens.Presentation.Evidence.{PresentationEvidence}
use volens.Presentation.AllocateStage.{allocate_is_skipped}
use volens.Presentation.Diagnose.{is_skipped_stage}
use volens.Presentation.Build.{
  with_enqueue, with_job_valid, build_presentation, synchronize_presentation, finish_report,
}
use volens.Presentation.Build.Stages.{
  enqueue_skipped, job_valid_skipped, allocate_skipped, enqueue_outcome, enqueue_outcome_lem,
  enqueue_skipped_checks, allocate_nodes,
}
use volens.Presentation.States.Verdicts.{is_skipped}

-- The stages of a report agree with each other and with what is shown in them.
pub record IsCoherent (r : Report) : Type 0 where
  pub outcome :
      (is_skipped_stage r.enqueue.state ≡ true)
      ⊎ (r.enqueue.state.outcome ≡ enqueue_outcome r.enqueue.checks)
  pub skipped_checks :
      not (is_skipped_stage r.enqueue.state) || all is_skipped r.enqueue.checks ≡ true
  pub job_valid_follows :
      not (is_skipped_stage r.enqueue.state) || is_skipped_stage r.job_valid.state ≡ true
  pub allocate_follows :
      not (is_skipped_stage r.job_valid.state) || is_skipped_stage r.allocate.state ≡ true
  pub skipped_nodes : not (is_skipped_stage r.allocate.state) || is_empty r.allocate.nodes ≡ true

node_availability_check-id :
    (nodes : List NodeResult) → (node_availability_check nodes).id ≡ "allocate.nodes"
unfolding node_availability_check
node_availability_check-id nodes = ground arith

-- What is presented of a report.
module _ (now : ℕ) (report : Report) (evidence : PresentationEvidence) where
  abbrev presented : Report
  presented = build_presentation now report evidence

  presented_enqueue : is_skipped_stage presented.enqueue.state ≡ evidence.preflight_stopped
  unfolding build_presentation
  presented_enqueue = enqueue_skipped now report evidence

  presented_job_valid :
      is_skipped_stage presented.job_valid.state
      ≡ evidence.preflight_stopped || evidence.enqueue_stopped || evidence.job_valid_stopped
  unfolding build_presentation
  presented_job_valid = job_valid_skipped now (with_enqueue now report evidence) evidence

  presented_allocate : is_skipped_stage presented.allocate.state ≡ allocate_is_skipped evidence
  unfolding build_presentation
  presented_allocate = allocate_skipped now (with_job_valid now report evidence) evidence

  presented_outcome :
      is_skipped_stage presented.enqueue.state ≡ false
      → presented.enqueue.state.outcome ≡ enqueue_outcome presented.enqueue.checks
  unfolding build_presentation
  presented_outcome = enqueue_outcome_lem now report evidence

  presented_checks :
      not (is_skipped_stage presented.enqueue.state) || all is_skipped presented.enqueue.checks
      ≡ true
  unfolding build_presentation
  presented_checks = enqueue_skipped_checks now report evidence

  presented_nodes :
      not (is_skipped_stage presented.allocate.state) || is_empty presented.allocate.nodes ≡ true
  unfolding build_presentation
  presented_nodes = allocate_nodes now (with_job_valid now report evidence) evidence

-- Synchronizing keeps the stages, and puts their nodes and the check on them into the report.
abbrev IsSynchronized : Report → Type 0
IsSynchronized report =
    is_skipped_stage report.allocate.state ≡ false
    → (report.nodes ≡ report.allocate.nodes)
      × (with_id "allocate.nodes" report.checks ≡ node_availability_check report.nodes ∷ [])

synchronize_presentation-stages :
    (report : Report)
    → ((synchronize_presentation report).enqueue ≡ report.enqueue)
      × ((synchronize_presentation report).job_valid ≡ report.job_valid)
      × ((synchronize_presentation report).allocate ≡ report.allocate)
unfolding synchronize_presentation
synchronize_presentation-stages report = ground arith

synchronize_presentation-IsSynchronized :
    (report : Report) → IsSynchronized (synchronize_presentation report)
unfolding synchronize_presentation
synchronize_presentation-IsSynchronized report =
    elim (Bool-cases (is_skipped_stage report.allocate.state)) [
      | inl skips ↦ ground arith
      | inr runs ↦ λ _. ground (
        arith,
        replace_check_lem report.checks "allocate.nodes"
            (node_availability_check report.allocate.nodes),
        node_availability_check-id report.allocate.nodes,
        ==_refl "allocate.nodes",
      )
    ]

finalize_report-stages :
    (report : Report)
    → ((finalize_report report).enqueue ≡ report.enqueue)
      × ((finalize_report report).job_valid ≡ report.job_valid)
      × ((finalize_report report).allocate ≡ report.allocate)
      × ((finalize_report report).nodes ≡ report.nodes)
      × ((finalize_report report).checks ≡ report.checks)
unfolding finalize_report
finalize_report-stages report = (refl, refl, refl, refl, refl)

module _ (now : ℕ) (report : Report) (evidence : PresentationEvidence) where
  abbrev shown : Report
  shown = build_presentation now (finalize_report report) evidence

  abbrev synchronized : Report
  synchronized = synchronize_presentation shown

  abbrev finished : Report
  finished = finish_report now report evidence

  finished_stages :
      (finished.enqueue ≡ shown.enqueue)
      × (finished.job_valid ≡ shown.job_valid)
      × (finished.allocate ≡ shown.allocate)
      × (finished.nodes ≡ synchronized.nodes)
      × (finished.checks ≡ synchronized.checks)
  unfolding finish_report
  finished_stages =
      let (e, j, a, n, c) = finalize_report-stages synchronized in
      let (e', j', a') = synchronize_presentation-stages shown in (e ∙ e', j ∙ j', a ∙ a', n, c)

  finished_skipped :
      (is_skipped_stage finished.enqueue.state ≡ evidence.preflight_stopped)
      × (is_skipped_stage finished.job_valid.state
          ≡ evidence.preflight_stopped || evidence.enqueue_stopped || evidence.job_valid_stopped)
      × (is_skipped_stage finished.allocate.state ≡ allocate_is_skipped evidence)
  finished_skipped = (
    ap (λ e. is_skipped_stage e.state) finished_stages.0
        ∙ presented_enqueue now (finalize_report report) evidence,
    ap (λ j. is_skipped_stage j.state) finished_stages.1
        ∙ presented_job_valid now (finalize_report report) evidence,
    ap (λ a. is_skipped_stage a.state) finished_stages.2
        ∙ presented_allocate now (finalize_report report) evidence,
  )

  shown_outcome :
      (is_skipped_stage shown.enqueue.state ≡ true)
      ⊎ (shown.enqueue.state.outcome ≡ enqueue_outcome shown.enqueue.checks)
  shown_outcome = elim (Bool-cases (is_skipped_stage shown.enqueue.state)) [
    | inl skips ↦ inl skips
    | inr runs ↦ inr (presented_outcome now (finalize_report report) evidence runs)
  ]

  -- What a finished report shows of its stages agrees with what it shows in them. The enqueue stage
  -- is shown as skipped, and then each of its checks is, or its outcome is what its shown checks
  -- come to: a failure if one of them fails, else a pass if one proves the admission, else what they
  -- come to together. After a stage that is skipped, the next one is skipped; and a skipped allocate
  -- stage shows no node.
  pub finish_report-IsCoherent : IsCoherent (finish_report now report evidence)
  finish_report-IsCoherent =
      let (enqueue, job_valid, allocate) = finished_skipped in
      record {
        outcome =
            subst
              (λ e.
                (is_skipped_stage e.state ≡ true) ⊎ (e.state.outcome ≡ enqueue_outcome e.checks))
              (sym finished_stages.0) shown_outcome;
        skipped_checks =
            subst (λ e. not (is_skipped_stage e.state) || all is_skipped e.checks ≡ true)
              (sym finished_stages.0) (presented_checks now (finalize_report report) evidence);
        job_valid_follows = rw (enqueue, job_valid) (ground arith);
        allocate_follows = rw (job_valid, allocate) (ground arith);
        skipped_nodes =
            subst (λ a. not (is_skipped_stage a.state) || is_empty a.nodes ≡ true)
              (sym finished_stages.2) (presented_nodes now (finalize_report report) evidence);
      }

  -- Where the analysis reached the nodes, a finished report has the nodes of its allocate stage, and
  -- one check on the availability of nodes, which is about these nodes.
  pub finish_report-nodes :
      allocate_is_skipped evidence ≡ false
      → ((finish_report now report evidence).nodes
          ≡ (finish_report now report evidence).allocate.nodes)
        × (with_id "allocate.nodes" (finish_report now report evidence).checks
            ≡ node_availability_check (finish_report now report evidence).nodes ∷ [])
  finish_report-nodes runs =
      let synchronous = synchronize_presentation-IsSynchronized shown (
        ap (λ a. is_skipped_stage a.state) (synchronize_presentation-stages shown).2
        ∙ presented_allocate now (finalize_report report) evidence
        ∙ runs) in
      (
        finished_stages.3
            ∙ synchronous.0
            ∙ ap (λ a. a.nodes) ((synchronize_presentation-stages shown).2 ∙ sym finished_stages.2),
        ap (with_id "allocate.nodes") finished_stages.4
            ∙ synchronous.1
            ∙ ap (λ ns. node_availability_check ns ∷ []) (sym finished_stages.3),
      )
