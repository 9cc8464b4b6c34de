-- ===== src/Presentation/Build.antt =====
-- internal/agent/presentation.go and analyzer.go: the three stages of the report, put together and
-- kept in step with its nodes.
pub mod Stages
pub mod Finish
use volens.Base.{ℕ, if◌then◌else◌}
use volens.Model.Reports.{Report}
use volens.Report.Finalize.{finalize_report}
use volens.Presentation.Checks.{replace_check}
use volens.Presentation.States.{node_availability_check}
use volens.Presentation.Diagnose.{is_skipped_stage, diagnose_report}
use volens.Presentation.Evidence.{PresentationEvidence}
use volens.Presentation.EnqueueStage.{build_enqueue_presentation}
use volens.Presentation.JobValidStage.{build_job_valid_presentation}
use volens.Presentation.AllocateStage.{build_allocate_presentation}

-- The first two assignments of buildPresentation.
abbrev pub with_enqueue : ℕ → Report → PresentationEvidence → Report
with_enqueue now report evidence = record report {
  enqueue = build_enqueue_presentation now report evidence;
}

abbrev pub with_job_valid : ℕ → Report → PresentationEvidence → Report
with_job_valid now report evidence =
    let enqueued = with_enqueue now report evidence in
    record enqueued { job_valid = build_job_valid_presentation enqueued evidence }

unfoldable pub build_presentation : ℕ → Report → PresentationEvidence → Report
unfolding build_enqueue_presentation build_job_valid_presentation build_allocate_presentation
    diagnose_report
build_presentation now report evidence =
    let validated = with_job_valid now report evidence in
    let allocated = record validated {
      allocate = build_allocate_presentation validated evidence;
    } in
    record allocated { diagnosis = diagnose_report allocated }

-- The nodes are values here, so cloneNodeResults leaves them as they are.
unfoldable pub synchronize_presentation : Report → Report
unfolding replace_check node_availability_check
synchronize_presentation report =
    if is_skipped_stage report.allocate.state then report else record report {
      nodes = report.allocate.nodes;
      checks =
          replace_check report.checks "allocate.nodes"
            (node_availability_check report.allocate.nodes);
    }

unfoldable pub finish_report : ℕ → Report → PresentationEvidence → Report
unfolding build_presentation synchronize_presentation finalize_report diagnose_report
finish_report now report evidence =
    let presented = build_presentation now (finalize_report report) evidence in
    let finished = finalize_report (synchronize_presentation presented) in
    record finished { diagnosis = diagnose_report finished }
