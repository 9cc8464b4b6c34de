-- ===== src/Presentation.antt =====
-- internal/agent/presentation.go: how the report shows each stage, and the diagnosis.
pub mod Checks
pub mod States
pub mod Hooks
pub mod Amounts
pub mod Activation
pub mod Predicates
pub mod Queue
pub mod Strategy
pub mod Capacity
pub mod Rows
pub mod DiagnosisTexts
pub mod NodeFailures
pub mod Diagnose
pub mod Evidence
pub mod EnqueueStage
pub mod JobValidStage
pub mod AllocateStage
pub mod Build
mod Tests
