-- ===== src/Presentation/Evidence.antt =====
-- internal/agent/presentation.go: what the rules leave for the presentation.
use volens.Base.{String, Bool, Option, List, [], ◌∷◌}
use volens.Kube.{Pod}
use volens.Cluster.{PodGroup, Queue}
use volens.Model.{Message, plain, Failure}
use volens.Model.Reports.{outcome_skipped, StageState}
use volens.Snapshot.Resources.{QueueSnapshot}

pub record PresentationEvidence : Type 0 where
  pub pod : Option Pod
  pub tasks : List Pod
  pub pod_group : PodGroup
  pub queue_name : String
  pub queue : Queue
  pub queue_err : Option Failure
  pub queue_snapshot : QueueSnapshot
  pub queue_snapshot_err : Option Failure
  pub queue_pod_groups : List PodGroup
  pub queue_pod_groups_err : Option Failure
  pub preflight_stopped : Bool
  pub enqueue_stopped : Bool
  pub job_valid_stopped : Bool
  pub allocate_stopped : Bool
  pub stop_reason : Message

-- `if reason == "" { reason = … }`
abbrev pub or_reason : Message → String → Message
or_reason [] reason = plain reason
or_reason (piece ∷ pieces) reason = piece ∷ pieces

abbrev pub skipped_state : String → Message → StageState
skipped_state conclusion reason = record {
  outcome = outcome_skipped;
  conclusion = plain conclusion;
  skip_reason = reason;
}
