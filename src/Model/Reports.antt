-- ===== src/Model/Reports.antt =====
-- internal/agent/model/types.go: the report of an analysis and its parts.
use volens.Base.{ℕ, String, Bool, false, Option, List, []}
use volens.Base.Int.{ℤ}
use volens.Base.Dict.{Dict}
use volens.Cluster.{Amounts}
use volens.Model.{Message, Check, NodeResult, SchedulerPolicy, QueueResourceValue}

-- `Outcome`: `no_outcome` is the zero value "".
pub data Outcome : Type 0 where
  outcome_pass outcome_fail outcome_unknown outcome_skipped no_outcome : Outcome

pub record StageState : Type 0 where
  pub outcome : Outcome
  pub conclusion : Message
  pub skip_reason : Message

pub record QueueSummary : Type 0 where
  pub name : String
  pub state : String
  pub strategy : String
  pub formula : String
  pub formula_note : String
  pub runtime_source : String
  pub runtime_determinate : Bool
  pub runtime_reason : Message
  pub resources : Dict QueueResourceValue

-- `created_at` is the time itself, `none` where the source leaves the text empty.
pub record PodGroupSummary : Type 0 where
  pub namespace : String
  pub name : String
  pub target : Bool
  pub phase : String
  pub priority_class_name : String
  pub priority : Option ℤ
  pub created_at : Option ℕ
  pub age_seconds : ℕ
  pub min_member : ℤ
  pub resources : Amounts

pub record EnqueueReport : Type 0 where
  pub state : StageState
  pub queue : QueueSummary
  pub checks : List Check
  pub pod_groups : List PodGroupSummary

pub record WorkloadRow : Type 0 where
  pub namespace : String
  pub pod : String
  pub containers : List String
  pub resources : Amounts
  pub checks : List Check

pub record JobValidReport : Type 0 where
  pub state : StageState
  pub rows : List WorkloadRow

pub record AllocateReport : Type 0 where
  pub state : StageState
  pub nodes : List NodeResult

pub record Diagnosis : Type 0 where
  pub root_cause : Message
  pub suggestions : List Message

pub record PluginHookReport : Type 0 where
  pub action : String
  pub phase : ℕ
  pub tier : ℕ
  pub order : ℕ
  pub plugin : String
  pub hook : String
  pub enabled : Bool
  pub enabled_determinate : Bool
  pub passed : Bool
  pub determinate : Bool
  pub reason : Message
  pub source : List String

pub record ActionReport : Type 0 where
  pub name : String
  pub order : ℤ
  pub configured : Bool
  pub checks : List Check
  pub plugins : List PluginHookReport
  pub nodes : List NodeResult

-- `Report`, without the request, the scheduler and what the language model adds.
pub record Report : Type 0 where
  pub policy : SchedulerPolicy
  pub checks : List Check
  pub nodes : List NodeResult
  pub actions : List ActionReport
  pub passed : Bool
  pub conclusion : Message
  pub diagnosis : Diagnosis
  pub enqueue : EnqueueReport
  pub job_valid : JobValidReport
  pub allocate : AllocateReport
  pub plugin_hooks : List PluginHookReport
  pub hooks_inspected : Bool
  pub predicate_defaults : Dict Bool
  pub predicate_defaults_err : String

-- The zero values.
abbrev pub no_policy : SchedulerPolicy
no_policy = record {
  determinate = false;
  active_determinate = false;
  reason = "";
  scheduler_namespace = "";
  scheduler_pod = "";
  scheduler_uid = "";
  scheduler_conf_path = "";
  config_map_namespace = "";
  config_map_name = "";
  config_map_key = "";
  config_map_uid = "";
  config_map_resource_version = "";
  actions = [];
  tiers = [];
}

abbrev pub no_state : StageState
no_state = record { outcome = no_outcome; conclusion = []; skip_reason = [] }

abbrev pub no_queue_summary : QueueSummary
no_queue_summary = record {
  name = "";
  state = "";
  strategy = "";
  formula = "";
  formula_note = "";
  runtime_source = "";
  runtime_determinate = false;
  runtime_reason = [];
  resources = [];
}

abbrev pub no_diagnosis : Diagnosis
no_diagnosis = record { root_cause = []; suggestions = [] }

abbrev pub no_report : Report
no_report = record {
  policy = no_policy;
  checks = [];
  nodes = [];
  actions = [];
  passed = false;
  conclusion = [];
  diagnosis = no_diagnosis;
  enqueue = record { state = no_state; queue = no_queue_summary; checks = []; pod_groups = [] };
  job_valid = record { state = no_state; rows = [] };
  allocate = record { state = no_state; nodes = [] };
  plugin_hooks = [];
  hooks_inspected = false;
  predicate_defaults = [];
  predicate_defaults_err = "";
}
