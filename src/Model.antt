-- ===== src/Model.antt =====
-- internal/agent/model: checks and the reports that hold them.
pub mod Checks
pub mod Reports
use volens.Base.{ℕ, String, Bool, Option, List, [], ◌∷◌}
use volens.Base.Int.{ℤ}
use volens.Base.Dict.{Dict}
use volens.Kube.{Event, TopologySpreadConstraint}
use volens.Cluster.{Amounts, PodGroup, Queue, CacheNode}

-- A text that the source formats with `fmt` is kept as its pieces in order, and not rendered.
pub data Piece : Type 0 where
  text quoted : String → Piece
  number amount : ℤ → Piece
  flag : Bool → Piece
  amounts : Amounts → Piece
  strings : List String → Piece
  labels : Dict String → Piece
  points : List ℕ → Piece

abbrev pub Message : Type 0
Message = List Piece

abbrev pub plain : String → Message
plain s = text s ∷ []

-- An `error`, by its text and by the answers that the program asks of it: `apierrors.IsNotFound`,
-- and `errors.Is` at cluster.ErrVolcanoSchedulerNotReady.
pub record Failure : Type 0 where
  pub message : Message
  pub is_not_found : Bool
  pub is_not_ready : Bool

abbrev pub failure : Message → Failure
failure m = record { message = m; is_not_found = Bool.false; is_not_ready = Bool.false }

-- `fmt.Errorf("prefix: %w", err)`: a wrapped error answers as the error inside.
abbrev pub wrap : String → Failure → Failure
wrap prefix e = record e { message = text prefix ∷ e.message }

-- `(value, nil)`, or an error beside the zero value.
pub data Result {ℓ} (A : Type ℓ) : Type ℓ where
  ok : A → Result A
  err : Failure → Result A

abbrev pub is_ok {ℓ} : {A : Type ℓ} → Result A → Bool
is_ok (ok a) = Bool.true
is_ok (err e) = Bool.false

-- A plugin of the scheduler's configuration, by its place and by what its options say.
pub record ConfiguredPlugin : Type 0 where
  pub name : String
  pub tier : ℕ
  pub order : ℕ
  pub argument_keys : List String
  pub option_keys : List String
  pub explicit_arguments : Dict Bool
  pub explicit_options : Dict Bool

pub record PluginTier : Type 0 where
  pub order : ℕ
  pub plugins : List ConfiguredPlugin

pub record QueueResourceValue : Type 0 where
  pub capability : Option ℤ
  pub deserved : Option ℤ
  pub allocated : Option ℤ
  pub request : Option ℤ
  pub inqueue : Option ℤ
  pub elastic : Option ℤ
  pub candidate : Option ℤ
  pub available : Option ℤ
  pub required : Option ℤ

pub record SchedulerPolicy : Type 0 where
  pub determinate : Bool
  pub active_determinate : Bool
  pub reason : String
  pub scheduler_namespace : String
  pub scheduler_pod : String
  pub scheduler_uid : String
  pub scheduler_conf_path : String
  pub config_map_namespace : String
  pub config_map_name : String
  pub config_map_key : String
  pub config_map_uid : String
  pub config_map_resource_version : String
  pub actions : List String
  pub tiers : List PluginTier

-- The `any` of a check's Evidence.
mutual
  pub data Evidence : Type 0 where
    nil : Evidence
    of_amounts : Amounts → Evidence
    of_node : CacheNode → Evidence
    of_nodes : Option (Dict CacheNode) → Evidence
    of_names : List String → Evidence
    of_number : ℤ → Evidence
    of_flag : Bool → Evidence
    of_counts : Dict ℤ → Evidence
    of_queue : Queue → Evidence
    of_pod_group : PodGroup → Evidence
    of_event : Event → Evidence
    of_policy : SchedulerPolicy → Evidence
    of_text : String → Evidence
    of_queue_resources : Dict QueueResourceValue → Evidence
    of_constraint : TopologySpreadConstraint → Evidence
    object : Fields → Evidence

  pub data Fields : Type 0 where
    end : Fields
    field : String → Evidence → Fields → Fields

pub record Check : Type 0 where
  pub id : String
  pub stage : String
  pub name : String
  pub passed : Bool
  pub determinate : Bool
  pub skipped : Bool
  pub reason : Message
  pub evidence : Evidence
  pub source : List String

pub record ResourcePair : Type 0 where
  pub free : Option ℤ
  pub total : Option ℤ
  pub used : Option ℤ
  pub releasing : Option ℤ
  pub insufficient : Bool

pub record NodeResult : Type 0 where
  pub name : String
  pub passed : Bool
  pub determinate : Bool
  pub resources : Dict ResourcePair
  pub checks : List Check
