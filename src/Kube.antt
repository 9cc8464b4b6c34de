-- ===== src/Kube.antt =====
-- The Kubernetes objects that the program reads (k8s.io/api), as records of the fields that it
-- reads. A pointer is an `Option`; a time is the count of nanoseconds since the zero `time.Time`.
use volens.Base.{ℕ, String, Bool, Option, List}
use volens.Base.Int.{ℤ}
use volens.Base.Dict.{Dict}

-- `resource.Quantity`, by the answers of its methods MilliValue, Value and IsZero.
pub record Quantity : Type 0 where
  pub milli_value : ℤ
  pub value : ℤ
  pub is_zero : Bool

abbrev pub ResourceList : Type 0
ResourceList = Dict Quantity

pub record ContainerPort : Type 0 where
  pub host_port : ℤ

pub record Container : Type 0 where
  pub name : String
  pub requests : ResourceList
  pub restart_policy : Option String
  pub ports : List ContainerPort

pub record Toleration : Type 0 where
  pub key : String
  pub operator : String
  pub value : String
  pub effect : String

pub record Taint : Type 0 where
  pub key : String
  pub value : String
  pub effect : String

pub record NodeSelectorRequirement : Type 0 where
  pub key : String
  pub operator : String
  pub values : List String

pub record NodeSelectorTerm : Type 0 where
  pub match_expressions : List NodeSelectorRequirement
  pub match_fields : List NodeSelectorRequirement

pub record NodeAffinity : Type 0 where
  pub required : Option (List NodeSelectorTerm)

pub record PodAffinityTerm : Type 0 where
  pub topology_key : String

-- Of PodAffinity and PodAntiAffinity the program reads the required terms.
pub record PodAffinity : Type 0 where
  pub required : List PodAffinityTerm

pub record Affinity : Type 0 where
  pub node_affinity : Option NodeAffinity
  pub pod_affinity : Option PodAffinity
  pub pod_anti_affinity : Option PodAffinity

-- Which sources of a volume are set.
pub record Volume : Type 0 where
  pub persistent_volume_claim : Bool
  pub csi : Bool
  pub ephemeral : Bool

pub record TopologySpreadConstraint : Type 0 where
  pub topology_key : String
  pub when_unsatisfiable : String

pub record PodSpec : Type 0 where
  pub scheduler_name : String
  pub node_name : String
  pub node_selector : Dict String
  pub scheduling_gates : List String
  pub containers : List Container
  pub init_containers : List Container
  pub overhead : ResourceList
  pub tolerations : List Toleration
  pub affinity : Option Affinity
  pub volumes : List Volume
  pub topology_spread_constraints : List TopologySpreadConstraint

pub record Pod : Type 0 where
  pub namespace : String
  pub name : String
  pub labels : Dict String
  pub annotations : Dict String
  pub deletion_timestamp : Option ℕ
  pub phase : String
  pub spec : PodSpec

pub record NodeCondition : Type 0 where
  pub type : String
  pub status : String

pub record Node : Type 0 where
  pub name : String
  pub labels : Dict String
  pub unschedulable : Bool
  pub taints : List Taint
  pub conditions : List NodeCondition
  pub allocatable : ResourceList

pub record Event : Type 0 where
  pub reason : String
  pub message : String
  pub involved_kind : String
  pub source_component : String
  pub reporting_controller : String
  pub event_time : ℕ
  pub series_last_observed : Option ℕ
  pub last_timestamp : ℕ
  pub first_timestamp : ℕ
  pub creation_timestamp : ℕ
