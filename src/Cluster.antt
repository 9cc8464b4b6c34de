-- ===== src/Cluster.antt =====
-- internal/cluster: what the cluster client hands to the rules. An amount (`float64` there) is a
-- whole number of thousandths.
use volens.Base.{ℕ, String, Bool, Option, List, []}
use volens.Base.Int.{ℤ}
use volens.Base.Dict.{Dict}
use volens.Kube.{ResourceList}

abbrev pub Amounts : Type 0
Amounts = Dict ℤ

-- `Scheduler`, without the fields of the image and of the version.
pub record Scheduler : Type 0 where
  pub namespace : String
  pub name : String
  pub uid : String
  pub scheduler_names : List String
  pub default_queue : String
  pub configuration_determinate : Bool
  pub configuration_reason : String

-- `PodGroup`, as the rules and the presentation read it: `min_resources` is `none` where the source has the nil map.
pub record PodGroup : Type 0 where
  pub namespace : String
  pub name : String
  pub uid : String
  pub creation_timestamp : ℕ
  pub queue : String
  pub priority_class_name : String
  pub priority : Option ℤ
  pub min_member : ℤ
  pub min_task_member : Dict ℤ
  pub min_resources : Option ResourceList
  pub phase : String

pub record Queue : Type 0 where
  pub name : String
  pub state : String
  pub guarantee : ResourceList
  pub capability : ResourceList
  pub deserved : ResourceList

pub record CacheNode : Type 0 where
  pub name : String
  pub allocatable : Amounts
  pub idle : Amounts
  pub used : Amounts
  pub releasing : Amounts

pub record CacheTask : Type 0 where
  pub uid : String
  pub namespace : String
  pub name : String
  pub job : String
  pub status : String
  pub resreq : Amounts

pub record CacheJob : Type 0 where
  pub uid : String
  pub namespace : String
  pub name : String
  pub queue : String
  pub min_available : ℤ
  pub tasks : List CacheTask

-- `CacheDump`: `nodes` is `none` where the source has the nil map.
pub record CacheDump : Type 0 where
  pub scheduler : Scheduler
  pub nodes : Option (Dict CacheNode)
  pub jobs : Dict CacheJob

-- The zero value of CacheNode.
abbrev pub no_cache_node : CacheNode
no_cache_node = record { name = ""; allocatable = []; idle = []; used = []; releasing = [] }
