-- ===== src/Snapshot/Resources.antt =====
-- internal/cluster/queue_snapshot.go, and the writes of proportion_snapshot.go on a snapshot: the six
-- sets of amounts that a snapshot keeps for each resource.
use volens.Base.{String, Option, none, some, [], ◌∷◌, if◌then◌else◌}
use volens.Base.Int.{ℤ, pos, ◌+ℤ◌, is_zero}
use volens.Base.Dict.{Dict, or_zero, insert, get_or}
use volens.Cluster.{Amounts}

pub record QueueSnapshotResource : Type 0 where
  pub capability : Option ℤ
  pub deserved : Option ℤ
  pub allocated : Option ℤ
  pub request : Option ℤ
  pub inqueue : Option ℤ
  pub elastic : Option ℤ

-- The names of the sets that the callers pass; the source panics on any other name.
pub data ResourceSet : Type 0 where
  capacity_set deserved_set allocated_set request_set inqueue_set elastic_set : ResourceSet

pub record QueueSnapshot : Type 0 where
  pub queue_name : String
  pub strategy : String
  pub source : String
  pub resources : Dict QueueSnapshotResource

abbrev pub queue_cache_dump_source : String
queue_cache_dump_source = "volcano-cache-dump"

abbrev pub new_queue_snapshot : String → QueueSnapshot
new_queue_snapshot queue_name = record {
  queue_name = queue_name;
  strategy = "";
  source = queue_cache_dump_source;
  resources = [];
}

-- The zero value of QueueSnapshotResource.
abbrev pub no_resource : QueueSnapshotResource
no_resource = record {
  capability = none;
  deserved = none;
  allocated = none;
  request = none;
  inqueue = none;
  elastic = none;
}

-- The pointer of a set.
abbrev pub get_set : ResourceSet → QueueSnapshotResource → Option ℤ
get_set capacity_set r = r.capability
get_set deserved_set r = r.deserved
get_set allocated_set r = r.allocated
get_set request_set r = r.request
get_set inqueue_set r = r.inqueue
get_set elastic_set r = r.elastic

abbrev pub put_set : ResourceSet → ℤ → QueueSnapshotResource → QueueSnapshotResource
put_set capacity_set v r = record r { capability = some v }
put_set deserved_set v r = record r { deserved = some v }
put_set allocated_set v r = record r { allocated = some v }
put_set request_set v r = record r { request = some v }
put_set inqueue_set v r = record r { inqueue = some v }
put_set elastic_set v r = record r { elastic = some v }

unfoldable pub set_resource_value :
    Dict QueueSnapshotResource → String → ResourceSet → ℤ → Dict QueueSnapshotResource
set_resource_value resources name set v =
    insert name (put_set set v (get_or no_resource name resources)) resources

unfoldable pub add_resource_value :
    Dict QueueSnapshotResource → String → ResourceSet → ℤ → Dict QueueSnapshotResource
unfolding set_resource_value
add_resource_value resources name set v =
    if is_zero v
    then resources
    else set_resource_value resources name set
        (or_zero (pos 0) (get_set set (get_or no_resource name resources)) +ℤ v)

-- `for name, value := range amounts { result.setResourceValue(name, set, value) }`
unfoldable pub set_all :
    Dict QueueSnapshotResource → ResourceSet → Amounts → Dict QueueSnapshotResource
set_all resources set [] = resources
set_all resources set ((name, v) ∷ amounts) =
    set_all (set_resource_value resources name set v) set amounts

-- `for name, value := range amounts { result.addResourceValue(name, set, value) }`
unfoldable pub add_all :
    Dict QueueSnapshotResource → ResourceSet → Amounts → Dict QueueSnapshotResource
unfolding add_resource_value
add_all resources set [] = resources
add_all resources set ((name, v) ∷ amounts) =
    add_all (add_resource_value resources name set v) set amounts
