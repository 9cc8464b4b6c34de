-- ===== src/Presentation/Queue.antt =====
-- internal/agent/presentation.go: the resources of the queue, with the candidate of the PodGroup.
use Prim.Native.String.{◌++◌ as ◌<>◌}
use volens.Base.{String, Option, none, some, List, [], ◌∷◌, is_some, if◌then◌else◌}
use volens.Base.Int.{ℤ, pos, ◌+ℤ◌, ◌-ℤ◌}
use volens.Base.Dict.{Dict, keys, insert, get_or}
use volens.Base.Sort.{sort_by}
use volens.Base.Chars.{starts_with, lower_text}
use volens.Cluster.{Amounts, PodGroup}
use volens.Model.{QueueResourceValue}
use volens.Snapshot.Resources.{QueueSnapshot, QueueSnapshotResource, no_resource}
use volens.Presentation.Amounts.{canonical_resource_name, resource_list_values}

-- The zero value of QueueResourceValue.
abbrev pub no_value : QueueResourceValue
no_value = record {
  capability = none;
  deserved = none;
  allocated = none;
  request = none;
  inqueue = none;
  elastic = none;
  candidate = none;
  available = none;
  required = none;
}

-- The pointer that is set last wins.
abbrev pub or_else : Option ℤ → Option ℤ → Option ℤ
or_else (some v) old = some v
or_else none old = old

unfoldable pub merge_queue_resource_value :
    QueueResourceValue → QueueSnapshotResource → QueueResourceValue
merge_queue_resource_value destination source = record destination {
  capability = or_else source.capability destination.capability;
  deserved = or_else source.deserved destination.deserved;
  allocated = or_else source.allocated destination.allocated;
  request = or_else source.request destination.request;
  inqueue = or_else source.inqueue destination.inqueue;
  elastic = or_else source.elastic destination.elastic;
}

-- With a capability, the usage that is missing counts as zero.
unfoldable pub with_zeros : QueueSnapshotResource → QueueSnapshotResource
with_zeros r =
    if is_some r.capability
    then record r {
      allocated = or_else r.allocated (some (pos 0));
      inqueue = or_else r.inqueue (some (pos 0));
      elastic = or_else r.elastic (some (pos 0));
      request = or_else r.request (some (pos 0));
    }
    else r

-- The order of the names: those of requests after the others, and each part by name.
abbrev pub request_rank : String → String
request_rank name = (if starts_with (lower_text name) "requests." then "1" else "0") <> name

unfoldable pub snapshot_loop :
    Dict QueueResourceValue → List String → Dict QueueSnapshotResource → Dict QueueResourceValue
unfolding merge_queue_resource_value with_zeros canonical_resource_name
snapshot_loop result [] resources = result
snapshot_loop result (original ∷ names) resources =
    let name = canonical_resource_name original in
    let merged =
      merge_queue_resource_value (get_or no_value name result)
        (with_zeros (get_or no_resource original resources)) in
    snapshot_loop (insert name merged result) names resources

-- `value.Elastic != nil` adds to what is available and takes from what is required.
abbrev pub elastic_of : QueueResourceValue → ℤ
elastic_of v = elim v.elastic [ none ↦ pos 0 | some e ↦ e ]

-- The formula, once the three amounts that it needs are there.
abbrev pub quota_formula : ℤ → QueueResourceValue → ℤ → ℤ → ℤ → QueueResourceValue
quota_formula candidate v capability allocated inqueue = record v {
  available = some (capability -ℤ allocated -ℤ inqueue +ℤ elastic_of v);
  required = some (candidate +ℤ allocated +ℤ inqueue -ℤ elastic_of v);
}

unfoldable pub candidate_value : ℤ → QueueResourceValue → QueueResourceValue
candidate_value candidate v =
    let with_candidate = record v { candidate = some candidate } in
    elim v.capability [
      | none ↦ with_candidate
      | some capability ↦ elim v.allocated [
        | none ↦ with_candidate
        | some allocated ↦ elim v.inqueue [
          | none ↦ with_candidate
          | some inqueue ↦ quota_formula candidate with_candidate capability allocated inqueue
        ]
      ]
    ]

unfoldable pub candidate_loop : Dict QueueResourceValue → Amounts → Dict QueueResourceValue
unfolding candidate_value
candidate_loop result [] = result
candidate_loop result ((name, candidate) ∷ rest) =
    candidate_loop (insert name (candidate_value candidate (get_or no_value name result)) result)
      rest

unfoldable pub queue_resource_values : QueueSnapshot → PodGroup → Dict QueueResourceValue
unfolding snapshot_loop candidate_loop resource_list_values
queue_resource_values snapshot group =
    let names = sort_by request_rank (keys snapshot.resources) in
    let result = snapshot_loop [] names snapshot.resources in
    elim group.min_resources [
      | none ↦ result
      | some resources ↦ candidate_loop result (resource_list_values resources)
    ]
