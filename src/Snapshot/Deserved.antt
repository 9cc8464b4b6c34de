-- ===== src/Snapshot/Deserved.antt =====
-- What a queue deserves under the capacity plugin.
use volens.Base.{
  String, ◌≡◌, ◌⊎◌, refl, ◌∙◌, ap, false, Option, none, some, List, [], ◌∷◌, ◌==◌, arith,
  Bool-cases, inl, inr, if◌then◌else◌,
}
use volens.Base.Int.{ℤ, ◌≤ℤ◌, max_ℤ}
use volens.Base.Dict.{Dict, lookup, lookup-cons, lookup-nil, NodupKeys}
use volens.Cluster.{Amounts, Queue}
use volens.Snapshot.Quota.{resource_list_values, amount_of}
use volens.Snapshot.Sets.{same_set, pointer, pointer-set_resource_value}
use volens.Snapshot.Build.{deserved_value, deserved_loop, populate_capacity_deserved}
use volens.Snapshot.Resources.{
  QueueSnapshotResource, ResourceSet, deserved_set, QueueSnapshot, set_resource_value,
}

pointer-deserved_loop :
    (s : ResourceSet) (n : String) (deserved guarantee : Amounts)
    (resources entries : Dict QueueSnapshotResource)
    → same_set s deserved_set ≡ false
    → pointer s n (deserved_loop deserved guarantee resources entries) ≡ pointer s n resources
unfolding deserved_loop
pointer-deserved_loop s n deserved guarantee resources [] h = refl
pointer-deserved_loop s n deserved guarantee resources ((name, r) ∷ entries) h =
    let v = deserved_value deserved guarantee name r in
    ground (
      arith,
      pointer-deserved_loop s n deserved guarantee
          (set_resource_value resources name deserved_set v) entries h,
      pointer-set_resource_value s deserved_set n name v resources,
    )

pub pointer-populate_capacity_deserved :
    (s : ResourceSet) (n : String) (snapshot : QueueSnapshot) (queues : List Queue)
    (queue_name : String)
    → same_set s deserved_set ≡ false
    → pointer s n (populate_capacity_deserved snapshot queues queue_name).resources
      ≡ pointer s n snapshot.resources
unfolding populate_capacity_deserved
pointer-populate_capacity_deserved s n snapshot [] queue_name h = refl
pointer-populate_capacity_deserved s n snapshot (queue ∷ queues) queue_name h =
    elim (Bool-cases (queue.name == queue_name)) [
      | inl e ↦ rw e (
          pointer-deserved_loop s n (resource_list_values queue.deserved)
            (resource_list_values queue.guarantee) snapshot.resources snapshot.resources h)
      | inr e ↦ rw e (pointer-populate_capacity_deserved s n snapshot queues queue_name h)
    ]

deserved_loop-deserved :
    (n : String) (deserved guarantee : Amounts) (resources entries : Dict QueueSnapshotResource)
    (r : QueueSnapshotResource)
    → NodupKeys entries
    → (lookup n entries ≡ some r)
      ⊎ ((lookup n entries ≡ none)
          × (pointer deserved_set n resources ≡ some (deserved_value deserved guarantee n r)))
    → pointer deserved_set n (deserved_loop deserved guarantee resources entries)
      ≡ some (deserved_value deserved guarantee n r)
unfolding deserved_loop
deserved_loop-deserved n deserved guarantee resources [] r h k =
    ground (arith, lookup-nil {V = QueueSnapshotResource} n)
deserved_loop-deserved n deserved guarantee resources ((name, x) ∷ entries) r (fresh, h) k =
    let v = deserved_value deserved guarantee name x in
    deserved_loop-deserved n deserved guarantee (set_resource_value resources name deserved_set v)
      entries r h
      (ground (
        arith,
        lookup-cons n name x entries,
        pointer-set_resource_value deserved_set deserved_set n name v resources,
      ))

-- The queue of a name that the loop finds first.
abbrev pub find_queue : String → List Queue → Option Queue
find_queue queue_name [] = none
find_queue queue_name (queue ∷ queues) =
    let rest = find_queue queue_name queues in if queue.name == queue_name then some queue else rest

-- Within the guarantee and the limits: at least what is guaranteed; and beyond that no more than the
-- queue's `deserved`, its capability and its request.
abbrev pub IsClamped : ℤ → ℤ → QueueSnapshotResource → ℤ → Type 0
IsClamped guarantee deserved r v =
    (guarantee ≤ℤ v)
    × (v ≤ℤ max_ℤ guarantee deserved)
    × ((bound : ℤ)
        → (r.capability ≡ some bound) ⊎ (r.request ≡ some bound)
        → v ≤ℤ max_ℤ guarantee bound)

deserved_value-IsClamped :
    (deserved guarantee : Amounts) (n : String) (r : QueueSnapshotResource)
    → IsClamped
        (amount_of n guarantee)
        (amount_of n deserved)
        r
        (deserved_value deserved guarantee n r)
unfolding deserved_value max_ℤ
deserved_value-IsClamped deserved guarantee n r = ground arith

abbrev fill : QueueSnapshot → Queue → QueueSnapshot
fill snapshot queue = record snapshot {
  resources =
      deserved_loop (resource_list_values queue.deserved) (resource_list_values queue.guarantee)
        snapshot.resources snapshot.resources;
}

populate_capacity_deserved-found :
    (snapshot : QueueSnapshot) (queues : List Queue) (queue_name : String) (queue : Queue)
    → find_queue queue_name queues ≡ some queue
    → populate_capacity_deserved snapshot queues queue_name ≡ fill snapshot queue
unfolding populate_capacity_deserved
populate_capacity_deserved-found snapshot [] queue_name queue found = cc
populate_capacity_deserved-found snapshot (q ∷ queues) queue_name queue found =
    elim (Bool-cases (q.name == queue_name)) [
      | inl e ↦ rw e (let same : q ≡ queue = ground arith in ap (fill snapshot) same)
      | inr e ↦
          rw e (populate_capacity_deserved-found snapshot queues queue_name queue (ground arith))
    ]

-- For a queue in the list, each resource of the snapshot gets a deserved amount: at least what the
-- queue is guaranteed, and beyond that no more than its `deserved`, nor than the capability and the
-- request in the snapshot, where they are there.
pub populate_capacity_deserved-IsClamped :
    (snapshot : QueueSnapshot) (queues : List Queue) (queue_name n : String) (queue : Queue)
    (r : QueueSnapshotResource)
    → find_queue queue_name queues ≡ some queue
    → NodupKeys snapshot.resources
    → lookup n snapshot.resources ≡ some r
    → (v : ℤ) × (pointer deserved_set n
          (populate_capacity_deserved snapshot queues queue_name).resources
        ≡ some v)
      × IsClamped
          (amount_of n (resource_list_values queue.guarantee))
          (amount_of n (resource_list_values queue.deserved))
          r
          v
populate_capacity_deserved-IsClamped snapshot queues queue_name n queue r found h e =
    let deserved = resource_list_values queue.deserved in
    let guarantee = resource_list_values queue.guarantee in
    (
      deserved_value deserved guarantee n r,
      ap (λ s. pointer deserved_set n s.resources)
            (populate_capacity_deserved-found snapshot queues queue_name queue found)
          ∙ deserved_loop-deserved n deserved guarantee snapshot.resources snapshot.resources r h
              (inl e),
      deserved_value-IsClamped deserved guarantee n r,
    )
