-- ===== src/Snapshot/Errors.antt =====
-- When BuildQueueSnapshot gives no snapshot.
use volens.Base.{
  String, ◌≡◌, refl, ◌∙◌, Bool, not, ◌||◌, Option, none, some, List, [], ◌∷◌, ◌==◌, is_some, any,
  arith,
}
use volens.Base.Dict.{Dict, lookup, insert, lookup-insert, lookup-nil}
use volens.Cluster.{PodGroup, Queue, CacheDump}
use volens.Model.{Failure}
use volens.Snapshot.Build.{build_queue_snapshot_common, with_strategy, build_queue_snapshot}
use volens.Snapshot.Resources.{QueueSnapshot}
use volens.Snapshot.{queue_by_name}

abbrev pub is_listed : String → List Queue → Bool
is_listed queue_name = any (λ queue. queue_name == queue.name)

queue_by_name-is_listed :
    (queue_name : String) (result : Dict Queue) (queues : List Queue)
    → is_some (lookup queue_name (queue_by_name result queues))
      ≡ is_listed queue_name queues || is_some (lookup queue_name result)
unfolding queue_by_name
queue_by_name-is_listed queue_name result [] = refl
queue_by_name-is_listed queue_name result (queue ∷ queues) = ground (
  arith,
  queue_by_name-is_listed queue_name (insert queue.name queue result) queues,
  lookup-insert queue_name queue.name queue result,
)

common-error :
    (dump : CacheDump) (queues : List Queue) (groups : List PodGroup) (queue_name : String)
    → is_some (build_queue_snapshot_common dump queues groups queue_name).1
      ≡ (queue_name == "") || not (is_listed queue_name queues)
unfolding build_queue_snapshot_common
common-error dump queues groups queue_name =
    ground (arith, queue_by_name-is_listed queue_name [] queues, lookup-nil {V = Queue} queue_name)

with_strategy-error :
    (queues : List Queue) (queue_name strategy : String) (built : QueueSnapshot)
    (error : Option Failure)
    → is_some (with_strategy queues queue_name strategy (built, error)).1 ≡ is_some error
unfolding with_strategy
with_strategy-error queues queue_name strategy built none = ground arith
with_strategy-error queues queue_name strategy built (some e) = refl

-- The snapshot is an error exactly when the queue has no name, or is not in the list of queues.
pub build_queue_snapshot-is_listed :
    (dump : CacheDump) (queues : List Queue) (groups : List PodGroup) (queue_name strategy : String)
    → is_some (build_queue_snapshot dump queues groups queue_name strategy).1
      ≡ (queue_name == "") || not (is_listed queue_name queues)
unfolding build_queue_snapshot
build_queue_snapshot-is_listed dump queues groups queue_name strategy =
    let (built, error) = build_queue_snapshot_common dump queues groups queue_name in
    with_strategy-error queues queue_name strategy built error
    ∙ common-error dump queues groups queue_name
