-- ===== src/Enqueue/Queues.antt =====
-- internal/agent/enqueue/enqueue.go, ResolveQueueName: the queue that the PodGroup goes to.
use volens.Base.{
  String, ◌≡◌, ◌≢◌, ◌⊎◌, ◌↔◌, true, not, Option, none, some, [], ◌∷◌, ◌==◌, arith, if◌then◌else◌,
}
use volens.Cluster.{Scheduler, PodGroup}
use volens.Model.{text, Failure, failure, wrap, Result, ok, err}

unfoldable pub resolve_queue_name : PodGroup → Scheduler → Option Failure → Result String
resolve_queue_name group scheduler scheduler_err =
    if not (group.queue == "") then ok group.queue else elim scheduler_err [
      | some e ↦ err (wrap "resolve scheduler default queue: " e)
      | none ↦
          if not scheduler.configuration_determinate
          then err (
              failure (
                text "resolve scheduler default queue: "
                ∷ text scheduler.configuration_reason
                ∷ []))
          else if scheduler.default_queue == ""
          then err (failure (text "resolve scheduler default queue: parsed value is empty" ∷ []))
          else ok scheduler.default_queue
    ]

-- A scheduler whose configuration was read and names a default queue.
pub record HasDefault (scheduler : Scheduler) (scheduler_err : Option Failure) : Type 0 where
  pub was_read : scheduler_err ≡ none
  pub is_determinate : scheduler.configuration_determinate ≡ true
  pub is_named : scheduler.default_queue ≢ ""

-- A PodGroup that names a queue goes to it, whatever is known of the scheduler, an error included. A
-- PodGroup that names none goes to the scheduler's default queue, where the scheduler was found, its
-- configuration was read and the default is not empty; and to none otherwise.
pub resolve_queue_name-ok :
    (group : PodGroup) (scheduler : Scheduler) (scheduler_err : Option Failure) (name : String)
    → (resolve_queue_name group scheduler scheduler_err ≡ ok name) ↔ (
        ((group.queue ≢ "") × (name ≡ group.queue))
        ⊎ ((group.queue ≡ "")
            × HasDefault scheduler scheduler_err
            × (name ≡ scheduler.default_queue)))
unfolding resolve_queue_name
resolve_queue_name-ok group scheduler scheduler_err name = ground arith
