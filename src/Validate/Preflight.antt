-- ===== src/Validate/Preflight.antt =====
-- What the preflight checks decide.
use volens.Base.{
  ◌≡◌, Bool, not, ◌&&◌, ◌||◌, Option, none, some, ◌==◌, is_some, is_empty, any, arith, string_in,
}
use volens.Kube.{Pod}
use volens.Cluster.{Scheduler}
use volens.Model.{Failure}
use volens.Model.Checks.{is_failure}
use volens.Validate.{pod_group_name, evaluate_scheduler_name, evaluate}

-- What the rules need of the Pod by itself.
abbrev pub is_schedulable : Pod → Bool
is_schedulable pod =
    (pod.phase == "Pending")
    && (pod.spec.node_name == "")
    && not (is_some pod.deletion_timestamp)
    && is_empty pod.spec.scheduling_gates
    && not (is_empty pod.spec.containers)
    && not (pod_group_name (some pod) == "")

-- The scheduler is known not to handle the Pod: none is ready, or its configuration was read and
-- does not list the Pod's scheduler name.
abbrev pub is_refused : Pod → Scheduler → Option Failure → Bool
is_refused pod scheduler (some e) = e.is_not_ready
is_refused pod scheduler none =
    scheduler.configuration_determinate
    && not (string_in pod.spec.scheduler_name scheduler.scheduler_names)

-- A preflight check of the Pod is a determinate failure exactly when the Pod is not one that the
-- scheduler would take up, or the scheduler is known not to handle it.
pub any-is_failure-evaluate :
    (pod : Pod) (scheduler : Scheduler) (err : Option Failure)
    → any is_failure (evaluate pod scheduler err)
      ≡ not (is_schedulable pod) || is_refused pod scheduler err
unfolding evaluate evaluate_scheduler_name
any-is_failure-evaluate pod scheduler none = ground arith
any-is_failure-evaluate pod scheduler (some e) = ground arith
