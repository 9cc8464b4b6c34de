-- ===== src/Presentation/States/Nodes.antt =====
-- The flags of a node and the outcome of a stage, from the same checks.
use volens.Base.{◌≡◌, not, ◌&&◌, ◌||◌, List, [], ◌∷◌, arith, any, all, if◌then◌else◌}
use volens.Model.{Check, NodeResult}
use volens.Model.Reports.{outcome_pass, outcome_fail, outcome_unknown}
use volens.Presentation.States.{
  Recomputed, untouched, recompute_step, recompute_loop, recompute_node_outcome, state_from_checks,
  is_executed_failure,
}
use volens.Presentation.States.Verdicts.{is_executed_unknown, is_skipped, state_from_checks-tests}

recompute_loop_lem :
    (r : Recomputed) (checks : List Check)
    → ((recompute_loop r checks).passed
        ≡ r.passed && not (any is_executed_failure checks) && not (any is_executed_unknown checks))
      × ((recompute_loop r checks).known_failure
          ≡ r.known_failure || any is_executed_failure checks)
      × ((recompute_loop r checks).unknown_seen ≡ r.unknown_seen || any is_executed_unknown checks)
unfolding recompute_loop recompute_step
recompute_loop_lem r [] = ground arith
recompute_loop_lem r (check ∷ checks) =
    ground (arith, recompute_loop_lem (recompute_step r check) checks)

pub recompute_node_outcome-flags :
    (node : NodeResult)
    → ((recompute_node_outcome node).passed
        ≡ not (any is_executed_failure node.checks) && not (any is_executed_unknown node.checks))
      × ((recompute_node_outcome node).determinate
          ≡ any is_executed_failure node.checks || not (any is_executed_unknown node.checks))
unfolding recompute_node_outcome
recompute_node_outcome-flags node = ground (arith, recompute_loop_lem untouched node.checks)

-- The flags that a node gets from its checks and the outcome that a stage gets from the same checks
-- agree: the outcome is fail exactly when the node is a determinate failure and unknown when the
-- node is indeterminate; a node that passes gives pass, but unknown where all its checks were
-- skipped.
pub state_from_checks-recompute_node_outcome :
    (node : NodeResult)
    → (state_from_checks node.checks).outcome ≡ (
        if (recompute_node_outcome node).passed
        then (if all is_skipped node.checks then outcome_unknown else outcome_pass)
        else if (recompute_node_outcome node).determinate
        then outcome_fail
        else outcome_unknown)
state_from_checks-recompute_node_outcome node =
    ground (arith, state_from_checks-tests node.checks, recompute_node_outcome-flags node)
