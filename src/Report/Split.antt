-- ===== src/Report/Split.antt =====
-- internal/agent/report.go, splitNodesByAction: the checks of every node by the action that they
-- belong to.
use volens.Base.{
  String, Bool, true, false, not, ◌&&◌, ◌||◌, List, [], ◌∷◌, ◌++◌, ◌==◌, is_some, if◌then◌else◌,
}
use volens.Base.Dict.{Dict, lookup, or_zero, insert, get_or}
use volens.Model.{Check, NodeResult}

unfoldable pub normalized_action_stage : String → String
normalized_action_stage stage =
    if stage == "validate"
    then "preflight"
    else if (stage == "filter") || (stage == "evidence") || (stage == "jobValid")
    then "allocate"
    else stage

-- The variables of the loop over the checks of one node.
pub record Split : Type 0 where
  pub nodes_by_action : Dict NodeResult
  pub known_failure_by_action : Dict Bool
  pub unknown_by_action : Dict Bool
  pub node_order : List String

abbrev pub new_node : String → NodeResult
new_node name = record {
  name = name;
  passed = true;
  determinate = true;
  resources = [];
  checks = [];
}

abbrev pub add_check : Check → NodeResult → NodeResult
add_check check node = record node {
  checks = node.checks ++ check ∷ [];
  passed = node.passed && check.passed && check.determinate;
}

unfoldable pub split_step : String → Split → Check → Split
split_step node_name s check =
    let action = normalized_action_stage check.stage in
    let found = lookup action s.nodes_by_action in
    record {
      nodes_by_action =
          insert action (add_check check (or_zero (new_node node_name) found)) s.nodes_by_action;
      known_failure_by_action =
          insert action
            (get_or false action s.known_failure_by_action || check.determinate && not check.passed)
            s.known_failure_by_action;
      unknown_by_action =
          insert action (get_or false action s.unknown_by_action || not check.determinate)
            s.unknown_by_action;
      node_order = if is_some found then s.node_order else s.node_order ++ action ∷ [];
    }

unfoldable pub split_loop : String → Split → List Check → Split
unfolding split_step
split_loop node_name s [] = s
split_loop node_name s (check ∷ checks) = split_loop node_name (split_step node_name s check) checks

abbrev pub no_split : Split
no_split = record {
  nodes_by_action = [];
  known_failure_by_action = [];
  unknown_by_action = [];
  node_order = [];
}

-- `actionNode := nodesByAction[name]` with its outcome.
abbrev pub outcome_of : Split → String → NodeResult
outcome_of s action =
    record (get_or (record (new_node "") { passed = false; determinate = false }) action
      s.nodes_by_action) {
        determinate =
            get_or false action s.known_failure_by_action
            || not (get_or false action s.unknown_by_action);
      }

unfoldable pub collect_loop : Split → Dict (List NodeResult) → List String → Dict (List NodeResult)
collect_loop s result [] = result
collect_loop s result (action ∷ actions) =
    collect_loop s (insert action (get_or [] action result ++ outcome_of s action ∷ []) result)
      actions

unfoldable pub split_nodes_by_action :
    Dict (List NodeResult) → List NodeResult → Dict (List NodeResult)
unfolding split_loop collect_loop
split_nodes_by_action result [] = result
split_nodes_by_action result (node ∷ nodes) =
    let s = split_loop node.name no_split node.checks in
    split_nodes_by_action (collect_loop s result s.node_order) nodes
