-- ===== src/Report.antt =====
-- internal/agent/report.go: how the checks, the plugin hooks and the nodes make a report.
pub mod Split
pub mod Finalize
pub mod Actions
pub mod Stages
pub mod Passed
pub mod Nodes
pub mod Verdict
pub mod Failures
mod Tests
use Prim.Native.String.{◌++◌ as ◌<>◌}
use volens.Base.{
  ℕ, String, Bool, true, false, not, ◌||◌, List, [], ◌∷◌, ◌++◌, map, ◌==◌, is_some, length,
  if◌then◌else◌,
}
use volens.Base.Int.{ℤ, pos, negsuc}
use volens.Base.Dict.{Dict, keys, lookup, insert, get_or}
use volens.Model.{plain, nil, Check, NodeResult}
use volens.Model.Reports.{PluginHookReport, ActionReport, Report}
use volens.Model.Checks.{unknown}
use volens.Report.Split.{normalized_action_stage, split_nodes_by_action}

abbrev pub check_stage : Check → String
check_stage check = normalized_action_stage check.stage

abbrev pub plugin_stage : PluginHookReport → String
plugin_stage plugin = normalized_action_stage plugin.action

-- `stage := …; d[stage] = append(d[stage], value)` for each value in order: the loops over the
-- checks and over the plugin hooks.
unfoldable pub group : {A : Type 0} → (A → String) → Dict (List A) → List A → Dict (List A)
group stage d [] = d
group stage d (x ∷ xs) = group stage (insert (stage x) (get_or [] (stage x) d ++ x ∷ []) d) xs

-- The closure `observe`, with its two variables as a list and a map.
pub record Observed : Type 0 where
  pub order : List String
  pub seen : Dict Bool

unfoldable pub observe : Observed → String → Observed
observe o stage =
    if (stage == "") || get_or false stage o.seen
    then o
    else record { order = o.order ++ stage ∷ []; seen = insert stage true o.seen }

unfoldable pub observe_all : Observed → List String → Observed
unfolding observe
observe_all o [] = o
observe_all o (stage ∷ stages) = observe_all (observe o stage) stages

-- What the report has for each action.
pub record ByAction : Type 0 where
  pub checks : Dict (List Check)
  pub plugins : Dict (List PluginHookReport)
  pub nodes : Dict (List NodeResult)

-- The variables that the closure `appendAction` writes.
pub record Appended : Type 0 where
  pub actions : List ActionReport
  pub first_index : Dict ℕ

unfoldable pub append_action : ByAction → Appended → String → Bool → ℤ → Appended
append_action by a name configured order =
    let found = is_some (lookup name a.first_index) in
    let full = configured || not found in
    record {
      actions =
          a.actions
          ++ record {
            name = name;
            order = order;
            configured = configured;
            checks = if full then get_or [] name by.checks else [];
            plugins = if full then get_or [] name by.plugins else [];
            nodes = if full then get_or [] name by.nodes else [];
          }
            ∷ [];
      first_index = if found then a.first_index else insert name (length a.actions) a.first_index;
    }

unfoldable pub configured_loop : ByAction → Appended → ℕ → List String → Appended
unfolding append_action
configured_loop by a order [] = a
configured_loop by a order (action ∷ actions) =
    configured_loop by (append_action by a action true (pos order)) (ℕ.suc order) actions

unfoldable pub observed_loop : ByAction → Appended → List String → Appended
unfolding append_action
observed_loop by a [] = a
observed_loop by a (action ∷ actions) =
    observed_loop by
      (if (action == "preflight") || is_some (lookup action a.first_index)
        then a
        else append_action by a action false (pos (length a.actions)))
      actions

abbrev pub native_action_coverage : String → Bool
native_action_coverage action = (action == "enqueue") || (action == "allocate")

abbrev pub coverage_check : String → Check
coverage_check name =
    unknown ("action." <> (name <> ".coverage")) name "Configured action fully reproduced"
      (plain
        "the action is present in the observed scheduler configuration, but no deterministic local rule module reproduces its complete target-job control flow")
      nil (("pkg/scheduler/actions/" <> name) ∷ [])

unfoldable pub add_coverage : List ActionReport → List ActionReport
add_coverage [] = []
add_coverage (action ∷ actions) =
    (if not action.configured || native_action_coverage action.name
      then action
      else record action { checks = action.checks ++ coverage_check action.name ∷ [] })
    ∷ add_coverage actions

abbrev pub by_action : Report → ByAction
by_action report = record {
  checks = group check_stage [] report.checks;
  plugins = group plugin_stage [] report.plugin_hooks;
  nodes = split_nodes_by_action [] report.nodes;
}

unfoldable pub observed_stages : Report → Observed
unfolding observe_all
observed_stages report =
    let checked = observe_all (record { order = []; seen = [] }) (map check_stage report.checks) in
    let with_nodes = observe_all checked (keys (split_nodes_by_action [] report.nodes)) in
    observe_all with_nodes (map plugin_stage report.plugin_hooks)

unfoldable pub preflight_first : ByAction → Observed → Appended
unfolding append_action
preflight_first by o =
    let start : Appended = record { actions = []; first_index = [] } in
    if get_or false "preflight" o.seen
    then append_action by start "preflight" false (negsuc 0)
    else start

-- The actions before the last loop, which adds the coverage.
unfoldable pub appended_actions : Report → Appended
unfolding preflight_first configured_loop observed_loop observed_stages
appended_actions report =
    let by = by_action report in
    let o = observed_stages report in
    observed_loop by (configured_loop by (preflight_first by o) 0 report.policy.actions) o.order

unfoldable pub build_action_reports : Report → List ActionReport
unfolding appended_actions add_coverage
build_action_reports report = add_coverage (appended_actions report).actions
