-- ===== src/Report/Finalize.antt =====
-- internal/agent/report.go: finalizeReport, and the two tests that the fallback asks of a report.
use volens.Base.{
  Bool, not, ◌&&◌, ◌||◌, List, [], ◌∷◌, ◌++◌, is_empty, length, all, any, if◌then◌else◌,
}
use volens.Base.Int.{pos}
use volens.Model.{Message, text, number, plain, Check, NodeResult}
use volens.Model.Checks.{is_pass, is_failure, is_unknown}
use volens.Report.{build_action_reports}
use volens.Model.Reports.{PluginHookReport, ActionReport, Report}

abbrev pub check_failures : List Check → List Message
check_failures [] = []
check_failures (c ∷ cs) =
    let rest = check_failures cs in
    if is_failure c then (text c.name ∷ text ": " ∷ c.reason) ∷ rest else rest

abbrev pub plugin_failure : PluginHookReport → Message
plugin_failure p =
    text p.action ∷ text " plugin " ∷ text p.plugin ∷ text " " ∷ text p.hook ∷ text ": " ∷ p.reason

abbrev pub is_plugin_failure : PluginHookReport → Bool
is_plugin_failure p = p.determinate && not p.passed

abbrev pub plugin_failures : List PluginHookReport → List Message
plugin_failures [] = []
plugin_failures (p ∷ ps) =
    let rest = plugin_failures ps in if is_plugin_failure p then plugin_failure p ∷ rest else rest

unfoldable pub known_failures : Report → List Message
known_failures report = check_failures report.checks ++ plugin_failures report.plugin_hooks

unfoldable pub has_unknown : Report → Bool
has_unknown report =
    any is_unknown report.checks
    || any (λ p. not p.determinate) report.plugin_hooks
    || any (λ a. any is_unknown a.checks) report.actions

abbrev pub plugin_ok : PluginHookReport → Bool
plugin_ok p = p.passed && p.determinate

abbrev pub node_ok : NodeResult → Bool
node_ok n = n.passed && n.determinate

-- What the three inner loops of finalizeReport leave of `report.Passed` for one action.
abbrev pub action_ok : ActionReport → Bool
action_ok a = all is_pass a.checks && all plugin_ok a.plugins && all node_ok a.nodes

abbrev pub join_lines : List Message → Message
join_lines [] = []
join_lines (m ∷ []) = m
join_lines (m ∷ ms) = m ++ text "\n- " ∷ join_lines ms

unfoldable pub conclusion_of : List Message → Bool → Message
conclusion_of failures passed =
    if not (is_empty failures)
    then text "Found "
      ∷ number (pos (length failures))
      ∷ text " deterministic failure(s):\n- "
      ∷ join_lines failures
    else if passed
    then plain
        "All inspected action and plugin checks passed; inspect queue ordering, fairness, and scheduler runtime state."
    else plain
        "Common deterministic rules found no failure; one or more configured action or branch-specific plugin checks require source and scheduler-log analysis."

unfoldable pub finalize_report : Report → Report
unfolding known_failures conclusion_of
finalize_report report =
    let actions = build_action_reports report in
    let passed = all action_ok actions in
    record report {
      actions = actions;
      passed = passed;
      conclusion = conclusion_of (known_failures report) passed;
    }
