-- ===== src/Report/Tests.antt =====
-- A report with two checks, a hook and a node, on which the theorems are applied.
use volens.Base.{◌≡◌, refl, true, false, ◌||◌, [], ◌∷◌, ◌==◌, all, str_dec}
use volens.Base.Dict.{lookup, insert, get_or}
use volens.Model.{plain, NodeResult}
use volens.Model.Reports.{no_policy, no_report}
use volens.Model.Checks.{known, is_pass}
use volens.Report.Split.{
  normalized_action_stage, split_nodes_by_action, split_step, split_loop, collect_loop,
}
use volens.Report.Nodes.{node_results, split_nodes_by_action-node_results}
use volens.Report.Finalize.{plugin_ok, finalize_report}
use volens.Report.Verdict.{checks_ok, finalize_report-passed}
use volens.Report.{
  check_stage, plugin_stage, native_action_coverage, group, observe, observe_all, append_action,
  configured_loop, observed_loop, preflight_first, observed_stages, appended_actions, add_coverage,
  build_action_reports,
}
use volens.Model.Reports.{PluginHookReport, Report}

abbrev node : NodeResult
node = record {
  name = "n1";
  passed = true;
  determinate = true;
  resources = [];
  checks = known "node.ready" "allocate" "Node Ready" true (plain "Ready condition") [] ∷ [];
}

abbrev hook : PluginHookReport
hook = record {
  action = "allocate";
  phase = 13;
  tier = 0;
  order = 1;
  plugin = "gang";
  hook = "AddJobReadyFn";
  enabled = false;
  enabled_determinate = true;
  passed = true;
  determinate = true;
  reason = plain "the hook is skipped";
  source = [];
}

abbrev report : Report
report = record no_report {
  policy = record no_policy { actions = "enqueue" ∷ "allocate" ∷ [] };
  checks =
      known "task.pending" "preflight" "Pod is Pending" true (plain "Pending") []
      ∷ known "cache.capture" "evidence" "Volcano scheduler cache captured" true (plain "") []
      ∷ [];
  nodes = node ∷ [];
  plugin_hooks = hook ∷ [];
}

report_passes : (finalize_report report).passed ≡ true
unfolding finalize_report build_action_reports appended_actions preflight_first configured_loop
    observed_loop observed_stages observe_all observe group append_action add_coverage
    split_nodes_by_action split_loop split_step collect_loop normalized_action_stage lookup insert
    str_dec
report_passes = refl

finalize_report-passed_example :
    (all (λ c. (check_stage c == "") || is_pass c) report.checks ≡ true)
    × (all (λ p. (plugin_stage p == "") || plugin_ok p) report.plugin_hooks ≡ true)
    × (all (λ node. checks_ok node.checks) report.nodes ≡ true)
    × (all native_action_coverage report.policy.actions ≡ true)
finalize_report-passed_example = finalize_report-passed report report_passes

split_nodes_by_action-node_results_example :
    get_or [] "allocate" (split_nodes_by_action [] (node ∷ node ∷ []))
    ≡ node_results "allocate" (node ∷ node ∷ [])
split_nodes_by_action-node_results_example =
    split_nodes_by_action-node_results "allocate" (node ∷ node ∷ [])

-- The same with a check that fails.
abbrev failing : Report
failing = record report {
  checks = known "task.pending" "preflight" "Pod is Pending" false (plain "Running") [] ∷ [];
}
