-- ===== src/Report/Verdict.antt =====
-- What a report that passes tells of its checks, hooks, nodes and actions.
use volens.Base.{
  String, ◌≡◌, refl, sym, ◌∙◌, ap, Bool, true, false, ◌||◌, List, [], ◌∷◌, map, ◌==◌, is_some,
  string_in, all, all-append, arith, Bool-cases, inl, inr,
}
use volens.Base.Dict.{keys, lookup, lookup-keys}
use volens.Model.{Check, NodeResult}
use volens.Model.Checks.{is_pass}
use volens.Report.Split.{split_nodes_by_action}
use volens.Report.Finalize.{action_ok, plugin_ok, node_ok, finalize_report}
use volens.Report.Nodes.{of_action, results_of, node_results, split_nodes_by_action-node_results}
use volens.Report.Stages.{all_of, all-all_of, observe_all-order}
use volens.Report.Passed.{
  o, checked, with_nodes, checked-IsConsistent, with_nodes-IsConsistent, stage_passed,
  passed-checks, passed-plugins, passed-covered,
}
use volens.Report.{
  check_stage, plugin_stage, native_action_coverage, observed_stages, build_action_reports,
}
use volens.Model.Reports.{Report}

results_of-ok :
    (name : String) (cs : List Check)
    → all node_ok (results_of name cs) ≡ true
    → all is_pass cs ≡ true
results_of-ok name [] h = refl
results_of-ok name (c ∷ cs) h = ground arith

all-of_action :
    (action : String) (cs : List Check)
    → all is_pass (of_action action cs) ≡ all_of check_stage is_pass action cs
all-of_action action [] = refl
all-of_action action (c ∷ cs) = ground (arith, all-of_action action cs)

abbrev pub checks_ok : List Check → Bool
checks_ok = all (λ c. (check_stage c == "") || is_pass c)

-- If the nodes are all right under each action, their checks pass.
node_results-ok :
    (nodes : List NodeResult)
    → ((action : String) → (action == "") ≡ false → all node_ok (node_results action nodes) ≡ true)
    → all (λ node. checks_ok node.checks) nodes ≡ true
node_results-ok [] h = refl
node_results-ok (node ∷ nodes) h =
    let own = all-all_of check_stage is_pass node.checks (λ action named there.
      let split =
        all-append node_ok (results_of node.name (of_action action node.checks))
          (node_results action nodes) in
      sym (all-of_action action node.checks)
      ∙ results_of-ok node.name (of_action action node.checks)
          (ground (arith, split, h action named))) in
    let rest = node_results-ok nodes (λ action named. ground (
      arith,
      all-append node_ok (results_of node.name (of_action action node.checks))
          (node_results action nodes),
      h action named,
    )) in
    ground (arith, own, rest)

module _ (report : Report) where
  nodes_observed :
      (name : String)
      → (name == "") ≡ false
      → is_some (lookup name (split_nodes_by_action [] report.nodes)) ≡ true
      → string_in name (o report).order ≡ true
  unfolding observed_stages
  nodes_observed name named there = ground (
    arith,
    observe_all-order (with_nodes report) (map plugin_stage report.plugin_hooks) name
        (with_nodes-IsConsistent report),
    observe_all-order (checked report) (keys (split_nodes_by_action [] report.nodes)) name
        (checked-IsConsistent report),
    lookup-keys name (split_nodes_by_action [] report.nodes),
  )

  nodes_ok :
      all action_ok (build_action_reports report) ≡ true
      → (action : String) → (action == "") ≡ false
      → all node_ok (node_results action report.nodes) ≡ true
  nodes_ok passed action named =
      ap (all node_ok) (sym (split_nodes_by_action-node_results action report.nodes))
      ∙ elim (Bool-cases (is_some (lookup action (split_nodes_by_action [] report.nodes)))) [
        | inl e ↦ ground (arith, stage_passed report action passed (nodes_observed action named e))
        | inr e ↦ ground arith
      ]

  -- A report that passes has no check, no plugin hook and no check of a node that fails or is
  -- indeterminate, but for those without a stage; and the rules reproduce every action that is
  -- configured.
  pub finalize_report-passed :
      (finalize_report report).passed ≡ true
      → (all (λ c. (check_stage c == "") || is_pass c) report.checks ≡ true)
        × (all (λ p. (plugin_stage p == "") || plugin_ok p) report.plugin_hooks ≡ true)
        × (all (λ node. checks_ok node.checks) report.nodes ≡ true)
        × (all native_action_coverage report.policy.actions ≡ true)
  unfolding finalize_report
  finalize_report-passed passed = (
    passed-checks report passed,
    passed-plugins report passed,
    node_results-ok report.nodes (nodes_ok passed),
    passed-covered report passed,
  )
