-- ===== src/Report/Passed.antt =====
-- What it takes for a report to pass.
use volens.Base.{
  String, ◌≡◌, refl, sym, ◌∙◌, ap, true, false, ◌&&◌, ◌||◌, [], map, ◌==◌, ==_iff, is_some,
  string_in, all, arith, Bool-cases, inl, inr,
}
use volens.Base.Int.{negsuc}
use volens.Base.Dict.{keys, lookup, get_or}
use volens.Model.Checks.{is_pass}
use volens.Report.Split.{split_nodes_by_action}
use volens.Report.Finalize.{action_ok, plugin_ok}
use volens.Report.Actions.{
  stage_ok, IsSound, is_covered, append_action-IsSound, append_action-found, append_action-covered,
  configured_loop-IsSound, configured_loop-found, configured_loop-covered, observed_loop-IsSound,
  observed_loop-found, observed_loop-covered, add_coverage-ok,
}
use volens.Report.Stages.{
  all-group, all-all_of, all_of, IsConsistent, observe_all-IsConsistent, observe_all-order,
}
use volens.Report.{
  ByAction, Observed, Appended, check_stage, plugin_stage, observe_all, configured_loop,
  observed_loop, native_action_coverage, by_action, observed_stages, preflight_first,
  appended_actions, build_action_reports,
}
use volens.Model.Reports.{Report}

abbrev start : Appended
start = record { actions = []; first_index = [] }

start-IsSound : (by : ByAction) → IsSound by start
unfolding lookup
start-IsSound by name there good = cc

module _ (by : ByAction) (o : Observed) where
  preflight_first-IsSound : IsSound by (preflight_first by o)
  unfolding preflight_first
  preflight_first-IsSound = elim (Bool-cases (get_or false "preflight" o.seen)) [
    | inl e ↦ rw e (append_action-IsSound by start "preflight" false (negsuc 0) (start-IsSound by))
    | inr e ↦ rw e (start-IsSound by)
  ]

  preflight_first-found :
      get_or false "preflight" o.seen ≡ true
      → is_some (lookup "preflight" (preflight_first by o).first_index) ≡ true
  unfolding preflight_first
  preflight_first-found e =
      rw e (append_action-found by start "preflight" "preflight" false (negsuc 0) ∙ ground arith)

  preflight_first-covered : all is_covered (preflight_first by o).actions ≡ true
  unfolding preflight_first
  preflight_first-covered = elim (Bool-cases (get_or false "preflight" o.seen)) [
    | inl e ↦ rw e (append_action-covered by start "preflight" false (negsuc 0))
    | inr e ↦ rw e refl
  ]

module _ (report : Report) where
  abbrev pub by : ByAction
  by = by_action report

  abbrev pub o : Observed
  o = observed_stages report

  abbrev configured : Appended
  configured = configured_loop by (preflight_first by o) 0 report.policy.actions

  abbrev pub checked : Observed
  checked = observe_all (record { order = []; seen = [] }) (map check_stage report.checks)

  abbrev pub with_nodes : Observed
  with_nodes = observe_all checked (keys (split_nodes_by_action [] report.nodes))

  pub checked-IsConsistent : IsConsistent checked
  unfolding lookup
  checked-IsConsistent =
      observe_all-IsConsistent (record { order = []; seen = [] }) _ (λ name. refl)

  pub with_nodes-IsConsistent : IsConsistent with_nodes
  with_nodes-IsConsistent = observe_all-IsConsistent checked _ checked-IsConsistent

  o-IsConsistent : IsConsistent o
  unfolding observed_stages
  o-IsConsistent =
      observe_all-IsConsistent with_nodes (map plugin_stage report.plugin_hooks)
        with_nodes-IsConsistent

  check_observed :
      (name : String)
      → (name == "") ≡ false
      → string_in name (map check_stage report.checks) ≡ true
      → string_in name o.order ≡ true
  unfolding observed_stages lookup
  check_observed name named there = ground (
    arith,
    observe_all-order with_nodes (map plugin_stage report.plugin_hooks) name
        with_nodes-IsConsistent,
    observe_all-order checked (keys (split_nodes_by_action [] report.nodes)) name
        checked-IsConsistent,
    observe_all-order (record { order = []; seen = [] }) (map check_stage report.checks) name
        (λ n. refl),
  )

  plugin_observed :
      (name : String)
      → (name == "") ≡ false
      → string_in name (map plugin_stage report.plugin_hooks) ≡ true
      → string_in name o.order ≡ true
  unfolding observed_stages
  plugin_observed name named there = ground (
    arith,
    observe_all-order with_nodes (map plugin_stage report.plugin_hooks) name
        with_nodes-IsConsistent,
  )

  -- Every observed stage has an action.
  observed_found :
      (name : String)
      → string_in name o.order ≡ true
      → is_some (lookup name (appended_actions report).first_index) ≡ true
  unfolding appended_actions
  observed_found name there = elim (Bool-cases (name == "preflight")) [
    | inl e ↦
        let preflight = (==_iff name "preflight").0 e in
        let seen = ap (λ n. get_or false n o.seen) (sym preflight) ∙ o-IsConsistent name ∙ there in
        let found =
          configured_loop-found by (preflight_first by o) 0 report.policy.actions "preflight"
            (preflight_first-found by o seen) in
        let kept = observed_loop-found by configured o.order "preflight" ∙ ground (arith, found) in
        ap (λ n. is_some (lookup n (observed_loop by configured o.order).first_index)) preflight
        ∙ kept
    | inr e ↦ observed_loop-found by configured o.order name ∙ ground arith
  ]

  appended_actions-IsSound : IsSound by (appended_actions report)
  unfolding appended_actions
  appended_actions-IsSound = observed_loop-IsSound by configured o.order (
      configured_loop-IsSound by (preflight_first by o) 0 report.policy.actions
        (preflight_first-IsSound by o))

  appended_actions-covered :
      all is_covered (appended_actions report).actions
      ≡ all native_action_coverage report.policy.actions
  unfolding appended_actions
  appended_actions-covered =
      observed_loop-covered by configured o.order
      ∙ configured_loop-covered by (preflight_first by o) 0 report.policy.actions
      ∙ ap (λ b. b && all native_action_coverage report.policy.actions)
          (preflight_first-covered by o)

  pub stage_passed :
      (name : String)
      → all action_ok (build_action_reports report) ≡ true
      → string_in name o.order ≡ true
      → stage_ok by name ≡ true
  unfolding build_action_reports
  stage_passed name passed there =
      appended_actions-IsSound name (observed_found name there)
        (ground (arith, passed, add_coverage-ok (appended_actions report).actions))

  stage_checks :
      (name : String)
      → stage_ok by name ≡ true
      → all_of check_stage is_pass name report.checks ≡ true
  unfolding lookup
  stage_checks name h = ground (arith, all-group check_stage is_pass name [] report.checks)

  stage_plugins :
      (name : String)
      → stage_ok by name ≡ true
      → all_of plugin_stage plugin_ok name report.plugin_hooks ≡ true
  unfolding lookup
  stage_plugins name h =
      ground (arith, all-group plugin_stage plugin_ok name [] report.plugin_hooks)

  pub passed-checks :
      all action_ok (build_action_reports report) ≡ true
      → all (λ c. (check_stage c == "") || is_pass c) report.checks ≡ true
  passed-checks passed = all-all_of check_stage is_pass report.checks (λ name named there.
      stage_checks name (stage_passed name passed (check_observed name named there)))

  pub passed-plugins :
      all action_ok (build_action_reports report) ≡ true
      → all (λ p. (plugin_stage p == "") || plugin_ok p) report.plugin_hooks ≡ true
  passed-plugins passed = all-all_of plugin_stage plugin_ok report.plugin_hooks (λ name named there.
      stage_plugins name (stage_passed name passed (plugin_observed name named there)))

  pub passed-covered :
      all action_ok (build_action_reports report) ≡ true
      → all native_action_coverage report.policy.actions ≡ true
  unfolding build_action_reports
  passed-covered passed =
      ground
        (arith, passed, add_coverage-ok (appended_actions report).actions, appended_actions-covered)
