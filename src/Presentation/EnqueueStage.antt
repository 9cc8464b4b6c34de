-- ===== src/Presentation/EnqueueStage.antt =====
-- internal/agent/presentation.go: buildEnqueuePresentation.
use volens.Base.{
  ℕ, Bool, true, false, not, ◌&&◌, none, some, List, [], ◌∷◌, ◌++◌, is_empty, is_some,
  if◌then◌else◌,
}
use volens.Model.{plain, Check}
use volens.Model.Checks.{known}
use volens.Model.Reports.{QueueSummary, EnqueueReport, Report, no_queue_summary}
use volens.Presentation.Checks.{checks_for_stage, skipped_checks, remove_check, remove_plugin_check}
use volens.Presentation.States.{enqueue_state}
use volens.Presentation.Hooks.{
  plugin_hook_checks, unmatched_plugin_checks, hook_inventory_verified, policy_has_action,
}
use volens.Presentation.Queue.{queue_resource_values}
use volens.Presentation.Rows.{pod_group_summaries}
use volens.Presentation.Strategy.{queue_strategy, queue_strategy_note}
use volens.Presentation.Capacity.{queue_runtime_check, queue_pod_groups_check, queue_capacity_check}
use volens.Presentation.Evidence.{PresentationEvidence, or_reason, skipped_state}

unfoldable pub queue_summary : Report → PresentationEvidence → QueueSummary
unfolding queue_strategy queue_strategy_note queue_resource_values
queue_summary report evidence =
    let strategy = queue_strategy report.policy in
    let summary : QueueSummary = record {
      name = evidence.queue_name;
      state = evidence.queue.state;
      strategy = strategy;
      formula = "need = MinReq + allocated + inqueue - elastic; permit iff need <= realCapability";
      formula_note = queue_strategy_note strategy;
      runtime_source = "";
      runtime_determinate = false;
      runtime_reason = [];
      resources = queue_resource_values evidence.queue_snapshot evidence.pod_group;
    } in
    elim evidence.queue_snapshot_err [
      | some e ↦ record summary { runtime_reason = e.message }
      | none ↦
          if is_empty evidence.queue_snapshot.resources
          then record summary {
            runtime_reason = plain "scheduler cache dump did not expose queue runtime resources";
          }
          else record summary {
            runtime_determinate = true;
            runtime_source = evidence.queue_snapshot.source;
            runtime_reason = plain "values were reconstructed from the active scheduler cache dump";
          }
    ]

abbrev pub has_min_resources : PresentationEvidence → Bool
has_min_resources evidence = is_some evidence.pod_group.min_resources

-- The hook checks of enqueue, which a PodGroup without minResources bypasses.
unfoldable pub enqueue_hook_checks : Report → PresentationEvidence → List Check
unfolding plugin_hook_checks remove_plugin_check skipped_checks
enqueue_hook_checks report evidence =
    let hooks =
      plugin_hook_checks report.plugin_hooks ("enqueue" ∷ []) ("AddJobEnqueueableFn" ∷ [])
        "enqueue" in
    let others = remove_plugin_check (remove_plugin_check hooks "proportion") "capacity" in
    if has_min_resources evidence
    then others
    else skipped_checks others "enqueue" (
        plain
          "PodGroup spec.minResources is nil, so the standard enqueue action bypasses JobEnqueueable")

unfoldable pub enqueue_unmatched_checks : Report → PresentationEvidence → List Check
unfolding unmatched_plugin_checks skipped_checks
enqueue_unmatched_checks report evidence =
    let unmatched =
      unmatched_plugin_checks report.plugin_hooks ("enqueue" ∷ []) "enqueue" "JobEnqueueable" in
    if has_min_resources evidence
    then unmatched
    else skipped_checks unmatched "enqueue"
        (plain "PodGroup spec.minResources is nil, so enqueue bypasses JobEnqueueable")

-- The checks of the stage itself, once the inventory of the hooks is verified.
unfoldable pub enqueue_stage_checks : Report → List Check → List Check → List Check
unfolding checks_for_stage hook_inventory_verified policy_has_action remove_check
enqueue_stage_checks report hook_checks unmatched_checks =
    let checks = checks_for_stage report.checks "enqueue" in
    if not (hook_inventory_verified report && policy_has_action report.policy "enqueue")
    then checks
    else remove_check checks "plugins.job-enqueueable"
      ++ (if is_empty hook_checks && is_empty unmatched_checks
          then known "plugins.job-enqueueable.none" "enqueue" "No active JobEnqueueable hooks" true
              (plain
                "the selected branch proves that no configured plugin registers JobEnqueueable for the active actions")
              []
            ∷ []
          else [])

unfoldable pub enqueue_presented_checks : Report → PresentationEvidence → List Check
unfolding enqueue_hook_checks enqueue_unmatched_checks enqueue_stage_checks queue_summary
    queue_runtime_check queue_pod_groups_check queue_capacity_check
enqueue_presented_checks report evidence =
    let hook_checks = enqueue_hook_checks report evidence in
    let unmatched_checks = enqueue_unmatched_checks report evidence in
    let queue = queue_summary report evidence in
    enqueue_stage_checks report hook_checks unmatched_checks
    ++ (hook_checks
        ++ (unmatched_checks
            ++ queue_runtime_check queue evidence.queue_snapshot_err
              ∷ queue_pod_groups_check evidence.queue_pod_groups evidence.queue_pod_groups_err
              ∷ (if has_min_resources evidence
                  then queue_capacity_check queue evidence.queue_snapshot_err
                      report.policy.determinate
                    ∷ []
                  else [])))

-- `now` is the clock that podGroupSummaries reads.
unfoldable pub build_enqueue_presentation : ℕ → Report → PresentationEvidence → EnqueueReport
unfolding enqueue_presented_checks queue_summary enqueue_state pod_group_summaries checks_for_stage
    skipped_checks
build_enqueue_presentation now report evidence =
    let reason =
      or_reason evidence.stop_reason "preflight did not pass, so Volcano does not reach enqueue" in
    if evidence.preflight_stopped
    then record {
      state = skipped_state "未执行入队检查" reason;
      queue = no_queue_summary;
      checks = skipped_checks (checks_for_stage report.checks "enqueue") "enqueue" reason;
      pod_groups = [];
    }
    else record {
      state = enqueue_state (enqueue_presented_checks report evidence);
      queue = queue_summary report evidence;
      checks = enqueue_presented_checks report evidence;
      pod_groups = pod_group_summaries now evidence.queue_pod_groups evidence.pod_group;
    }
