-- ===== src/Presentation/JobValidStage.antt =====
-- internal/agent/presentation.go: buildJobValidPresentation.
use volens.Base.{String, Bool, true, not, ◌&&◌, ◌||◌, List, [], ◌∷◌, ◌++◌, is_empty, if◌then◌else◌}
use volens.Model.{plain, Check}
use volens.Model.Checks.{known}
use volens.Model.Reports.{JobValidReport, Report}
use volens.Presentation.Checks.{
  checks_for_stage, skipped_checks, remove_check, remove_check_prefix, remove_plugin_check,
  resolve_gang_checks,
}
use volens.Presentation.States.{state_from_checks}
use volens.Presentation.Hooks.{
  plugin_hook_checks, unmatched_plugin_checks, hook_inventory_verified, has_hook_plugin,
  has_enabled_hook_plugin,
}
use volens.Presentation.Rows.{workload_rows}
use volens.Presentation.Evidence.{PresentationEvidence, or_reason, skipped_state}

abbrev job_valid_actions : List String
job_valid_actions = "allocate" ∷ "backfill" ∷ "preempt" ∷ "reclaim" ∷ []

unfoldable pub gang_active : Report → Bool
unfolding has_enabled_hook_plugin
gang_active report =
    report.policy.active_determinate
    && has_enabled_hook_plugin report.plugin_hooks "AddJobValidFn" "gang"

-- The hook checks of jobValid, without the gang's own where it is resolved.
unfoldable pub job_valid_hook_checks : Report → List Check
unfolding plugin_hook_checks gang_active remove_plugin_check
job_valid_hook_checks report =
    let hooks =
      plugin_hook_checks report.plugin_hooks job_valid_actions ("AddJobValidFn" ∷ []) "jobValid" in
    if gang_active report then remove_plugin_check hooks "gang" else hooks

unfoldable pub job_valid_checks : Report → List Check
unfolding checks_for_stage unmatched_plugin_checks hook_inventory_verified gang_active
    resolve_gang_checks job_valid_hook_checks remove_check has_hook_plugin remove_check_prefix
job_valid_checks report =
    let hook_checks = job_valid_hook_checks report in
    let unmatched_checks =
      unmatched_plugin_checks report.plugin_hooks job_valid_actions "jobValid" "JobValid" in
    let stage = checks_for_stage report.checks "jobValid" in
    let resolved = if gang_active report then resolve_gang_checks stage else stage in
    let without_plugins = remove_check resolved "plugins.job-valid" in
    let checks =
      if not (hook_inventory_verified report)
      then resolved
      else (if has_hook_plugin report.plugin_hooks "AddJobValidFn" "gang"
          then without_plugins
          else remove_check_prefix without_plugins "plugins.gang.")
        ++ (if is_empty hook_checks && is_empty unmatched_checks && not (gang_active report)
            then known "plugins.job-valid.none" "jobValid" "No active JobValid hooks" true
                (plain
                  "the selected branch proves that no configured plugin registers JobValid for the active actions")
                []
              ∷ []
            else []) in
    checks ++ (hook_checks ++ unmatched_checks)

unfoldable pub build_job_valid_presentation : Report → PresentationEvidence → JobValidReport
unfolding job_valid_checks skipped_checks workload_rows state_from_checks
build_job_valid_presentation report evidence =
    let checks = job_valid_checks report in
    let reason =
      or_reason evidence.stop_reason
        "enqueue did not pass, so Volcano does not reach allocate JobValid" in
    if evidence.preflight_stopped || evidence.enqueue_stopped || evidence.job_valid_stopped
    then record {
      state = skipped_state "未执行 JobValid" reason;
      rows = workload_rows evidence.pod evidence.tasks (skipped_checks checks "jobValid" reason);
    }
    else record {
      state = state_from_checks checks;
      rows = workload_rows evidence.pod evidence.tasks checks;
    }
