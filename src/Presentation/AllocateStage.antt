-- ===== src/Presentation/AllocateStage.antt =====
-- internal/agent/presentation.go: buildAllocatePresentation.
use volens.Base.{Bool, ◌||◌, List, [], ◌∷◌, ◌++◌, map, is_empty, if◌then◌else◌}
use volens.Model.{Check, NodeResult}
use volens.Model.Reports.{AllocateReport, Report}
use volens.Presentation.Checks.{checks_for_stage, remove_check, remove_plugin_check, merge_checks}
use volens.Presentation.States.{state_from_checks, recompute_node_outcome, node_availability_check}
use volens.Presentation.Hooks.{plugin_hook_checks}
use volens.Presentation.Predicates.{normalize_predicate_checks}
use volens.Presentation.Activation.{predicates_activation}
use volens.Presentation.Evidence.{PresentationEvidence, or_reason, skipped_state}

-- The checks of the predicate hooks, and what is left of them on the nodes.
unfoldable pub predicate_hook_checks : Report → List Check
unfolding plugin_hook_checks
predicate_hook_checks report =
    plugin_hook_checks report.plugin_hooks ("allocate" ∷ "backfill" ∷ [])
      ("AddPrePredicateFn" ∷ "AddPredicateFn" ∷ []) "allocate"

unfoldable pub dynamic_checks : Report → List Check
unfolding predicate_hook_checks remove_plugin_check
dynamic_checks report = remove_plugin_check (predicate_hook_checks report) "predicates"

unfoldable pub presented_node : Report → NodeResult → NodeResult
unfolding predicates_activation normalize_predicate_checks merge_checks dynamic_checks
    recompute_node_outcome
presented_node report node =
    let (mode, reason) = predicates_activation report in
    recompute_node_outcome (record node {
      checks =
          merge_checks (normalize_predicate_checks node.checks report mode reason)
            (dynamic_checks report);
    })

unfoldable pub allocate_checks : Report → List NodeResult → List Check
unfolding checks_for_stage remove_check node_availability_check dynamic_checks predicate_hook_checks
allocate_checks report nodes =
    let checks =
      remove_check (checks_for_stage report.checks "allocate") "allocate.nodes"
      ++ node_availability_check nodes ∷ dynamic_checks report in
    if is_empty (predicate_hook_checks report)
    then checks
    else remove_check checks "plugins.predicates"

abbrev pub allocate_is_skipped : PresentationEvidence → Bool
allocate_is_skipped evidence =
    evidence.preflight_stopped || evidence.enqueue_stopped || evidence.job_valid_stopped
    || evidence.allocate_stopped

unfoldable pub build_allocate_presentation : Report → PresentationEvidence → AllocateReport
unfolding presented_node allocate_checks state_from_checks
build_allocate_presentation report evidence =
    let nodes = map (presented_node report) report.nodes in
    if allocate_is_skipped evidence
    then record {
      state =
          skipped_state "未执行节点分配检查"
            (or_reason evidence.stop_reason "a previous scheduler gate did not pass");
      nodes = [];
    }
    else record { state = state_from_checks (allocate_checks report nodes); nodes = nodes }
