-- ===== src/Presentation/Predicates.antt =====
-- internal/agent/presentation.go: what the activation of the predicates plugin makes of a check.
pub mod Normalize
use volens.Base.{not, ◌&&◌, List, [], ◌∷◌, ◌++◌, map, string_in, if◌then◌else◌}
use volens.Model.{Message, text, Check}
use volens.Model.Checks.{unknown, skipped, with_evidence}
use volens.Model.Reports.{Report}
use volens.Presentation.Activation.{
  PluginActivation, activation_unknown, activation_disabled, activation_enabled,
  predicate_check_ids, predicate_check_activation, predicate_may_be_enabled,
}

-- What a check becomes under the activation that holds for it.
unfoldable pub activated_check : Report → PluginActivation → Message → Check → Check
unfolding predicate_may_be_enabled
activated_check report activation_enabled reason check =
    if check.skipped
    then unknown check.id "allocate" check.name
        (reason
          ++ text
              "; this enabled optional predicate needs its branch-specific arguments and exact Session state"
            ∷ [])
        check.evidence check.source
    else check
activated_check report activation_disabled reason check =
    with_evidence check.evidence (skipped check.id "allocate" check.name reason check.source)
activated_check report activation_unknown reason check =
    if check.skipped && not (predicate_may_be_enabled check.id report)
    then check
    else if check.determinate && not check.skipped
    then record check {
      reason =
          check.reason
          ++ text
              "; local Kubernetes-visible projection, scheduler ConfigMap activation is not proven but this result is directly computed from Pod/Node objects"
            ∷ [];
    }
    else unknown check.id "allocate" check.name
        (reason ++ text "; local projection still needs scheduler Session evidence" ∷ [])
        check.evidence check.source

unfoldable pub normalize_check : Report → PluginActivation → Message → Check → Check
unfolding activated_check predicate_check_activation
normalize_check report activation reason check =
    if not (string_in check.id predicate_check_ids) then check else elim activation [
      | activation_enabled ↦
          let (own, own_reason) = predicate_check_activation report check.id in
          activated_check report own own_reason check
      | other ↦ activated_check report other reason check
    ]

unfoldable pub normalize_predicate_checks :
    List Check → Report → PluginActivation → Message → List Check
unfolding normalize_check
normalize_predicate_checks checks report activation reason =
    map (normalize_check report activation reason) checks
