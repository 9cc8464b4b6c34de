-- ===== src/Presentation/Predicates/Normalize.antt =====
-- What normalizePredicateChecks may make of a check.
use volens.Base.{◌≡◌, Bool, true, not, ◌&&◌, List, [], ◌∷◌, arith}
use volens.Model.{Message, Check}
use volens.Model.Reports.{Report}
use volens.Presentation.States.{is_executed_failure}
use volens.Presentation.Predicates.{activated_check, normalize_check, normalize_predicate_checks}
use volens.Presentation.Activation.{
  PluginActivation, activation_unknown, activation_disabled, activation_enabled,
  predicate_check_activation,
}

abbrev pub is_executed_pass : Check → Bool
is_executed_pass check = check.determinate && check.passed && not check.skipped

-- The new check has the id of the old one, and says nothing for certain that the old one did not.
pub record Projects (old new : Check) : Type 0 where
  pub same_id : new.id ≡ old.id
  pub pass : is_executed_pass new ≡ true → is_executed_pass old ≡ true
  pub failure : is_executed_failure new ≡ true → is_executed_failure old ≡ true

activated_check-Projects :
    (report : Report) (activation : PluginActivation) (reason : Message) (check : Check)
    → Projects check (activated_check report activation reason check)
unfolding activated_check
activated_check-Projects report activation_enabled reason check = ground arith
activated_check-Projects report activation_disabled reason check = ground arith
activated_check-Projects report activation_unknown reason check = ground arith

normalize_check-Projects :
    (report : Report) (activation : PluginActivation) (reason : Message) (check : Check)
    → Projects check (normalize_check report activation reason check)
unfolding normalize_check
normalize_check-Projects report activation reason check = ground (
  arith,
  activated_check-Projects report (predicate_check_activation report check.id).0
      (predicate_check_activation report check.id).1 check,
  activated_check-Projects report activation reason check,
)

-- The two lists agree check by check.
abbrev pub AllProject : List Check → List Check → Type 0
AllProject [] [] = Unit
AllProject [] (new ∷ news) = ⊥
AllProject (old ∷ olds) [] = ⊥
AllProject (old ∷ olds) (new ∷ news) = Projects old new × AllProject olds news

-- Whatever is found out about the predicates plugin, the checks of a node keep their ids and their
-- order; a check that passes for certain, or fails for certain, did so before.
pub normalize_predicate_checks-Projects :
    (checks : List Check) (report : Report) (activation : PluginActivation) (reason : Message)
    → AllProject checks (normalize_predicate_checks checks report activation reason)
unfolding normalize_predicate_checks
normalize_predicate_checks-Projects [] report activation reason = tt
normalize_predicate_checks-Projects (check ∷ checks) report activation reason = (
  normalize_check-Projects report activation reason check,
  normalize_predicate_checks-Projects checks report activation reason,
)
