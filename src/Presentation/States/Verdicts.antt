-- ===== src/Presentation/States/Verdicts.antt =====
-- The outcome of a stage, as the meet of what its checks say.
use volens.Base.{
  String, ◌++◌, ◌≡◌, refl, Bool, false, not, ◌&&◌, ◌||◌, List, [], ◌∷◌, arith, any, all, is_empty,
  ltb, eqb, if◌then◌else◌,
}
use volens.Model.{Check}
use volens.Model.Reports.{
  Outcome, outcome_pass, outcome_fail, outcome_unknown, outcome_skipped, no_outcome,
}
use volens.Presentation.States.{
  Tally, no_tally, tally_step, tally_loop, state_of_tally, state_from_checks, is_executed_failure,
}

-- What one check says: nothing where it is skipped.
abbrev pub verdict : Check → Outcome
verdict check =
    if check.skipped
    then no_outcome
    else if not check.determinate
    then outcome_unknown
    else if check.passed
    then outcome_pass
    else outcome_fail

-- Failure before ignorance before success before silence.
abbrev pub meet : Outcome → Outcome → Outcome
meet outcome_fail o = outcome_fail
meet outcome_unknown outcome_fail = outcome_fail
meet outcome_unknown o = outcome_unknown
meet outcome_pass outcome_fail = outcome_fail
meet outcome_pass outcome_unknown = outcome_unknown
meet outcome_pass o = outcome_pass
meet outcome_skipped o = o
meet no_outcome o = o

-- A stage in which nothing ran is not known to pass.
abbrev pub settled : Outcome → Outcome
settled no_outcome = outcome_unknown
settled o = o

abbrev pub stage_verdict : List Check → Outcome
stage_verdict [] = no_outcome
stage_verdict (check ∷ checks) = meet (verdict check) (stage_verdict checks)

abbrev pub is_executed_unknown : Check → Bool
is_executed_unknown check = not check.determinate && not check.skipped

abbrev pub is_skipped : Check → Bool
is_skipped check = check.skipped

-- The three tests by which the source decides.
abbrev pub outcome_by_tests : List Check → Outcome
outcome_by_tests checks =
    if any is_executed_failure checks
    then outcome_fail
    else if any is_executed_unknown checks || all is_skipped checks
    then outcome_unknown
    else outcome_pass

pub stage_verdict-tests :
    (checks : List Check)
    → stage_verdict checks ≡ (
        if any is_executed_failure checks
        then outcome_fail
        else if any is_executed_unknown checks
        then outcome_unknown
        else if all is_skipped checks
        then no_outcome
        else outcome_pass)
stage_verdict-tests [] = refl
stage_verdict-tests (check ∷ checks) = ground (arith, stage_verdict-tests checks)

pub settled-tests : (checks : List Check) → settled (stage_verdict checks) ≡ outcome_by_tests checks
settled-tests checks = ground (arith, stage_verdict-tests checks)

is_empty-snoc : (xs : List String) (x : String) → is_empty (xs ++ x ∷ []) ≡ false
is_empty-snoc [] x = refl
is_empty-snoc (y ∷ ys) x = refl

is_empty-step :
    (t : Tally) (check : Check)
    → is_empty (tally_step t check).failures
      ≡ is_empty t.failures && not (is_executed_failure check)
unfolding tally_step
is_empty-step t check = ground (arith, is_empty-snoc t.failures check.name)

unknown-step :
    (t : Tally) (check : Check)
    → ltb 0 (tally_step t check).unknown_count ≡ ltb 0 t.unknown_count || is_executed_unknown check
unfolding tally_step
unknown-step t check = ground arith

executed-step :
    (t : Tally) (check : Check)
    → eqb (tally_step t check).executed 0 ≡ eqb t.executed 0 && is_skipped check
unfolding tally_step
executed-step t check = ground arith

tally_loop_lem :
    (t : Tally) (checks : List Check)
    → (is_empty (tally_loop t checks).failures
        ≡ is_empty t.failures && not (any is_executed_failure checks))
      × (ltb 0 (tally_loop t checks).unknown_count
          ≡ ltb 0 t.unknown_count || any is_executed_unknown checks)
      × (eqb (tally_loop t checks).executed 0 ≡ eqb t.executed 0 && all is_skipped checks)
unfolding tally_loop
tally_loop_lem t [] = ground arith
tally_loop_lem t (check ∷ checks) = ground (
  arith,
  is_empty-step t check,
  unknown-step t check,
  executed-step t check,
  tally_loop_lem (tally_step t check) checks,
)

pub state_from_checks-tests :
    (checks : List Check) → (state_from_checks checks).outcome ≡ outcome_by_tests checks
unfolding state_from_checks state_of_tally
state_from_checks-tests checks = ground (arith, tally_loop_lem no_tally checks)

-- The outcome that the loop with its counters gives a stage is the meet of what its checks say, of
-- which failure is the least and silence the greatest; where nothing ran it is unknown.
pub state_from_checks-stage_verdict :
    (checks : List Check) → (state_from_checks checks).outcome ≡ settled (stage_verdict checks)
state_from_checks-stage_verdict checks =
    ground (arith, state_from_checks-tests checks, settled-tests checks)
