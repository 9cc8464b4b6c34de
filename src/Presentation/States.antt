-- ===== src/Presentation/States.antt =====
-- internal/agent/presentation.go: what the checks of a stage, of a node or of all nodes come to.
pub mod Verdicts
pub mod Nodes
use volens.Base.{
  ℕ, suc, String, Bool, true, false, not, ◌&&◌, ◌||◌, List, [], ◌∷◌, ◌==◌, any, is_empty, length,
  ltb, eqb, ◌++◌, if◌then◌else◌,
}
use volens.Base.Int.{pos}
use volens.Model.{Message, text, number, plain, nil, Check, NodeResult}
use volens.Model.Checks.{known, unknown}
use volens.Model.Reports.{outcome_pass, outcome_fail, outcome_unknown, StageState}

-- The variables of the loop of stateFromChecks.
pub record Tally : Type 0 where
  pub failures : List String
  pub unknown_count : ℕ
  pub executed : ℕ

abbrev pub no_tally : Tally
no_tally = record { failures = []; unknown_count = 0; executed = 0 }

unfoldable pub tally_step : Tally → Check → Tally
tally_step t check =
    if check.skipped
    then t
    else if not check.determinate
    then record t { executed = suc t.executed; unknown_count = suc t.unknown_count }
    else record t {
      executed = suc t.executed;
      failures = if check.passed then t.failures else t.failures ++ check.name ∷ [];
    }

unfoldable pub tally_loop : Tally → List Check → Tally
unfolding tally_step
tally_loop t [] = t
tally_loop t (check ∷ checks) = tally_loop (tally_step t check) checks

-- `strings.Join(failures, "；")`
abbrev pub join_names : List String → Message
join_names [] = []
join_names (name ∷ []) = text name ∷ []
join_names (name ∷ names) = text name ∷ text "；" ∷ join_names names

unfoldable pub state_of_tally : Tally → StageState
state_of_tally t =
    if not (is_empty t.failures)
    then record { outcome = outcome_fail; conclusion = join_names t.failures; skip_reason = [] }
    else if ltb 0 t.unknown_count || eqb t.executed 0
    then record {
      outcome = outcome_unknown;
      conclusion = text "没有确定失败，仍有 " ∷ number (pos t.unknown_count) ∷ text " 项需要运行时或源码证据" ∷ [];
      skip_reason = [];
    }
    else record { outcome = outcome_pass; conclusion = plain "所有已执行检查均通过"; skip_reason = [] }

unfoldable pub state_from_checks : List Check → StageState
unfolding tally_loop state_of_tally
state_from_checks checks = state_of_tally (tally_loop no_tally checks)

abbrev pub is_executed_failure : Check → Bool
is_executed_failure check = check.determinate && not check.passed && not check.skipped

abbrev pub proves_enqueue : Check → Bool
proves_enqueue check = (check.id == "job.enqueue.evidence") && check.determinate && check.passed

unfoldable pub enqueue_state : List Check → StageState
unfolding state_from_checks
enqueue_state checks =
    if any is_executed_failure checks
    then state_from_checks checks
    else if any proves_enqueue checks
    then record {
      outcome = outcome_pass;
      conclusion = plain "PodGroup 已有确定入队证据；问号表示无法逐项回溯插件投票，不改变该阶段已经通过的事实";
      skip_reason = [];
    }
    else state_from_checks checks

-- The variables of recomputeNodeOutcome.
pub record Recomputed : Type 0 where
  pub passed : Bool
  pub known_failure : Bool
  pub unknown_seen : Bool

abbrev pub untouched : Recomputed
untouched = record { passed = true; known_failure = false; unknown_seen = false }

unfoldable pub recompute_step : Recomputed → Check → Recomputed
recompute_step r check = if check.skipped then r else record {
  passed = r.passed && check.passed && check.determinate;
  known_failure = r.known_failure || check.determinate && not check.passed;
  unknown_seen = r.unknown_seen || not check.determinate;
}

unfoldable pub recompute_loop : Recomputed → List Check → Recomputed
unfolding recompute_step
recompute_loop r [] = r
recompute_loop r (check ∷ checks) = recompute_loop (recompute_step r check) checks

unfoldable pub recompute_node_outcome : NodeResult → NodeResult
unfolding recompute_loop
recompute_node_outcome node =
    let r = recompute_loop untouched node.checks in
    record node { passed = r.passed; determinate = r.known_failure || not r.unknown_seen }

-- The two counters of nodeAvailabilityCheck.
pub record Availability : Type 0 where
  pub passed : ℕ
  pub unknown_count : ℕ

unfoldable pub availability_loop : Availability → List NodeResult → Availability
availability_loop a [] = a
availability_loop a (node ∷ nodes) =
    availability_loop
      (if node.passed
        then record a { passed = suc a.passed }
        else if not node.determinate
        then record a { unknown_count = suc a.unknown_count }
        else a)
      nodes

abbrev pub availability : List NodeResult → Availability
availability nodes = availability_loop (record { passed = 0; unknown_count = 0 }) nodes

abbrev availability_sources : List String
availability_sources =
    "pkg/scheduler/actions/allocate/allocate.go"
    ∷ "pkg/scheduler/framework/session_plugins.go:PredicateFn" ∷ []

unfoldable pub node_availability_check : List NodeResult → Check
unfolding availability_loop
node_availability_check nodes =
    let a = availability nodes in
    let reason =
      number (pos a.passed)
      ∷ text "/"
      ∷ number (pos (length nodes))
      ∷ text " nodes passed all active, reproducible filters; "
      ∷ number (pos a.unknown_count)
      ∷ text " node results remain unknown"
      ∷ [] in
    if ltb 0 a.passed
    then known "allocate.nodes" "allocate" "At least one node passes active filters" true reason
        availability_sources
    else if ltb 0 a.unknown_count
    then unknown "allocate.nodes" "allocate" "At least one node passes active filters" reason nil
        availability_sources
    else known "allocate.nodes" "allocate" "At least one node passes active filters" false reason
        availability_sources
