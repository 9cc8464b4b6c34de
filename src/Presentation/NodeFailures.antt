-- ===== src/Presentation/NodeFailures.antt =====
-- internal/agent/presentation.go, diagnoseReport: how often each check fails over the nodes.
pub mod Common
use volens.Base.{
  ℕ, zero, suc, String, Bool, not, ◌&&◌, ◌||◌, Option, none, some, List, [], ◌∷◌, ◌++◌, ◌==◌, map,
  ltb, eqb, string_in, if◌then◌else◌,
}
use volens.Base.Int.{pos}
use volens.Base.Dict.{Dict, lookup, insert, get_or}
use volens.Base.Sort.{str_le}
use volens.Model.{Message, text, number, plain, Check, NodeResult}
use volens.Model.Reports.{Diagnosis}
use volens.Presentation.States.{is_executed_failure}

-- The two maps over the failures of the nodes.
pub record Failures : Type 0 where
  pub failure_counts : Dict ℕ
  pub failure_checks : Dict Check

unfoldable pub failures_step : Failures → Check → Failures
failures_step f check = if not (is_executed_failure check) then f else record {
  failure_counts = insert check.id (suc (get_or 0 check.id f.failure_counts)) f.failure_counts;
  failure_checks = insert check.id check f.failure_checks;
}

unfoldable pub failures_of_checks : Failures → List Check → Failures
unfolding failures_step
failures_of_checks f [] = f
failures_of_checks f (check ∷ checks) = failures_of_checks (failures_step f check) checks

unfoldable pub failures_of_nodes : Failures → List NodeResult → Failures
unfolding failures_of_checks
failures_of_nodes f [] = f
failures_of_nodes f (node ∷ nodes) = failures_of_nodes (failures_of_checks f node.checks) nodes

abbrev pub no_failures : Failures
no_failures = record { failure_counts = []; failure_checks = [] }

abbrev pub preferred_ids : List String
preferred_ids =
    "node.ready" ∷ "node.resources" ∷ "node.pod-count" ∷ "node.schedulable" ∷ "node.selector"
    ∷ "node.affinity" ∷ "node.taints" ∷ "node.ports" ∷ "node.pod-affinity" ∷ "node.volume-limits"
    ∷ "node.volume-zone" ∷ "node.topology-spread" ∷ "node.proportional" ∷ []

-- `result` holds what is in `seen`.
unfoldable pub ids_of_checks : List String → List Check → List String
ids_of_checks result [] = result
ids_of_checks result (check ∷ checks) =
    ids_of_checks
      (if (check.id == "node.pv-bind") || string_in check.id result
        then result
        else result ++ check.id ∷ [])
      checks

unfoldable pub ids_of_nodes : List String → List NodeResult → List String
unfolding ids_of_checks
ids_of_nodes result [] = result
ids_of_nodes result (node ∷ nodes) = ids_of_nodes (ids_of_checks result node.checks) nodes

unfoldable pub ordered_node_check_ids : List NodeResult → List String
unfolding ids_of_nodes
ordered_node_check_ids nodes = ids_of_nodes preferred_ids nodes

-- The first id that fails as often as there are nodes.
unfoldable pub common_failure : Failures → ℕ → List String → Option Check
common_failure f node_count [] = none
common_failure f node_count (id ∷ ids) =
    let rest = common_failure f node_count ids in
    let count = get_or 0 id f.failure_counts in
    if eqb count node_count && ltb 0 count then lookup id f.failure_checks else rest

-- `countedFailure`
pub record CountedFailure : Type 0 where
  pub name : String
  pub count : ℕ

-- The more frequent failure comes first, and of two as frequent the one with the lesser name.
abbrev pub precedes : CountedFailure → CountedFailure → Bool
precedes a b = ltb b.count a.count || eqb a.count b.count && str_le a.name b.name

unfoldable pub insert_counted : CountedFailure → List CountedFailure → List CountedFailure
insert_counted x [] = x ∷ []
insert_counted x (y ∷ ys) =
    let rest = insert_counted x ys in if precedes x y then x ∷ y ∷ ys else y ∷ rest

unfoldable pub counted_failures : Dict Check → Dict ℕ → List CountedFailure
unfolding insert_counted
counted_failures checks [] = []
counted_failures checks ((id, count) ∷ rest) =
    insert_counted
      (record {
        name = elim (lookup id checks) [ none ↦ "" | some check ↦ check.name ];
        count = count;
      })
      (counted_failures checks rest)

abbrev pub take : ℕ → List CountedFailure → List CountedFailure
take zero xs = []
take (suc n) [] = []
take (suc n) (x ∷ xs) = x ∷ take n xs

abbrev suggestion_of : CountedFailure → Message
suggestion_of f = text "处理 " ∷ text f.name ∷ text "（影响 " ∷ number (pos f.count) ∷ text " 个节点）" ∷ []

unfoldable pub different_failures : Failures → Diagnosis
unfolding counted_failures
different_failures f = record {
  root_cause = plain "所有候选节点都被确定过滤，但各节点的首要失败项不同";
  suggestions =
      map suggestion_of (take 3 (counted_failures f.failure_checks f.failure_counts))
      ++ plain "按节点表中的红色叉号逐行确认可修复条件" ∷ [];
}
