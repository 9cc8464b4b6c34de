-- ===== src/Presentation/Diagnose.antt =====
-- internal/agent/presentation.go: the diagnosis of a report, from its first proven failure.
use volens.Base.{
  Bool, true, false, not, ◌&&◌, ◌||◌, Option, none, some, List, [], ◌∷◌, ◌==◌, all, is_empty,
  length, if◌then◌else◌,
}
use volens.Model.{text, plain, Check, NodeResult}
use volens.Model.Reports.{
  outcome_unknown, outcome_skipped, WorkloadRow, StageState, Diagnosis, Report,
}
use volens.Presentation.States.{is_executed_failure}
use volens.Presentation.DiagnosisTexts.{diagnosis, diagnosis_for_failure}
use volens.Presentation.NodeFailures.{
  failures_of_nodes, no_failures, ordered_node_check_ids, common_failure, different_failures,
}

-- The first check of a loop that returns at it.
unfoldable pub first_check : (Check → Bool) → List Check → Option Check
first_check p [] = none
first_check p (check ∷ checks) =
    let rest = first_check p checks in if p check then some check else rest

unfoldable pub first_row_failure : List WorkloadRow → Option Check
unfolding first_check
first_row_failure [] = none
first_row_failure (row ∷ rows) =
    let rest = first_row_failure rows in
    elim (first_check is_executed_failure row.checks) [ some check ↦ some check | none ↦ rest ]

abbrev pub fails_for_known : NodeResult → Bool
fails_for_known node = not (node.passed || not node.determinate)

abbrev pub is_skipped_stage : StageState → Bool
is_skipped_stage state = elim state.outcome [ outcome_skipped ↦ true | _ ↦ false ]

abbrev pub is_unknown_stage : StageState → Bool
is_unknown_stage state = elim state.outcome [ outcome_unknown ↦ true | _ ↦ false ]

unfoldable pub all_scheduling_stages_skipped : Report → Bool
all_scheduling_stages_skipped report =
    is_skipped_stage report.enqueue.state
    && is_skipped_stage report.job_valid.state
    && is_skipped_stage report.allocate.state

abbrev pub is_preflight_failure : Check → Bool
is_preflight_failure check = (check.stage == "preflight") && is_executed_failure check

abbrev pub is_preflight_unknown : Check → Bool
is_preflight_unknown check =
    not (not (check.stage == "preflight") || check.determinate || check.skipped)

abbrev lacks_evidence : Check → Diagnosis
lacks_evidence check = record {
  root_cause = text "前置证据不足，无法继续调度分析：" ∷ text check.name ∷ text " — " ∷ check.reason;
  suggestions =
      plain "重试分析以重新读取 Kubernetes informer 缓存"
      ∷ plain "检查 Kubernetes API 连通性以及 informer 是否完成同步"
      ∷ [];
}

unfoldable pub diagnose_states : Report → Diagnosis
diagnose_states report =
    if is_unknown_stage report.enqueue.state
      || is_unknown_stage report.job_valid.state
      || is_unknown_stage report.allocate.state
    then diagnosis "现有规则和运行时证据不足以唯一确定 Pending 根因"
        ("查看页面中的灰色问号及其证据说明" ∷ "结合所选分支源码和 scheduler 日志继续分析插件私有状态" ∷ [])
    else diagnosis "常见 enqueue、JobValid 和节点过滤规则未发现确定失败"
        ("继续检查队列排序、公平性、抢占及绑定阶段的瞬时状态" ∷ "对照所选分支源码与 scheduler 日志确认实际执行路径" ∷ [])

unfoldable pub diagnose_nodes : Report → Diagnosis
unfolding failures_of_nodes ordered_node_check_ids common_failure different_failures diagnose_states
    diagnosis_for_failure
diagnose_nodes report =
    let nodes = report.allocate.nodes in
    let f = failures_of_nodes no_failures nodes in
    elim (common_failure f (length nodes) (ordered_node_check_ids nodes)) [
      | some check ↦ diagnosis_for_failure check report.enqueue.queue.name
      | none ↦
          if not (is_empty nodes) && all fails_for_known nodes
          then different_failures f
          else diagnose_states report
    ]

-- The loops over the checks of enqueue, the rows of jobValid and the nodes.
unfoldable pub diagnose_stages : Report → Diagnosis
unfolding first_check first_row_failure diagnose_nodes diagnosis_for_failure
diagnose_stages report = elim (first_check is_executed_failure report.enqueue.checks) [
  | some check ↦ diagnosis_for_failure check report.enqueue.queue.name
  | none ↦ elim (first_row_failure report.job_valid.rows) [
    | some check ↦ diagnosis_for_failure check report.enqueue.queue.name
    | none ↦ diagnose_nodes report
  ]
]

unfoldable pub diagnose_report : Report → Diagnosis
unfolding first_check diagnose_stages all_scheduling_stages_skipped diagnosis_for_failure
diagnose_report report = elim (first_check is_preflight_failure report.checks) [
  | some check ↦ diagnosis_for_failure check report.enqueue.queue.name
  | none ↦
      if not (all_scheduling_stages_skipped report)
      then diagnose_stages report
      else elim (first_check is_preflight_unknown report.checks) [
        | some check ↦ lacks_evidence check
        | none ↦ diagnose_stages report
      ]
]
