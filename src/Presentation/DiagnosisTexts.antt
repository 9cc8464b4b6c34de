-- ===== src/Presentation/DiagnosisTexts.antt =====
-- internal/agent/presentation.go: diagnosisForFailure, what is said of one failed check.
use volens.Base.{ℕ, String, Bool, none, some, List, [], ◌∷◌, ◌++◌, ◌==◌, map, if◌then◌else◌}
use volens.Base.Dict.{Dict, lookup}
use volens.Base.Text.{codes, lower, contains}
use volens.Model.{Message, text, quoted, plain, Check}
use volens.Model.Reports.{Diagnosis}

abbrev pub diagnosis : String → List String → Diagnosis
diagnosis root_cause suggestions = record {
  root_cause = plain root_cause;
  suggestions = map plain suggestions;
}

-- The texts among the pieces of a reason. The reasons that are searched hold no other pieces.
unfoldable pub reason_codes : Message → List ℕ
reason_codes [] = []
reason_codes (text s ∷ rest) = codes s ++ reason_codes rest
reason_codes (quoted s ∷ rest) = codes s ++ reason_codes rest
reason_codes (other ∷ rest) = reason_codes rest

unfoldable pub mentions_quota : Message → Bool
unfolding reason_codes
mentions_quota reason =
    contains (lower (reason_codes reason)) (codes "queue resource quota insufficient")

abbrev pub queue_shortage : Diagnosis
queue_shortage =
    diagnosis "队列当前没有足够的可入队资源"
      ("释放该队列中已分配或已入队的资源" ∷ "等待运行中的 PodGroup 完成，或调整 Queue capability/guarantee" ∷ [])

-- The cases of the switch that have a fixed text.
abbrev pub fixed_diagnoses : Dict Diagnosis
fixed_diagnoses =
    ("task.exists", diagnosis "目标 Pod 不存在或已经被删除" ("刷新 Pending Pod 列表后重新选择目标" ∷ []))
    ∷ (
      "task.pending",
      diagnosis "目标 Pod 不属于未绑定的 Pending 调度问题" ("若 Pod 已绑定节点，请转查 kubelet、容器运行时、镜像或卷挂载" ∷ []),
    )
    ∷ (
      "task.unbound",
      diagnosis "目标 Pod 不属于未绑定的 Pending 调度问题" ("若 Pod 已绑定节点，请转查 kubelet、容器运行时、镜像或卷挂载" ∷ []),
    )
    ∷ (
      "task.scheduler",
      diagnosis "目标 Pod 没有可用的 Volcano scheduler 实例处理" (
          "核对 Pod spec.schedulerName 与 vc-scheduler 启动参数" ∷ "恢复 Volcano scheduler Pod Ready 状态"
          ∷ []),
    )
    ∷ (
      "task.scheduling-gates",
      diagnosis "Pod 仍带有 Kubernetes scheduling gate" ("由负责该 gate 的控制器移除 gate 后再分析 Volcano 调度" ∷ []),
    )
    ∷ (
      "job.podgroup",
      diagnosis "Pod 缺少有效的 PodGroup 关联"
          ("检查 scheduling.k8s.io/group-name" ∷ "确认同命名空间 PodGroup 已创建且名称一致" ∷ []),
    )
    ∷ (
      "job.podgroup.exists",
      diagnosis "Pod 缺少有效的 PodGroup 关联"
          ("检查 scheduling.k8s.io/group-name" ∷ "确认同命名空间 PodGroup 已创建且名称一致" ∷ []),
    )
    ∷ ("queue.enqueue-capacity", queue_shortage)
    ∷ (
      "node.resources",
      diagnosis "没有节点具备足够的 Volcano 可用资源" ("释放节点资源或扩容集群" ∷ "降低 Pod 请求，或等待 releasing 资源真正回收" ∷ []),
    )
    ∷ (
      "allocate.nodes",
      diagnosis "没有节点具备足够的 Volcano 可用资源" ("释放节点资源或扩容集群" ∷ "降低 Pod 请求，或等待 releasing 资源真正回收" ∷ []),
    )
    ∷ (
      "node.taints",
      diagnosis "所有候选节点都存在 Pod 未容忍的污点" ("为 Pod 增加正确的 toleration" ∷ "仅在符合运维策略时移除节点污点" ∷ []),
    )
    ∷ (
      "node.selector",
      diagnosis "Pod 的节点选择或必需亲和性排除了所有候选节点"
          ("修正 nodeSelector/required nodeAffinity" ∷ "为符合条件的节点补充正确标签" ∷ []),
    )
    ∷ (
      "node.affinity",
      diagnosis "Pod 的节点选择或必需亲和性排除了所有候选节点"
          ("修正 nodeSelector/required nodeAffinity" ∷ "为符合条件的节点补充正确标签" ∷ []),
    )
    ∷ []

unfoldable pub diagnosis_for_failure : Check → String → Diagnosis
unfolding mentions_quota
diagnosis_for_failure check queue_name = elim (lookup check.id fixed_diagnoses) [
  | some d ↦ d
  | none ↦
      if check.id == "job.queue.exists"
      then record {
        root_cause = plain "PodGroup 所属队列不存在";
        suggestions = (text "创建或修正队列 " ∷ text queue_name ∷ []) ∷ plain "确认 scheduler 的默认队列参数" ∷ [];
      }
      else if check.id == "job.enqueue.evidence"
      then (if mentions_quota check.reason then queue_shortage else record {
        root_cause = text "Volcano 入队阶段或 JobEnqueueable 插件拒绝了 PodGroup：" ∷ check.reason;
        suggestions =
            plain "根据拒绝原因定位对应的 JobEnqueueable 插件和配置" ∷ plain "结合 scheduler 日志与所选分支源码确认插件私有状态" ∷ [];
      })
      else record {
        root_cause = text check.name ∷ text " 未通过：" ∷ check.reason;
        suggestions = plain "先处理该确定失败项，再重新运行分析" ∷ [];
      }
]
