-- ===== src/Presentation/Capacity.antt =====
-- internal/agent/presentation.go: the checks of the queue: its snapshot, its PodGroups and its quota.
pub mod Formula
use Prim.Native.String.{◌++◌ as ◌<>◌}
use volens.Base.{
  String, Bool, true, false, not, Option, none, some, List, [], ◌∷◌, ◌++◌, ◌==◌, is_empty, length,
  if◌then◌else◌,
}
use volens.Base.Int.{ℤ, pos, ltb_ℤ, leb_ℤ}
use volens.Base.Dict.{Dict}
use volens.Base.Sort.{sort_by, sort_strings}
use volens.Cluster.{PodGroup}
use volens.Model.{
  Message, text, amount, number, plain, nil, of_queue_resources, Failure, Check, QueueResourceValue,
}
use volens.Model.Checks.{known, unknown, skipped}
use volens.Model.Reports.{QueueSummary}
use volens.Presentation.Strategy.{queue_base_strategy, queue_strategy_sources}

abbrev runtime_sources : List String
runtime_sources = "SIGUSR2 cache dump" ∷ "pkg/scheduler/cache/dumper.go" ∷ []

unfoldable pub queue_runtime_check : QueueSummary → Option Failure → Check
queue_runtime_check queue err = elim err [
  | some e ↦
      unknown "queue.runtime-snapshot" "enqueue" "Queue runtime resources" e.message nil
        runtime_sources
  | none ↦
      if not queue.runtime_determinate
      then unknown "queue.runtime-snapshot" "enqueue" "Queue runtime resources" queue.runtime_reason
          nil runtime_sources
      else known "queue.runtime-snapshot" "enqueue" "Queue runtime resources" true
          queue.runtime_reason runtime_sources
]

unfoldable pub queue_pod_groups_check : List PodGroup → Option Failure → Check
queue_pod_groups_check groups err = elim err [
  | some e ↦
      unknown "queue.podgroups" "enqueue" "Queue PodGroup snapshot" e.message nil
        ("PodGroup informer queue index" ∷ [])
  | none ↦
      known "queue.podgroups" "enqueue" "Queue PodGroup snapshot" true
        (text "loaded "
          ∷ number (pos (length groups))
          ∷ text " PodGroups from the informer cache"
          ∷ [])
        ("PodGroup informer queue index" ∷ [])
]

-- What the loop of queueCapacityCheck finds: the names with no available amount, and the names that
-- ask for more than is available, with the two amounts.
pub record Shortfalls : Type 0 where
  pub missing : List String
  pub uncertain : List (String × ℤ × ℤ)

unfoldable pub shortfall_step : Shortfalls → String → QueueResourceValue → Shortfalls
shortfall_step s name v = elim v.candidate [
  | none ↦ s
  | some candidate ↦ if leb_ℤ candidate (pos 0) then s else elim v.available [
    | none ↦ record s { missing = s.missing ++ name ∷ [] }
    | some available ↦
        if ltb_ℤ available candidate
        then record s { uncertain = s.uncertain ++ (name, candidate, available) ∷ [] }
        else s
  ]
]

unfoldable pub shortfall_loop : Shortfalls → Dict QueueResourceValue → Shortfalls
unfolding shortfall_step
shortfall_loop s [] = s
shortfall_loop s ((name, v) ∷ rest) = shortfall_loop (shortfall_step s name v) rest

-- `strings.Join(names, ", ")`
abbrev pub join_missing : List String → Message
join_missing [] = []
join_missing (name ∷ []) = text name ∷ []
join_missing (name ∷ names) = text name ∷ text ", " ∷ join_missing names

abbrev shortfall_text : String × ℤ × ℤ → Message
shortfall_text (name, candidate, available) =
    text name
    ∷ text " candidate "
    ∷ amount candidate
    ∷ text " > conservative available "
    ∷ amount available
    ∷ []

abbrev pub join_uncertain : List (String × ℤ × ℤ) → Message
join_uncertain [] = []
join_uncertain (s ∷ []) = shortfall_text s
join_uncertain (s ∷ rest) = shortfall_text s ++ text "; " ∷ join_uncertain rest

abbrev shortfalls : QueueSummary → Shortfalls
shortfalls queue = shortfall_loop (record { missing = []; uncertain = [] }) queue.resources

-- The texts of the names that ask for too much sort as these names do.
unfoldable pub judge_capacity : String → List String → QueueSummary → Check
unfolding shortfall_loop
judge_capacity check_name sources queue =
    let s = shortfalls queue in
    if not (is_empty s.missing)
    then unknown "queue.enqueue-capacity" "enqueue" check_name
        (text "local cache reconstruction is missing candidate dimensions: "
          ∷ join_missing (sort_strings s.missing))
        (of_queue_resources queue.resources) sources
    else if not (is_empty s.uncertain)
    then known "queue.enqueue-capacity" "enqueue" check_name false
        (join_uncertain (sort_by (λ u. u.0) s.uncertain)
          ++ text "; need=MinReq+allocated+inqueue-elastic exceeds realCapability" ∷ [])
        sources
    else known "queue.enqueue-capacity" "enqueue" check_name true
        (plain
          "need=MinReq+allocated+inqueue-elastic is <= realCapability in every requested dimension")
        sources

unfoldable pub queue_capacity_check : QueueSummary → Option Failure → Bool → Check
unfolding judge_capacity queue_base_strategy queue_strategy_sources
queue_capacity_check queue snapshot_err configuration_determinate =
    let strategy = queue_base_strategy queue.strategy in
    let sources = queue_strategy_sources strategy in
    let check_name =
      if strategy == ""
      then "Queue JobEnqueueable quota formula"
      else strategy <> " JobEnqueueable quota formula" in
    elim snapshot_err [
      | some e ↦
          unknown "queue.enqueue-capacity" "enqueue" check_name
            (text "the local scheduler cache snapshot was unavailable: " ∷ e.message)
            (of_queue_resources queue.resources) sources
      | none ↦
          if not configuration_determinate
          then unknown "queue.enqueue-capacity" "enqueue" check_name
              (plain
                "the scheduler ConfigMap could not be parsed deterministically, so the active queue plugin cannot be selected")
              (of_queue_resources queue.resources) sources
          else if strategy == ""
          then skipped "queue.enqueue-capacity" "enqueue" check_name
              (plain "neither proportion nor capacity is enabled in the scheduler plugin tiers")
              sources
          else judge_capacity check_name sources queue
    ]
