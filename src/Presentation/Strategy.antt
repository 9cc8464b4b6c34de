-- ===== src/Presentation/Strategy.antt =====
-- internal/agent/presentation.go: which plugin decides the quota of a queue.
use Prim.Native.String.{◌++◌ as ◌<>◌}
use volens.Base.{
  String, Bool, true, false, not, ◌&&◌, ◌||◌, none, some, List, [], ◌∷◌, ◌==◌, string_in,
  if◌then◌else◌,
}
use volens.Base.Dict.{lookup}
use volens.Base.Sort.{sort_strings}
use volens.Base.Chars.{lower_text}
use volens.Base.Text.{codes, contains}
use volens.Model.{ConfiguredPlugin, SchedulerPolicy}
use volens.Presentation.Activation.{tier_plugins}

unfoldable pub queue_base_strategy : String → String
queue_base_strategy strategy =
    if contains (codes strategy) (codes "capacity")
    then "capacity"
    else if contains (codes strategy) (codes "proportion")
    then "proportion"
    else ""

unfoldable pub queue_strategy_sources : String → List String
queue_strategy_sources strategy =
    if strategy == "capacity"
    then "pkg/scheduler/plugins/capacity/capacity.go:AddJobEnqueueableFn" ∷ []
    else if strategy == "proportion"
    then "pkg/scheduler/plugins/proportion/proportion.go:AddJobEnqueueableFn" ∷ []
    else "pkg/scheduler/plugins/proportion" ∷ "pkg/scheduler/plugins/capacity" ∷ []

unfoldable pub queue_strategy_note : String → String
unfolding queue_base_strategy
queue_strategy_note strategy =
    if queue_base_strategy strategy == "capacity"
    then "capacity uses the same enqueue quota formula; during allocate it limits tasks by realCapability-allocated and uses Queue.spec.deserved for ordering/share"
    else if queue_base_strategy strategy == "proportion"
    then "proportion uses this formula for enqueue; during allocate it computes fair-share deserved and limits tasks by deserved-allocated"
    else "no proportion or capacity JobEnqueueable rule is configured"

-- The variables of queueStrategy; the set of strategies is a list without repetition.
pub record Strategies : Type 0 where
  pub configured : Bool
  pub strategies : List String

-- `enabled, explicitlySet := …; explicitlySet && !enabled`
abbrev pub is_switched_off : ConfiguredPlugin → Bool
is_switched_off plugin = elim (lookup "enableJobEnqueued" plugin.explicit_options) [
  | none ↦ false
  | some enabled ↦ not enabled
]

unfoldable pub strategy_step : Strategies → ConfiguredPlugin → Strategies
strategy_step s plugin =
    let name = lower_text plugin.name in
    if not ((name == "proportion") || (name == "capacity")) then s else record {
      configured = true;
      strategies =
          if is_switched_off plugin || string_in name s.strategies
          then s.strategies
          else name ∷ s.strategies;
    }

unfoldable pub strategy_loop : Strategies → List ConfiguredPlugin → Strategies
unfolding strategy_step
strategy_loop s [] = s
strategy_loop s (plugin ∷ plugins) = strategy_loop (strategy_step s plugin) plugins

-- `strings.Join(ordered, " + ")`
abbrev pub join_strategies : List String → String
join_strategies [] = ""
join_strategies (name ∷ []) = name
join_strategies (name ∷ names) = name <> (" + " <> join_strategies names)

unfoldable pub queue_strategy : SchedulerPolicy → String
unfolding strategy_loop tier_plugins
queue_strategy policy =
    let s =
      strategy_loop (record { configured = false; strategies = [] }) (tier_plugins policy.tiers) in
    let strategy = join_strategies (sort_strings s.strategies) in
    if (strategy == "") && s.configured then "disabled" else strategy
