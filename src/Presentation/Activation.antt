-- ===== src/Presentation/Activation.antt =====
-- internal/agent/presentation.go: whether the predicates plugin runs a node's check.
use Prim.Native.String.{◌++◌ as ◌<>◌}
use volens.Base.{
  String, Bool, true, false, not, ◌&&◌, ◌||◌, none, some, List, [], ◌∷◌, ◌++◌, ◌==◌, string_in,
  if◌then◌else◌,
}
use volens.Base.Dict.{Dict, lookup}
use volens.Model.{Message, text, plain, ConfiguredPlugin, PluginTier}
use volens.Model.Reports.{PluginHookReport, Report}
use volens.Presentation.Hooks.{folds_to}

pub data PluginActivation : Type 0 where
  activation_unknown activation_disabled activation_enabled : PluginActivation

abbrev pub predicate_check_ids : List String
predicate_check_ids =
    "node.selector" ∷ "node.affinity" ∷ "node.schedulable" ∷ "node.taints" ∷ "node.pod-count"
    ∷ "node.ports" ∷ "node.pod-affinity" ∷ "node.volume-limits" ∷ "node.volume-zone"
    ∷ "node.topology-spread" ∷ "node.proportional" ∷ []

-- The plugins of all tiers, in the order of the two nested loops over them.
unfoldable pub tier_plugins : List PluginTier → List ConfiguredPlugin
tier_plugins [] = []
tier_plugins (tier ∷ tiers) = tier.plugins ++ tier_plugins tiers

abbrev pub is_predicates : ConfiguredPlugin → Bool
is_predicates plugin = folds_to plugin.name "predicates"

unfoldable pub configures_predicates : List ConfiguredPlugin → Bool
configures_predicates [] = false
configures_predicates (plugin ∷ plugins) = is_predicates plugin || configures_predicates plugins

abbrev pub is_predicate_hook : PluginHookReport → Bool
is_predicate_hook hook =
    folds_to hook.plugin "predicates"
    && ((hook.hook == "AddPrePredicateFn") || (hook.hook == "AddPredicateFn"))
    && ((hook.action == "allocate") || (hook.action == "backfill"))

-- The flags of the loop over the hooks.
pub record HookFlags : Type 0 where
  pub found : Bool
  pub unknown_seen : Bool
  pub disabled : Bool

abbrev pub after_hooks : HookFlags → PluginActivation × Message
after_hooks f =
    if f.unknown_seen
    then (
      activation_unknown,
      plain
          "predicates enablement cannot be determined from the active ConfigMap and selected branch defaults",
    )
    else if f.found && f.disabled
    then (
      activation_disabled,
      plain "all discovered predicates hooks are disabled by the active plugin configuration",
    )
    else (
      activation_unknown,
      plain "ConfigMap 配置了 predicates，但所选分支源码没有匹配到 Predicate 注册；分支可能与 scheduler 镜像不一致",
    )

unfoldable pub activation_loop : HookFlags → List PluginHookReport → PluginActivation × Message
activation_loop f [] = after_hooks f
activation_loop f (hook ∷ hooks) =
    let seen = is_predicate_hook hook in
    let rest =
      activation_loop
        (record {
          found = f.found || seen;
          unknown_seen = f.unknown_seen || seen && not hook.enabled_determinate;
          disabled = f.disabled || seen && hook.enabled_determinate;
        })
        hooks in
    if seen && hook.enabled_determinate && hook.enabled
    then (activation_enabled, hook.reason)
    else rest

unfoldable pub predicates_activation : Report → PluginActivation × Message
unfolding tier_plugins configures_predicates activation_loop
predicates_activation report =
    if not report.policy.active_determinate
    then (
      activation_unknown,
      plain "ConfigMap 已读取，但尚未从 scheduler 日志确认该版本已加载到当前 Session (not proven active)；以下仅是本地规则投影",
    )
    else if not (configures_predicates (tier_plugins report.policy.tiers))
    then (
      activation_disabled,
      plain "predicates is not configured in the active scheduler plugin tiers",
    )
    else if not report.hooks_inspected
    then (activation_unknown, plain "所选分支的插件注册源码未完成索引")
    else activation_loop (record { found = false; unknown_seen = false; disabled = false })
        report.plugin_hooks

abbrev pub predicate_argument_by_check : Dict String
predicate_argument_by_check =
    ("node.selector", "predicate.NodeAffinityEnable")
    ∷ ("node.affinity", "predicate.NodeAffinityEnable")
    ∷ ("node.taints", "predicate.TaintTolerationEnable")
    ∷ ("node.ports", "predicate.NodePortsEnable")
    ∷ ("node.pod-affinity", "predicate.PodAffinityEnable")
    ∷ ("node.volume-limits", "predicate.NodeVolumeLimitsEnable")
    ∷ ("node.volume-zone", "predicate.VolumeZoneEnable")
    ∷ ("node.topology-spread", "predicate.PodTopologySpreadEnable")
    ∷ ("node.proportional", "predicate.ProportionalEnable")
    ∷ []

unfoldable pub contains_value : List String → String → Bool
contains_value values wanted = string_in wanted values

-- What one predicates plugin says of an argument: `on` ends the loop, `off` sets `disabled` and
-- `unclear` sets `unknown`.
pub data Setting : Type 0 where
  on : Message → Setting
  off unclear : Setting

unfoldable pub argument_setting : Dict Bool → String → ConfiguredPlugin → Setting
unfolding contains_value
argument_setting defaults argument plugin = elim (lookup argument plugin.explicit_arguments) [
  | some true ↦ on (text ("ConfigMap explicitly sets " <> (argument <> "=true")) ∷ [])
  | some false ↦ off
  | none ↦
      if contains_value plugin.argument_keys argument
      then unclear
      else elim (lookup argument defaults) [
        | some true ↦ on (text ("selected branch defaults " <> (argument <> "=true")) ∷ [])
        | some false ↦ off
        | none ↦ unclear
      ]
]

pub record ArgumentFlags : Type 0 where
  pub found_plugin : Bool
  pub unknown_seen : Bool
  pub disabled : Bool

abbrev pub after_plugins : Report → String → ArgumentFlags → PluginActivation × Message
after_plugins report argument f =
    if not f.found_plugin
    then (
      activation_disabled,
      plain "predicates is not configured in the active scheduler plugin tiers",
    )
    else if f.unknown_seen
    then (
      activation_unknown,
      text ("the effective predicates argument " <> (argument <> " is unknown"))
          ∷ (if report.predicate_defaults_err == ""
              then []
              else text (": " <> report.predicate_defaults_err) ∷ []),
    )
    else if f.disabled
    then (
      activation_disabled,
      text ("ConfigMap or selected branch default sets " <> (argument <> "=false")) ∷ [],
    )
    else (
      activation_unknown,
      text ("the effective predicates argument " <> (argument <> " is unavailable")) ∷ [],
    )

-- The loop over the plugins, with the setting of a plugin of another name left out.
unfoldable pub argument_loop :
    Report → String → ArgumentFlags → List ConfiguredPlugin → PluginActivation × Message
unfolding argument_setting
argument_loop report argument f [] = after_plugins report argument f
argument_loop report argument f (plugin ∷ plugins) = elim (is_predicates plugin) [
  | false ↦ argument_loop report argument f plugins
  | true ↦ elim (argument_setting report.predicate_defaults argument plugin) [
    | on reason ↦ (activation_enabled, reason)
    | off ↦
        argument_loop report argument (record f { found_plugin = true; disabled = true }) plugins
    | unclear ↦
        argument_loop report argument (record f { found_plugin = true; unknown_seen = true })
          plugins
  ]
]

unfoldable pub predicate_check_activation : Report → String → PluginActivation × Message
unfolding argument_loop tier_plugins
predicate_check_activation report check_id = elim (lookup check_id predicate_argument_by_check) [
  | none ↦ (
    activation_enabled,
    plain "the predicates hook always runs this check when the plugin is enabled",
  )
  | some argument ↦
      argument_loop report argument
        (record { found_plugin = false; unknown_seen = false; disabled = false })
        (tier_plugins report.policy.tiers)
]

unfoldable pub may_loop : Dict Bool → String → List ConfiguredPlugin → Bool
unfolding contains_value
may_loop defaults argument [] = elim (lookup argument defaults) [
  | none ↦ false
  | some value ↦ value
]
may_loop defaults argument (plugin ∷ plugins) =
    let rest = may_loop defaults argument plugins in
    if not (is_predicates plugin) then rest else elim (lookup argument plugin.explicit_arguments) [
      | some value ↦ value
      | none ↦ if contains_value plugin.argument_keys argument then true else rest
    ]

unfoldable pub predicate_may_be_enabled : String → Report → Bool
unfolding may_loop tier_plugins
predicate_may_be_enabled check_id report = elim (lookup check_id predicate_argument_by_check) [
  | none ↦ true
  | some argument ↦ may_loop report.predicate_defaults argument (tier_plugins report.policy.tiers)
]
