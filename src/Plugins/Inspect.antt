-- ===== src/Plugins/Inspect.antt =====
-- internal/agent/runtime/plugins.go: InspectPluginHooks, the reports on the hooks of every action.
use volens.Base.{
  ℕ, suc, String, Bool, true, false, not, ◌||◌, Option, none, some, List, [], ◌∷◌, ◌++◌, is_empty,
  string_in, if◌then◌else◌,
}
use volens.Base.Dict.{Dict, lookup, get_or}
use volens.Model.{text, plain, Failure, ConfiguredPlugin, PluginTier, SchedulerPolicy}
use volens.Model.Reports.{PluginHookReport}
use volens.Plugins.Names.{SourceFile}
use volens.Plugins.{
  HookDefinition, action_hooks, Registration, no_registration, configured_plugin_key,
  register_tiers, Effective, effective_hook_option,
}

unfoldable pub decided_report : Effective → PluginHookReport → PluginHookReport
decided_report e report =
    if not e.determinate
    then record report {
      reason = report.reason ++ text "; runtime execution cannot be decided" ∷ [];
    }
    else if not e.enabled
    then record report {
      passed = true;
      determinate = true;
      reason = report.reason ++ text "; the hook is skipped" ∷ [];
    }
    else record report {
      reason =
          report.reason
          ++ text
              "; the hook is registered and enabled, but its result depends on scheduler Session state and plugin logic"
            ∷ [];
    }

-- `unmatchedReported`, and the reports so far.
pub record Inspection : Type 0 where
  pub unmatched_reported : List String
  pub reports : List PluginHookReport

unfoldable pub unmatched_report : String → ℕ → ConfiguredPlugin → PluginHookReport
unmatched_report action phase plugin = record {
  action = action;
  phase = phase;
  tier = plugin.tier;
  order = plugin.order;
  plugin = plugin.name;
  hook = "source hook registration";
  enabled = false;
  enabled_determinate = false;
  passed = false;
  determinate = false;
  reason =
      plain
        "the configured plugin is not present in the selected branch hook index; the chosen branch may not match the scheduler image or the plugin may be delivered outside this Volcano source tree";
  source = [];
}

module _ (defaults : Dict Bool) (defaults_err : Option Failure) where
  unfoldable pub plugin_hook_report :
      String → ℕ → ConfiguredPlugin → HookDefinition → List String → PluginHookReport
  unfolding decided_report effective_hook_option
  plugin_hook_report action phase plugin definition source_paths =
      let e = effective_hook_option plugin definition defaults defaults_err in
      decided_report e (record {
        action = action;
        phase = phase;
        tier = plugin.tier;
        order = plugin.order;
        plugin = plugin.name;
        hook = definition.name;
        enabled = e.enabled;
        enabled_determinate = e.determinate;
        passed = false;
        determinate = false;
        reason = e.reason;
        source = source_paths;
      })

  unfoldable pub inspect_plugin :
      Dict Registration → String → ℕ → HookDefinition → Inspection → ConfiguredPlugin → Inspection
  unfolding plugin_hook_report unmatched_report configured_plugin_key
  inspect_plugin registrations action phase definition s plugin =
      let key = configured_plugin_key plugin in
      let registration = get_or no_registration key registrations in
      if not registration.matched
      then (if string_in key s.unmatched_reported then s else record {
        unmatched_reported = key ∷ s.unmatched_reported;
        reports = s.reports ++ unmatched_report action phase plugin ∷ [];
      })
      else elim (lookup definition.name registration.hooks) [
        | none ↦ s
        | some source_paths ↦ record s {
          reports =
              s.reports ++ plugin_hook_report action phase plugin definition source_paths ∷ [];
        }
      ]

  unfoldable pub plugin_loop :
      Dict Registration
      → String
      → ℕ
      → HookDefinition
      → Inspection
      → List ConfiguredPlugin
      → Inspection
  unfolding inspect_plugin
  plugin_loop registrations action phase definition s [] = s
  plugin_loop registrations action phase definition s (plugin ∷ plugins) =
      plugin_loop registrations action phase definition
        (inspect_plugin registrations action phase definition s plugin) plugins

  unfoldable pub tier_loop :
      Dict Registration → String → ℕ → HookDefinition → Inspection → List PluginTier → Inspection
  unfolding plugin_loop
  tier_loop registrations action phase definition s [] = s
  tier_loop registrations action phase definition s (tier ∷ tiers) =
      tier_loop registrations action phase definition
        (plugin_loop registrations action phase definition s tier.plugins) tiers

  unfoldable pub definition_loop :
      Dict Registration
      → String
      → List PluginTier
      → ℕ
      → Inspection
      → List HookDefinition
      → Inspection
  unfolding tier_loop
  definition_loop registrations action tiers phase s [] = s
  definition_loop registrations action tiers phase s (definition ∷ definitions) =
      definition_loop registrations action tiers (suc phase)
        (tier_loop registrations action phase definition s tiers) definitions

  -- The reports of one action are found with an empty set of unmatched plugins.
  unfoldable pub inspect_action :
      Dict Registration → List PluginTier → String → List PluginHookReport
  unfolding definition_loop
  inspect_action registrations tiers action = elim (lookup action action_hooks) [
    | none ↦ []
    | some definitions ↦
        (definition_loop registrations action tiers 0
          (record { unmatched_reported = []; reports = [] }) definitions).reports
  ]

  unfoldable pub action_loop :
      Dict Registration → List PluginTier → List String → List PluginHookReport
  unfolding inspect_action
  action_loop registrations tiers [] = []
  action_loop registrations tiers (action ∷ actions) =
      inspect_action registrations tiers action ++ action_loop registrations tiers actions

  unfoldable pub inspect_plugin_hooks : SchedulerPolicy → List SourceFile → List PluginHookReport
  unfolding action_loop register_tiers
  inspect_plugin_hooks policy sources =
      if is_empty policy.actions || is_empty policy.tiers
      then []
      else action_loop (register_tiers [] policy.tiers sources) policy.tiers policy.actions
