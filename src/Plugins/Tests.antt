-- ===== src/Plugins/Tests.antt =====
-- A policy with one plugin, and the source file that registers its hooks.
use volens.Base.{◌≡◌, false, true, none, [], ◌∷◌, any, all}
use volens.Model.{ConfiguredPlugin, SchedulerPolicy}
use volens.Model.Reports.{no_policy}
use volens.Report.Finalize.{is_plugin_failure}
use volens.Plugins.Names.{SourceFile}
use volens.Plugins.Inspect.{inspect_plugin_hooks}
use volens.Plugins.Verdict.{is_sound, inspect_plugin_hooks-is_sound}

abbrev gang : ConfiguredPlugin
gang = record {
  name = "gang";
  tier = 0;
  order = 0;
  argument_keys = [];
  option_keys = "enableJobReady" ∷ [];
  explicit_arguments = [];
  explicit_options = ("enableJobReady", false) ∷ [];
}

abbrev policy : SchedulerPolicy
policy = record no_policy {
  determinate = true;
  actions = "allocate" ∷ [];
  tiers = record { order = 0; plugins = gang ∷ [] } ∷ [];
}

abbrev file : SourceFile
file = record {
  path = "pkg/scheduler/plugins/gang/gang.go";
  plugin_names = "gang" ∷ [];
  hooks = "AddJobValidFn" ∷ "AddJobReadyFn" ∷ [];
}

inspect_plugin_hooks-is_sound_example :
    (all (is_sound policy.actions) (inspect_plugin_hooks [] none policy (file ∷ [])) ≡ true)
    × (any is_plugin_failure (inspect_plugin_hooks [] none policy (file ∷ [])) ≡ false)
inspect_plugin_hooks-is_sound_example = inspect_plugin_hooks-is_sound [] none policy (file ∷ [])
