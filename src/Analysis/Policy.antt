-- ===== src/Analysis/Policy.antt =====
-- internal/agent/runtime/policy.go: the scheduler's policy as the analysis observes it.
use volens.Base.{
  ℕ, suc, String, Bool, true, false, not, Option, none, some, List, [], ◌∷◌, if◌then◌else◌,
}
use volens.Base.Dict.{Dict, keys, insert}
use volens.Base.Sort.{sort_strings}
use volens.Model.{
  ConfiguredPlugin, PluginTier, text, strings, plain, nil, of_policy, of_text, object, end, field,
  Failure, Check, SchedulerPolicy,
}
use volens.Model.Checks.{known, unknown, with_evidence}

-- A value of the configuration (`any`): a boolean, or anything else that YAML gives.
pub data ConfigValue : Type 0 where
  boolean : Bool → ConfigValue
  other : ConfigValue

pub record SchedulerPlugin : Type 0 where
  pub name : String
  pub arguments : Dict ConfigValue
  pub options : Dict ConfigValue

pub record SchedulerTier : Type 0 where
  pub plugins : List SchedulerPlugin

-- `SchedulerRuntimeConfig`, without the configurations and the metrics.
pub record SchedulerRuntimeConfig : Type 0 where
  pub determinate : Bool
  pub reason : String
  pub scheduler_namespace : String
  pub scheduler_pod : String
  pub scheduler_uid : String
  pub scheduler_conf_path : String
  pub config_map_namespace : String
  pub config_map_name : String
  pub config_map_key : String
  pub config_map_uid : String
  pub config_map_resource_version : String
  pub actions : List String
  pub tiers : List SchedulerTier

abbrev pub scheduler_policy_sources : List String
scheduler_policy_sources =
    "pkg/scheduler/util.go:UnmarshalSchedulerConf" ∷ "pkg/scheduler/scheduler.go:runOnce"
    ∷ "pkg/scheduler/framework/framework.go:OpenSession" ∷ []

unfoldable pub sorted_keys : Dict ConfigValue → List String
sorted_keys values = sort_strings (keys values)

boolean_loop : Dict Bool → Dict ConfigValue → Dict Bool
boolean_loop options [] = options
boolean_loop options ((key, boolean b) ∷ values) = boolean_loop (insert key b options) values
boolean_loop options ((key, other) ∷ values) = boolean_loop options values

-- The empty map where the source returns the nil map.
unfoldable pub boolean_options : Dict ConfigValue → Dict Bool
unfolding boolean_loop
boolean_options values = boolean_loop [] values

unfoldable pub configured_plugins : ℕ → ℕ → List SchedulerPlugin → List ConfiguredPlugin
unfolding sorted_keys boolean_options
configured_plugins tier order [] = []
configured_plugins tier order (p ∷ ps) =
    record {
      name = p.name;
      tier = tier;
      order = order;
      argument_keys = sorted_keys p.arguments;
      option_keys = sorted_keys p.options;
      explicit_arguments = boolean_options p.arguments;
      explicit_options = boolean_options p.options;
    }
    ∷ configured_plugins tier (suc order) ps

unfoldable pub plugin_tiers : ℕ → List SchedulerTier → List PluginTier
unfolding configured_plugins
plugin_tiers order [] = []
plugin_tiers order (tier ∷ tiers) =
    record { order = order; plugins = configured_plugins order 0 tier.plugins }
    ∷ plugin_tiers (suc order) tiers

unfoldable pub scheduler_policy : SchedulerRuntimeConfig → SchedulerPolicy
unfolding plugin_tiers
scheduler_policy c = record {
  determinate = c.determinate;
  active_determinate = false;
  reason = c.reason;
  scheduler_namespace = c.scheduler_namespace;
  scheduler_pod = c.scheduler_pod;
  scheduler_uid = c.scheduler_uid;
  scheduler_conf_path = c.scheduler_conf_path;
  config_map_namespace = c.config_map_namespace;
  config_map_name = c.config_map_name;
  config_map_key = c.config_map_key;
  config_map_uid = c.config_map_uid;
  config_map_resource_version = c.config_map_resource_version;
  actions = c.actions;
  tiers = plugin_tiers 0 c.tiers;
}

unfoldable pub observe_policy :
    SchedulerRuntimeConfig → Option Failure → SchedulerPolicy × List Check
unfolding scheduler_policy
observe_policy c (some e) = (
  scheduler_policy c,
  unknown "scheduler.policy.observed" "preflight" "Scheduler policy loaded from informer cache"
        e.message nil scheduler_policy_sources
      ∷ [],
)
observe_policy c none =
    let policy = scheduler_policy c in
    if not c.determinate
    then (
      policy,
      unknown "scheduler.policy.observed" "preflight" "Scheduler policy loaded from informer cache"
            (plain c.reason) (of_policy policy) scheduler_policy_sources
          ∷ [],
    )
    else (
      policy,
      with_evidence (of_policy policy) (
            known "scheduler.policy.observed" "preflight" "Mounted scheduler ConfigMap parsed" true
              (text "observed "
                ∷ text c.config_map_namespace
                ∷ text "/"
                ∷ text c.config_map_name
                ∷ text " key="
                ∷ text c.config_map_key
                ∷ text " uid="
                ∷ text c.config_map_uid
                ∷ text " resourceVersion="
                ∷ text c.config_map_resource_version
                ∷ text "; actions="
                ∷ strings c.actions
                ∷ [])
              scheduler_policy_sources)
          ∷ unknown "scheduler.policy.active" "preflight"
              "Observed scheduler policy is active in memory"
              (plain
                "the ConfigMap informer proves the mounted document version, but volume projection and scheduler fsnotify reload are eventually consistent; scheduler reload logs are required to prove the in-memory Session uses it")
              (object (
                field "configMapUID" (of_text c.config_map_uid)
                  (field "configMapResourceVersion" (of_text c.config_map_resource_version) end)))
              scheduler_policy_sources
          ∷ [],
    )
