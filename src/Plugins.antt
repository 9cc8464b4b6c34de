-- ===== src/Plugins.antt =====
-- internal/agent/runtime/plugins.go: the hooks that the configured plugins register for each action.
pub mod Names
pub mod Inspect
pub mod Verdict
mod Tests
use Prim.Native.String.{◌++◌ as ◌<>◌}
use volens.Base.{
  String, Bool, true, false, not, Option, none, some, List, [], ◌∷◌, ◌++◌, ◌==◌, string_in,
  if◌then◌else◌,
}
use volens.Base.Chars.{decimal}
use volens.Base.Dict.{Dict, lookup, insert, get_or}
use volens.Base.Sort.{sort_strings}
use volens.Model.{Message, text, flag, plain, Failure, ConfiguredPlugin, PluginTier}
use volens.Plugins.Names.{SourceFile, source_belongs_to_plugin}

-- `hookDefinition`: `option` is "" where the hook has no switch.
pub record HookDefinition : Type 0 where
  pub name : String
  pub option : String

abbrev hook : String → String → HookDefinition
hook name option = record { name = name; option = option }

abbrev node_order_hooks : List HookDefinition
node_order_hooks =
    hook "AddBatchNodeOrderFn" "enableNodeOrder"
    ∷ hook "AddNodeOrderFn" "enableNodeOrder"
    ∷ hook "AddNodeMapFn" "enableNodeOrder"
    ∷ hook "AddNodeReduceFn" "enableNodeOrder"
    ∷ []

abbrev predicate_hooks : List HookDefinition
predicate_hooks =
    hook "AddPrePredicateFn" "enablePredicate" ∷ hook "AddPredicateFn" "enablePredicate" ∷ []

abbrev pub action_hooks : Dict (List HookDefinition)
action_hooks =
    (
      "enqueue",
      hook "AddQueueOrderFn" "enableQueueOrder"
          ∷ hook "AddJobOrderFn" "enableJobOrder"
          ∷ hook "AddJobEnqueueableFn" "enableJobEnqueued"
          ∷ hook "AddJobEnqueuedFn" "enableJobEnqueued"
          ∷ [],
    )
    ∷ (
      "allocate",
      hook "AddJobValidFn" ""
          ∷ hook "AddQueueOrderFn" "enableQueueOrder"
          ∷ hook "AddOverusedFn" "enabledOverused"
          ∷ hook "AddJobOrderFn" "enableJobOrder"
          ∷ hook "AddTaskOrderFn" "enableTaskOrder"
          ∷ hook "AddAllocatableFn" "enabledAllocatable"
          ∷ (predicate_hooks
              ++ (node_order_hooks
                  ++ hook "AddBestNodeFn" "enableBestNode"
                    ∷ hook "AddJobReadyFn" "enableJobReady"
                    ∷ hook "AddJobPipelinedFn" "enableJobPipelined"
                    ∷ [])),
    )
    ∷ (
      "backfill",
      hook "AddJobValidFn" ""
          ∷ hook "AddQueueOrderFn" "enableQueueOrder"
          ∷ hook "AddJobOrderFn" "enableJobOrder"
          ∷ hook "AddTaskOrderFn" "enableTaskOrder"
          ∷ (predicate_hooks ++ (node_order_hooks ++ hook "AddBestNodeFn" "enableBestNode" ∷ [])),
    )
    ∷ (
      "reclaim",
      hook "AddJobValidFn" ""
          ∷ hook "AddQueueOrderFn" "enableQueueOrder"
          ∷ hook "AddOverusedFn" "enabledOverused"
          ∷ hook "AddPreemptiveFn" "enablePreemptive"
          ∷ hook "AddJobOrderFn" "enableJobOrder"
          ∷ hook "AddTaskOrderFn" "enableTaskOrder"
          ∷ hook "AddAllocatableFn" "enabledAllocatable"
          ∷ (predicate_hooks ++ hook "AddReclaimableFn" "enableReclaimable" ∷ []),
    )
    ∷ (
      "preempt",
      hook "AddJobValidFn" ""
          ∷ hook "AddJobStarvingFns" "enableJobStarving"
          ∷ hook "AddJobOrderFn" "enableJobOrder"
          ∷ hook "AddTaskOrderFn" "enableTaskOrder"
          ∷ (predicate_hooks
              ++ (node_order_hooks
                  ++ hook "AddPreemptableFn" "enablePreemptable"
                    ∷ hook "AddAllocatableFn" "enabledAllocatable"
                    ∷ hook "AddJobPipelinedFn" "enableJobPipelined"
                    ∷ hook "AddVictimTasksFns" "enabledVictim"
                    ∷ [])),
    )
    ∷ []

-- `pluginSourceRegistration`
pub record Registration : Type 0 where
  pub matched : Bool
  pub hooks : Dict (List String)

unfoldable pub register_hooks : Dict (List String) → String → List String → Dict (List String)
register_hooks registered path [] = registered
register_hooks registered path (hook ∷ hooks) =
    register_hooks (insert hook (get_or [] hook registered ++ path ∷ []) registered) path hooks

unfoldable pub registration_loop : Registration → String → List SourceFile → Registration
unfolding register_hooks
registration_loop r name [] = r
registration_loop r name (file ∷ files) =
    registration_loop
      (if source_belongs_to_plugin file name
        then record { matched = true; hooks = register_hooks r.hooks file.path file.hooks }
        else r)
      name files

unfoldable pub sort_paths : Dict (List String) → Dict (List String)
sort_paths [] = []
sort_paths ((hook, paths) ∷ rest) = (hook, sort_strings paths) ∷ sort_paths rest

abbrev pub no_registration : Registration
no_registration = record { matched = false; hooks = [] }

unfoldable pub plugin_registration : String → List SourceFile → Registration
unfolding registration_loop sort_paths
plugin_registration name sources =
    let r = registration_loop no_registration name sources in
    record r { hooks = sort_paths r.hooks }

-- `"%d/%d/%s"`
unfoldable pub configured_plugin_key : ConfiguredPlugin → String
configured_plugin_key plugin =
    decimal plugin.tier <> ("/" <> (decimal plugin.order <> ("/" <> plugin.name)))

unfoldable pub register_plugins :
    Dict Registration → List ConfiguredPlugin → List SourceFile → Dict Registration
unfolding plugin_registration
register_plugins result [] sources = result
register_plugins result (plugin ∷ plugins) sources =
    register_plugins
      (insert (configured_plugin_key plugin) (plugin_registration plugin.name sources) result)
      plugins sources

unfoldable pub register_tiers :
    Dict Registration → List PluginTier → List SourceFile → Dict Registration
unfolding register_plugins
register_tiers result [] sources = result
register_tiers result (tier ∷ tiers) sources =
    register_tiers (register_plugins result tier.plugins sources) tiers sources

-- The results of effectiveHookOption.
pub record Effective : Type 0 where
  pub enabled : Bool
  pub determinate : Bool
  pub reason : Message

unfoldable pub effective_hook_option :
    ConfiguredPlugin → HookDefinition → Dict Bool → Option Failure → Effective
effective_hook_option plugin definition defaults defaults_err =
    let option = definition.option in
    if option == ""
    then record {
      enabled = true;
      determinate = true;
      reason = plain "this hook has no PluginOption enable switch in the Volcano framework";
    }
    else elim (lookup option plugin.explicit_options) [
      | some value ↦ record {
        enabled = value;
        determinate = true;
        reason = text "ConfigMap explicitly sets " ∷ text option ∷ text "=" ∷ flag value ∷ [];
      }
      | none ↦
          if string_in option plugin.option_keys
          then record {
            enabled = false;
            determinate = false;
            reason =
                text "ConfigMap sets "
                ∷ text option
                ∷ text
                    " to a non-boolean value; the scheduler parser outcome cannot be inferred safely"
                ∷ [];
          }
          else elim defaults_err [
            | some e ↦ record {
              enabled = false;
              determinate = false;
              reason =
                  text "ConfigMap omits "
                  ∷ text option
                  ∷ text " and selected-branch defaults could not be parsed: "
                  ∷ e.message;
            }
            | none ↦ elim (lookup option defaults) [
              | some value ↦ record {
                enabled = value;
                determinate = true;
                reason =
                    text "ConfigMap omits "
                    ∷ text option
                    ∷ text "; selected-branch ApplyPluginConfDefaults sets it to "
                    ∷ flag value
                    ∷ [];
              }
              | none ↦ record {
                enabled = false;
                determinate = false;
                reason =
                    text "ConfigMap omits "
                    ∷ text option
                    ∷ text " and the selected branch does not expose a reliably parsed default"
                    ∷ [];
              }
            ]
          ]
    ]
