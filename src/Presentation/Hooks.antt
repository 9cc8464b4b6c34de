-- ===== src/Presentation/Hooks.antt =====
-- internal/agent/presentation.go: the checks that stand for the hooks of the plugins.
use Prim.Native.String.{◌++◌ as ◌<>◌}
use volens.Base.{
  suc, String, Bool, false, not, ◌&&◌, ◌||◌, List, [], ◌∷◌, ◌++◌, ◌==◌, any, all, string_in,
  if◌then◌else◌,
}
use volens.Base.Chars.{chars, text_of, drop_chars, decimal, starts_with}
use volens.Base.Text.{codes, equal_fold}
use volens.Model.{text, nil, Check, SchedulerPolicy}
use volens.Model.Checks.{known, unknown, skipped}
use volens.Model.Reports.{PluginHookReport, Report}
use volens.Presentation.Checks.{identifier}

-- `strings.TrimPrefix(hook, "Add")`
abbrev pub without_add : String → String
without_add hook = if starts_with hook "Add" then text_of (drop_chars 3 (chars hook)) else hook

-- `"%d/%d/%s"` of tier, order and plugin
abbrev pub place_key : PluginHookReport → String
place_key hook = decimal hook.tier <> ("/" <> (decimal hook.order <> ("/" <> hook.plugin)))

abbrev pub hook_key : PluginHookReport → String
hook_key hook = place_key hook <> ("/" <> hook.hook)

-- `"plugin.%s.t%d-p%d."`
abbrev place_id : PluginHookReport → String
place_id hook =
    "plugin."
    <> (identifier hook.plugin
        <> (".t" <> (decimal (suc hook.tier) <> ("-p" <> (decimal (suc hook.order) <> ".")))))

-- `"T%d.%d %s "`
abbrev place_name : PluginHookReport → String
place_name hook =
    "T"
    <> (decimal (suc hook.tier)
        <> ("." <> (decimal (suc hook.order) <> (" " <> (hook.plugin <> " ")))))

unfoldable pub hook_check : String → PluginHookReport → Check
hook_check stage hook =
    let id = place_id hook <> identifier hook.hook in
    let name = place_name hook <> without_add hook.hook in
    if not hook.enabled_determinate
    then unknown id stage name hook.reason nil hook.source
    else if not hook.enabled
    then skipped id stage name hook.reason hook.source
    else if hook.determinate
    then known id stage name hook.passed hook.reason hook.source
    else unknown id stage name hook.reason nil hook.source

-- Sets of actions, of hooks and of keys seen are lists of their members.
unfoldable pub hook_loop :
    List String → List PluginHookReport → List String → List String → String → List Check
unfolding hook_check
hook_loop seen [] actions wanted_hooks stage = []
hook_loop seen (hook ∷ hooks) actions wanted_hooks stage =
    let left_out =
      not (string_in hook.action actions)
      || not (string_in hook.hook wanted_hooks)
      || string_in (hook_key hook) seen in
    let rest =
      hook_loop (if left_out then seen else hook_key hook ∷ seen) hooks actions wanted_hooks
        stage in
    if left_out then rest else hook_check stage hook ∷ rest

unfoldable pub plugin_hook_checks :
    List PluginHookReport → List String → List String → String → List Check
unfolding hook_loop
plugin_hook_checks hooks actions wanted_hooks stage = hook_loop [] hooks actions wanted_hooks stage

abbrev pub registration_hook : String
registration_hook = "source hook registration"

unfoldable pub unmatched_check : String → String → PluginHookReport → Check
unmatched_check stage wanted_hook hook =
    unknown (place_id hook <> "source-registration") stage
      (place_name hook <> (wanted_hook <> " registration"))
      (hook.reason
        ++ text (
            "; "
            <> (wanted_hook
                <> " cannot be evaluated until the selected branch matches the configured plugin"))
          ∷ [])
      nil hook.source

unfoldable pub unmatched_loop :
    List String → List PluginHookReport → List String → String → String → List Check
unfolding unmatched_check
unmatched_loop seen [] actions stage wanted_hook = []
unmatched_loop seen (hook ∷ hooks) actions stage wanted_hook =
    let left_out =
      not (string_in hook.action actions)
      || not (hook.hook == registration_hook)
      || string_in (place_key hook) seen in
    let rest =
      unmatched_loop (if left_out then seen else place_key hook ∷ seen) hooks actions stage
        wanted_hook in
    if left_out then rest else unmatched_check stage wanted_hook hook ∷ rest

unfoldable pub unmatched_plugin_checks :
    List PluginHookReport → List String → String → String → List Check
unfolding unmatched_loop
unmatched_plugin_checks hooks actions stage wanted_hook =
    unmatched_loop [] hooks actions stage wanted_hook

abbrev known_actions : List String
known_actions = "enqueue" ∷ "allocate" ∷ "backfill" ∷ "preempt" ∷ "reclaim" ∷ "shuffle" ∷ []

unfoldable pub hook_inventory_verified : Report → Bool
hook_inventory_verified report =
    if not report.hooks_inspected
      || not report.policy.determinate
      || not report.policy.active_determinate
    then false
    else all (λ action. string_in action known_actions) report.policy.actions

unfoldable pub policy_has_action : SchedulerPolicy → String → Bool
policy_has_action policy wanted = any (λ action. action == wanted) policy.actions

-- `strings.EqualFold`
abbrev pub folds_to : String → String → Bool
folds_to a b = equal_fold (codes a) (codes b)

unfoldable pub has_hook_plugin : List PluginHookReport → String → String → Bool
has_hook_plugin hooks hook_name plugin_name =
    any (λ hook. (hook.hook == hook_name) && folds_to hook.plugin plugin_name) hooks

unfoldable pub has_enabled_hook_plugin : List PluginHookReport → String → String → Bool
has_enabled_hook_plugin hooks hook_name plugin_name =
    any
      (λ hook.
        (hook.hook == hook_name)
        && folds_to hook.plugin plugin_name
        && hook.enabled_determinate
        && hook.enabled)
      hooks
