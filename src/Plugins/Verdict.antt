-- ===== src/Plugins/Verdict.antt =====
-- What the reports on the hooks say for certain.
use volens.Base.{
  ℕ, suc, ◌≡◌, refl, String, Bool, true, false, not, ◌&&◌, ◌||◌, Option, List, [], ◌∷◌, ◌++◌, arith,
  any, all, is_empty, string_in, if◌then◌else◌, all-append, Option-cases, Bool-cases, inl, inr,
  &&-true, ◌∙◌, ==_refl,
}
use volens.Base.Dict.{Dict, lookup, get_or}
use volens.Model.{Failure, ConfiguredPlugin, PluginTier, SchedulerPolicy}
use volens.Model.Reports.{PluginHookReport}
use volens.Report.Finalize.{is_plugin_failure}
use volens.Plugins.Names.{SourceFile}
use volens.Plugins.{
  HookDefinition, action_hooks, Registration, no_registration, configured_plugin_key,
  register_tiers,
}
use volens.Plugins.Inspect.{
  Inspection, decided_report, plugin_hook_report, unmatched_report, inspect_plugin, plugin_loop,
  tier_loop, definition_loop, inspect_action, action_loop, inspect_plugin_hooks,
}

-- A report is decided exactly where the hook is known to be off, and then it passes; it is about an
-- action of the policy.
abbrev pub is_sound : List String → PluginHookReport → Bool
is_sound actions r =
    string_in r.action actions
    && (if r.enabled_determinate && not r.enabled
        then r.passed && r.determinate
        else not r.passed && not r.determinate)

all-weaken :
    (x : String) (ys actions : List String)
    → all (λ action. string_in action actions) ys ≡ true
    → all (λ action. string_in action (x ∷ actions)) ys ≡ true
all-weaken x [] actions h = refl
all-weaken x (y ∷ ys) actions h = ground (arith, all-weaken x ys actions)

all-string_in : (actions : List String) → all (λ action. string_in action actions) actions ≡ true
all-string_in [] = refl
all-string_in (x ∷ xs) = ground (arith, ==_refl x, all-weaken x xs xs (all-string_in xs))

module _ (actions : List String) where
  abbrev AllSound : List PluginHookReport → Type 0
  AllSound reports = all (is_sound actions) reports ≡ true

  AllSound-snoc :
      (reports : List PluginHookReport) (r : PluginHookReport)
      → AllSound reports
      → is_sound actions r ≡ true
      → AllSound (reports ++ r ∷ [])
  AllSound-snoc reports r h k = ground (arith, all-append (is_sound actions) reports (r ∷ []))

no_plugin_failure :
    (actions : List String) (reports : List PluginHookReport)
    → AllSound actions reports
    → any is_plugin_failure reports ≡ false
no_plugin_failure actions [] h = refl
no_plugin_failure actions (r ∷ reports) h = ground (arith, no_plugin_failure actions reports)

module _ (defaults : Dict Bool) (defaults_err : Option Failure) (actions : List String)
    (registrations : Dict Registration) (action : String)
    (listed : string_in action actions ≡ true) where
  plugin_hook_report-is_sound :
      (phase : ℕ) (plugin : ConfiguredPlugin) (definition : HookDefinition) (paths : List String)
      → is_sound actions
          (plugin_hook_report defaults defaults_err action phase plugin definition paths)
        ≡ true
  unfolding plugin_hook_report decided_report
  plugin_hook_report-is_sound phase plugin definition paths = ground arith

  unmatched_report-is_sound :
      (phase : ℕ) (plugin : ConfiguredPlugin)
      → is_sound actions (unmatched_report action phase plugin) ≡ true
  unfolding unmatched_report
  unmatched_report-is_sound phase plugin = ground arith

  abbrev inspected : ℕ → HookDefinition → Inspection → ConfiguredPlugin → Inspection
  inspected = inspect_plugin defaults defaults_err registrations action

  inspect_plugin-AllSound :
      (phase : ℕ) (definition : HookDefinition) (s : Inspection) (plugin : ConfiguredPlugin)
      → AllSound actions s.reports
      → AllSound actions (inspected phase definition s plugin).reports
  unfolding inspect_plugin
  inspect_plugin-AllSound phase definition s plugin h =
      let key = configured_plugin_key plugin in
      let registration = get_or no_registration key registrations in
      elim (Bool-cases registration.matched) [
        | inl yes_matched ↦ elim (Option-cases (lookup definition.name registration.hooks)) [
          | inl absent ↦ ground arith
          | inr (paths, found) ↦ ground (
            arith,
            AllSound-snoc actions s.reports
                (plugin_hook_report defaults defaults_err action phase plugin definition paths) h
                (plugin_hook_report-is_sound phase plugin definition paths),
          )
        ]
        | inr not_matched ↦ ground (
          arith,
          AllSound-snoc actions s.reports (unmatched_report action phase plugin) h
              (unmatched_report-is_sound phase plugin),
        )
      ]

  plugin_loop-AllSound :
      (phase : ℕ) (definition : HookDefinition) (s : Inspection) (plugins : List ConfiguredPlugin)
      → AllSound actions s.reports
      → AllSound actions
          (plugin_loop defaults defaults_err registrations action phase definition s
            plugins).reports
  unfolding plugin_loop
  plugin_loop-AllSound phase definition s [] h = h
  plugin_loop-AllSound phase definition s (plugin ∷ plugins) h =
      plugin_loop-AllSound phase definition (inspected phase definition s plugin) plugins
        (inspect_plugin-AllSound phase definition s plugin h)

  tier_loop-AllSound :
      (phase : ℕ) (definition : HookDefinition) (s : Inspection) (tiers : List PluginTier)
      → AllSound actions s.reports
      → AllSound actions
          (tier_loop defaults defaults_err registrations action phase definition s tiers).reports
  unfolding tier_loop
  tier_loop-AllSound phase definition s [] h = h
  tier_loop-AllSound phase definition s (tier ∷ tiers) h =
      tier_loop-AllSound phase definition
        (plugin_loop defaults defaults_err registrations action phase definition s tier.plugins)
        tiers (plugin_loop-AllSound phase definition s tier.plugins h)

  definition_loop-AllSound :
      (tiers : List PluginTier) (phase : ℕ) (s : Inspection) (definitions : List HookDefinition)
      → AllSound actions s.reports
      → AllSound actions
          (definition_loop defaults defaults_err registrations action tiers phase s
            definitions).reports
  unfolding definition_loop
  definition_loop-AllSound tiers phase s [] h = h
  definition_loop-AllSound tiers phase s (definition ∷ definitions) h =
      definition_loop-AllSound tiers (suc phase)
        (tier_loop defaults defaults_err registrations action phase definition s tiers) definitions
        (tier_loop-AllSound phase definition s tiers h)

  inspect_action-AllSound :
      (tiers : List PluginTier)
      → AllSound actions (inspect_action defaults defaults_err registrations tiers action)
  unfolding inspect_action
  inspect_action-AllSound tiers = elim (Option-cases (lookup action action_hooks)) [
    | inl absent ↦ rw (absent, inspect_action) refl
    | inr (definitions, found) ↦
        rw (found, inspect_action)
          (definition_loop-AllSound tiers 0 (record { unmatched_reported = []; reports = [] })
            definitions refl)
  ]

module _ (defaults : Dict Bool) (defaults_err : Option Failure) where
  action_loop-AllSound :
      (policy_actions : List String) (registrations : Dict Registration) (tiers : List PluginTier)
      (actions : List String)
      → all (λ action. string_in action policy_actions) actions ≡ true
      → AllSound policy_actions (action_loop defaults defaults_err registrations tiers actions)
  unfolding action_loop
  action_loop-AllSound policy_actions registrations tiers [] h = refl
  action_loop-AllSound policy_actions registrations tiers (action ∷ actions) h =
      let (listed, rest) = (&&-true _ _).0 h in
      all-append (is_sound policy_actions)
        (inspect_action defaults defaults_err registrations tiers action)
        (action_loop defaults defaults_err registrations tiers actions)
      ∙ (&&-true _ _).1 (
        inspect_action-AllSound defaults defaults_err policy_actions registrations action listed
            tiers,
        action_loop-AllSound policy_actions registrations tiers actions rest,
      )

  -- Every report on a hook is about an action of the policy. It is a determinate pass where the hook
  -- is known to be disabled, and undecided everywhere else; so no hook is ever a proven failure.
  pub inspect_plugin_hooks-is_sound :
      (policy : SchedulerPolicy) (sources : List SourceFile)
      → let reports = inspect_plugin_hooks defaults defaults_err policy sources in
        (all (is_sound policy.actions) reports ≡ true) × (any is_plugin_failure reports ≡ false)
  unfolding inspect_plugin_hooks
  inspect_plugin_hooks-is_sound policy sources =
      let sound =
        action_loop-AllSound policy.actions (register_tiers [] policy.tiers sources) policy.tiers
          policy.actions (all-string_in policy.actions) in
      elim (Bool-cases (is_empty policy.actions || is_empty policy.tiers)) [
        | inl nothing ↦ rw (nothing, inspect_plugin_hooks) (refl, refl)
        | inr something ↦
            rw (something, inspect_plugin_hooks) (sound, no_plugin_failure policy.actions _ sound)
      ]
