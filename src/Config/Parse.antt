-- ===== src/Config/Parse.antt =====
-- internal/cluster/scheduler_config.go: the policy in the scheduler's configuration. `unmarshal` stands
-- for yaml.Unmarshal into schedulerConfigurationDocument.
use volens.Base.{
  ℕ, suc, String, ◌||◌, Option, none, some, List, [], ◌∷◌, ◌++◌, map, ◌==◌, if◌then◌else◌,
}
use volens.Base.Int.{pos}
use volens.Base.Dict.{Dict, lookup, insert}
use volens.Base.Chars.{chars, text_of, trimmed_chars, split}
use volens.Model.{text, number, quoted, Message, failure, plain, Result, ok, err}
use volens.Analysis.Policy.{ConfigValue, other, SchedulerPlugin, SchedulerTier}
pub mod Verdict

-- A value of a plugin's entry (`any`).
pub data RawValue : Type 0 where
  string_value : String → RawValue
  mapping : Dict ConfigValue → RawValue
  null : RawValue
  value : ConfigValue → RawValue

pub record SchedulerTierDocument : Type 0 where
  pub plugins : List (Dict RawValue)

-- The metrics are passed on and left out.
pub record SchedulerConfigurationDocument : Type 0 where
  pub actions : String
  pub tiers : List SchedulerTierDocument
  pub configurations : List (Dict RawValue)

pub record ParsedConfiguration : Type 0 where
  pub actions : List String
  pub tiers : List SchedulerTier
  pub configurations : List SchedulerPlugin

-- `strings.TrimSpace`
abbrev pub trim_space : String → String
trim_space s = text_of (trimmed_chars s)

infixl 5 ◌>>=◌
abbrev ◌>>=◌ {ℓ κ} : {A : Type ℓ} {B : Type κ} → Result A → (A → Result B) → Result B
ok a >>= f = f a
err e >>= f = err e

-- `fmt.Errorf("prefix: %w", err)`
abbrev within : {A : Type 0} → Message → Result A → Result A
within prefix (ok a) = ok a
within prefix (err e) = err (record e { message = prefix ++ e.message })

action_loop : List String → Result (List String)
action_loop [] = ok []
action_loop (part ∷ parts) =
    let rest = action_loop parts in
    if trim_space part == ""
    then err (failure (plain "actions contains an empty action name"))
    else rest >>= λ actions. ok (trim_space part ∷ actions)

unfoldable pub parse_scheduler_actions : String → Result (List String)
unfolding action_loop
parse_scheduler_actions s = action_loop (map text_of (split b',' (chars s)))

-- The name of an entry, trimmed; `none` where it is no text or blank.
abbrev name_of : Option RawValue → Option String
name_of (some (string_value name)) = if trim_space name == "" then none else some (trim_space name)
name_of raw = none

abbrev arguments_of : String → Option RawValue → Result (Dict ConfigValue)
arguments_of name none = ok []
arguments_of name (some null) = ok []
arguments_of name (some (mapping arguments)) = ok arguments
arguments_of name (some raw) =
    err (failure (text "arguments for " ∷ quoted name ∷ text " must be a mapping" ∷ []))

abbrev config_value : RawValue → ConfigValue
config_value (value v) = v
config_value raw = other

option_loop : Dict ConfigValue → Dict RawValue → Dict ConfigValue
option_loop options [] = options
option_loop options ((key, raw) ∷ rest) =
    option_loop
      (if (key == "name") || (key == "arguments")
        then options
        else insert key (config_value raw) options)
      rest

-- parseSchedulerPlugin and parseSchedulerPluginConfiguration: both records hold the same.
unfoldable pub parse_named_scheduler_options : Dict RawValue → Result SchedulerPlugin
unfolding option_loop
parse_named_scheduler_options raw = elim (name_of (lookup "name" raw)) [
  | none ↦ err (failure (plain "name must be a non-empty string"))
  | some name ↦ arguments_of name (lookup "arguments" raw) >>= λ arguments.
      ok (record { name = name; arguments = arguments; options = option_loop [] raw })
]

-- `place` is what stands before the index of an entry.
abbrev index_prefix : Message → ℕ → Message
index_prefix place n = place ++ number (pos n) ∷ text "]: " ∷ []

plugin_loop : Message → ℕ → List (Dict RawValue) → Result (List SchedulerPlugin)
plugin_loop place n [] = ok []
plugin_loop place n (raw ∷ raws) =
    let rest = plugin_loop place (suc n) raws in
    within (index_prefix place n) (parse_named_scheduler_options raw) >>= λ plugin.
    rest >>= λ plugins. ok (plugin ∷ plugins)

tier_loop : ℕ → List SchedulerTierDocument → Result (List SchedulerTier)
unfolding plugin_loop
tier_loop n [] = ok []
tier_loop n (tier ∷ tiers) =
    let rest = tier_loop (suc n) tiers in
    plugin_loop (text "tiers[" ∷ number (pos n) ∷ text "].plugins[" ∷ []) 0 tier.plugins
    >>= λ plugins. rest >>= λ parsed. ok (record { plugins = plugins } ∷ parsed)

-- What follows once the YAML is read.
parse_document : SchedulerConfigurationDocument → Result ParsedConfiguration
unfolding tier_loop
parse_document document = parse_scheduler_actions document.actions >>= λ actions.
    tier_loop 0 document.tiers >>= λ tiers.
    plugin_loop (text "configurations[" ∷ []) 0 document.configurations >>= λ configurations.
    ok (record { actions = actions; tiers = tiers; configurations = configurations })

unfoldable pub parse_scheduler_configuration :
    (String → Result SchedulerConfigurationDocument) → String → Result ParsedConfiguration
unfolding parse_document
parse_scheduler_configuration unmarshal content = unmarshal content >>= parse_document
