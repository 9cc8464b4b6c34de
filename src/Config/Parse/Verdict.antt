-- ===== src/Config/Parse/Verdict.antt =====
-- Which configurations are parsed.
use volens.Base.{
  ℕ, suc, String, Bool, true, false, not, ◌&&◌, Option, none, some, List, [], ◌∷◌, map, all, ◌==◌,
  ◌≡◌, refl, arith,
}
use volens.Base.Int.{pos}
use volens.Base.Dict.{Dict, lookup}
use volens.Base.Chars.{chars, text_of, split}
use volens.Model.{text, number, Message, Result, ok, err, is_ok}
use volens.Config.Parse.{
  RawValue, string_value, mapping, null, SchedulerTierDocument, SchedulerConfigurationDocument,
  parse_document, ◌>>=◌, trim_space, action_loop, parse_scheduler_actions, arguments_of,
  parse_named_scheduler_options, plugin_loop, tier_loop, parse_scheduler_configuration,
}

abbrev is_filled : String → Bool
is_filled s = not (trim_space s == "")

abbrev is_name : Option RawValue → Bool
is_name (some (string_value s)) = is_filled s
is_name raw = false

abbrev is_mapping : Option RawValue → Bool
is_mapping none = true
is_mapping (some null) = true
is_mapping (some (mapping arguments)) = true
is_mapping (some raw) = false

-- An entry has a name that is not blank, and its arguments are a mapping, null or left out.
abbrev pub is_well_formed : Dict RawValue → Bool
is_well_formed raw = is_name (lookup "name" raw) && is_mapping (lookup "arguments" raw)

abbrev pub is_readable : SchedulerConfigurationDocument → Bool
is_readable d =
    all is_filled (map text_of (split b',' (chars d.actions)))
    && all (λ tier. all is_well_formed tier.plugins) d.tiers
    && all is_well_formed d.configurations

abbrev pub is_accepted : Result SchedulerConfigurationDocument → Bool
is_accepted (ok d) = is_readable d
is_accepted (err e) = false

is_ok-action_loop : (parts : List String) → is_ok (action_loop parts) ≡ all is_filled parts
unfolding action_loop
is_ok-action_loop [] = refl
is_ok-action_loop (part ∷ parts) = ground (arith, is_ok-action_loop parts)

is_ok-arguments_of :
    (name : String) (raw : Option RawValue) → is_ok (arguments_of name raw) ≡ is_mapping raw
is_ok-arguments_of name raw = ground arith

is_ok-parse_named_scheduler_options :
    (raw : Dict RawValue) → is_ok (parse_named_scheduler_options raw) ≡ is_well_formed raw
unfolding parse_named_scheduler_options
is_ok-parse_named_scheduler_options raw = ground arith

is_ok-plugin_loop :
    (place : Message) (n : ℕ) (raws : List (Dict RawValue))
    → is_ok (plugin_loop place n raws) ≡ all is_well_formed raws
unfolding plugin_loop
is_ok-plugin_loop place n [] = refl
is_ok-plugin_loop place n (raw ∷ raws) =
    ground (arith, is_ok-plugin_loop place (suc n) raws, is_ok-parse_named_scheduler_options raw)

is_ok-tier_loop :
    (n : ℕ) (tiers : List SchedulerTierDocument)
    → is_ok (tier_loop n tiers) ≡ all (λ tier. all is_well_formed tier.plugins) tiers
unfolding tier_loop
is_ok-tier_loop n [] = refl
is_ok-tier_loop n (tier ∷ tiers) = ground (
  arith,
  is_ok-tier_loop (suc n) tiers,
  is_ok-plugin_loop (text "tiers[" ∷ number (pos n) ∷ text "].plugins[" ∷ []) 0 tier.plugins,
)

is_ok-parse_document :
    (d : SchedulerConfigurationDocument) → is_ok (parse_document d) ≡ is_readable d
unfolding parse_document parse_scheduler_actions
is_ok-parse_document d = ground (
  arith,
  is_ok-action_loop (map text_of (split b',' (chars d.actions))),
  is_ok-tier_loop 0 d.tiers,
  is_ok-plugin_loop (text "configurations[" ∷ []) 0 d.configurations,
)

is_ok-parsed :
    (r : Result SchedulerConfigurationDocument) → is_ok (r >>= parse_document) ≡ is_accepted r
is_ok-parsed (ok d) = is_ok-parse_document d
is_ok-parsed (err e) = refl

-- A scheduler configuration is parsed exactly when its YAML is, none of its actions is blank, and
-- each plugin of each tier and each entry of the configurations has a name that is not blank and
-- arguments that are a mapping, null or left out.
pub is_ok-parse_scheduler_configuration :
    (unmarshal : String → Result SchedulerConfigurationDocument) (content : String)
    → is_ok (parse_scheduler_configuration unmarshal content) ≡ is_accepted (unmarshal content)
unfolding parse_scheduler_configuration
is_ok-parse_scheduler_configuration unmarshal content = is_ok-parsed (unmarshal content)
