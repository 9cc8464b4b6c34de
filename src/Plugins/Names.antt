-- ===== src/Plugins/Names.antt =====
-- internal/agent/runtime/plugins.go: which source files belong to a configured plugin, by their names.
use Prim.Native.Char.{Char, code}
use mathlib.Core.List.{reverse}
use volens.Base.{
  ℕ, String, Bool, true, false, not, ◌||◌, Option, none, some, List, [], ◌∷◌, ◌++◌, ◌==◌, map, any,
  ◌≡◌, refl, str_dec, is_empty, eqb, string_in, if◌then◌else◌,
}
use volens.Base.Chars.{chars, text_of, trimmed_chars, drop_chars, lower_char, starts_with}
use volens.Base.Text.{codes, has_prefix, is_space}

-- The fields of source.SourceFile that the plugins read.
pub record SourceFile : Type 0 where
  pub path : String
  pub plugin_names : List String
  pub hooks : List String

abbrev is_char : ℕ → Char → Bool
is_char n c = eqb (code c) n

abbrev dash : Char
dash = "-"

unfoldable pub remove_char : ℕ → List Char → List Char
remove_char n [] = []
remove_char n (c ∷ cs) = let rest = remove_char n cs in if is_char n c then rest else c ∷ rest

unfoldable pub normalize_plugin_name : String → String
unfolding remove_char lower_char
normalize_plugin_name name = text_of (
    remove_char b'.'
      (map (λ c. if is_char b'_' c then dash else c) (map lower_char (trimmed_chars name))))

-- `s[:strings.LastIndex(s, separator)]`, and `none` where the separator does not occur.
unfoldable pub before_last : List ℕ → List Char → Option (List Char)
before_last separator [] = none
before_last separator (c ∷ cs) = elim (before_last separator cs) [
  | some prefix ↦ some (c ∷ prefix)
  | none ↦ if has_prefix (map code (c ∷ cs)) separator then some [] else none
]

-- The candidate that a separator adds: an index that is 0 adds none.
unfoldable pub version_candidates : String → String → List String
unfolding before_last
version_candidates name separator = elim (before_last (codes separator) (chars name)) [
  | none ↦ []
  | some [] ↦ []
  | some (c ∷ prefix) ↦ text_of (c ∷ prefix) ∷ []
]

-- `strings.HasSuffix`
abbrev ends_with : String → String → Bool
ends_with s suffix = has_prefix (reverse (codes s)) (reverse (codes suffix))

unfoldable pub alias_candidates : List String → List String
alias_candidates [] = []
alias_candidates (candidate ∷ rest) =
    (if starts_with candidate "volcano-" then text_of (drop_chars 8 (chars candidate)) ∷ [] else [])
    ++ (if ends_with candidate "npu" then "ascend" ∷ "huaweinpu" ∷ [] else [])
    ++ alias_candidates rest

-- The last loop; `result` holds what is in `seen`.
unfoldable pub distinct_loop : List String → List String → List String
distinct_loop result [] = result
distinct_loop result (candidate ∷ rest) =
    distinct_loop
      (if (candidate == "") || string_in candidate result then result else result ++ candidate ∷ [])
      rest

unfoldable pub plugin_name_candidates : String → List String
unfolding normalize_plugin_name version_candidates alias_candidates distinct_loop
plugin_name_candidates name =
    let normalized = normalize_plugin_name name in
    let candidates =
      normalized ∷ (version_candidates normalized "_v" ++ version_candidates normalized "-v") in
    distinct_loop [] (candidates ++ alias_candidates candidates)

unfoldable pub plugin_names_match : String → String → Bool
unfolding plugin_name_candidates is_space has_prefix str_dec
plugin_names_match source_name configured_name =
    let configured_names = plugin_name_candidates configured_name in
    any (λ left. any (λ right. left == right) configured_names) (plugin_name_candidates source_name)

-- `filepath.Dir` of a clean path, as its characters.
abbrev directory : List Char → List Char
directory path = elim (before_last (codes "/") path) [ none ↦ chars "." | some prefix ↦ prefix ]

-- The last part of a split at "/".
unfoldable pub last_part : List Char → List Char → List Char
last_part part [] = reverse part
last_part part (c ∷ cs) = last_part (if is_char b'/' c then [] else c ∷ part) cs

abbrev plugins_prefix : String
plugins_prefix = "pkg/scheduler/plugins/"

unfoldable pub source_belongs_to_plugin : SourceFile → String → Bool
unfolding plugin_names_match before_last last_part
source_belongs_to_plugin file plugin_name =
    if any (λ name. plugin_names_match name plugin_name) file.plugin_names
    then true
    else if not (is_empty file.plugin_names) || is_empty file.hooks
    then false
    else let relative =
        if starts_with file.path plugins_prefix
        then drop_chars 22 (chars file.path)
        else chars file.path in
      plugin_names_match (text_of (last_part [] (directory relative))) plugin_name

versions :
    plugin_name_candidates " Volcano_npu-v2.1 "
    ≡ "volcano-npu-v21" ∷ "volcano-npu" ∷ "npu-v21" ∷ "npu" ∷ "ascend" ∷ "huaweinpu" ∷ []
unfolding plugin_name_candidates is_space has_prefix str_dec
versions = refl
