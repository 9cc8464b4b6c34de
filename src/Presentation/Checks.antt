-- ===== src/Presentation/Checks.antt =====
-- internal/agent/presentation.go: the operations on lists of checks.
pub mod Merge
pub mod Replace
use Prim.Native.Char.{Char, code}
use Prim.Native.String.{◌++◌ as ◌<>◌}
use volens.Base.{
  ℕ, zero, suc, String, Bool, true, false, not, ◌&&◌, ◌||◌, Option, none, some, List, [], ◌∷◌, ◌++◌,
  map, ◌==◌, length, filter, leb, eqb, if◌then◌else◌,
}
use volens.Base.Dict.{Dict, lookup, insert}
use volens.Base.Chars.{chars, text_of, trim_both, lower_char, starts_with}
use volens.Model.{Message, text, Evidence, of_flag, object, Fields, end, field, Check}
use volens.Model.Checks.{known, skipped, with_evidence}

unfoldable pub checks_for_stage : List Check → String → List Check
checks_for_stage checks stage = filter (λ check. check.stage == stage) checks

unfoldable pub has_check : List Check → String → Bool
has_check [] id = false
has_check (check ∷ checks) id = (check.id == id) || has_check checks id

unfoldable pub skipped_checks : List Check → String → Message → List Check
skipped_checks [] stage reason = []
skipped_checks (check ∷ checks) stage reason =
    skipped check.id stage check.name reason check.source ∷ skipped_checks checks stage reason

unfoldable pub remove_check : List Check → String → List Check
remove_check checks id = filter (λ check. not (check.id == id)) checks

unfoldable pub remove_check_prefix : List Check → String → List Check
remove_check_prefix checks prefix = filter (λ check. not (starts_with check.id prefix)) checks

-- The loop of replaceCheck, `replaced` being its variable; at the end the replacement is added if
-- it has no place yet.
unfoldable pub replace_loop : Bool → List Check → String → Check → List Check
replace_loop replaced [] id replacement = if replaced then [] else replacement ∷ []
replace_loop replaced (check ∷ checks) id replacement =
    let same_id = check.id == id in
    let rest = replace_loop (replaced || same_id) checks id replacement in
    if same_id then (if replaced then rest else replacement ∷ rest) else check ∷ rest

unfoldable pub replace_check : List Check → String → Check → List Check
unfolding replace_loop
replace_check checks id replacement = replace_loop false checks id replacement

-- `indexes[check.ID] = index` for each check.
unfoldable pub index_loop : Dict ℕ → ℕ → List Check → Dict ℕ
index_loop indexes index [] = indexes
index_loop indexes index (check ∷ checks) =
    index_loop (insert check.id index indexes) (suc index) checks

-- `result[index] = check`; the indexes of mergeChecks are in range.
abbrev pub set : List Check → ℕ → Check → List Check
set [] index check = []
set (c ∷ cs) zero check = check ∷ cs
set (c ∷ cs) (suc index) check = c ∷ set cs index check

-- The variables of mergeChecks.
pub record Merged : Type 0 where
  pub result : List Check
  pub indexes : Dict ℕ

unfoldable pub merge_step : Merged → Check → Merged
merge_step m check = elim (lookup check.id m.indexes) [
  | some index ↦ record m { result = set m.result index check }
  | none ↦ record {
    result = m.result ++ check ∷ [];
    indexes = insert check.id (length m.result) m.indexes;
  }
]

unfoldable pub merge_loop : Merged → List Check → Merged
unfolding merge_step
merge_loop m [] = m
merge_loop m (check ∷ checks) = merge_loop (merge_step m check) checks

unfoldable pub merge_checks : List Check → List Check → List Check
unfolding index_loop merge_loop
merge_checks existing additions =
    (merge_loop (record { result = existing; indexes = index_loop [] 0 existing }) additions).result

abbrev dash : Char
dash = "-"

abbrev is_dash : ℕ → Bool
is_dash c = eqb c b'-'

-- The loop over the characters of a text already in lower case.
unfoldable pub identifier_chars : List Char → List Char
identifier_chars [] = []
identifier_chars (c ∷ cs) =
    let n = code c in
    (if leb b'a' n && leb n b'z' || leb b'0' n && leb n b'9' || is_dash n then c else dash)
    ∷ identifier_chars cs

unfoldable pub identifier : String → String
unfolding identifier_chars
identifier value = text_of (trim_both is_dash (identifier_chars (map lower_char (chars value))))

unfoldable pub remove_plugin_check : List Check → String → List Check
unfolding identifier
remove_plugin_check checks plugin =
    filter (λ check. not (starts_with check.id ("plugin." <> (identifier plugin <> ".")))) checks

-- `evidence["wouldPass"].(bool)`, for a map that has each key once
unfoldable pub flag_field : String → Fields → Option Bool
flag_field name end = none
flag_field name (field key (of_flag b) rest) = if key == name then some b else flag_field name rest
flag_field name (field key other rest) = if key == name then none else flag_field name rest

-- `check.Evidence.(map[string]any)`, and then its field.
unfoldable pub would_pass : Evidence → Option Bool
unfolding flag_field
would_pass (object fields) = flag_field "wouldPass" fields
would_pass other = none

unfoldable pub resolve_gang_check : Check → Check
unfolding would_pass
resolve_gang_check check =
    if not (starts_with check.id "plugins.gang.") then check else elim (would_pass check.evidence) [
      | none ↦ check
      | some true ↦ with_evidence check.evidence (
          known check.id "jobValid" check.name true
            (text
                "Kubernetes-visible valid tasks alone satisfy this gang minimum; Volcano internal Pipelined/Allocated/Binding states can only add valid tasks"
              ∷ [])
            check.source)
      | some false ↦ record check {
        reason =
            check.reason
            ++ text
                "; Volcano internal Pipelined/Allocated/Binding task states are absent, so failure is not proven"
              ∷ [];
      }
    ]

unfoldable pub resolve_gang_checks : List Check → List Check
unfolding resolve_gang_check
resolve_gang_checks checks = map resolve_gang_check checks
