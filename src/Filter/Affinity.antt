-- ===== src/Filter/Affinity.antt =====
-- internal/agent/filter/affinity.go: required node affinity.
pub mod Laws
use volens.Base.{
  String, Bool, true, false, not, ◌&&◌, Option, none, some, List, [], ◌∷◌, ◌==◌, any, is_empty,
  is_some, string_in, if◌then◌else◌,
}
use volens.Base.Int.{ℤ, ltb_ℤ}
use volens.Base.Dict.{lookup}
use volens.Base.Text.{codes}
use volens.Base.ParseInt.{parse_int}
use volens.Kube.{NodeSelectorRequirement, NodeSelectorTerm, Affinity, Node, Pod}

-- The field of a node that a term can name: `(value, true)` is `some value`.
unfoldable pub node_field : Node → String → Option String
node_field node key = if key == "metadata.name" then some node.name else none

-- `actual, actualErr := strconv.ParseInt(…)` twice, and the comparison if neither fails.
abbrev pub compare_parsed : (ℤ → ℤ → Bool) → Option ℤ → Option ℤ → Bool
compare_parsed test none expected = false
compare_parsed test (some a) none = false
compare_parsed test (some a) (some e) = test a e

-- `!found || len(requirement.Values) != 1` is the last two clauses.
unfoldable pub compares : (ℤ → ℤ → Bool) → Option String → List String → Bool
compares test (some value) (wanted ∷ []) =
    compare_parsed test (parse_int (codes value)) (parse_int (codes wanted))
compares test (some value) values = false
compares test none values = false

abbrev pub found_in : Option String → List String → Bool
found_in none values = false
found_in (some value) values = string_in value values

unfoldable pub node_selector_requirement_matches : NodeSelectorRequirement → Option String → Bool
unfolding compares
node_selector_requirement_matches r value =
    if r.operator == "In"
    then found_in value r.values
    else if r.operator == "NotIn"
    then not (found_in value r.values)
    else if r.operator == "Exists"
    then is_some value
    else if r.operator == "DoesNotExist"
    then not (is_some value)
    else if r.operator == "Gt"
    then compares (λ actual expected. ltb_ℤ expected actual) value r.values
    else if r.operator == "Lt"
    then compares (λ actual expected. ltb_ℤ actual expected) value r.values
    else false

pub expressions_match : List NodeSelectorRequirement → Node → Bool
expressions_match [] node = true
expressions_match (r ∷ rs) node =
    let rest = expressions_match rs node in
    if not (node_selector_requirement_matches r (lookup r.key node.labels)) then false else rest

pub fields_match : List NodeSelectorRequirement → Node → Bool
unfolding node_field
fields_match [] node = true
fields_match (r ∷ rs) node =
    let rest = fields_match rs node in
    if not (node_selector_requirement_matches r (node_field node r.key)) then false else rest

unfoldable pub node_selector_term_matches : NodeSelectorTerm → Node → Bool
unfolding expressions_match fields_match
node_selector_term_matches term node =
    if is_empty term.match_expressions && is_empty term.match_fields
    then false
    else if not (expressions_match term.match_expressions node)
    then false
    else fields_match term.match_fields node

-- `affinity == nil || affinity.NodeAffinity == nil || …Required… == nil` is `none`.
abbrev pub required_terms : Option Affinity → Option (List NodeSelectorTerm)
required_terms none = none
required_terms (some a) = elim a.node_affinity [ none ↦ none | some n ↦ n.required ]

unfoldable pub required_node_affinity_matches : Pod → Node → Bool
unfolding node_selector_term_matches
required_node_affinity_matches pod node = elim (required_terms pod.spec.affinity) [
  | none ↦ true
  | some terms ↦ any (λ term. node_selector_term_matches term node) terms
]
