-- ===== src/Filter/Affinity/Laws.antt =====
-- What a selector requirement, a term and the required node affinity mean.
use volens.Base.{
  ◌&&◌, String, ◌≡◌, refl, ◌↔◌, inl, inr, Bool, true, false, Option, none, some, List, [], ◌∷◌,
  ◌==◌, arith, All, Any, any, not, is_some, if◌then◌else◌, string_in, is_empty, Bool-cases,
}
use volens.Base.Int.{ℤ, ◌<ℤ◌, ltb_ℤ, ltb_ℤ→lt}
use volens.Base.Dict.{lookup}
use volens.Base.Text.{codes}
use volens.Base.ParseInt.{parse_int}
use volens.Kube.{NodeSelectorRequirement, NodeSelectorTerm, Node, Pod}
use volens.Filter.Affinity.{
  node_field, compares, compare_parsed, found_in, node_selector_requirement_matches,
  expressions_match, fields_match, node_selector_term_matches, required_terms,
  required_node_affinity_matches,
}

abbrev Listed : Option String → List String → Type 0
Listed none values = ⊥
Listed (some v) values = Any (λ w. v ≡ w) values

abbrev BothParse : (ℤ → ℤ → Type 0) → Option ℤ → Option ℤ → Type 0
BothParse R (some a) (some e) = R a e
BothParse R (some a) none = ⊥
BothParse R none e = ⊥

-- The label is there, there is one value, both are 64-bit decimal integers, and they are related.
abbrev Ordered : (ℤ → ℤ → Type 0) → Option String → List String → Type 0
Ordered R (some v) (w ∷ []) = BothParse R (parse_int (codes v)) (parse_int (codes w))
Ordered R (some v) values = ⊥
Ordered R none values = ⊥

abbrev Present : Option String → Type 0
Present none = ⊥
Present (some v) = Unit

-- The operators by their names; any other name is `unsupported`.
pub data Operator : Type 0 where
  within outside exists absent greater less unsupported : Operator

abbrev pub operator_named : String → Operator
operator_named s =
    if s == "In"
    then within
    else if s == "NotIn"
    then outside
    else if s == "Exists"
    then exists
    else if s == "DoesNotExist"
    then absent
    else if s == "Gt"
    then greater
    else if s == "Lt"
    then less
    else unsupported

-- Kubernetes' meaning of an operator at the value of its label and the values of the requirement.
abbrev pub Holds : Operator → Option String → List String → Type 0
Holds within value values = Listed value values
Holds outside value values = ¬ Listed value values
Holds exists value values = Present value
Holds absent value values = ¬ Present value
Holds greater value values = Ordered (λ actual expected. expected <ℤ actual) value values
Holds less value values = Ordered (λ actual expected. actual <ℤ expected) value values
Holds unsupported value values = ⊥

abbrev pub Satisfied : NodeSelectorRequirement → Option String → Type 0
Satisfied r value = Holds (operator_named r.operator) value r.values

string_in_iff :
    (v : String) (values : List String) → (string_in v values ≡ true) ↔ Any (λ w. v ≡ w) values
string_in_iff v [] = (λ h. cc, λ h. absurd h)
string_in_iff v (w ∷ ws) = ground (arith, string_in_iff v ws)

Ordered-iff :
    (test : ℤ → ℤ → Bool) (R : ℤ → ℤ → Type 0)
    → ((a e : ℤ) → (test a e ≡ true) ↔ R a e)
    → (value : Option String) (values : List String)
    → (compares test value values ≡ true) ↔ Ordered R value values
unfolding compares
Ordered-iff test R h none values = (λ e. cc, λ e. absurd e)
Ordered-iff test R h (some v) [] = (λ e. cc, λ e. absurd e)
Ordered-iff test R h (some v) (w ∷ u ∷ ws) = (λ e. cc, λ e. absurd e)
Ordered-iff test R h (some v) (w ∷ []) = parsed (parse_int (codes v)) (parse_int (codes w))
  where
    parsed : (a e : Option ℤ) → (compare_parsed test a e ≡ true) ↔ BothParse R a e
    parsed none e = (λ p. cc, λ p. absurd p)
    parsed (some a) none = (λ p. cc, λ p. absurd p)
    parsed (some a) (some e) = h a e

Listed-iff :
    (value : Option String) (values : List String)
    → (found_in value values ≡ true) ↔ Listed value values
Listed-iff none values = (λ e. cc, λ e. absurd e)
Listed-iff (some v) values = string_in_iff v values

Present-iff : (value : Option String) → (is_some value ≡ true) ↔ Present value
Present-iff none = (λ e. cc, λ e. absurd e)
Present-iff (some v) = (λ _. tt, λ _. refl)

not_iff {ℓ} : {P : Type ℓ} (b : Bool) → (b ≡ true) ↔ P → (not b ≡ true) ↔ (¬ P)
not_iff true h = (λ e. cc, λ n. absurd (n (h.0 refl)))
not_iff false h = (λ _ p. cc (h.1 p), λ _. refl)

-- A requirement matches exactly when its operator's meaning holds: membership for In, its negation
-- for NotIn (a missing label included), presence, absence, and the strict order of two 64-bit
-- decimal integers for Gt and Lt. No other operator matches.
pub node_selector_requirement_matches_iff :
    (r : NodeSelectorRequirement) (value : Option String)
    → (node_selector_requirement_matches r value ≡ true) ↔ Satisfied r value
unfolding node_selector_requirement_matches
node_selector_requirement_matches_iff r value = ground (
  arith,
  Listed-iff value r.values,
  Present-iff value,
  not_iff (found_in value r.values) (Listed-iff value r.values),
  not_iff (is_some value) (Present-iff value),
  Ordered-iff (λ a e. ltb_ℤ e a) (λ a e. e <ℤ a) (λ a e. ltb_ℤ→lt e a) value r.values,
  Ordered-iff (λ a e. ltb_ℤ a e) (λ a e. a <ℤ e) (λ a e. ltb_ℤ→lt a e) value r.values,
)

expressions_match_iff :
    (rs : List NodeSelectorRequirement) (node : Node)
    → (expressions_match rs node ≡ true) ↔ All (λ r. Satisfied r (lookup r.key node.labels)) rs
unfolding expressions_match
expressions_match_iff [] node = (λ _. tt, λ _. refl)
expressions_match_iff (r ∷ rs) node =
    let here = node_selector_requirement_matches_iff r (lookup r.key node.labels) in
    let rest = expressions_match_iff rs node in
    elim (Bool-cases (node_selector_requirement_matches r (lookup r.key node.labels))) [
      | inl e ↦ rw e (λ h. (here.0 e, rest.0 h), λ h. rest.1 h.1)
      | inr e ↦ rw e (λ h. cc, λ h. cc (here.1 h.0))
    ]

fields_match_iff :
    (rs : List NodeSelectorRequirement) (node : Node)
    → (fields_match rs node ≡ true) ↔ All (λ r. Satisfied r (node_field node r.key)) rs
unfolding fields_match
fields_match_iff [] node = (λ _. tt, λ _. refl)
fields_match_iff (r ∷ rs) node =
    let here = node_selector_requirement_matches_iff r (node_field node r.key) in
    let rest = fields_match_iff rs node in
    elim (Bool-cases (node_selector_requirement_matches r (node_field node r.key))) [
      | inl e ↦ rw e (λ h. (here.0 e, rest.0 h), λ h. rest.1 h.1)
      | inr e ↦ rw e (λ h. cc, λ h. cc (here.1 h.0))
    ]

-- A term with no requirement selects no node; any other selects those that meet all of them.
pub record TermHolds (term : NodeSelectorTerm) (node : Node) : Type 0 where
  pub nonempty : is_empty term.match_expressions && is_empty term.match_fields ≡ false
  pub expressions : All (λ r. Satisfied r (lookup r.key node.labels)) term.match_expressions
  pub fields : All (λ r. Satisfied r (node_field node r.key)) term.match_fields

node_selector_term_matches_iff :
    (term : NodeSelectorTerm) (node : Node)
    → (node_selector_term_matches term node ≡ true) ↔ TermHolds term node
unfolding node_selector_term_matches
node_selector_term_matches_iff term node =
    let es = expressions_match_iff term.match_expressions node in
    let fs = fields_match_iff term.match_fields node in
    elim (Bool-cases (is_empty term.match_expressions && is_empty term.match_fields)) [
      | inl e ↦ rw e (λ h. cc, λ h. cc (h.nonempty))
      | inr n ↦ elim (Bool-cases (expressions_match term.match_expressions node)) [
        | inl e ↦
            rw (n, e)
              (
                λ h. record { nonempty = n; expressions = es.0 e; fields = fs.0 h },
                λ h. fs.1 h.fields,
              )
        | inr e ↦ rw (n, e) (λ h. cc, λ h. cc (es.1 h.expressions))
      ]
    ]

any_iff {ℓ} :
    {A : Type ℓ} (p : A → Bool) (P : A → Type 0)
    → ((a : A) → (p a ≡ true) ↔ P a)
    → (xs : List A) → (any p xs ≡ true) ↔ Any P xs
any_iff p P h [] = (λ e. cc, λ e. absurd e)
any_iff p P h (x ∷ xs) = ground (arith, h x, any_iff p P h xs)

abbrev pub AffinityHolds : Option (List NodeSelectorTerm) → Node → Type 0
AffinityHolds none node = Unit
AffinityHolds (some terms) node = Any (λ term. TermHolds term node) terms

-- The check of required node affinity passes exactly when the Pod requires none, or one of the
-- required terms holds of the node: it has a requirement, and the node meets each of them.
pub required_node_affinity_matches_iff :
    (pod : Pod) (node : Node)
    → (required_node_affinity_matches pod node ≡ true)
      ↔ AffinityHolds (required_terms pod.spec.affinity) node
unfolding required_node_affinity_matches
required_node_affinity_matches_iff pod node = go (required_terms pod.spec.affinity)
  where
    go :
        (terms : Option (List NodeSelectorTerm))
        → ((elim terms [
          | none ↦ true
          | some ts ↦ any (λ term. node_selector_term_matches term node) ts
        ])
            ≡ true)
          ↔ AffinityHolds terms node
    go none = (λ _. tt, λ _. refl)
    go (some ts) =
        any_iff (λ term. node_selector_term_matches term node) (λ term. TermHolds term node)
          (λ term. node_selector_term_matches_iff term node) ts
