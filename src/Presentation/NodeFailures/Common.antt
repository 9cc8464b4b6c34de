-- ===== src/Presentation/NodeFailures/Common.antt =====
-- A failure that is called common stands on every node.
use volens.Base.{
  ℕ, suc, ◌+◌, ◌≤◌, is_some, ◌≡◌, refl, sym, ◌∙◌, ap, ap₂, String, Bool, true, false, ◌&&◌, ◌||◌,
  Option, none, some, List, [], ◌∷◌, ◌==◌, arith, any, all, length, ltb, eqb, if◌then◌else◌, All,
  Bool-cases, inl, inr, ==_iff, Option-cases,
}
use volens.Base.Dict.{lookup, get_or, lookup-insert, get_or-insert, lookup-nil}
use volens.Model.{Check, NodeResult}
use volens.Presentation.States.{is_executed_failure}
use volens.Presentation.NodeFailures.{
  Failures, no_failures, failures_step, failures_of_checks, failures_of_nodes, common_failure,
}

abbrev pub fails_at : String → Check → Bool
fails_at id check = (id == check.id) && is_executed_failure check

abbrev count_at : String → List Check → ℕ
count_at id [] = 0
count_at id (check ∷ checks) = (if fails_at id check then 1 else 0) + count_at id checks

abbrev count_nodes : String → List NodeResult → ℕ
count_nodes id [] = 0
count_nodes id (node ∷ nodes) = count_at id node.checks + count_nodes id nodes

count-failures_of_checks :
    (f : Failures) (checks : List Check) (id : String)
    → get_or 0 id (failures_of_checks f checks).failure_counts
      ≡ get_or 0 id f.failure_counts + count_at id checks
unfolding failures_of_checks failures_step
count-failures_of_checks f [] id = ground arith
count-failures_of_checks f (check ∷ checks) id = ground (
  arith,
  count-failures_of_checks (failures_step f check) checks id,
  get_or-insert 0 id check.id (suc (get_or 0 check.id f.failure_counts)) f.failure_counts,
  ==_iff id check.id,
)

count-failures_of_nodes :
    (f : Failures) (nodes : List NodeResult) (id : String)
    → get_or 0 id (failures_of_nodes f nodes).failure_counts
      ≡ get_or 0 id f.failure_counts + count_nodes id nodes
unfolding failures_of_nodes
count-failures_of_nodes f [] id = ground arith
count-failures_of_nodes f (node ∷ nodes) id = ground (
  arith,
  count-failures_of_nodes (failures_of_checks f node.checks) nodes id,
  count-failures_of_checks f node.checks id,
)

-- No id stands twice among the checks of a node.
abbrev pub has_id : String → List Check → Bool
has_id id checks = any (λ check. id == check.id) checks

abbrev pub NodupIds : List Check → Type 0
NodupIds [] = Unit
NodupIds (check ∷ checks) = (has_id check.id checks ≡ false) × NodupIds checks

absent-count_at :
    (id : String) (checks : List Check) → has_id id checks ≡ false → count_at id checks ≡ 0
absent-count_at id [] h = refl
absent-count_at id (check ∷ checks) h = ground (arith, absent-count_at id checks)

count_at-le : (id : String) (checks : List Check) → NodupIds checks → count_at id checks ≤ 1
count_at-le id [] h = omega arith
count_at-le id (check ∷ checks) (fresh, h) =
    ground (arith, count_at-le id checks h, absent-count_at id checks, ==_iff id check.id)

count_at-any :
    (id : String) (checks : List Check)
    → NodupIds checks
    → count_at id checks ≡ (if any (fails_at id) checks then 1 else 0)
count_at-any id [] h = refl
count_at-any id (check ∷ checks) (fresh, h) =
    ground (arith, count_at-any id checks h, absent-count_at id checks, ==_iff id check.id)

abbrev pub AllNodup : List NodeResult → Type 0
AllNodup nodes = All (λ node. NodupIds node.checks) nodes

count_nodes-le :
    (id : String) (nodes : List NodeResult) → AllNodup nodes → count_nodes id nodes ≤ length nodes
count_nodes-le id [] h = omega arith
count_nodes-le id (node ∷ nodes) (h, hs) =
    ground (arith, count_nodes-le id nodes hs, count_at-le id node.checks h)

full_count :
    (id : String) (nodes : List NodeResult)
    → AllNodup nodes
    → count_nodes id nodes ≡ length nodes
    → all (λ node. any (fails_at id) node.checks) nodes ≡ true
full_count id [] hs e = refl
full_count id (node ∷ nodes) (h, hs) e =
    ground
      (arith, full_count id nodes hs, count_nodes-le id nodes hs, count_at-any id node.checks h)

-- What is kept for an id: a failure with that id, as soon as one has been counted.
abbrev IsKept : Failures → Type 0
IsKept f =
    (id : String)
    → (ltb 0 (get_or 0 id f.failure_counts) ≡ is_some (lookup id f.failure_checks))
      × ((check : Check) → lookup id f.failure_checks ≡ some check → fails_at id check ≡ true)

failures_step-IsKept : (f : Failures) (check : Check) → IsKept f → IsKept (failures_step f check)
unfolding failures_step
failures_step-IsKept f check h id = (
  ground (
    arith,
    (h id).0,
    get_or-insert 0 id check.id (suc (get_or 0 check.id f.failure_counts)) f.failure_counts,
    lookup-insert id check.id check f.failure_checks,
  ),
  λ c found.
      ground
        (arith, (h id).1 c, lookup-insert id check.id check f.failure_checks, ==_iff id check.id),
)

failures_of_checks-IsKept :
    (f : Failures) (checks : List Check) → IsKept f → IsKept (failures_of_checks f checks)
unfolding failures_of_checks
failures_of_checks-IsKept f [] h = h
failures_of_checks-IsKept f (check ∷ checks) h =
    failures_of_checks-IsKept (failures_step f check) checks (failures_step-IsKept f check h)

failures_of_nodes-IsKept :
    (f : Failures) (nodes : List NodeResult) → IsKept f → IsKept (failures_of_nodes f nodes)
unfolding failures_of_nodes
failures_of_nodes-IsKept f [] h = h
failures_of_nodes-IsKept f (node ∷ nodes) h =
    failures_of_nodes-IsKept (failures_of_checks f node.checks) nodes
      (failures_of_checks-IsKept f node.checks h)

no_failures-IsKept : IsKept no_failures
unfolding lookup
no_failures-IsKept id = (refl, λ check h. cc)

-- The id that the loop stops at fails as often as there are nodes.
common_failure-some :
    (f : Failures) (n : ℕ) (ids : List String) (check : Check)
    → IsKept f
    → common_failure f n ids ≡ some check
    → (get_or 0 check.id f.failure_counts ≡ n) × (fails_at check.id check ≡ true)
unfolding common_failure
common_failure-some f n [] check h e = cc
common_failure-some f n (id ∷ ids) check h e =
    ground (arith, (h id).1 check, ==_iff id check.id, common_failure-some f n ids check h)

-- Some failure is taken as soon as a tried id fails as often as there are nodes.
common_failure-is_some :
    (f : Failures) (n : ℕ) (ids : List String)
    → IsKept f
    → is_some (common_failure f n ids)
      ≡ ltb 0 n && any (λ id. eqb (get_or 0 id f.failure_counts) n) ids
unfolding common_failure
common_failure-is_some f n [] h = ground arith
common_failure-is_some f n (x ∷ ids) h = ground (arith, (h x).0, common_failure-is_some f n ids h)

any-count_at :
    (id : String) (nodes : List NodeResult)
    → AllNodup nodes
    → all (λ node. any (fails_at id) node.checks) nodes ≡ true
    → count_nodes id nodes ≡ length nodes
any-count_at id [] hs a = refl
any-count_at id (node ∷ nodes) (h, hs) a =
    ground (arith, any-count_at id nodes hs, count_at-any id node.checks h)

zero_count :
    (id : String) (nodes : List NodeResult)
    → get_or 0 id no_failures.failure_counts + count_nodes id nodes ≡ count_nodes id nodes
zero_count id nodes = ground (arith, lookup-nil {V = ℕ} id)

-- Each node has a proven failure with the id.
abbrev pub fails_everywhere : List NodeResult → String → Bool
fails_everywhere nodes id = all (λ node. any (fails_at id) node.checks) nodes

module _ (nodes : List NodeResult) (distinct : AllNodup nodes) where
  abbrev counted : Failures
  counted = failures_of_nodes no_failures nodes

  counted-IsKept : IsKept counted
  counted-IsKept = failures_of_nodes-IsKept no_failures nodes no_failures-IsKept

  counted_lem : (id : String) → get_or 0 id counted.failure_counts ≡ count_nodes id nodes
  counted_lem id = count-failures_of_nodes no_failures nodes id ∙ zero_count id nodes

  fails_everywhere-eqb :
      (id : String)
      → eqb (get_or 0 id counted.failure_counts) (length nodes) ≡ fails_everywhere nodes id
  fails_everywhere-eqb id = elim (Bool-cases (fails_everywhere nodes id)) [
    | inl everywhere ↦ ground (arith, counted_lem id, any-count_at id nodes distinct everywhere)
    | inr short ↦ ground (arith, counted_lem id, full_count id nodes distinct)
  ]

  any-fails_everywhere :
      (ids : List String)
      → any (λ id. eqb (get_or 0 id counted.failure_counts) (length nodes)) ids
        ≡ any (fails_everywhere nodes) ids
  any-fails_everywhere [] = refl
  any-fails_everywhere (id ∷ ids) =
      ap₂ (λ a b. a || b) (fails_everywhere-eqb id) (any-fails_everywhere ids)

-- A failure is found only if it is proven and stands on every node; none is found only if there is
-- no node or no tried id fails on every node.
abbrev pub IsCommonFailure : List NodeResult → List String → Option Check → Type 0
IsCommonFailure nodes ids none = ltb 0 (length nodes) && any (fails_everywhere nodes) ids ≡ false
IsCommonFailure nodes ids (some check) =
    (is_executed_failure check ≡ true) × (fails_everywhere nodes check.id ≡ true)

-- Where no id stands twice among the checks of a node, the failure that the diagnosis takes for all
-- nodes is proven, and every node has a proven failure with its id. It takes none only where there
-- is no node, or where no id that it tries has a proven failure on every node.
pub common_failure-IsCommonFailure :
    (nodes : List NodeResult) (ids : List String)
    → AllNodup nodes
    → IsCommonFailure nodes ids
        (common_failure (failures_of_nodes no_failures nodes) (length nodes) ids)
common_failure-IsCommonFailure nodes ids distinct =
    let f = failures_of_nodes no_failures nodes in
    let found = common_failure f (length nodes) ids in
    elim (Option-cases found) [
      | inl nothing ↦ rw nothing (
          sym (ap (λ b. ltb 0 (length nodes) && b) (any-fails_everywhere nodes distinct ids))
          ∙ (sym (common_failure-is_some f (length nodes) ids (counted-IsKept nodes distinct))
              ∙ ap is_some nothing))
      | inr (check, e) ↦
          let (count, fails) =
            common_failure-some f (length nodes) ids check (counted-IsKept nodes distinct) e in
          rw e (
            ground (arith, fails),
            ground (arith, count, fails_everywhere-eqb nodes distinct check.id),
          )
    ]
