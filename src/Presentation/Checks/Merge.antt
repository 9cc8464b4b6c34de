-- ===== src/Presentation/Checks/Merge.antt =====
-- What mergeChecks gives: the ids of its result, and the last check under each id.
use mathlib.Core.List.{append-nil, append_assoc}
use volens.Base.{
  ℕ, zero, suc, ◌+◌, ◌≡◌, refl, sym, ◌∙◌, String, Option, none, some, List, [], ◌∷◌, ◌++◌, ◌==◌,
  arith, length, Option-cases, if◌then◌else◌, inl, inr, is_some, string_in, ==_iff, ap, true,
  Bool-cases, false,
}
use volens.Base.Dict.{Dict, lookup, insert, lookup-insert, lookup-nil}
use volens.Model.{Check}
use volens.Presentation.Checks.{index_loop, set, Merged, merge_step, merge_loop, merge_checks}

-- The check that a list of checks has for an id, as a map that is written in order has it.
abbrev pub or_else : {A : Type 0} → Option A → Option A → Option A
or_else (some a) o = some a
or_else none o = o

abbrev pub last_check : String → List Check → Option Check
last_check id [] = none
last_check id (check ∷ checks) =
    or_else (last_check id checks) (if id == check.id then some check else none)

-- Where that check stands.
abbrev last_index : String → List Check → Option ℕ
last_index id [] = none
last_index id (check ∷ checks) = elim (last_index id checks) [
  | some index ↦ some (suc index)
  | none ↦ if id == check.id then some 0 else none
]

abbrev from_start : ℕ → Option ℕ → Option ℕ → Option ℕ
from_start start (some index) o = some (index + start)
from_start start none o = o

-- The ids of a list of checks, in its order.
abbrev pub ids : List Check → List String
ids [] = []
ids (check ∷ checks) = check.id ∷ ids checks

-- The ids that are not among those seen, each where it first stands.
abbrev pub new_ids : List String → List Check → List String
new_ids seen [] = []
new_ids seen (check ∷ checks) =
    let again = new_ids seen checks in
    let first = new_ids (seen ++ check.id ∷ []) checks in
    if string_in check.id seen then again else check.id ∷ first

lookup-index_loop :
    (indexes : Dict ℕ) (start : ℕ) (checks : List Check) (id : String)
    → lookup id (index_loop indexes start checks)
      ≡ from_start start (last_index id checks) (lookup id indexes)
unfolding index_loop
lookup-index_loop indexes start [] id = refl
lookup-index_loop indexes start (check ∷ checks) id = ground (
  arith,
  lookup-index_loop (insert check.id start indexes) (suc start) checks id,
  lookup-insert id check.id start indexes,
)

last_check-append :
    (id : String) (xs ys : List Check)
    → last_check id (xs ++ ys) ≡ or_else (last_check id ys) (last_check id xs)
last_check-append id [] ys = ground arith
last_check-append id (x ∷ xs) ys = ground (arith, last_check-append id xs ys)

last_index-snoc :
    (id : String) (xs : List Check) (x : Check)
    → last_index id (xs ++ x ∷ []) ≡ (if id == x.id then some (length xs) else last_index id xs)
last_index-snoc id [] x = ground arith
last_index-snoc id (y ∷ ys) x = ground (arith, last_index-snoc id ys x)

last_check-absent :
    (id : String) (checks : List Check) → last_index id checks ≡ none → last_check id checks ≡ none
last_check-absent id [] h = refl
last_check-absent id (check ∷ checks) h = ground (arith, last_check-absent id checks)

module _ (check : Check) (id : String) where
  last_index-set :
      (index : ℕ) (checks : List Check)
      → last_index check.id checks ≡ some index
      → last_index id (set checks index check) ≡ last_index id checks
  last_index-set index [] h = ground arith
  last_index-set zero (c ∷ checks) h = ground arith
  last_index-set (suc index) (c ∷ checks) h = ground (arith, last_index-set index checks)

  last_check-set :
      (index : ℕ) (checks : List Check)
      → last_index check.id checks ≡ some index
      → last_check id (set checks index check)
        ≡ (if id == check.id then some check else last_check id checks)
  last_check-set index [] h = ground arith
  last_check-set zero (c ∷ checks) h = ground (arith, last_check-absent check.id checks)
  last_check-set (suc index) (c ∷ checks) h = ground (arith, last_check-set index checks)

-- The indexes are where the checks stand.
abbrev IsIndexed : Merged → Type 0
IsIndexed m = (id : String) → lookup id m.indexes ≡ last_index id m.result

merge_step-found :
    (m : Merged) (check : Check) (index : ℕ)
    → lookup check.id m.indexes ≡ some index
    → IsIndexed m
    → (id : String)
    → (lookup id (merge_step m check).indexes ≡ last_index id (merge_step m check).result)
      × (last_check id (merge_step m check).result
          ≡ (if id == check.id then some check else last_check id m.result))
unfolding merge_step
merge_step-found m check index found h id =
    rw (found, merge_step)
      (
        h id ∙ sym (last_index-set check id index m.result (sym (h check.id) ∙ found)),
        last_check-set check id index m.result (sym (h check.id) ∙ found),
      )

merge_step-added :
    (m : Merged) (check : Check)
    → lookup check.id m.indexes ≡ none
    → IsIndexed m
    → (id : String)
    → (lookup id (merge_step m check).indexes ≡ last_index id (merge_step m check).result)
      × (last_check id (merge_step m check).result
          ≡ (if id == check.id then some check else last_check id m.result))
unfolding merge_step
merge_step-added m check fresh h id =
    rw (fresh, merge_step)
      (
        lookup-insert id check.id (length m.result) m.indexes
            ∙ (rw (h id) (sym (last_index-snoc id m.result check))),
        last_check-append id m.result (check ∷ []) ∙ ground arith,
      )

merge_step_lem :
    (m : Merged) (check : Check)
    → IsIndexed m
    → (id : String)
    → (lookup id (merge_step m check).indexes ≡ last_index id (merge_step m check).result)
      × (last_check id (merge_step m check).result
          ≡ (if id == check.id then some check else last_check id m.result))
merge_step_lem m check h = elim (Option-cases (lookup check.id m.indexes)) [
  | inl fresh ↦ merge_step-added m check fresh h
  | inr (index, found) ↦ merge_step-found m check index found h
]

last_check-merge_loop :
    (m : Merged) (additions : List Check) (id : String)
    → IsIndexed m
    → last_check id (merge_loop m additions).result
      ≡ or_else (last_check id additions) (last_check id m.result)
unfolding merge_loop
last_check-merge_loop m [] id h = refl
last_check-merge_loop m (check ∷ additions) id h = ground (
  arith,
  last_check-merge_loop (merge_step m check) additions id (λ j. (merge_step_lem m check h j).0),
  (merge_step_lem m check h id).1,
)

indexed_start :
    (existing : List Check)
    → (id : String) → lookup id (index_loop [] 0 existing) ≡ last_index id existing
indexed_start existing id =
    ground (arith, lookup-index_loop [] 0 existing id, lookup-nil {V = ℕ} id)

is_some-last_index :
    (id : String) (checks : List Check) → is_some (last_index id checks) ≡ string_in id (ids checks)
is_some-last_index id [] = refl
is_some-last_index id (check ∷ checks) = ground (arith, is_some-last_index id checks)

ids-snoc :
    (checks : List Check) (check : Check) → ids (checks ++ check ∷ []) ≡ ids checks ++ check.id ∷ []
ids-snoc [] check = refl
ids-snoc (c ∷ checks) check = ap (λ rest. c.id ∷ rest) (ids-snoc checks check)

-- A check that takes the place of one with its id.
ids-set :
    (check : Check) (index : ℕ) (checks : List Check)
    → last_index check.id checks ≡ some index
    → ids (set checks index check) ≡ ids checks
ids-set check index [] h = refl
ids-set check zero (c ∷ checks) h = ground (arith, ==_iff check.id c.id)
ids-set check (suc index) (c ∷ checks) h =
    ap (λ rest. c.id ∷ rest) (ids-set check index checks (ground arith))

ids-merge_step :
    (m : Merged) (check : Check)
    → IsIndexed m
    → ids (merge_step m check).result
      ≡ (if string_in check.id (ids m.result) then ids m.result else ids m.result ++ check.id ∷ [])
unfolding merge_step
ids-merge_step m check h = elim (Option-cases (lookup check.id m.indexes)) [
  | inl fresh ↦
      let absent : string_in check.id (ids m.result) ≡ false =
        ground (arith, is_some-last_index check.id m.result, h check.id) in
      rw (absent, fresh, merge_step) (ids-snoc m.result check)
  | inr (index, found) ↦
      let present : string_in check.id (ids m.result) ≡ true =
        ground (arith, is_some-last_index check.id m.result, h check.id) in
      rw (present, found, merge_step) (ids-set check index m.result (sym (h check.id) ∙ found))
]

next_ids :
    (seen : List String) (check : Check) (additions : List Check)
    → let next = if string_in check.id seen then seen else seen ++ check.id ∷ [] in
      next ++ new_ids next additions ≡ seen ++ new_ids seen (check ∷ additions)
next_ids seen check additions = elim (Bool-cases (string_in check.id seen)) [
  | inl e ↦ rw e refl
  | inr e ↦ rw e (append_assoc seen (check.id ∷ []) (new_ids (seen ++ check.id ∷ []) additions))
]

ids-merge_loop :
    (m : Merged) (additions : List Check)
    → IsIndexed m
    → ids (merge_loop m additions).result ≡ ids m.result ++ new_ids (ids m.result) additions
unfolding merge_loop
ids-merge_loop m [] h = sym (append-nil (ids m.result))
ids-merge_loop m (check ∷ additions) h =
    ids-merge_loop (merge_step m check) additions (λ j. (merge_step_lem m check h j).0)
    ∙ ap (λ l. l ++ new_ids l additions) (ids-merge_step m check h)
    ∙ next_ids (ids m.result) check additions

-- Merging keeps the ids of the existing checks in their places and puts after them the new ids of the
-- additions, each once and in the order in which they first come. Under each id, the last check of
-- the merged list is the last addition with that id and, where there is none, the last existing
-- check with it: an addition stands in the place of the check it replaces.
pub last_check-merge_checks :
    (existing additions : List Check) (id : String)
    → (ids (merge_checks existing additions) ≡ ids existing ++ new_ids (ids existing) additions)
      × (last_check id (merge_checks existing additions)
          ≡ or_else (last_check id additions) (last_check id existing))
unfolding merge_checks
last_check-merge_checks existing additions id =
    let start : Merged = record { result = existing; indexes = index_loop [] 0 existing } in
    (
      ids-merge_loop start additions (indexed_start existing),
      last_check-merge_loop start additions id (indexed_start existing),
    )
