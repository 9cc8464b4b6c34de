-- ===== src/Report/Stages.antt =====
-- The stages that are observed, and what is grouped under them.
use volens.Base.{
  String, ◌≡◌, refl, ◌∙◌, Bool, true, false, not, ◌&&◌, ◌||◌, List, [], ◌∷◌, ◌++◌, map, ◌==◌,
  ==_refl, string_in, all, all-append, string_in-append, arith, Bool-cases, inl, inr,
}
use volens.Base.Dict.{Dict, insert, get_or, get_or-insert}
use volens.Report.{group, Observed, observe, observe_all}

module _ {A : Type 0} (stage : A → String) (p : A → Bool) where
  -- All the elements of a stage satisfy `p`.
  abbrev pub all_of : String → List A → Bool
  all_of name = all (λ x. not (name == stage x) || p x)

  pub all-group :
      (name : String) (d : Dict (List A)) (xs : List A)
      → all p (get_or [] name (group stage d xs)) ≡ all p (get_or [] name d) && all_of name xs
  unfolding group
  all-group name d [] = ground arith
  all-group name d (x ∷ xs) =
      let grown = get_or [] (stage x) d ++ x ∷ [] in
      all-group name (insert (stage x) grown d) xs
      ∙ ground (
        arith,
        get_or-insert [] name (stage x) grown d,
        all-append p (get_or [] (stage x) d) (x ∷ []),
      )

  -- Elements that satisfy `p` stage by stage satisfy it, but for those without a stage.
  pub all-all_of :
      (xs : List A)
      → ((name : String)
          → (name == "") ≡ false
          → string_in name (map stage xs) ≡ true
          → all_of name xs ≡ true)
      → all (λ x. (stage x == "") || p x) xs ≡ true
  all-all_of [] h = refl
  all-all_of (x ∷ xs) h = ground (
    arith,
    h (stage x),
    ==_refl (stage x),
    all-all_of xs (λ name named there. ground (arith, h name)),
  )

-- The list and the map of `observe` agree.
abbrev pub IsConsistent : Observed → Type 0
IsConsistent o = (name : String) → get_or false name o.seen ≡ string_in name o.order

observe-IsConsistent :
    (o : Observed) (stage : String) → IsConsistent o → IsConsistent (observe o stage)
unfolding observe
observe-IsConsistent o stage h name =
    elim (Bool-cases ((stage == "") || get_or false stage o.seen)) [
      | inl e ↦ rw e (h name)
      | inr e ↦ rw e (
          get_or-insert false name stage true o.seen
          ∙ ground (arith, h name, string_in-append name o.order (stage ∷ [])))
    ]

pub observe_all-IsConsistent :
    (o : Observed) (stages : List String) → IsConsistent o → IsConsistent (observe_all o stages)
unfolding observe_all
observe_all-IsConsistent o [] h = h
observe_all-IsConsistent o (stage ∷ stages) h =
    observe_all-IsConsistent (observe o stage) stages (observe-IsConsistent o stage h)

observe-order :
    (o : Observed) (stage name : String)
    → IsConsistent o
    → string_in name (observe o stage).order
      ≡ (name == stage) && not (name == "") || string_in name o.order
unfolding observe
observe-order o stage name h = elim (Bool-cases ((stage == "") || get_or false stage o.seen)) [
  | inl e ↦ rw e (ground (arith, h stage))
  | inr e ↦ rw e (string_in-append name o.order (stage ∷ []) ∙ ground arith)
]

-- Each stage with a name is observed.
pub observe_all-order :
    (o : Observed) (stages : List String) (name : String)
    → IsConsistent o
    → string_in name (observe_all o stages).order
      ≡ string_in name stages && not (name == "") || string_in name o.order
unfolding observe_all
observe_all-order o [] name h = refl
observe_all-order o (stage ∷ stages) name h =
    observe_all-order (observe o stage) stages name (observe-IsConsistent o stage h)
    ∙ ground (arith, observe-order o stage name h)
