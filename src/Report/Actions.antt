-- ===== src/Report/Actions.antt =====
-- No part of a report is lost on the way into its actions.
use volens.Base.{
  ℕ, suc, String, ◌≡◌, refl, ◌∙◌, Bool, true, false, not, ◌&&◌, ◌||◌, List, [], ◌∷◌, ◌++◌, ◌==◌,
  is_some, string_in, length, all, all-append, arith, Bool-cases, inl, inr, if◌then◌else◌,
}
use volens.Base.Int.{ℤ, pos}
use volens.Base.Dict.{lookup, get_or, lookup-insert}
use volens.Model.Checks.{is_pass}
use volens.Report.Finalize.{action_ok, plugin_ok, node_ok}
use volens.Report.{
  ByAction, Appended, append_action, configured_loop, observed_loop, native_action_coverage,
  coverage_check, add_coverage,
}
use volens.Model.Reports.{ActionReport}

module _ (by : ByAction) where
  -- What the report has for an action is all right.
  abbrev pub stage_ok : String → Bool
  stage_ok name =
      all is_pass (get_or [] name by.checks)
      && all plugin_ok (get_or [] name by.plugins)
      && all node_ok (get_or [] name by.nodes)

  -- Whatever has been appended is in the actions: if they are all right, so is it.
  abbrev pub IsSound : Appended → Type 0
  IsSound a =
      (name : String)
      → is_some (lookup name a.first_index) ≡ true
      → all action_ok a.actions ≡ true
      → stage_ok name ≡ true

  abbrev appended : String → Bool → ℤ → Bool → ActionReport
  appended name configured order full = record {
    name = name;
    order = order;
    configured = configured;
    checks = if full then get_or [] name by.checks else [];
    plugins = if full then get_or [] name by.plugins else [];
    nodes = if full then get_or [] name by.nodes else [];
  }

  pub append_action-IsSound :
      (a : Appended) (name : String) (configured : Bool) (order : ℤ)
      → IsSound a
      → IsSound (append_action by a name configured order)
  unfolding append_action
  append_action-IsSound a name configured order sound other there good =
      let found = is_some (lookup name a.first_index) in
      ground (
        arith,
        sound other,
        lookup-insert other name (length a.actions) a.first_index,
        all-append action_ok a.actions
            (appended name configured order (configured || not found) ∷ []),
      )

  pub append_action-found :
      (a : Appended) (name other : String) (configured : Bool) (order : ℤ)
      → is_some (lookup other (append_action by a name configured order).first_index)
        ≡ (other == name) || is_some (lookup other a.first_index)
  unfolding append_action
  append_action-found a name other configured order =
      ground (arith, lookup-insert other name (length a.actions) a.first_index)

  pub configured_loop-IsSound :
      (a : Appended) (order : ℕ) (actions : List String)
      → IsSound a
      → IsSound (configured_loop by a order actions)
  unfolding configured_loop
  configured_loop-IsSound a order [] sound = sound
  configured_loop-IsSound a order (action ∷ actions) sound =
      configured_loop-IsSound (append_action by a action true (pos order)) (suc order) actions
        (append_action-IsSound a action true (pos order) sound)

  pub configured_loop-found :
      (a : Appended) (order : ℕ) (actions : List String) (name : String)
      → is_some (lookup name a.first_index) ≡ true
      → is_some (lookup name (configured_loop by a order actions).first_index) ≡ true
  unfolding configured_loop
  configured_loop-found a order [] name h = h
  configured_loop-found a order (action ∷ actions) name h =
      configured_loop-found (append_action by a action true (pos order)) (suc order) actions name
        (ground (arith, append_action-found a action name true (pos order)))

  observed_next : Appended → String → Appended
  observed_next a action =
      if (action == "preflight") || is_some (lookup action a.first_index)
      then a
      else append_action by a action false (pos (length a.actions))

  observed_next-IsSound :
      (a : Appended) (action : String) → IsSound a → IsSound (observed_next a action)
  unfolding observed_next
  observed_next-IsSound a action sound =
      elim (Bool-cases ((action == "preflight") || is_some (lookup action a.first_index))) [
        | inl e ↦ rw e sound
        | inr e ↦ rw e (append_action-IsSound a action false (pos (length a.actions)) sound)
      ]

  observed_next-found :
      (a : Appended) (action name : String)
      → is_some (lookup name (observed_next a action).first_index)
        ≡ (name == action) && not (action == "preflight") || is_some (lookup name a.first_index)
  unfolding observed_next
  observed_next-found a action name =
      ground (arith, append_action-found a action name false (pos (length a.actions)))

  pub observed_loop-IsSound :
      (a : Appended) (actions : List String) → IsSound a → IsSound (observed_loop by a actions)
  unfolding observed_loop observed_next
  observed_loop-IsSound a [] sound = sound
  observed_loop-IsSound a (action ∷ actions) sound =
      observed_loop-IsSound (observed_next a action) actions (observed_next-IsSound a action sound)

  -- After the loop over the observed stages each of them has an action.
  pub observed_loop-found :
      (a : Appended) (actions : List String) (name : String)
      → is_some (lookup name (observed_loop by a actions).first_index)
        ≡ string_in name actions && not (name == "preflight") || is_some (lookup name a.first_index)
  unfolding observed_loop observed_next
  observed_loop-found a [] name = refl
  observed_loop-found a (action ∷ actions) name =
      observed_loop-found (observed_next a action) actions name
      ∙ ground (arith, observed_next-found a action name)

-- A configured action whose control flow the rules reproduce, or one that is not configured.
abbrev pub is_covered : ActionReport → Bool
is_covered a = not a.configured || native_action_coverage a.name

add_one-ok :
    (a : ActionReport) (name : String)
    → action_ok (record a { checks = a.checks ++ coverage_check name ∷ [] }) ≡ false
add_one-ok a name = ground (arith, all-append is_pass a.checks (coverage_check name ∷ []))

pub add_coverage-ok :
    (actions : List ActionReport)
    → all action_ok (add_coverage actions) ≡ all action_ok actions && all is_covered actions
unfolding add_coverage
add_coverage-ok [] = refl
add_coverage-ok (a ∷ actions) = ground (arith, add_coverage-ok actions, add_one-ok a a.name)

module _ (by : ByAction) where
  pub append_action-covered :
      (a : Appended) (name : String) (configured : Bool) (order : ℤ)
      → all is_covered (append_action by a name configured order).actions
        ≡ all is_covered a.actions && (not configured || native_action_coverage name)
  unfolding append_action
  append_action-covered a name configured order = ground (
    arith,
    all-append is_covered a.actions (
        appended by name configured order (configured || not (is_some (lookup name a.first_index)))
        ∷ []),
  )

  pub configured_loop-covered :
      (a : Appended) (order : ℕ) (actions : List String)
      → all is_covered (configured_loop by a order actions).actions
        ≡ all is_covered a.actions && all native_action_coverage actions
  unfolding configured_loop
  configured_loop-covered a order [] = ground arith
  configured_loop-covered a order (action ∷ actions) =
      configured_loop-covered (append_action by a action true (pos order)) (suc order) actions
      ∙ ground (arith, append_action-covered a action true (pos order))

  pub observed_loop-covered :
      (a : Appended) (actions : List String)
      → all is_covered (observed_loop by a actions).actions ≡ all is_covered a.actions
  unfolding observed_loop observed_next
  observed_loop-covered a [] = refl
  observed_loop-covered a (action ∷ actions) =
      observed_loop-covered (observed_next by a action) actions
      ∙ ground (arith, append_action-covered a action false (pos (length a.actions)))
