-- ===== src/Report/Nodes.antt =====
-- What splitNodesByAction reports of the nodes under each action.
use mathlib.Core.List.{append-nil, append_assoc}
use volens.Base.{
  String, ◌≡◌, refl, sym, ◌∙◌, ap, ap₂, Bool, true, false, not, ◌&&◌, ◌||◌, Option, none, some,
  List, [], ◌∷◌, ◌++◌, ◌==◌, ==_iff, is_some, string_in, string_in-append, all, any, arith,
  Bool-cases, inl, inr, if◌then◌else◌,
}
use volens.Base.Dict.{Dict, lookup, or_zero, insert, get_or, lookup-insert, get_or-insert}
use volens.Model.{Check, NodeResult}
use volens.Model.Checks.{is_pass, is_failure, is_unknown}
use volens.Report.Split.{
  normalized_action_stage, Split, new_node, add_check, split_step, split_loop, no_split, outcome_of,
  collect_loop, split_nodes_by_action,
}

-- The checks that belong to an action, in their order.
abbrev pub of_action : String → List Check → List Check
of_action action [] = []
of_action action (c ∷ cs) =
    let rest = of_action action cs in
    if action == normalized_action_stage c.stage then c ∷ rest else rest

abbrev extend : String → Option NodeResult → List Check → Option NodeResult
extend name node [] = node
extend name node (c ∷ cs) = extend name (some (add_check c (or_zero (new_node name) node))) cs

nodes-split_loop :
    (action name : String) (s : Split) (cs : List Check)
    → lookup action (split_loop name s cs).nodes_by_action
      ≡ extend name (lookup action s.nodes_by_action) (of_action action cs)
unfolding split_loop split_step
nodes-split_loop action name s [] = refl
nodes-split_loop action name s (c ∷ cs) =
    let stage = normalized_action_stage c.stage in
    let grown = add_check c (get_or (new_node name) stage s.nodes_by_action) in
    ground (
      arith,
      nodes-split_loop action name (split_step name s c) cs,
      lookup-insert action stage grown s.nodes_by_action,
    )

abbrev with_checks : NodeResult → List Check → Bool → NodeResult
with_checks node cs passed = record node { checks = cs; passed = passed }

extend_lem :
    (name : String) (node : NodeResult) (cs : List Check)
    → extend name (some node) cs
      ≡ some (with_checks node (node.checks ++ cs) (node.passed && all is_pass cs))
extend_lem name node [] =
    let passed : node.passed ≡ node.passed && true = ground arith in
    ap₂ (λ cs b. some (with_checks node cs b)) (sym (append-nil node.checks)) passed
extend_lem name node (c ∷ cs) =
    extend_lem name (add_check c node) cs
    ∙ ap₂ (λ cs b. some (with_checks node cs b)) (append_assoc node.checks (c ∷ []) cs)
        (passed node.passed c.passed c.determinate (all is_pass cs))
  where
    passed : (a b c d : Bool) → a && b && c && d ≡ a && (b && c && d)
    passed a b c d = ground arith

known_failure-split_loop :
    (action name : String) (s : Split) (cs : List Check)
    → get_or false action (split_loop name s cs).known_failure_by_action
      ≡ get_or false action s.known_failure_by_action || any is_failure (of_action action cs)
unfolding split_loop split_step
known_failure-split_loop action name s [] = ground arith
known_failure-split_loop action name s (c ∷ cs) =
    let stage = normalized_action_stage c.stage in
    ground (
      arith,
      known_failure-split_loop action name (split_step name s c) cs,
      get_or-insert false action stage
          (get_or false stage s.known_failure_by_action || c.determinate && not c.passed)
          s.known_failure_by_action,
    )

unknown-split_loop :
    (action name : String) (s : Split) (cs : List Check)
    → get_or false action (split_loop name s cs).unknown_by_action
      ≡ get_or false action s.unknown_by_action || any is_unknown (of_action action cs)
unfolding split_loop split_step
unknown-split_loop action name s [] = ground arith
unknown-split_loop action name s (c ∷ cs) =
    let stage = normalized_action_stage c.stage in
    ground (
      arith,
      unknown-split_loop action name (split_step name s c) cs,
      get_or-insert false action stage (get_or false stage s.unknown_by_action || not c.determinate)
          s.unknown_by_action,
    )

abbrev NodupList : List String → Type 0
NodupList [] = Unit
NodupList (x ∷ xs) = (string_in x xs ≡ false) × NodupList xs

NodupList-snoc :
    (xs : List String) (x : String)
    → string_in x xs ≡ false
    → NodupList xs
    → NodupList (xs ++ x ∷ [])
NodupList-snoc [] x new h = (refl, tt)
NodupList-snoc (y ∷ ys) x new (fresh, h) =
    (string_in-append y ys (x ∷ []) ∙ ground arith, NodupList-snoc ys x (ground arith) h)

-- The list of the actions has each key of the map once.
pub record IsOrdered (s : Split) : Type 0 where
  pub same_names : (a : String) → is_some (lookup a s.nodes_by_action) ≡ string_in a s.node_order
  pub each_once : NodupList s.node_order

split_step-IsOrdered :
    (name : String) (s : Split) (c : Check) → IsOrdered s → IsOrdered (split_step name s c)
unfolding split_step
split_step-IsOrdered name s c h =
    let stage = normalized_action_stage c.stage in
    let grown = add_check c (get_or (new_node name) stage s.nodes_by_action) in
    elim (Bool-cases (is_some (lookup stage s.nodes_by_action))) [
      | inl e ↦ rw e (record {
        same_names = λ a. ground (
          arith,
          h.same_names a,
          h.same_names stage,
          e,
          lookup-insert a stage grown s.nodes_by_action,
        );
        each_once = h.each_once;
      })
      | inr e ↦ rw e (record {
        same_names = λ a. ground (
          arith,
          h.same_names a,
          lookup-insert a stage grown s.nodes_by_action,
          string_in-append a s.node_order (stage ∷ []),
        );
        each_once = NodupList-snoc s.node_order stage (sym (h.same_names stage) ∙ e) h.each_once;
      })
    ]

collect_loop_lem :
    (action : String) (s : Split) (result : Dict (List NodeResult)) (names : List String)
    → NodupList names
    → get_or [] action (collect_loop s result names)
      ≡ get_or [] action result ++ (if string_in action names then outcome_of s action ∷ [] else [])
unfolding collect_loop
collect_loop_lem action s result [] h = sym (append-nil (get_or [] action result))
collect_loop_lem action s result (name ∷ names) (fresh, h) =
    collect_loop_lem action s (insert name (get_or [] name result ++ outcome_of s name ∷ []) result)
      names h
    ∙ elim (Bool-cases (action == name)) [
      | inl e ↦ rw e (same ((==_iff action name).0 e))
      | inr e ↦ rw e (
          ap (λ l. l ++ (if string_in action names then outcome_of s action ∷ [] else []))
            (get_or-insert [] action name (get_or [] name result ++ outcome_of s name ∷ []) result
              ∙ rw e refl))
    ]
  where
    same :
        action ≡ name
        → get_or [] action (insert name (get_or [] name result ++ outcome_of s name ∷ []) result)
            ++ (if string_in action names then outcome_of s action ∷ [] else [])
          ≡ get_or [] action result ++ outcome_of s action ∷ []
    same e =
        let grown = get_or [] name result ++ outcome_of s name ∷ [] in
        ground (
          arith,
          get_or-insert [] action name grown result,
          append-nil grown,
          ap (λ n. string_in n names) e,
        )

split_loop-IsOrdered :
    (name : String) (s : Split) (cs : List Check) → IsOrdered s → IsOrdered (split_loop name s cs)
unfolding split_loop
split_loop-IsOrdered name s [] h = h
split_loop-IsOrdered name s (c ∷ cs) h =
    split_loop-IsOrdered name (split_step name s c) cs (split_step-IsOrdered name s c h)

no_split-IsOrdered : IsOrdered no_split
unfolding lookup
no_split-IsOrdered = record { same_names = λ a. refl; each_once = tt }

-- A node's result for an action, from the checks of the action.
abbrev pub result_of : String → List Check → NodeResult
result_of name cs = record {
  name = name;
  passed = all is_pass cs;
  determinate = any is_failure cs || not (any is_unknown cs);
  resources = [];
  checks = cs;
}

abbrev pub results_of : String → List Check → List NodeResult
results_of name [] = []
results_of name (c ∷ cs) = result_of name (c ∷ cs) ∷ []

collected :
    (name : String) (cs : List Check) (s : Split) (action : String)
    → lookup action s.nodes_by_action ≡ extend name none cs
    → get_or false action s.known_failure_by_action ≡ any is_failure cs
    → get_or false action s.unknown_by_action ≡ any is_unknown cs
    → (if is_some (lookup action s.nodes_by_action) then outcome_of s action ∷ [] else [])
      ≡ results_of name cs
collected name [] s action e known unknown = rw e refl
collected name (c ∷ cs) s action e known unknown =
    let found = e ∙ extend_lem name (add_check c (new_node name)) cs in
    rw (found, known, unknown) refl

split_loop-results :
    (action name : String) (cs : List Check)
    → (if string_in action (split_loop name no_split cs).node_order
        then outcome_of (split_loop name no_split cs) action ∷ []
        else [])
      ≡ results_of name (of_action action cs)
unfolding lookup
split_loop-results action name cs =
    let s = split_loop name no_split cs in
    ap (λ b. if b then outcome_of s action ∷ [] else [])
      (sym ((split_loop-IsOrdered name no_split cs no_split-IsOrdered).same_names action))
    ∙ collected name (of_action action cs) s action (nodes-split_loop action name no_split cs)
        (known_failure-split_loop action name no_split cs)
        (unknown-split_loop action name no_split cs)

-- What an action has of the nodes: for each node with checks of the action, those checks.
abbrev pub node_results : String → List NodeResult → List NodeResult
node_results action [] = []
node_results action (node ∷ nodes) =
    results_of node.name (of_action action node.checks) ++ node_results action nodes

split_nodes_by_action_lem :
    (action : String) (result : Dict (List NodeResult)) (nodes : List NodeResult)
    → get_or [] action (split_nodes_by_action result nodes)
      ≡ get_or [] action result ++ node_results action nodes
unfolding split_nodes_by_action
split_nodes_by_action_lem action result [] = sym (append-nil (get_or [] action result))
split_nodes_by_action_lem action result (node ∷ nodes) =
    let s = split_loop node.name no_split node.checks in
    let ordered = split_loop-IsOrdered node.name no_split node.checks no_split-IsOrdered in
    split_nodes_by_action_lem action (collect_loop s result s.node_order) nodes
    ∙ ap (λ l. l ++ node_results action nodes)
        (collect_loop_lem action s result s.node_order ordered.each_once
          ∙ ap (λ l. get_or [] action result ++ l)
              (split_loop-results action node.name node.checks))
    ∙ append_assoc (get_or [] action result) (results_of node.name (of_action action node.checks))
        (node_results action nodes)

-- Under an action stand, node by node and in the order of the nodes, the nodes that have checks of
-- the action, with those checks in their order. Such a node passes when these checks pass, and it
-- is determinate when one of them is a determinate failure or none of them is indeterminate.
pub split_nodes_by_action-node_results :
    (action : String) (nodes : List NodeResult)
    → get_or [] action (split_nodes_by_action [] nodes) ≡ node_results action nodes
unfolding lookup
split_nodes_by_action-node_results action nodes = split_nodes_by_action_lem action [] nodes
