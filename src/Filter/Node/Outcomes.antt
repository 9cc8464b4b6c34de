-- ===== src/Filter/Node/Outcomes.antt =====
-- How the checks of a node come to its two flags.
use volens.Base.{◌≡◌, Bool, true, not, ◌&&◌, ◌||◌, List, [], ◌∷◌, any, all, arith}
use volens.Kube.{Toleration, Taint, Node, Pod}
use volens.Cluster.{CacheNode}
use volens.Model.{Check, NodeResult}
use volens.Model.Checks.{is_pass, is_failure, is_unknown, all-is_pass}
use volens.Filter.Node.{Outcome, outcome_loop, clean, evaluate_node}

outcome_loop_lem :
    (o : Outcome) (cs : List Check)
    → ((outcome_loop o cs).passed ≡ o.passed && all is_pass cs)
      × ((outcome_loop o cs).known_failure ≡ o.known_failure || any is_failure cs)
      × ((outcome_loop o cs).unknown_seen ≡ o.unknown_seen || any is_unknown cs)
unfolding outcome_loop
outcome_loop_lem o [] = ground arith
outcome_loop_lem o (c ∷ cs) = ground (
  arith,
  outcome_loop_lem
      (record {
        passed = o.passed && c.passed && c.determinate;
        known_failure = o.known_failure || c.determinate && not c.passed;
        unknown_seen = o.unknown_seen || not c.determinate;
      })
      cs,
)

module _ (tolerates_taint : Toleration → Taint → Bool) (pod : Pod) (node : Node) (cache : CacheNode)
    (cache_found : Bool) where
  abbrev result : NodeResult
  result = evaluate_node tolerates_taint pod node cache cache_found

  -- A node passes when each of its checks passes and is determinate. Its outcome is determinate
  -- when a check is a determinate failure, or when every check is determinate. So a node that
  -- passes is determinate, and one that is indeterminate has not passed.
  pub evaluate_node-flags :
      (result.passed ≡ all is_pass result.checks)
      × (result.determinate ≡ any is_failure result.checks || not (any is_unknown result.checks))
      × (result.passed ≡ true → result.determinate ≡ true)
  unfolding evaluate_node
  evaluate_node-flags =
      ground (arith, outcome_loop_lem clean result.checks, all-is_pass result.checks)
