-- ===== src/Filter/Resources.antt =====
-- internal/agent/filter/resources.go: the resources that a Pod asks for, as Kubernetes counts them.
pub mod Laws
pub mod Spec
pub mod InitLoop
pub mod Formula
use volens.Base.{
  String, Bool, true, false, ◌||◌, none, some, List, [], ◌∷◌, ◌==◌, any, if◌then◌else◌,
}
use volens.Base.Int.{ℤ, pos, ◌+ℤ◌, scale, ltb_ℤ}
use volens.Base.Dict.{insert, get_or}
use volens.Kube.{Quantity, ResourceList, Container, Toleration, Taint, NodeCondition, Node, Pod}
use volens.Cluster.{Amounts}
use volens.Model.{Message, text, amount, amounts}

abbrev pub value_of : String → Amounts → ℤ
value_of = get_or (pos 0)

pub condition_ready : List NodeCondition → Bool
condition_ready [] = false
condition_ready (c ∷ cs) = if c.type == "Ready" then c.status == "True" else condition_ready cs

unfoldable pub node_ready : Node → Bool
unfolding condition_ready
node_ready node = condition_ready node.conditions

-- `ToleratesTaint` is a method of k8s.io/api, and a parameter.
unfoldable pub taints_tolerated : (Toleration → Taint → Bool) → List Taint → List Toleration → Bool
taints_tolerated tolerates [] tolerations = true
taints_tolerated tolerates (taint ∷ taints) tolerations =
    let rest = taints_tolerated tolerates taints tolerations in
    if (taint.effect == "NoSchedule") || (taint.effect == "NoExecute")
    then (if any (λ t. tolerates t taint) tolerations then rest else false)
    else rest

-- In thousandths: a CPU counts its millis, any other resource its whole value.
unfoldable pub resource_value : String → Quantity → ℤ
resource_value name q = if name == "cpu" then q.milli_value else scale 1000 q.value

unfoldable pub resource_list_values : ResourceList → Amounts
unfolding resource_value
resource_list_values [] = []
resource_list_values ((name, q) ∷ rest) = (name, resource_value name q) ∷ resource_list_values rest

unfoldable pub add_resources : Amounts → Amounts → Amounts
add_resources destination [] = destination
add_resources destination ((name, v) ∷ source) =
    add_resources (insert name (value_of name destination +ℤ v) destination) source

-- The body of the loop: an assignment where the candidate is larger.
unfoldable pub raise_to : String → ℤ → Amounts → Amounts
raise_to name v destination =
    if ltb_ℤ (value_of name destination) v then insert name v destination else destination

unfoldable pub max_resources : Amounts → Amounts → Amounts
unfolding raise_to
max_resources destination [] = destination
max_resources destination ((name, v) ∷ candidate) =
    max_resources (raise_to name v destination) candidate

-- The copy of a map is the same map.
abbrev pub clone_resources : Amounts → Amounts
clone_resources source = source

abbrev pub is_restartable : Container → Bool
is_restartable c = elim c.restart_policy [ none ↦ false | some policy ↦ policy == "Always" ]

pub add_containers : Amounts → List Container → Amounts
add_containers requests [] = requests
add_containers requests (c ∷ cs) =
    add_containers (add_resources requests (resource_list_values c.requests)) cs

-- The three maps of the loop over the init containers.
pub record InitState : Type 0 where
  pub requests : Amounts
  pub restartable_init : Amounts
  pub max_init : Amounts

pub init_step : InitState → Container → InitState
init_step s c =
    let current = resource_list_values c.requests in
    if is_restartable c
    then record {
      requests = add_resources s.requests current;
      restartable_init = add_resources s.restartable_init current;
      max_init =
          max_resources s.max_init (clone_resources (add_resources s.restartable_init current));
    }
    else record s { max_init = max_resources s.max_init (add_resources current s.restartable_init) }

pub init_loop : InitState → List Container → InitState
unfolding init_step
init_loop s [] = s
init_loop s (c ∷ cs) = init_loop (init_step s c) cs

unfoldable pub pod_requests : Pod → Amounts
unfolding add_containers init_loop add_resources max_resources resource_list_values
pod_requests pod =
    let requests = add_containers (("pods", pos 1000) ∷ []) pod.spec.containers in
    let s =
      init_loop (record { requests = requests; restartable_init = []; max_init = [] })
        pod.spec.init_containers in
    add_resources (max_resources s.requests s.max_init) (resource_list_values pod.spec.overhead)

unfoldable pub has_restartable_init_container : Pod → Bool
has_restartable_init_container pod = any is_restartable pod.spec.init_containers

pub fits_loop : Amounts → Amounts → Amounts → Bool × Message
fits_loop all [] available =
    (true, text "request=" ∷ amounts all ∷ text " available=" ∷ amounts available ∷ [])
fits_loop all ((name, v) ∷ request) available =
    let rest = fits_loop all request available in
    if ltb_ℤ (value_of name available) v
    then (
      false,
      text name
          ∷ text " request "
          ∷ amount v
          ∷ text " > available "
          ∷ amount (value_of name available)
          ∷ [],
    )
    else rest

unfoldable pub fits : Amounts → Amounts → Bool × Message
unfolding fits_loop
fits request available = fits_loop request request available
