-- ===== src/Presentation/Amounts.antt =====
-- internal/agent/presentation.go: the amounts of a resource list and of a Pod, for display. An amount
-- (`float64` there) is a whole number of thousandths.
use Prim.Native.Char.{code}
use volens.Base.{String, Bool, false, not, ◌&&◌, ◌||◌, List, [], ◌∷◌, ◌==◌, map, if◌then◌else◌}
use volens.Base.Int.{pos, ◌+ℤ◌, scale, ltb_ℤ}
use volens.Base.Dict.{Dict, insert, get_or}
use volens.Base.Chars.{text_of, trimmed_chars, drop_chars, starts_with}
use volens.Base.Text.{codes, lower, has_prefix}
use volens.Kube.{Quantity, ResourceList, Container, Pod}
use volens.Cluster.{Amounts}

unfoldable pub canonical_resource_name : String → String
canonical_resource_name name =
    let trimmed = trimmed_chars name in
    if has_prefix (lower (map code trimmed)) (codes "requests.")
    then text_of (drop_chars 9 trimmed)
    else text_of trimmed

-- The two maps of the loop of resourceListValues.
pub record Values : Type 0 where
  pub values : Amounts
  pub request_backed : Dict Bool

unfoldable pub value_step : Values → String → Quantity → Values
unfolding canonical_resource_name
value_step s original quantity =
    let name = canonical_resource_name original in
    let from_request = starts_with original "requests." in
    let backed = get_or false name s.request_backed in
    if backed && not from_request then s else record {
      values =
          insert name (if name == "cpu" then quantity.milli_value else scale 1000 quantity.value)
            s.values;
      request_backed = insert name (from_request || backed) s.request_backed;
    }

unfoldable pub value_loop : Values → ResourceList → Values
unfolding value_step
value_loop s [] = s
value_loop s ((original, quantity) ∷ rest) = value_loop (value_step s original quantity) rest

unfoldable pub resource_list_values : ResourceList → Amounts
unfolding value_loop
resource_list_values resources =
    (value_loop (record { values = []; request_backed = [] }) resources).values

-- `destination[name] += value` for each entry of the source
unfoldable pub add_resource_values : Amounts → Amounts → Amounts
add_resource_values destination [] = destination
add_resource_values destination ((name, value) ∷ source) =
    add_resource_values (insert name (get_or (pos 0) name destination +ℤ value) destination) source

unfoldable pub container_loop : Amounts → List Container → Amounts
unfolding add_resource_values resource_list_values
container_loop result [] = result
container_loop result (c ∷ containers) =
    container_loop (add_resource_values result (resource_list_values c.requests)) containers

unfoldable pub raise_loop : Amounts → Amounts → Amounts
raise_loop max_init [] = max_init
raise_loop max_init ((name, value) ∷ values) =
    raise_loop
      (if ltb_ℤ (get_or (pos 0) name max_init) value then insert name value max_init else max_init)
      values

unfoldable pub init_loop : Amounts → List Container → Amounts
unfolding raise_loop resource_list_values
init_loop max_init [] = max_init
init_loop max_init (c ∷ containers) =
    init_loop (raise_loop max_init (resource_list_values c.requests)) containers

unfoldable pub pod_resource_values : Pod → Amounts
unfolding container_loop init_loop add_resource_values resource_list_values
pod_resource_values pod =
    let running = container_loop (("pods", pos 1000) ∷ []) pod.spec.containers in
    add_resource_values (add_resource_values running (init_loop [] pod.spec.init_containers))
      (resource_list_values pod.spec.overhead)
