-- ===== src/Snapshot/Quota.antt =====
-- internal/cluster/proportion_snapshot.go: the amounts of a resource list under the names that the
-- queues use, and the arithmetic on maps of amounts.
use Prim.Native.Char.{code}
use Prim.Native.String.{String}
use volens.Base.{
  Bool, true, false, not, ◌&&◌, ◌||◌, Option, none, some, List, [], ◌∷◌, map, ◌==◌, if◌then◌else◌,
}
use volens.Base.Int.{ℤ, pos, ◌+ℤ◌, ◌-ℤ◌, scale, ltb_ℤ}
use volens.Base.Dict.{Dict, keys, lookup, insert, get_or}
use volens.Base.Sort.{sort_strings}
use volens.Base.Chars.{text_of, trimmed_chars, drop_chars}
use volens.Base.Text.{codes, lower, has_prefix}
use volens.Kube.{Quantity, ResourceList}
use volens.Cluster.{Amounts}

unfoldable pub canonical_queue_resource_name : String → String
canonical_queue_resource_name name =
    let trimmed = trimmed_chars name in
    if has_prefix (lower (map code trimmed)) (codes "requests.")
    then text_of (drop_chars 9 trimmed)
    else text_of trimmed

-- The test is on the name as it stands, blanks included.
unfoldable pub from_request : String → Bool
from_request name = has_prefix (lower (codes name)) (codes "requests.")

-- In thousandths. Memory and pods count their whole value, any other resource its millis.
unfoldable pub queue_resource_value : String → Quantity → ℤ
queue_resource_value name q =
    if (name == "memory") || (name == "pods") then scale 1000 q.value else q.milli_value

-- The two maps of the loop over a resource list.
pub record Values : Type 0 where
  pub values : Amounts
  pub request_backed : Dict Bool

unfoldable pub value_step : Values → String → Quantity → Values
unfolding canonical_queue_resource_name from_request queue_resource_value
value_step s original q =
    let name = canonical_queue_resource_name original in
    let requested = from_request original in
    let backed = get_or false name s.request_backed in
    if backed && not requested then s else record {
      values = insert name (queue_resource_value name q) s.values;
      request_backed = insert name (requested || backed) s.request_backed;
    }

unfoldable pub value_loop : Values → ResourceList → Values
unfolding value_step
value_loop s [] = s
value_loop s ((original, q) ∷ rest) = value_loop (value_step s original q) rest

unfoldable pub resource_list_values : ResourceList → Amounts
unfolding value_loop
resource_list_values l = (value_loop (record { values = []; request_backed = [] }) l).values

abbrev pub amount_of : String → Amounts → ℤ
amount_of = get_or (pos 0)

unfoldable pub add_resource_values : Amounts → Amounts → Amounts
add_resource_values target [] = target
add_resource_values target ((name, v) ∷ source) =
    add_resource_values (insert name (amount_of name target +ℤ v) target) source

unfoldable pub sub_resource_values : Amounts → Amounts → Amounts
sub_resource_values target [] = target
sub_resource_values target ((name, v) ∷ source) =
    sub_resource_values (insert name (amount_of name target -ℤ v) target) source

-- `current, found := target[name]; !found || value < current`
abbrev pub lowers : ℤ → Option ℤ → Bool
lowers v none = true
lowers v (some current) = ltb_ℤ v current

unfoldable pub min_resource_values : Amounts → Amounts → Amounts
min_resource_values target [] = target
min_resource_values target ((name, v) ∷ limit) =
    min_resource_values (if lowers v (lookup name target) then insert name v target else target)
      limit

unfoldable pub name_loop {ℓ} : {V : Type ℓ} → Dict (Unit {0}) → Dict V → Dict (Unit {0})
name_loop names [] = names
name_loop names ((name, v) ∷ d) = name_loop (insert name tt names) d

unfoldable pub diff_loop : Amounts → Amounts → Amounts → List String → Amounts
diff_loop left right result [] = result
diff_loop left right result (name ∷ names) =
    let v = amount_of name left -ℤ amount_of name right in
    diff_loop left right (if ltb_ℤ (pos 0) v then insert name v result else result) names

-- The names of both maps, each once, in order.
unfoldable pub ordered_names : Amounts → Amounts → List String
unfolding name_loop
ordered_names left right = sort_strings (keys (name_loop (name_loop [] left) right))

unfoldable pub positive_resource_diff : Amounts → Amounts → Amounts
unfolding ordered_names diff_loop
positive_resource_diff left right = diff_loop left right [] (ordered_names left right)
