-- ===== src/Snapshot/Priority.antt =====
-- Which entry of a resource list gives the amount under a name.
use volens.Base.{
  String, ◌≡◌, ◌∙◌, Bool, true, false, not, ◌&&◌, ◌||◌, Option, none, some, [], ◌∷◌, ◌==◌, arith,
  if◌then◌else◌,
}
use volens.Base.Int.{ℤ}
use volens.Base.Dict.{lookup, get_or, lookup-insert, get_or-insert, NodupKeys, insert-NodupKeys}
use volens.Kube.{Quantity, ResourceList}
use volens.Snapshot.Quota.{
  canonical_queue_resource_name, from_request, queue_resource_value, Values, value_step, value_loop,
  resource_list_values,
}

abbrev pub or_else : Option ℤ → Option ℤ → Option ℤ
or_else none other = other
or_else (some v) other = some v

-- The amount of the last entry for the name, among those written with `requests.` or those without.
abbrev pub last_amount : Bool → String → ResourceList → Option ℤ
last_amount flag name [] = none
last_amount flag name ((original, q) ∷ rest) =
    let later = last_amount flag name rest in
    let canonical = canonical_queue_resource_name original in
    or_else later (
      if (name == canonical)
        && (if flag then from_request original else not (from_request original))
      then some (queue_resource_value canonical q)
      else none)

value_step-request_backed :
    (name : String) (s : Values) (original : String) (q : Quantity)
    → get_or false name (value_step s original q).request_backed
      ≡ get_or false name s.request_backed
        || (name == canonical_queue_resource_name original) && from_request original
unfolding value_step
value_step-request_backed name s original q =
    let canonical = canonical_queue_resource_name original in
    let backed = get_or false canonical s.request_backed in
    ground
      (arith, get_or-insert false name canonical (from_request original || backed) s.request_backed)

value_step-values :
    (name : String) (s : Values) (original : String) (q : Quantity)
    → let canonical = canonical_queue_resource_name original in
      lookup name (value_step s original q).values ≡ (
        if (name == canonical)
          && (from_request original || not (get_or false name s.request_backed))
        then some (queue_resource_value canonical q)
        else lookup name s.values)
unfolding value_step
value_step-values name s original q =
    let canonical = canonical_queue_resource_name original in
    ground (arith, lookup-insert name canonical (queue_resource_value canonical q) s.values)

value_loop_lem :
    (name : String) (s : Values) (l : ResourceList)
    → lookup name (value_loop s l).values
      ≡ or_else (last_amount true name l) (
          if get_or false name s.request_backed
          then lookup name s.values
          else or_else (last_amount false name l) (lookup name s.values))
unfolding value_loop
value_loop_lem name s [] = ground arith
value_loop_lem name s ((original, q) ∷ rest) =
    value_loop_lem name (value_step s original q) rest
    ∙ ground
        (arith, value_step-request_backed name s original q, value_step-values name s original q)

-- Under a name stands the amount of the last entry that is written with `requests.` for it, and
-- where there is none, of the last entry that is written without.
pub resource_list_values-last_amount :
    (name : String) (l : ResourceList)
    → lookup name (resource_list_values l)
      ≡ or_else (last_amount true name l) (last_amount false name l)
unfolding resource_list_values lookup
resource_list_values-last_amount name l =
    value_loop_lem name (record { values = []; request_backed = [] }) l ∙ ground arith

value_step-NodupKeys :
    (s : Values) (original : String) (q : Quantity)
    → NodupKeys s.values
    → NodupKeys (value_step s original q).values
unfolding value_step
value_step-NodupKeys s original q h =
    let canonical = canonical_queue_resource_name original in
    ground (arith, insert-NodupKeys canonical (queue_resource_value canonical q) s.values h)

value_loop-NodupKeys :
    (s : Values) (l : ResourceList) → NodupKeys s.values → NodupKeys (value_loop s l).values
unfolding value_loop
value_loop-NodupKeys s [] h = h
value_loop-NodupKeys s ((original, q) ∷ l) h =
    value_loop-NodupKeys (value_step s original q) l (value_step-NodupKeys s original q h)

pub resource_list_values-NodupKeys : (l : ResourceList) → NodupKeys (resource_list_values l)
unfolding resource_list_values
resource_list_values-NodupKeys l =
    value_loop-NodupKeys (record { values = []; request_backed = [] }) l tt
