-- ===== src/Snapshot/Arithmetic.antt =====
-- What the arithmetic on maps of amounts gives under each name.
use volens.Base.{String, ◌≡◌, Option, none, some, [], ◌∷◌, is_some, arith, if◌then◌else◌}
use volens.Base.Int.{ℤ, pos, ◌+ℤ◌, ◌-ℤ◌, ltb_ℤ}
use volens.Base.Dict.{
  lookup, insert, lookup-cons, lookup-nil, lookup-insert, get_or-insert, NodupKeys,
  insert-NodupKeys,
}
use volens.Cluster.{Amounts}
use volens.Snapshot.Quota.{
  amount_of, add_resource_values, sub_resource_values, lowers, min_resource_values,
}

pub lookup-add_resource_values :
    (n : String) (target source : Amounts)
    → NodupKeys source
    → lookup n (add_resource_values target source) ≡ (
        if is_some (lookup n source)
        then some (amount_of n target +ℤ amount_of n source)
        else lookup n target)
unfolding add_resource_values
lookup-add_resource_values n target [] h = ground (arith, lookup-nil {V = ℤ} n)
lookup-add_resource_values n target ((k, v) ∷ source) (fresh, h) =
    let x = amount_of k target +ℤ v in
    ground (
      arith,
      lookup-add_resource_values n (insert k x target) source h,
      lookup-cons n k v source,
      lookup-insert n k x target,
      get_or-insert (pos 0) n k x target,
    )

pub lookup-sub_resource_values :
    (n : String) (target source : Amounts)
    → NodupKeys source
    → lookup n (sub_resource_values target source) ≡ (
        if is_some (lookup n source)
        then some (amount_of n target -ℤ amount_of n source)
        else lookup n target)
unfolding sub_resource_values
lookup-sub_resource_values n target [] h = ground (arith, lookup-nil {V = ℤ} n)
lookup-sub_resource_values n target ((k, v) ∷ source) (fresh, h) =
    let x = amount_of k target -ℤ v in
    ground (
      arith,
      lookup-sub_resource_values n (insert k x target) source h,
      lookup-cons n k v source,
      lookup-insert n k x target,
      get_or-insert (pos 0) n k x target,
    )

-- The smaller of two amounts, of which either may be absent.
abbrev pub min_of : Option ℤ → Option ℤ → Option ℤ
min_of current none = current
min_of none (some limit) = some limit
min_of (some current) (some limit) = some (if ltb_ℤ limit current then limit else current)

pub lookup-min_resource_values :
    (n : String) (target limit : Amounts)
    → NodupKeys limit
    → lookup n (min_resource_values target limit) ≡ min_of (lookup n target) (lookup n limit)
unfolding min_resource_values
lookup-min_resource_values n target [] h = ground (arith, lookup-nil {V = ℤ} n)
lookup-min_resource_values n target ((k, v) ∷ limit) (fresh, h) = ground (
  arith,
  lookup-min_resource_values n (if lowers v (lookup k target) then insert k v target else target)
      limit h,
  lookup-cons n k v limit,
  lookup-insert n k v target,
)

pub add_resource_values-NodupKeys :
    (target source : Amounts) → NodupKeys target → NodupKeys (add_resource_values target source)
unfolding add_resource_values
add_resource_values-NodupKeys target [] h = h
add_resource_values-NodupKeys target ((k, v) ∷ source) h =
    let x = amount_of k target +ℤ v in
    add_resource_values-NodupKeys (insert k x target) source (insert-NodupKeys k x target h)

pub sub_resource_values-NodupKeys :
    (target source : Amounts) → NodupKeys target → NodupKeys (sub_resource_values target source)
unfolding sub_resource_values
sub_resource_values-NodupKeys target [] h = h
sub_resource_values-NodupKeys target ((k, v) ∷ source) h =
    let x = amount_of k target -ℤ v in
    sub_resource_values-NodupKeys (insert k x target) source (insert-NodupKeys k x target h)

pub min_resource_values-NodupKeys :
    (target limit : Amounts) → NodupKeys target → NodupKeys (min_resource_values target limit)
unfolding min_resource_values
min_resource_values-NodupKeys target [] h = h
min_resource_values-NodupKeys target ((k, v) ∷ limit) h =
    min_resource_values-NodupKeys (if lowers v (lookup k target) then insert k v target else target)
      limit (ground (arith, insert-NodupKeys k v target h))
