-- ===== src/Snapshot/Diff.antt =====
-- What positiveResourceDiff gives under each name.
use volens.Base.{
  String, ◌≡◌, refl, sym, ◌∙◌, ◌&&◌, ◌||◌, none, some, List, [], ◌∷◌, is_some, string_in, arith,
  if◌then◌else◌,
}
use volens.Base.Int.{ℤ, pos, ◌-ℤ◌, ltb_ℤ}
use volens.Base.Dict.{
  Dict, lookup, insert, keys, lookup-cons, lookup-nil, lookup-insert, lookup-keys,
}
use volens.Base.Sort.{string_in-sort_strings}
use volens.Cluster.{Amounts}
use volens.Snapshot.Quota.{amount_of, name_loop, diff_loop, ordered_names, positive_resource_diff}

lookup-diff_loop :
    (n : String) (left right result : Amounts) (names : List String)
    → let v = amount_of n left -ℤ amount_of n right in
      lookup n (diff_loop left right result names)
      ≡ (if string_in n names && ltb_ℤ (pos 0) v then some v else lookup n result)
unfolding diff_loop
lookup-diff_loop n left right result [] = refl
lookup-diff_loop n left right result (name ∷ names) =
    let v = amount_of name left -ℤ amount_of name right in
    ground (
      arith,
      lookup-diff_loop n left right (if ltb_ℤ (pos 0) v then insert name v result else result)
          names,
      lookup-insert n name v result,
    )

lookup-name_loop :
    (n : String) (names : Dict (Unit {0})) (d : Amounts)
    → is_some (lookup n (name_loop names d)) ≡ is_some (lookup n d) || is_some (lookup n names)
unfolding name_loop
lookup-name_loop n names [] = ground (arith, lookup-nil {V = ℤ} n)
lookup-name_loop n names ((k, v) ∷ d) = ground (
  arith,
  lookup-name_loop n (insert k tt names) d,
  lookup-insert {V = Unit {0}} n k tt names,
  lookup-cons n k v d,
)

string_in-ordered_names :
    (n : String) (left right : Amounts)
    → string_in n (ordered_names left right) ≡ is_some (lookup n right) || is_some (lookup n left)
unfolding ordered_names
string_in-ordered_names n left right =
    let names = name_loop (name_loop [] left) right in
    string_in-sort_strings n (keys names)
    ∙ sym (lookup-keys n names)
    ∙ ground (
      arith,
      lookup-name_loop n (name_loop [] left) right,
      lookup-name_loop n [] left,
      lookup-nil {V = Unit {0}} n,
    )

-- The difference holds, under each name, the left amount less the right one where that is positive,
-- and nothing otherwise; an amount that is not there counts as 0.
pub lookup-positive_resource_diff :
    (n : String) (left right : Amounts)
    → let v = amount_of n left -ℤ amount_of n right in
      lookup n (positive_resource_diff left right) ≡ (if ltb_ℤ (pos 0) v then some v else none)
unfolding positive_resource_diff ◌-ℤ◌
lookup-positive_resource_diff n left right = ground (
  arith,
  lookup-diff_loop n left right [] (ordered_names left right),
  string_in-ordered_names n left right,
  lookup-nil {V = ℤ} n,
)
