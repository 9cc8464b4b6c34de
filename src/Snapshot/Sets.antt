-- ===== src/Snapshot/Sets.antt =====
-- What the writes on the resources of a snapshot leave in each of their sets.
use volens.Base.{
  ℕ, String, ◌≡◌, refl, sym, ◌∙◌, Bool, true, false, ◌&&◌, Option, some, [], ◌∷◌, ◌==◌, arith, eqb,
  if◌then◌else◌,
}
use volens.Base.Int.{ℤ, pos, ◌+ℤ◌, is_zero, +ℤ_parts, eq_of_parts, +ℤ_zero}
use volens.Base.Dict.{
  Dict, lookup, or_zero, get_or, lookup-cons, lookup-nil, get_or-insert, NodupKeys,
}
use volens.Cluster.{Amounts}
use volens.Snapshot.Quota.{amount_of}
use volens.Snapshot.Priority.{or_else}
use volens.Snapshot.Resources.{
  QueueSnapshotResource, ResourceSet, capacity_set, deserved_set, allocated_set, request_set,
  inqueue_set, elastic_set, no_resource, get_set, put_set, set_resource_value, add_resource_value,
  set_all, add_all,
}

abbrev pub set_number : ResourceSet → ℕ
set_number capacity_set = 0
set_number deserved_set = 1
set_number allocated_set = 2
set_number request_set = 3
set_number inqueue_set = 4
set_number elastic_set = 5

abbrev pub same_set : ResourceSet → ResourceSet → Bool
same_set s t = eqb (set_number s) (set_number t)

-- The pointer in a set, under a name.
abbrev pub pointer : ResourceSet → String → Dict QueueSnapshotResource → Option ℤ
pointer s n resources = get_set s (get_or no_resource n resources)

-- The amount in a set, where a nil pointer counts as 0.
abbrev pub amount_in : ResourceSet → String → Dict QueueSnapshotResource → ℤ
amount_in s n resources = or_zero (pos 0) (pointer s n resources)

get_set-put_set :
    (s t : ResourceSet) (v : ℤ) (r : QueueSnapshotResource)
    → get_set s (put_set t v r) ≡ (if same_set s t then some v else get_set s r)
get_set-put_set s t v r = ground arith

pub pointer-set_resource_value :
    (s t : ResourceSet) (n k : String) (v : ℤ) (resources : Dict QueueSnapshotResource)
    → pointer s n (set_resource_value resources k t v)
      ≡ (if (n == k) && same_set s t then some v else pointer s n resources)
unfolding set_resource_value
pointer-set_resource_value s t n k v resources =
    let r = put_set t v (get_or no_resource k resources) in
    ground (
      arith,
      get_or-insert no_resource n k r resources,
      get_set-put_set s t v (get_or no_resource k resources),
    )

pub pointer-set_all :
    (s t : ResourceSet) (n : String) (resources : Dict QueueSnapshotResource) (amounts : Amounts)
    → NodupKeys amounts
    → pointer s n (set_all resources t amounts) ≡ (
        if same_set s t
        then or_else (lookup n amounts) (pointer s n resources)
        else pointer s n resources)
unfolding set_all
pointer-set_all s t n resources [] h = ground (arith, lookup-nil {V = ℤ} n)
pointer-set_all s t n resources ((k, v) ∷ amounts) (fresh, h) = ground (
  arith,
  pointer-set_all s t n (set_resource_value resources k t v) amounts h,
  lookup-cons n k v amounts,
  pointer-set_resource_value s t n k v resources,
)

pointer-add_resource_value :
    (s t : ResourceSet) (n k : String) (v : ℤ) (resources : Dict QueueSnapshotResource)
    → same_set s t ≡ false
    → pointer s n (add_resource_value resources k t v) ≡ pointer s n resources
unfolding add_resource_value
pointer-add_resource_value s t n k v resources h =
    ground (arith, pointer-set_resource_value s t n k (amount_in t k resources +ℤ v) resources)

pub pointer-add_all :
    (s t : ResourceSet) (n : String) (resources : Dict QueueSnapshotResource) (amounts : Amounts)
    → same_set s t ≡ false
    → pointer s n (add_all resources t amounts) ≡ pointer s n resources
unfolding add_all
pointer-add_all s t n resources [] h = refl
pointer-add_all s t n resources ((k, v) ∷ amounts) h =
    pointer-add_all s t n (add_resource_value resources k t v) amounts h
    ∙ pointer-add_resource_value s t n k v resources h

zero_added : (a v : ℤ) → is_zero v ≡ true → a ≡ a +ℤ v
zero_added a v h = ground (arith, +ℤ_parts a v, eq_of_parts a (a +ℤ v))

amount_in-add_resource_value :
    (s : ResourceSet) (n k : String) (v : ℤ) (resources : Dict QueueSnapshotResource)
    → amount_in s n (add_resource_value resources k s v)
      ≡ (if n == k then amount_in s n resources +ℤ v else amount_in s n resources)
unfolding add_resource_value
amount_in-add_resource_value s n k v resources = ground (
  arith,
  pointer-set_resource_value s s n k (amount_in s k resources +ℤ v) resources,
  zero_added (amount_in s n resources) v,
)

pub amount_in-add_all :
    (s : ResourceSet) (n : String) (resources : Dict QueueSnapshotResource) (amounts : Amounts)
    → NodupKeys amounts
    → amount_in s n (add_all resources s amounts) ≡ amount_in s n resources +ℤ amount_of n amounts
unfolding add_all
amount_in-add_all s n resources [] h = unfold lookup in sym (+ℤ_zero (amount_in s n resources))
amount_in-add_all s n resources ((k, v) ∷ amounts) (fresh, h) = ground (
  arith,
  amount_in-add_all s n (add_resource_value resources k s v) amounts h,
  amount_in-add_resource_value s n k v resources,
  lookup-cons n k v amounts,
  +ℤ_zero (amount_in s n resources +ℤ v),
)
