-- ===== src/Filter/Resources/Laws.antt =====
-- What the operations on amounts do to the amount under each name.
use volens.Base.{String, ◌≡◌, refl, sym, ◌↔◌, true, none, [], ◌∷◌, ◌==◌, arith, if◌then◌else◌, All}
use volens.Base.Int.{ℤ, pos, ◌+ℤ◌, ◌≤ℤ◌, max_ℤ, +ℤ_zero, zero_+ℤ, max_ℤ_bounds}
use volens.Base.Dict.{insert, lookup, NodupKeys, lookup-insert, insert-NodupKeys}
use volens.Kube.{ResourceList}
use volens.Cluster.{Amounts}
use volens.Filter.Resources.{
  value_of, resource_list_values, add_resources, raise_to, max_resources, fits_loop, fits,
}

abbrev pub IsNonneg : Amounts → Type 0
IsNonneg d = (n : String) → pos 0 ≤ℤ value_of n d

pub value_of-insert :
    (n k : String) (v : ℤ) (d : Amounts)
    → value_of n (insert k v d) ≡ (if n == k then v else value_of n d)
value_of-insert n k v d = ground (arith, lookup-insert n k v d)

pub value_of-cons :
    (n k : String) (v : ℤ) (d : Amounts)
    → value_of n ((k, v) ∷ d) ≡ (if n == k then v else value_of n d)
unfolding lookup
value_of-cons n k v d = ground arith

-- Adding a map adds its amount under each name.
pub value_of-add_resources :
    (n : String) (d s : Amounts)
    → NodupKeys s
    → value_of n (add_resources d s) ≡ value_of n d +ℤ value_of n s
unfolding add_resources
value_of-add_resources n d [] h = unfold lookup in sym (+ℤ_zero (value_of n d))
value_of-add_resources n d ((k, v) ∷ s) (fresh, h) = ground (
  arith,
  value_of-add_resources n (insert k (value_of k d +ℤ v) d) s h,
  value_of-insert n k (value_of k d +ℤ v) d,
  value_of-cons n k v s,
  zero_+ℤ v,
  +ℤ_zero (value_of k d +ℤ v),
)

pub add_resources-NodupKeys : (d s : Amounts) → NodupKeys d → NodupKeys (add_resources d s)
unfolding add_resources
add_resources-NodupKeys d [] h = h
add_resources-NodupKeys d ((k, v) ∷ s) h =
    add_resources-NodupKeys (insert k (value_of k d +ℤ v) d) s
      (insert-NodupKeys k (value_of k d +ℤ v) d h)

pub max_ℤ_zero : (a : ℤ) → pos 0 ≤ℤ a → max_ℤ a (pos 0) ≡ a
unfolding max_ℤ
max_ℤ_zero a h = ground arith

value_of-raise_to :
    (n k : String) (v : ℤ) (d : Amounts)
    → value_of n (raise_to k v d) ≡ (if n == k then max_ℤ (value_of k d) v else value_of n d)
unfolding raise_to max_ℤ
value_of-raise_to n k v d = ground (arith, value_of-insert n k v d)

raise_to-IsNonneg : (k : String) (v : ℤ) (d : Amounts) → IsNonneg d → IsNonneg (raise_to k v d)
raise_to-IsNonneg k v d nn n =
    rw (value_of-raise_to n k v d) (ground (arith, nn n, nn k, max_ℤ_bounds (value_of k d) v))

-- The larger amount under each name.
pub value_of-max_resources :
    (n : String) (d s : Amounts)
    → NodupKeys s
    → IsNonneg d
    → value_of n (max_resources d s) ≡ max_ℤ (value_of n d) (value_of n s)
unfolding max_resources
value_of-max_resources n d [] h nn = unfold lookup in sym (max_ℤ_zero (value_of n d) (nn n))
value_of-max_resources n d ((k, v) ∷ s) (fresh, h) nn = ground (
  arith,
  value_of-max_resources n (raise_to k v d) s h (raise_to-IsNonneg k v d nn),
  value_of-raise_to n k v d,
  value_of-cons n k v s,
  max_ℤ_zero (max_ℤ (value_of k d) v),
  nn k,
  max_ℤ_bounds (value_of k d) v,
)

raise_to-NodupKeys : (k : String) (v : ℤ) (d : Amounts) → NodupKeys d → NodupKeys (raise_to k v d)
unfolding raise_to
raise_to-NodupKeys k v d h = ground (arith, insert-NodupKeys k v d h)

pub max_resources-NodupKeys : (d s : Amounts) → NodupKeys d → NodupKeys (max_resources d s)
unfolding max_resources
max_resources-NodupKeys d [] h = h
max_resources-NodupKeys d ((k, v) ∷ s) h =
    max_resources-NodupKeys (raise_to k v d) s (raise_to-NodupKeys k v d h)

fits_loop_iff :
    (everything request available : Amounts)
    → ((fits_loop everything request available).0 ≡ true)
      ↔ All (λ (n, v). v ≤ℤ value_of n available) request
unfolding fits_loop
fits_loop_iff everything [] available = (λ _. tt, λ _. refl)
fits_loop_iff everything ((k, v) ∷ request) available =
    ground (arith, fits_loop_iff everything request available)

-- The first answer of `fits` is true exactly when each requested amount is at most the available
-- amount of its name, a name that is not available counting as 0.
pub fits_iff :
    (request available : Amounts)
    → ((fits request available).0 ≡ true) ↔ All (λ (n, v). v ≤ℤ value_of n available) request
unfolding fits
fits_iff request available = fits_loop_iff request request available

resource_list_values-lookup :
    (n : String) (l : ResourceList) → lookup n l ≡ none → lookup n (resource_list_values l) ≡ none
unfolding resource_list_values lookup
resource_list_values-lookup n [] h = refl
resource_list_values-lookup n ((k, q) ∷ l) h = ground (arith, resource_list_values-lookup n l)

pub resource_list_values-NodupKeys :
    (l : ResourceList) → NodupKeys l → NodupKeys (resource_list_values l)
unfolding resource_list_values
resource_list_values-NodupKeys [] h = tt
resource_list_values-NodupKeys ((k, q) ∷ l) (fresh, h) =
    (resource_list_values-lookup k l fresh, resource_list_values-NodupKeys l h)
