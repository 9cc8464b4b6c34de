-- ===== src/Base/Dict.antt =====
-- Go's maps with string keys. The list of entries is the order in which `range` visits them, which
-- Go leaves open: a theorem about every list of entries is a theorem about every such order.
use Prim.Native.String.{String}
use mathlib.Core.Path.{◌≡◌, refl}
use mathlib.Core.Option.{Option, none, some}
use mathlib.Core.List.{List, [], ◌∷◌}
use native.Mathlib.Omega.{arith}
use mathlib.Core.Logic.{inl, inr}
use volens.Base.Tests.{if◌then◌else◌, ◌==◌, is_some, Bool-cases}
use volens.Base.Lists.{string_in}

abbrev pub Dict {ℓ} : Type ℓ → Type ℓ
Dict V = List (String × V)

abbrev pub keys {ℓ} : {V : Type ℓ} → Dict V → List String
keys [] = []
keys ((k, v) ∷ d) = k ∷ keys d

module _ {ℓ} {V : Type ℓ} where
  -- `value, found := d[k]`
  unfoldable pub lookup : String → Dict V → Option V
  lookup k [] = none
  lookup k ((j, v) ∷ d) = if k == j then some v else lookup k d

  -- `d[k]`, with the zero value for a missing key
  abbrev pub or_zero : V → Option V → V
  or_zero z none = z
  or_zero z (some v) = v

  abbrev pub get_or : V → String → Dict V → V
  get_or z k d = or_zero z (lookup k d)

  -- `d[k] = v`
  unfoldable pub insert : String → V → Dict V → Dict V
  insert k v [] = (k, v) ∷ []
  insert k v ((j, w) ∷ d) = if k == j then (k, v) ∷ d else (j, w) ∷ insert k v d

  -- What a Go map is: each key once.
  abbrev pub NodupKeys : Dict V → Type ℓ
  NodupKeys [] = Unit
  NodupKeys ((k, v) ∷ d) = (lookup k d ≡ none) × NodupKeys d

  pub lookup-cons :
      (j k : String) (v : V) (d : Dict V)
      → lookup j ((k, v) ∷ d) ≡ (if j == k then some v else lookup j d)
  unfolding lookup
  lookup-cons j k v d = refl

  pub lookup-nil : (j : String) → lookup j [] ≡ none
  unfolding lookup
  lookup-nil j = refl

  pub lookup-insert :
      (j k : String) (v : V) (d : Dict V)
      → lookup j (insert k v d) ≡ (if j == k then some v else lookup j d)
  unfolding insert lookup
  lookup-insert j k v [] = refl
  lookup-insert j k v (_ ∷ d) = ground (arith, lookup-insert j k v d)

  pub get_or-insert :
      (z : V) (j k : String) (v : V) (d : Dict V)
      → get_or z j (insert k v d) ≡ (if j == k then v else get_or z j d)
  get_or-insert z j k v d = ground (arith, lookup-insert j k v d)

  pub insert-NodupKeys : (k : String) (v : V) (d : Dict V) → NodupKeys d → NodupKeys (insert k v d)
  unfolding insert lookup
  insert-NodupKeys k v [] _ = (refl, tt)
  insert-NodupKeys k v ((j, _) ∷ d) (fresh, u) =
      ground (arith, insert-NodupKeys k v d u, lookup-insert j k v d)

  pub lookup-keys : (k : String) (d : Dict V) → is_some (lookup k d) ≡ string_in k (keys d)
  unfolding lookup
  lookup-keys k [] = refl
  lookup-keys k (_ ∷ d) = ground (arith, lookup-keys k d)

-- Every value of a dictionary.
module _ {ℓ κ} {V : Type ℓ} (P : V → Type κ) where
  abbrev pub AllValues : Dict V → Type κ
  AllValues [] = Unit
  AllValues ((k, v) ∷ d) = P v × AllValues d

  pub insert-AllValues :
      (k : String) (v : V) (d : Dict V) → P v → AllValues d → AllValues (insert k v d)
  unfolding insert
  insert-AllValues k v [] p a = (p, tt)
  insert-AllValues k v ((j, w) ∷ d) p (q, a) = elim (Bool-cases (k == j)) [
    | inl same ↦ rw same (p, a)
    | inr other ↦ rw other (q, insert-AllValues k v d p a)
  ]

  pub get_or-AllValues : (z : V) (k : String) (d : Dict V) → P z → AllValues d → P (get_or z k d)
  unfolding lookup
  get_or-AllValues z k [] p a = p
  get_or-AllValues z k ((j, w) ∷ d) p (q, a) = elim (Bool-cases (k == j)) [
    | inl same ↦ rw same q
    | inr other ↦ rw other (get_or-AllValues z k d p a)
  ]
