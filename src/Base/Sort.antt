-- ===== src/Base/Sort.antt =====
-- Go's `sort`, as insertion by a text key: the permutation in the order of the keys' code points,
-- which is the order of their bytes. Elements with one key keep their order.
use Prim.Native.Nat.{Ordering}
use Prim.Native.String.compare
use Prim.Native.String.{String, compare}
use mathlib.Core.Path.{◌≡◌, refl}
use mathlib.Core.Bool.{Bool, true, false, ◌||◌}
use mathlib.Core.List.{List, [], ◌∷◌, Perm}
use mathlib.Core.List.Perm
use native.Mathlib.Omega.{arith}
use volens.Base.Lists.{is_empty, string_in}
use volens.Base.Tests.{if◌then◌else◌, ◌==◌, Bool-cases}
use mathlib.Core.Logic.{inl, inr}

-- `a <= b` on strings
abbrev pub str_le : String → String → Bool
str_le a b = elim (compare a b) [ Ordering.gt ↦ false | _ ↦ true ]

-- Of two strings one is at most the other.
pub str_le_total : (a b : String) → str_le a b ≡ false → str_le b a ≡ true
str_le_total String.[] String.[] h = refl
str_le_total String.[] (String.◌∷◌ d t) h = cc (compare.nil-cons d t)
str_le_total (String.◌∷◌ c s) String.[] h = rw (compare.nil-cons c s, str_le)
str_le_total (String.◌∷◌ c s) (String.◌∷◌ d t) h =
    ground (arith, compare.cons-cons c d s t, compare.cons-cons d c t s, str_le_total s t)

module _ {ℓ} {A : Type ℓ} (key : A → String) where
  unfoldable pub insert_by : A → List A → List A
  insert_by x [] = x ∷ []
  insert_by x (y ∷ ys) =
      let rest = insert_by x ys in if str_le (key x) (key y) then x ∷ y ∷ ys else y ∷ rest

  unfoldable pub sort_by : List A → List A
  unfolding insert_by
  sort_by [] = []
  sort_by (x ∷ xs) = insert_by x (sort_by xs)

  pub insert_by-perm : (x : A) (ys : List A) → Perm (insert_by x ys) (x ∷ ys)
  unfolding insert_by
  insert_by-perm x [] = Perm.refl (x ∷ [])
  insert_by-perm x (y ∷ ys) = elim (Bool-cases (str_le (key x) (key y))) [
    | inl le ↦ rw le (Perm.refl (x ∷ y ∷ ys))
    | inr gt ↦ rw gt (Perm.trans (Perm.cons y (insert_by-perm x ys)) (Perm.swap x y ys))
  ]

  pub sort_by-perm : (xs : List A) → Perm (sort_by xs) xs
  unfolding sort_by
  sort_by-perm [] = Perm.refl []
  sort_by-perm (x ∷ xs) = Perm.trans (insert_by-perm x (sort_by xs)) (Perm.cons x (sort_by-perm xs))

  is_empty-insert_by : (x : A) (ys : List A) → is_empty (insert_by x ys) ≡ false
  unfolding insert_by
  is_empty-insert_by x [] = refl
  is_empty-insert_by x (y ∷ ys) = ground arith

  pub is_empty-sort_by : (xs : List A) → is_empty (sort_by xs) ≡ is_empty xs
  unfolding sort_by
  is_empty-sort_by [] = refl
  is_empty-sort_by (x ∷ xs) = is_empty-insert_by x (sort_by xs)

  -- Each key is at most the next.
  abbrev pub IsSorted : List A → Type 0
  IsSorted [] = Unit
  IsSorted (x ∷ []) = Unit
  IsSorted (x ∷ y ∷ ys) = (str_le (key x) (key y) ≡ true) × IsSorted (y ∷ ys)

  IsSorted-tail : (y : A) (ys : List A) → IsSorted (y ∷ ys) → IsSorted ys
  IsSorted-tail y [] s = tt
  IsSorted-tail y (z ∷ ys) s = s.1

  insert_by-head :
      (x y : A) (ys : List A)
      → str_le (key x) (key y) ≡ false
      → IsSorted (y ∷ ys)
      → IsSorted (insert_by x ys)
      → IsSorted (y ∷ insert_by x ys)
  unfolding insert_by
  insert_by-head x y [] gt s k = (str_le_total (key x) (key y) gt, tt)
  insert_by-head x y (z ∷ ys) gt s k = elim (Bool-cases (str_le (key x) (key z))) [
    | inl le ↦ rw le (str_le_total (key x) (key y) gt, rw le at k)
    | inr gt' ↦ rw gt' (s.0, rw gt' at k)
  ]

  insert_by-IsSorted : (x : A) (ys : List A) → IsSorted ys → IsSorted (insert_by x ys)
  unfolding insert_by
  insert_by-IsSorted x [] s = tt
  insert_by-IsSorted x (y ∷ ys) s = elim (Bool-cases (str_le (key x) (key y))) [
    | inl le ↦ rw le (le, s)
    | inr gt ↦ rw gt (insert_by-head x y ys gt s (insert_by-IsSorted x ys (IsSorted-tail y ys s)))
  ]

  pub sort_by-IsSorted : (xs : List A) → IsSorted (sort_by xs)
  unfolding sort_by
  sort_by-IsSorted [] = tt
  sort_by-IsSorted (x ∷ xs) = insert_by-IsSorted x (sort_by xs) (sort_by-IsSorted xs)

abbrev pub sort_strings : List String → List String
sort_strings = sort_by (λ s. s)

string_in-insert_by :
    (n x : String) (ys : List String)
    → string_in n (insert_by (λ s. s) x ys) ≡ (n == x) || string_in n ys
unfolding insert_by
string_in-insert_by n x [] = refl
string_in-insert_by n x (y ∷ ys) = ground (arith, string_in-insert_by n x ys)

-- Sorting keeps what stands in a list.
pub string_in-sort_strings :
    (n : String) (xs : List String) → string_in n (sort_strings xs) ≡ string_in n xs
unfolding sort_by
string_in-sort_strings n [] = refl
string_in-sort_strings n (x ∷ xs) =
    ground (arith, string_in-insert_by n x (sort_strings xs), string_in-sort_strings n xs)
