-- ===== src/Base/ParseInt.antt =====
-- `strconv.ParseInt(s, 10, 64)`: a sign, decimal digits, and the range of an `int64`.
use Prim.Native.Nat.{ℕ, ◌+◌, ◌-◌, ◌*◌, ◌^◌, ◌≤◌, ◌<◌}
use mathlib.Core.Path.{◌≡◌, refl}
use mathlib.Core.Bool.{◌&&◌}
use mathlib.Core.Option.{Option, none, some}
use mathlib.Core.List.{List, [], ◌∷◌}
use native.Mathlib.Omega.{arith}
use volens.Base.Tests.{ltb, leb, eqb, if◌then◌else◌}
use volens.Base.Int.{ℤ, pos, negsuc, pos_part, neg_part, sub_ℕ}
use volens.Base.Text.{codes}

-- The value of a non-empty run of digits.
digits : ℕ → List ℕ → Option ℕ
digits n [] = some n
digits n (c ∷ s) = if leb b'0' c && leb c b'9' then digits (n * 10 + (c - b'0')) s else none

magnitude : List ℕ → Option ℕ
unfolding digits
magnitude [] = none
magnitude (c ∷ s) = digits 0 (c ∷ s)

abbrev positive : Option ℕ → Option ℤ
positive none = none
positive (some n) = if ltb n (2 ^ 63) then some (pos n) else none

abbrev negative : Option ℕ → Option ℤ
negative none = none
negative (some n) = if leb n (2 ^ 63) then some (sub_ℕ 0 n) else none

unfoldable pub parse_int : List ℕ → Option ℤ
unfolding magnitude
parse_int [] = none
parse_int (c ∷ s) =
    if eqb c b'+'
    then positive (magnitude s)
    else if eqb c b'-'
    then negative (magnitude s)
    else positive (magnitude (c ∷ s))

-- The values that an `int64` holds.
abbrev pub IsInt64 : ℤ → Type 0
IsInt64 a = (pos_part a < 2 ^ 63) × (neg_part a ≤ 2 ^ 63)

positive-IsInt64 : (o : Option ℕ) (a : ℤ) → positive o ≡ some a → IsInt64 a
positive-IsInt64 o a h = ground arith

negative-IsInt64 : (o : Option ℕ) (a : ℤ) → negative o ≡ some a → IsInt64 a
negative-IsInt64 o a h = ground arith

pub parse_int-IsInt64 : (s : List ℕ) (a : ℤ) → parse_int s ≡ some a → IsInt64 a
unfolding parse_int
parse_int-IsInt64 [] a h = ground arith
parse_int-IsInt64 (c ∷ s) a h = ground (
  arith,
  positive-IsInt64 (magnitude s) a,
  negative-IsInt64 (magnitude s) a,
  positive-IsInt64 (magnitude (c ∷ s)) a,
)

parses : parse_int (codes "-42") ≡ some (negsuc 41)
unfolding parse_int
parses = refl
