-- ===== src/Base/Paths/Below.antt =====
-- A relative path that leads into the base stands below it.
use volens.Base.{
  String, Bool, true, false, not, ◌≡◌, refl, Option, none, some, List, [], ◌∷◌, ◌++◌, ◌==◌, arith,
}
use volens.Base.Paths.{CleanPath, climb, rel_parts, rel}

-- Whether a relative path leads into the directory: it is there, and is neither "." nor begins with "..".
abbrev pub is_inside : Option (List String) → Bool
is_inside none = false
is_inside (some []) = false
is_inside (some (part ∷ parts)) = not (part == "..")

is_inside-climb :
    (base target parts : List String)
    → climb base target ≡ some parts
    → is_inside (some parts) ≡ true
    → (base ≡ []) × (target ≡ parts)
unfolding climb
is_inside-climb [] target parts e h = (refl, cc e)
is_inside-climb (b ∷ base) target parts e h = ground arith

is_inside-rel_parts :
    (base target parts : List String)
    → rel_parts base target ≡ some parts
    → is_inside (some parts) ≡ true
    → target ≡ base ++ parts
unfolding rel_parts
is_inside-rel_parts [] target parts e h = (is_inside-climb [] target parts e h).1
is_inside-rel_parts (b ∷ base) [] parts e h =
    ground (arith, is_inside-climb (b ∷ base) [] parts e h)
is_inside-rel_parts (b ∷ base) (t ∷ target) parts e h =
    ground
      (arith, is_inside-rel_parts base target parts, is_inside-climb (b ∷ base) (t ∷ target) parts)

pub is_inside-rel :
    (base target : CleanPath) (parts : List String)
    → rel base target ≡ some parts
    → is_inside (some parts) ≡ true
    → (target.rooted ≡ base.rooted) × (target.parts ≡ base.parts ++ parts)
unfolding rel
is_inside-rel base target parts e h =
    ground (arith, is_inside-rel_parts base.parts target.parts parts)
