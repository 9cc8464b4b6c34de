-- ===== src/Capture/Patterns.antt =====
-- The regular expressions of internal/cluster/cache.go, which are literals, groups `(.*?)`, gaps
-- `.*?` and a number `([0-9]+)`, matched as Go's regexp does: at the leftmost place, and each group
-- and gap as short as the rest allows.
use Prim.Native.Char.{Char, code}
use mathlib.Core.List.{reverse}
use volens.Base.{
  String, Bool, ◌&&◌, ◌≡◌, refl, Option, none, some, List, [], ◌∷◌, leb, eqb, if◌then◌else◌,
}
use volens.Base.Chars.{chars, text_of}

pub data Item : Type 0 where
  literal : String → Item
  group gap number : Item

-- The rest of a text after a prefix.
after : List Char → List Char → Option (List Char)
after [] text = some text
after (a ∷ prefix) [] = none
after (a ∷ prefix) (c ∷ text) =
    let rest = after prefix text in if eqb (code a) (code c) then rest else none

-- The shortest run of characters after which `rest` matches.
shortest :
    (List Char → Option (List String)) → List Char → List Char → Option (List Char × List String)
shortest rest run [] = elim (rest []) [ none ↦ none | some captured ↦ some (reverse run, captured) ]
shortest rest run (c ∷ text) = elim (rest (c ∷ text)) [
  | some captured ↦ some (reverse run, captured)
  | none ↦ shortest rest (c ∷ run) text
]

abbrev is_digit : Char → Bool
is_digit c = leb b'0' (code c) && leb (code c) b'9'

-- All digits in front. What follows a number here is no digit, so that taking fewer never matches.
digit_run : List Char → List Char → List Char × List Char
digit_run run [] = (reverse run, [])
digit_run run (c ∷ text) =
    let more = digit_run (c ∷ run) text in if is_digit c then more else (reverse run, c ∷ text)

abbrev keep_run : Option (List Char × List String) → Option (List String)
keep_run none = none
keep_run (some (run, captured)) = some (text_of run ∷ captured)

abbrev drop_run : Option (List Char × List String) → Option (List String)
drop_run none = none
drop_run (some (run, captured)) = some captured

abbrev with_number :
    (List Char → Option (List String)) → List Char × List Char → Option (List String)
with_number rest ([], text) = none
with_number rest (c ∷ digits, text) = elim (rest text) [
  | none ↦ none
  | some captured ↦ some (text_of (c ∷ digits) ∷ captured)
]

-- The captures of a match that begins where the text does.
match_here : List Item → List Char → Option (List String)
unfolding after shortest digit_run
match_here [] text = some []
match_here (literal s ∷ items) text = elim (after (chars s) text) [
  | none ↦ none
  | some rest ↦ match_here items rest
]
match_here (group ∷ items) text = keep_run (shortest (match_here items) [] text)
match_here (gap ∷ items) text = drop_run (shortest (match_here items) [] text)
match_here (number ∷ items) text = with_number (match_here items) (digit_run [] text)

leftmost : List Item → List Char → Option (List String)
unfolding match_here
leftmost items [] = match_here items []
leftmost items (c ∷ text) = elim (match_here items (c ∷ text)) [
  | some captured ↦ some captured
  | none ↦ leftmost items text
]

-- `FindStringSubmatch`, without the whole match in front.
unfoldable pub find_string_submatch : List Item → String → Option (List String)
unfolding leftmost
find_string_submatch items line = leftmost items (chars line)

finds :
    find_string_submatch
      (literal "job " ∷ group ∷ literal ", min " ∷ number ∷ literal "," ∷ [])
      "a job x, min y, min 12, z"
    ≡ some ("x, min y" ∷ "12" ∷ [])
unfolding find_string_submatch
finds = refl
