-- ===== src/Base/Chars.antt =====
-- The operations of Go's `strings` and `fmt` that give a text back, over its list of characters.
use Prim.Native.Char.{Char, code}
use Prim.Native.String.{String}
use Prim.Native.Nat.{ℕ, zero, suc, ◌/◌, ◌%◌}
use mathlib.Core.Path.{◌≡◌, refl}
use mathlib.Core.Bool.{Bool}
use mathlib.Core.List.{List, [], ◌∷◌, map, reverse}
use volens.Base.Tests.{ltb, eqb, if◌then◌else◌}
use volens.Base.Text.{codes, is_space, has_prefix}

abbrev pub chars : String → List Char
chars String.[] = []
chars (String.◌∷◌ c s) = c ∷ chars s

abbrev pub text_of : List Char → String
text_of [] = String.[]
text_of (c ∷ cs) = String.◌∷◌ c (text_of cs)

-- The characters from the first that is not dropped.
abbrev pub skip_while : (ℕ → Bool) → List Char → List Char
skip_while drops [] = []
skip_while drops (c ∷ cs) =
    let rest = skip_while drops cs in if drops (code c) then rest else c ∷ cs

abbrev pub trim_both : (ℕ → Bool) → List Char → List Char
trim_both drops cs = reverse (skip_while drops (reverse (skip_while drops cs)))

-- `strings.TrimSpace`
abbrev pub trimmed_chars : String → List Char
trimmed_chars s = trim_both is_space (chars s)

abbrev pub drop_chars : ℕ → List Char → List Char
drop_chars zero cs = cs
drop_chars (suc n) [] = []
drop_chars (suc n) (c ∷ cs) = drop_chars n cs

-- The character at the place in `to` where `c` stands in `from`.
translate : List Char → List Char → Char → Char
translate [] to c = c
translate from [] c = c
translate (a ∷ from) (b ∷ to) c = if eqb (code a) (code c) then b else translate from to c

-- `strings.ToLower`, in the ASCII range
unfoldable pub lower_char : Char → Char
unfolding translate
lower_char = translate (chars "ABCDEFGHIJKLMNOPQRSTUVWXYZ") (chars "abcdefghijklmnopqrstuvwxyz")

abbrev digit : ℕ → List Char → List Char → List Char
digit n [] rest = rest
digit zero (c ∷ cs) rest = c ∷ rest
digit (suc n) (c ∷ cs) rest = digit n cs rest

-- `%d` of a number, with fuel for its digits: a number has no more of them than its value.
decimal_loop : ℕ → ℕ → List Char → List Char
decimal_loop zero n rest = digit (n % 10) (chars "0123456789") rest
decimal_loop (suc fuel) n rest =
    let more = decimal_loop fuel (n / 10) (digit (n % 10) (chars "0123456789") rest) in
    if ltb n 10 then digit n (chars "0123456789") rest else more

unfoldable pub decimal : ℕ → String
unfolding decimal_loop
decimal n = text_of (decimal_loop n n [])

-- `strings.HasPrefix`, on texts
abbrev pub starts_with : String → String → Bool
starts_with s prefix = has_prefix (codes s) (codes prefix)

-- `strings.EqualFold` of texts, and `strings.ToLower`
abbrev pub lower_text : String → String
lower_text s = text_of (map lower_char (chars s))

-- `strings.Split` at a character, and `strings.Fields`; `part` is the current part, reversed.
split_loop : List Char → ℕ → List Char → List (List Char)
split_loop part n [] = reverse part ∷ []
split_loop part n (c ∷ cs) =
    let rest = split_loop [] n cs in
    let more = split_loop (c ∷ part) n cs in if eqb (code c) n then reverse part ∷ rest else more

unfoldable pub split : ℕ → List Char → List (List Char)
unfolding split_loop
split n cs = split_loop [] n cs

abbrev add_field : List Char → List (List Char) → List (List Char)
add_field [] fields = fields
add_field (c ∷ part) fields = reverse (c ∷ part) ∷ fields

fields_loop : List Char → List Char → List (List Char)
fields_loop part [] = add_field part []
fields_loop part (c ∷ cs) =
    let rest = fields_loop [] cs in
    let more = fields_loop (c ∷ part) cs in if is_space (code c) then add_field part rest else more

unfoldable pub fields : List Char → List (List Char)
unfolding fields_loop is_space
fields cs = fields_loop [] cs

words : map text_of (fields (chars " cpu  2000 ")) ≡ "cpu" ∷ "2000" ∷ []
unfolding fields
words = refl

lower_text_ascii : lower_text "PodGroup-7" ≡ "podgroup-7"
unfolding lower_char
lower_text_ascii = refl

counts : decimal 1203 ≡ "1203"
unfolding decimal
counts = refl
