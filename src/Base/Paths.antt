-- ===== src/Base/Paths.antt =====
-- Go's path/filepath on Unix: a cleaned path is whether it is rooted, and its parts.
use Prim.Native.String.{◌++◌ as ◌<>◌}
use mathlib.Core.List.{reverse}
use volens.Base.Tests.{◌==◌, if◌then◌else◌, str_dec}
use volens.Base.Chars.{chars, text_of, split, starts_with}
use volens.Base.Text.{has_prefix}
use Prim.Native.String.{String}
use mathlib.Core.Path.{◌≡◌, refl}
use mathlib.Core.Bool.{Bool, true, false, not, ◌||◌}
use mathlib.Core.Option.{Option, none, some}
use mathlib.Core.List.{List, [], ◌∷◌, map}
pub mod Below

pub record CleanPath : Type 0 where
  pub rooted : Bool
  pub parts : List String

-- `filepath.IsAbs`
abbrev pub is_abs : String → Bool
is_abs s = starts_with s "/"

-- The parts so far stand in reverse.
abbrev go_up : Bool → List String → List String
go_up rooted [] = if rooted then [] else ".." ∷ []
go_up rooted (part ∷ parts) = if part == ".." then ".." ∷ part ∷ parts else parts

clean_loop : Bool → List String → List String → List String
clean_loop rooted parts [] = reverse parts
clean_loop rooted parts (part ∷ rest) =
    clean_loop rooted
      (if (part == "") || (part == ".")
        then parts
        else if part == ".."
        then go_up rooted parts
        else part ∷ parts)
      rest

unfoldable pub clean : String → CleanPath
unfolding clean_loop
clean s = record {
  rooted = is_abs s;
  parts = clean_loop (is_abs s) [] (map text_of (split b'/' (chars s)));
}

unfoldable pub join_parts : List String → String
join_parts [] = ""
join_parts (part ∷ []) = part
join_parts (part ∷ parts) = part <> ("/" <> join_parts parts)

abbrev relative_text : List String → String
relative_text [] = "."
relative_text (part ∷ parts) = join_parts (part ∷ parts)

-- The text that `filepath.Clean` gives.
unfoldable pub path_text : CleanPath → String
unfolding join_parts
path_text p = if p.rooted then "/" <> join_parts p.parts else relative_text p.parts

-- Up from what is left of the base, then down.
abbrev up : List String → List String → List String
up [] target = target
up (part ∷ base) target = ".." ∷ up base target

climb : List String → List String → Option (List String)
climb [] target = some target
climb (part ∷ base) target = if part == ".." then none else some (up (part ∷ base) target)

rel_parts : List String → List String → Option (List String)
unfolding climb
rel_parts (b ∷ base) (t ∷ target) =
    let rest = rel_parts base target in if b == t then rest else climb (b ∷ base) (t ∷ target)
rel_parts base target = climb base target

abbrev both : Bool → Bool → Bool
both true b = b
both false b = not b

-- `filepath.Rel`, the parts of its text; none of them for ".".
unfoldable pub rel : CleanPath → CleanPath → Option (List String)
unfolding rel_parts
rel base target = if both base.rooted target.rooted then rel_parts base.parts target.parts else none

cleans : path_text (clean "/etc//volcano/./a/../scheduler.conf") ≡ "/etc/volcano/scheduler.conf"
unfolding clean path_text has_prefix split str_dec
cleans = refl
