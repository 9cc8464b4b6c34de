-- ===== src/Config/Command.antt =====
-- internal/cluster/scheduler_config.go: the path of the scheduler's configuration in its command.
use Prim.Native.Char.{Char}
use Prim.Native.String.{◌++◌ as ◌<>◌}
use volens.Base.{
  ℕ, String, Bool, not, ◌||◌, Option, none, some, List, [], ◌∷◌, ◌++◌, ◌==◌, eqb, if◌then◌else◌,
}
use volens.Base.Dict.{Dict, insert}
use volens.Base.Text.{codes, contains}
use volens.Base.Chars.{chars, text_of, trim_both, starts_with, drop_chars, fields}
use volens.Base.Paths.{is_abs, clean, path_text}
use volens.Model.{text, quoted, failure, plain, Result, ok, err}
use volens.Config.{SchedulerContainer}

-- The characters of `"'`;\`.
abbrev is_shell_mark : ℕ → Bool
is_shell_mark c = eqb c 34 || eqb c 39 || eqb c 96 || eqb c 59 || eqb c 92

abbrev pub trim_shell_token : List Char → String
trim_shell_token token = text_of (trim_both is_shell_mark token)

-- `strings.Join(…, " ")`
abbrev spaced : List String → String
spaced [] = ""
spaced (s ∷ []) = s
spaced (s ∷ ss) = s <> (" " <> spaced ss)

-- What is done with a value of the flag.
abbrev add_path : Dict (Unit {0}) → String → Result (Dict (Unit {0}))
add_path paths value =
    if value == ""
    then err (failure (plain "scheduler flag --scheduler-conf has an empty value"))
    else if contains (codes value) (codes "$(") || contains (codes value) (codes "${")
    then err (failure (plain "scheduler flag --scheduler-conf uses runtime variable expansion"))
    else if not (is_abs value)
    then err (
        failure (
          text "scheduler flag --scheduler-conf path "
          ∷ quoted value
          ∷ text " is not absolute"
          ∷ []))
    else ok (insert (path_text (clean value)) tt paths)

abbrev and_then :
    Result (Dict (Unit {0}))
    → (Dict (Unit {0}) → Result (Dict (Unit {0})))
    → Result (Dict (Unit {0}))
and_then (ok paths) f = f paths
and_then (err e) f = err e

-- A field that is not the bare flag: its value after "=", or nothing of interest.
abbrev inline_value : Dict (Unit {0}) → String → Result (Dict (Unit {0}))
inline_value paths field =
    if starts_with field "--scheduler-conf="
    then add_path paths (trim_shell_token (drop_chars 17 (chars field)))
    else ok paths

flag_loop : Dict (Unit {0}) → List (List Char) → Result (Dict (Unit {0}))
flag_loop paths [] = ok paths
flag_loop paths (field ∷ []) =
    if trim_shell_token field == "--scheduler-conf"
    then err (failure (plain "scheduler flag --scheduler-conf has no value"))
    else inline_value paths (trim_shell_token field)
flag_loop paths (field ∷ next ∷ rest) =
    let skipped = and_then (add_path paths (trim_shell_token next)) (λ more. flag_loop more rest) in
    let stepped =
      and_then (inline_value paths (trim_shell_token field))
        (λ more. flag_loop more (next ∷ rest)) in
    if trim_shell_token field == "--scheduler-conf" then skipped else stepped

abbrev only_path : Dict (Unit {0}) → Result (Option String)
only_path [] = ok none
only_path ((path, _) ∷ []) = ok (some path)
only_path paths =
    err (failure (plain "scheduler command contains conflicting --scheduler-conf paths"))

abbrev path_result : Result (Dict (Unit {0})) → Result (Option String)
path_result (ok paths) = only_path paths
path_result (err e) = err e

-- `none` where the source returns "not found".
unfoldable pub scheduler_configuration_path : SchedulerContainer → Result (Option String)
unfolding flag_loop
scheduler_configuration_path container =
    path_result (flag_loop [] (fields (chars (spaced (container.command ++ container.args)))))
