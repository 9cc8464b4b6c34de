-- ===== src/Capture/Lines.antt =====
-- internal/cluster/cache.go: the lines of a cache dump. `parse_float` stands for strconv.ParseFloat; it
-- gives a number as hundredths, which is how Volcano prints it.
use volens.Base.{
  ◌^◌, String, Bool, false, not, ◌&&◌, ◌||◌, Option, none, some, List, [], ◌∷◌, map, ◌==◌, leb, ltb,
  ◌/◌, if◌then◌else◌,
}
use volens.Base.Int.{ℤ, pos_part, neg_part, scale, sub_ℕ}
use volens.Base.Dict.{Dict, insert, get_or}
use volens.Base.Chars.{chars, text_of, trimmed_chars, split, fields}
use volens.Base.Text.{codes}
use volens.Base.ParseInt.{parse_int}
use volens.Cluster.{Amounts, CacheNode, CacheTask, CacheJob}
use volens.Model.{text, quoted, Failure, failure, wrap, Result, ok, err}
use volens.Snapshot.Quota.{canonical_queue_resource_name, from_request}
use volens.Capture.Patterns.{Item, literal, group, gap, number, find_string_submatch}

-- `abbrev`, so that `ok a >>= f` computes wherever it stands.
infixl 5 ◌>>=◌
abbrev pub ◌>>=◌ {ℓ κ} : {A : Type ℓ} {B : Type κ} → Result A → (A → Result B) → Result B
ok a >>= f = f a
err e >>= f = err e

-- `fmt.Errorf("prefix: %w", err)`
abbrev wrapped : {A : Type 0} → String → Result A → Result A
wrapped prefix (ok a) = ok a
wrapped prefix (err e) = err (wrap prefix e)

-- cachePatterns
abbrev pub node_pattern : List Item
node_pattern = literal "Node (" ∷ group ∷ literal ")" ∷ []

abbrev pub allocatable_pattern : List Item
allocatable_pattern = literal "allocatable<" ∷ group ∷ literal ">" ∷ []

abbrev pub idle_pattern : List Item
idle_pattern = literal "idle <" ∷ group ∷ literal ">" ∷ []

abbrev pub used_pattern : List Item
used_pattern = literal "used <" ∷ group ∷ literal ">" ∷ []

abbrev pub releasing_pattern : List Item
releasing_pattern = literal "releasing <" ∷ group ∷ literal ">" ∷ []

abbrev pub job_pattern : List Item
job_pattern =
    literal "Job ("
    ∷ group
    ∷ literal "): namespace "
    ∷ group
    ∷ literal " ("
    ∷ group
    ∷ literal "), name "
    ∷ group
    ∷ literal ", minAvailable "
    ∷ number
    ∷ literal ","
    ∷ []

abbrev pub task_pattern : List Item
task_pattern =
    literal "Task ("
    ∷ group
    ∷ literal ":"
    ∷ group
    ∷ literal "/"
    ∷ group
    ∷ literal "): job "
    ∷ group
    ∷ literal ", status "
    ∷ group
    ∷ literal ", pri "
    ∷ gap
    ∷ literal ", resreq "
    ∷ group
    ∷ literal ", preemptable"
    ∷ []

abbrev missing : String → Failure
missing what = failure (text "cache dump missing " ∷ text what ∷ [])

unfoldable pub capture : List Item → String → String → Result String
capture pattern line field = elim (find_string_submatch pattern line) [
  | some (value ∷ rest) ↦ if value == "" then err (missing field) else ok value
  | some [] ↦ err (missing field)
  | none ↦ err (missing field)
]

-- Thousandths of an amount that is a number of thousandths itself, from its hundredths: towards zero.
abbrev hundredths : ℤ → ℤ
hundredths a = sub_ℕ (pos_part a / 100) (neg_part a / 100)

-- In thousandths. Memory and pods are printed whole, any other resource in its millis.
unfoldable pub dump_value : String → ℤ → ℤ
dump_value original value =
    if (original == "memory") || (original == "pods") then scale 10 value else hundredths value

-- The two maps of the loop of parseDumpResources.
pub record DumpValues : Type 0 where
  pub result : Amounts
  pub request_backed : Dict Bool

unfoldable pub dump_step : DumpValues → String → ℤ → DumpValues
unfolding dump_value
dump_step s original value =
    let name = canonical_queue_resource_name original in
    let requested = from_request original in
    let backed = get_or false name s.request_backed in
    if backed && not requested then s else record {
      result = insert name (dump_value original value) s.result;
      request_backed = insert name (requested || backed) s.request_backed;
    }

module _ (parse_float : String → Result ℤ) where
  dump_part : DumpValues → List String → Result DumpValues
  unfolding dump_step
  dump_part s (name ∷ value ∷ []) = elim (parse_float value) [
    | err e ↦
        err (record e { message = text name ∷ text "=" ∷ quoted value ∷ text ": " ∷ e.message })
    | ok v ↦ ok (dump_step s name v)
  ]
  dump_part s other = ok s

  dump_loop : DumpValues → List (List String) → Result DumpValues
  unfolding dump_part
  dump_loop s [] = ok s
  dump_loop s (part ∷ parts) = dump_part s part >>= λ next. dump_loop next parts

  -- A blank text has no fields, and so no resources.
  unfoldable pub parse_dump_resources : String → Result Amounts
  unfolding dump_loop
  parse_dump_resources value =
      dump_loop (record { result = []; request_backed = [] })
        (map (λ part. map text_of (fields part)) (split b',' (chars value)))
      >>= λ s. ok s.result

  unfoldable pub parse_node_cache : String → Result CacheNode
  unfolding capture parse_dump_resources
  parse_node_cache line = do
    name ← capture node_pattern line "node"
    alloc_value ← capture allocatable_pattern line "allocatable"
    idle_value ← capture idle_pattern line "idle"
    used_value ← capture used_pattern line "used"
    releasing_value ← capture releasing_pattern line "releasing"
    alloc ← wrapped "allocatable: " (parse_dump_resources alloc_value)
    idle ← wrapped "idle: " (parse_dump_resources idle_value)
    used ← wrapped "used: " (parse_dump_resources used_value)
    releasing ← wrapped "releasing: " (parse_dump_resources releasing_value)
    ok (record {
      name = name;
      allocatable = alloc;
      idle = idle;
      used = used;
      releasing = releasing;
    })

  abbrev trimmed : String → String
  trimmed s = text_of (trimmed_chars s)

  task_of : List String → Result CacheTask
  task_of (uid ∷ namespace ∷ name ∷ job ∷ status ∷ resreq ∷ []) =
      wrapped "resreq: " (parse_dump_resources resreq) >>= λ resources. ok (record {
        uid = trimmed uid;
        namespace = trimmed namespace;
        name = trimmed name;
        job = trimmed job;
        status = trimmed status;
        resreq = resources;
      })
  task_of other = err (missing "task fields")

  unfoldable pub parse_task_cache : String → Result CacheTask
  unfolding task_of parse_dump_resources
  parse_task_cache line = elim (find_string_submatch task_pattern line) [
    | none ↦ err (missing "task fields")
    | some captured ↦ task_of captured
  ]

-- `strconv.ParseInt(s, 10, 32)`
abbrev fits_int32 : Option ℤ → Option ℤ
fits_int32 none = none
fits_int32 (some a) =
    if ltb (pos_part a) (2 ^ 31) && leb (neg_part a) (2 ^ 31) then some a else none

-- The pattern lets digits alone through, so that a number can only be too large.
job_of : List String → Result CacheJob
job_of (uid ∷ namespace ∷ queue ∷ name ∷ min_available ∷ []) =
    elim (fits_int32 (parse_int (codes min_available))) [
      | none ↦ err (
          failure (
            text "minAvailable="
            ∷ quoted min_available
            ∷ text ": strconv.ParseInt: parsing "
            ∷ quoted min_available
            ∷ text ": value out of range"
            ∷ []))
      | some n ↦ ok (record {
        uid = uid;
        namespace = namespace;
        queue = queue;
        name = name;
        min_available = n;
        tasks = [];
      })
    ]
job_of other = err (missing "job fields")

unfoldable pub parse_job_cache : String → Result CacheJob
unfolding job_of
parse_job_cache line = elim (find_string_submatch job_pattern line) [
  | none ↦ err (missing "job fields")
  | some captured ↦ job_of captured
]
