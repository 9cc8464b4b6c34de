-- ===== src/Capture/Tests.antt =====
-- A log with one node, one job and its task, and a capture that reads it.
use volens.Base.{
  ℕ, ◌≡◌, refl, String, true, Option, none, some, List, [], ◌∷◌, ◌++◌, eqb, str_dec, if◌then◌else◌,
}
use volens.Base.Int.{ℤ, pos, scale}
use volens.Base.Text.{codes, contains, to_lower}
use volens.Base.Dict.{lookup, insert}
use volens.Base.Chars.{split, fields}
use volens.Snapshot.Quota.{canonical_queue_resource_name}
use volens.Capture.Patterns.{find_string_submatch}
use volens.Base.ParseInt.{parse_int}
use volens.Cluster.{CacheNode, CacheTask, CacheJob}
use volens.Model.{Result, ok, err, Failure, failure, plain, wrap}
use volens.Capture.Lines.{parse_node_cache, parse_job_cache, parse_task_cache}
use volens.Capture.Scan.{CacheCaptureResult, scan_cache_dump}
use volens.Capture.Dump.{Block, Frame, IsFrame, IsNodeLine, IsTaskLine, IsBlock, dump_lines}
use volens.Capture.RoundTrip.{scan_cache_dump-dump_lines}
use volens.Capture.Stream.{
  finished_return, no_dump, waiting, World, new_world, returns, begins_reading, gives_result,
  sees_start, goes_on, signal_sent, receives, Reach, here, env_step, main_step,
}
use volens.Capture.Safety.{IsDump, Reach-returned}

-- For numbers with two places.
without_point : List ℕ → List ℕ
without_point [] = []
without_point (c ∷ cs) = let rest = without_point cs in if eqb c b'.' then rest else c ∷ rest

abbrev parsed : Option ℤ → Result ℤ
parsed none = err (failure (plain "invalid syntax"))
parsed (some v) = ok v

abbrev parse_float : String → Result ℤ
unfolding without_point
parse_float s = parsed (parse_int (without_point (codes s)))

abbrev node_line : String
node_line =
    "Node (n1): allocatable<cpu 4000.00, memory 64.00> idle <cpu 500.00>, used <cpu 0.50, pods 2.00>, releasing <cpu 0.00>"

abbrev node : CacheNode
node = record {
  name = "n1";
  allocatable = ("cpu", pos 4000) ∷ ("memory", pos 64000) ∷ [];
  idle = ("cpu", pos 500) ∷ [];
  used = ("cpu", pos 0) ∷ ("pods", pos 2000) ∷ [];
  releasing = ("cpu", pos 0) ∷ [];
}

abbrev job_line : String
job_line = "Job (u1): namespace ml (research), name train, minAvailable 2, podGroup <nil>"

abbrev job : CacheJob
job = record {
  uid = "u1";
  namespace = "ml";
  name = "train";
  queue = "research";
  min_available = pos 2;
  tasks = [];
}

abbrev task_line : String
task_line =
    "0: Task (u2:ml/train-0): job train, status Running, pri 1, resreq cpu 500.00, preemptable false"

abbrev task : CacheTask
task = record {
  uid = "u2";
  namespace = "ml";
  name = "train-0";
  job = "train";
  status = "Running";
  resreq = ("cpu", pos 500) ∷ [];
}

abbrev frame : Frame
frame = record {
  start = "Dump of nodes info in scheduler cache";
  jobs_start = "Dump of jobs info in scheduler cache";
  end = "volcano scheduler memory stat: 1";
}

abbrev blocks : List Block
blocks = record { line = job_line; job = job; tasks = (task_line, task) ∷ [] } ∷ []

abbrev dump : CacheCaptureResult
dump = record {
  nodes = ("n1", node) ∷ [];
  jobs = ("ml/train", record job { tasks = task ∷ [] }) ∷ [];
  last_parse_err = none;
  err = none;
}

frame-IsFrame : IsFrame frame
unfolding contains
frame-IsFrame = record {
  starts = refl;
  starts_jobs = refl;
  not_start = refl;
  ends = refl;
  ends_only = refl;
}

node_line-IsNodeLine : IsNodeLine parse_float (node_line, node)
unfolding parse_node_cache contains find_string_submatch str_dec split fields parse_float parse_int
    lookup insert canonical_queue_resource_name to_lower scale
node_line-IsNodeLine = record { not_start = refl; not_jobs = refl; is_node = refl; parses = refl }

task_line-IsTaskLine : IsTaskLine parse_float (task_line, task)
unfolding parse_task_cache contains find_string_submatch split fields parse_float parse_int lookup
    insert canonical_queue_resource_name str_dec to_lower
task_line-IsTaskLine = record {
  not_start = refl;
  not_end = refl;
  not_job = refl;
  is_task = refl;
  parses = refl;
}

sample-IsBlock :
    IsBlock parse_float (record { line = job_line; job = job; tasks = (task_line, task) ∷ [] })
unfolding parse_job_cache contains find_string_submatch parse_int
sample-IsBlock = record {
  not_start = refl;
  not_end = refl;
  is_job = refl;
  parses = refl;
  tasks = (task_line-IsTaskLine, tt);
}

-- A dump that broke off at a line that cannot be read.
abbrev broken : List String
broken = frame.start ∷ "Node (n2): allocatable<>" ∷ []

scan_cache_dump-dump_lines_example :
    scan_cache_dump parse_float none
      (broken ++ (dump_lines frame ((node_line, node) ∷ []) blocks ++ ("more" ∷ [])))
    ≡ dump
unfolding contains insert scan_cache_dump
scan_cache_dump-dump_lines_example =
    scan_cache_dump-dump_lines parse_float none frame ((node_line, node) ∷ []) blocks broken
      ("more" ∷ []) frame-IsFrame (node_line-IsNodeLine, tt) (sample-IsBlock, tt) refl

abbrev waits : World
waits = record new_world { phase = waiting; read_started = true; result = some dump; signals = 1 }

abbrev ended : World
ended = returns (finished_return dump) waits

run : Reach ended
run =
    main_step
      (env_step
        (main_step
          (main_step (main_step (env_step here (begins_reading new_world)) (sees_start _ refl refl))
            (goes_on _ refl refl))
          (signal_sent _ refl))
        (gives_result _ dump refl refl))
      (receives waits dump refl refl)

Reach-returned_example :
    (ended.closed ≡ true) × (ended.signals ≡ 1) × IsDump (finished_return dump) ended.result
unfolding finished_return
Reach-returned_example = Reach-returned ended (finished_return dump) run refl refl

abbrev late : Failure
late = failure (plain "context deadline exceeded")

abbrev expired : World
expired = record new_world { ctx_err = some late }

abbrev given_up : World
given_up = returns (no_dump (wrap "start cache dump parser: " late)) expired
