-- ===== src/Capture/Scan.antt =====
-- internal/cluster/cache.go: scanCacheDump, the loop over the lines of the scheduler's log.
use Prim.Native.String.{◌++◌ as ◌<>◌}
use volens.Base.{
  String, Bool, true, false, not, ◌&&◌, ◌||◌, Option, none, some, List, [], ◌∷◌, ◌++◌, ◌==◌,
  if◌then◌else◌,
}
use volens.Base.Int.{ℤ, pos}
use volens.Base.Dict.{Dict, insert, get_or}
use volens.Base.Text.{codes, contains}
use volens.Cluster.{CacheNode, CacheTask, CacheJob}
use volens.Model.{Failure, failure, plain, Result, ok, err}
use volens.Capture.Lines.{parse_node_cache, parse_job_cache, parse_task_cache}

pub record CacheCaptureResult : Type 0 where
  pub nodes : Dict CacheNode
  pub jobs : Dict CacheJob
  pub last_parse_err : Option Failure
  pub err : Option Failure

abbrev pub node_dump_start : String
node_dump_start = "Dump of nodes info in scheduler cache"

abbrev pub job_dump_start : String
job_dump_start = "Dump of jobs info in scheduler cache"

abbrev pub cache_dump_end : String
cache_dump_end = "volcano scheduler memory stat:"

-- The variables of scanCacheDump.
pub record ScanState : Type 0 where
  pub nodes : Dict CacheNode
  pub jobs : Dict CacheJob
  pub last_parse_err : Option Failure
  pub node_started : Bool
  pub job_started : Bool
  pub current_job_key : String

abbrev pub new_scan : ScanState
new_scan = record {
  nodes = [];
  jobs = [];
  last_parse_err = none;
  node_started = false;
  job_started = false;
  current_job_key = "";
}

abbrev pub mentions : String → String → Bool
mentions line part = contains (codes line) (codes part)

-- The zero value of CacheJob.
abbrev pub no_job : CacheJob
no_job = record {
  uid = "";
  namespace = "";
  name = "";
  queue = "";
  min_available = pos 0;
  tasks = [];
}

-- `job.Namespace + "/" + job.Name`
abbrev pub cache_job_key : CacheJob → String
cache_job_key job = job.namespace <> ("/" <> job.name)

unfoldable pub add_node : ScanState → Result CacheNode → ScanState
add_node s (ok node) = record s { nodes = insert node.name node s.nodes }
add_node s (err e) = record s { last_parse_err = some e }

unfoldable pub add_job : ScanState → Result CacheJob → ScanState
add_job s (ok job) = record s {
  current_job_key = cache_job_key job;
  jobs = insert (cache_job_key job) job s.jobs;
}
add_job s (err e) = record s { last_parse_err = some e; current_job_key = "" }

abbrev pub with_task : CacheTask → CacheJob → CacheJob
with_task task job = record job { tasks = job.tasks ++ task ∷ [] }

unfoldable pub add_task : ScanState → Result CacheTask → ScanState
add_task s (ok task) = record s {
  jobs = insert s.current_job_key (with_task task (get_or no_job s.current_job_key s.jobs)) s.jobs;
}
add_task s (err e) = record s { last_parse_err = some e }

module _ (parse_float : String → Result ℤ) where
  -- What a line does that neither begins nor ends a part of the dump.
  unfoldable pub scan_entry : ScanState → String → ScanState
  unfolding add_node add_job add_task
  scan_entry s line =
      if s.node_started && mentions line "Node ("
      then add_node s (parse_node_cache parse_float line)
      else if not s.job_started
      then s
      else if mentions line "Job ("
      then add_job s (parse_job_cache line)
      else if (s.current_job_key == "") || not (mentions line "Task (")
      then s
      else add_task s (parse_task_cache parse_float line)

  -- `none` where the dump is complete.
  unfoldable pub scan_step : ScanState → String → Option ScanState
  unfolding scan_entry
  scan_step s line =
      if mentions line node_dump_start
      then some (record new_scan { node_started = true })
      else if s.node_started && mentions line job_dump_start
      then some (record s { node_started = false; job_started = true })
      else if s.job_started && mentions line cache_dump_end
      then none
      else some (scan_entry s line)

  -- `stream_err` is the scanner's error once the lines have ended.
  unfoldable pub scan_loop : Option Failure → ScanState → List String → CacheCaptureResult
  unfolding scan_step
  scan_loop stream_err s [] = record {
    nodes = s.nodes;
    jobs = s.jobs;
    last_parse_err = s.last_parse_err;
    err = elim stream_err [
      | some e ↦ some e
      | none ↦ some (failure (plain "scheduler log stream ended before cache dump completed"))
    ];
  }
  scan_loop stream_err s (line ∷ lines) = elim (scan_step s line) [
    | some next ↦ scan_loop stream_err next lines
    | none ↦ record {
      nodes = s.nodes;
      jobs = s.jobs;
      last_parse_err = s.last_parse_err;
      err = none;
    }
  ]

  unfoldable pub scan_cache_dump : Option Failure → List String → CacheCaptureResult
  unfolding scan_loop
  scan_cache_dump stream_err lines = scan_loop stream_err new_scan lines
