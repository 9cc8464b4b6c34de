-- ===== src/Capture/RoundTrip/Steps.antt =====
-- What one line of a dump does to the state of the scan.
use Prim.Native.String.append
use Prim.Native.String.{◌++◌ as ◌<>◌}
use volens.Base.{
  ◌≡◌, refl, String, true, false, Option, none, some, List, [], ◌∷◌, ◌==◌, ==_refl, ==_iff, ◌≢◌,
  arith, Bool-cases, inl, inr,
}
use volens.Base.Int.{ℤ}
use volens.Base.Dict.{Dict, insert, get_or, lookup-insert}
use volens.Cluster.{CacheNode, CacheTask, CacheJob}
use volens.Model.{Result, Failure, ok}
use volens.Capture.Lines.{parse_job_cache}
use volens.Capture.Scan.{
  node_dump_start, job_dump_start, cache_dump_end, ScanState, new_scan, mentions, no_job,
  cache_job_key, add_node, add_job, with_task, add_task, scan_entry, scan_step, scan_loop,
}
use volens.Capture.Dump.{IsNodeLine, IsTaskLine}

-- The value written last stays.
pub insert-insert :
    {V : Type 0} (k : String) (v w : V) (d : Dict V) → insert k w (insert k v d) ≡ insert k w d
unfolding insert
insert-insert k v w [] = ground (arith, ==_refl k)
insert-insert k v w ((j, u) ∷ d) = ground (arith, ==_refl k, insert-insert k v w d)

pub get_or-insert_self :
    (k : String) (job : CacheJob) (d : Dict CacheJob) → get_or no_job k (insert k job d) ≡ job
get_or-insert_self k job d = ground (arith, lookup-insert k k job d, ==_refl k)

key-ne : (s t : String) → s <> ("/" <> t) ≢ ""
key-ne String.[] t e = cc (append.nil ("/" <> t), append.cons "/" "" t, e)
key-ne (String.◌∷◌ c s) t e = cc (append.cons c s ("/" <> t), e)

pub cache_job_key-ne : (job : CacheJob) → (cache_job_key job == "") ≡ false
cache_job_key-ne job = elim (Bool-cases (cache_job_key job == "")) [
  | inl empty ↦ absurd (key-ne job.namespace job.name ((==_iff (cache_job_key job) "").0 empty))
  | inr filled ↦ filled
]

module _ (parse_float : String → Result ℤ) where
  pub node_step :
      (s : ScanState) (line : String) (node : CacheNode)
      → IsNodeLine parse_float (line, node)
      → s.node_started ≡ true
      → s.job_started ≡ false
      → scan_step parse_float s line ≡ some (record s { nodes = insert node.name node s.nodes })
  unfolding scan_step scan_entry add_node
  node_step s line node h n j = ground arith

  pub job_step :
      (s : ScanState) (line : String) (job : CacheJob)
      → mentions line node_dump_start ≡ false
      → mentions line cache_dump_end ≡ false
      → mentions line "Job (" ≡ true
      → parse_job_cache line ≡ ok job
      → s.node_started ≡ false
      → s.job_started ≡ true
      → scan_step parse_float s line
        ≡ some (record s {
          current_job_key = cache_job_key job;
          jobs = insert (cache_job_key job) job s.jobs;
        })
  unfolding scan_step scan_entry add_job
  job_step s line job a b c p n j = ground arith

  pub task_step :
      (s : ScanState) (line : String) (task : CacheTask)
      → IsTaskLine parse_float (line, task)
      → s.node_started ≡ false
      → s.job_started ≡ true
      → (s.current_job_key == "") ≡ false
      → scan_step parse_float s line
        ≡ some (record s {
          jobs =
              insert s.current_job_key
                (with_task task (get_or no_job s.current_job_key s.jobs))
                s.jobs;
        })
  unfolding scan_step scan_entry add_task
  task_step s line task h n j k = ground arith

  pub end_step :
      (s : ScanState) (line : String)
      → s.node_started ≡ false
      → s.job_started ≡ true
      → mentions line node_dump_start ≡ false
      → mentions line cache_dump_end ≡ true
      → scan_step parse_float s line ≡ none
  unfolding scan_step
  end_step s line n j a b = ground arith

  pub start_step :
      (s : ScanState) (line : String)
      → mentions line node_dump_start ≡ true
      → scan_step parse_float s line ≡ some (record new_scan { node_started = true })
  unfolding scan_step
  start_step s line h = ground arith

  pub jobs_step :
      (s : ScanState) (line : String)
      → s.node_started ≡ true
      → mentions line node_dump_start ≡ false
      → mentions line job_dump_start ≡ true
      → scan_step parse_float s line ≡ some (record s { node_started = false; job_started = true })
  unfolding scan_step
  jobs_step s line n a b = ground arith

  pub scan_next :
      (stream_err : Option Failure) (s next : ScanState) (line : String) (rest : List String)
      → scan_step parse_float s line ≡ some next
      → scan_loop parse_float stream_err s (line ∷ rest)
        ≡ scan_loop parse_float stream_err next rest
  unfolding scan_loop
  scan_next stream_err s next line rest e = rw (e, scan_loop) refl

  pub scan_stop :
      (stream_err : Option Failure) (s : ScanState) (line : String) (rest : List String)
      → scan_step parse_float s line ≡ none
      → scan_loop parse_float stream_err s (line ∷ rest)
        ≡ record { nodes = s.nodes; jobs = s.jobs; last_parse_err = s.last_parse_err; err = none }
  unfolding scan_loop
  scan_stop stream_err s line rest e = rw (e, scan_loop) refl
