-- ===== src/Capture/RoundTrip.antt =====
-- A dump that was printed is read back, whatever stands before and after it in the log.
mod Steps
use mathlib.Core.List.{append-nil, append_assoc}
use volens.Base.{
  ◌≡◌, refl, sym, ap, ◌∙◌, String, true, false, Option, none, List, [], ◌∷◌, ◌++◌, ◌==◌, map, All,
  Option-cases, is_some, inl, inr,
}
use volens.Base.Int.{ℤ}
use volens.Base.Dict.{Dict, insert, get_or}
use volens.Cluster.{CacheNode, CacheTask, CacheJob}
use volens.Model.{Result, Failure}
use volens.Capture.Scan.{
  CacheCaptureResult, node_dump_start, cache_dump_end, ScanState, new_scan, mentions, no_job,
  cache_job_key, with_task, scan_step, scan_loop, scan_cache_dump,
}
use volens.Capture.Dump.{
  Block, first, second, block_lines, dumped_nodes, with_tasks, dumped_jobs, IsNodeLine, IsTaskLine,
  IsBlock, Frame, IsFrame, dump_lines,
}
use volens.Capture.RoundTrip.Steps.{
  insert-insert, get_or-insert_self, cache_job_key-ne, node_step, job_step, task_step, end_step,
  start_step, jobs_step, scan_next, scan_stop,
}

module _ (parse_float : String → Result ℤ) where
  module _ (stream_err : Option Failure) where
    abbrev scanned : ScanState → List String → CacheCaptureResult
    scanned = scan_loop parse_float stream_err

    scan_nodes :
        (s : ScanState) (nodes : List (String × CacheNode)) (rest : List String)
        → All (IsNodeLine parse_float) nodes
        → s.node_started ≡ true
        → s.job_started ≡ false
        → scanned s (map first nodes ++ rest)
          ≡ scanned (record s { nodes = dumped_nodes s.nodes nodes }) rest
    scan_nodes s [] rest h n j = refl
    scan_nodes s ((line, node) ∷ nodes) rest (h, hs) n j =
        scan_next parse_float stream_err s _ line (map first nodes ++ rest)
          (node_step parse_float s line node h n j)
        ∙ scan_nodes (record s { nodes = insert node.name node s.nodes }) nodes rest hs n j

    -- The tasks so far stand in the job that is being read.
    abbrev reading : ScanState → CacheJob → Dict CacheJob → ScanState
    reading s job d = record s { jobs = insert s.current_job_key job d }

    reading_task :
        (s : ScanState) (job : CacheJob) (d : Dict CacheJob) (task : CacheTask)
        → insert s.current_job_key
            (with_task task (get_or no_job s.current_job_key (insert s.current_job_key job d)))
            (insert s.current_job_key job d)
          ≡ insert s.current_job_key (with_task task job) d
    reading_task s job d task =
        rw (get_or-insert_self s.current_job_key job d)
          (insert-insert s.current_job_key job (with_task task job) d)

    scan_tasks :
        (s : ScanState) (job : CacheJob) (d : Dict CacheJob) (tasks : List (String × CacheTask))
        (rest : List String)
        → All (IsTaskLine parse_float) tasks
        → s.node_started ≡ false
        → s.job_started ≡ true
        → (s.current_job_key == "") ≡ false
        → scanned (reading s job d) (map first tasks ++ rest)
          ≡ scanned (reading s (with_tasks job tasks) d) rest
    scan_tasks s job d [] rest h n j k =
        ap (λ ts. scanned (reading s (record job { tasks = ts }) d) rest)
          (sym (append-nil job.tasks))
    scan_tasks s job d ((line, task) ∷ tasks) rest (h, hs) n j k =
        scan_next parse_float stream_err (reading s job d) _ line (map first tasks ++ rest)
          (task_step parse_float (reading s job d) line task h n j k)
        ∙ ap (λ jobs. scanned (record s { jobs = jobs }) (map first tasks ++ rest))
            (reading_task s job d task)
        ∙ scan_tasks s (with_task task job) d tasks rest hs n j k
        ∙ ap (λ ts. scanned (reading s (record job { tasks = ts }) d) rest)
            (append_assoc job.tasks (task ∷ []) (map second tasks))

    -- From the line that begins the jobs on, up to the end of the dump.
    scan_blocks :
        (s : ScanState) (blocks : List Block) (end : String) (rest : List String)
        → All (IsBlock parse_float) blocks
        → s.node_started ≡ false
        → s.job_started ≡ true
        → mentions end node_dump_start ≡ false
        → mentions end cache_dump_end ≡ true
        → scanned s (block_lines blocks ++ end ∷ rest) ≡ record {
          nodes = s.nodes;
          jobs = dumped_jobs s.jobs blocks;
          last_parse_err = s.last_parse_err;
          err = none;
        }
    scan_blocks s [] end rest h n j x y =
        scan_stop parse_float stream_err s end rest (end_step parse_float s end n j x y)
    scan_blocks s (b ∷ blocks) end rest (h, hs) n j x y =
        let s' = record s { current_job_key = cache_job_key b.job } in
        scan_next parse_float stream_err s (reading s' b.job s.jobs) b.line
          ((map first b.tasks ++ block_lines blocks) ++ end ∷ rest)
          (job_step parse_float s b.line b.job h.not_start h.not_end h.is_job h.parses n j)
        ∙ ap (scanned (reading s' b.job s.jobs))
            (append_assoc (map first b.tasks) (block_lines blocks) (end ∷ rest))
        ∙ scan_tasks s' b.job s.jobs b.tasks (block_lines blocks ++ end ∷ rest) h.tasks n j
            (cache_job_key-ne b.job)
        ∙ scan_blocks (reading s' (with_tasks b.job b.tasks) s.jobs) blocks end rest hs n j x y

    -- What stands before a dump, be it part of another, changes nothing.
    scan_before :
        (s : ScanState) (before : List String) (start : String) (rest : List String)
        → mentions start node_dump_start ≡ true
        → is_some (scan_loop parse_float none s before).err ≡ true
        → scanned s (before ++ start ∷ rest)
          ≡ scanned (record new_scan { node_started = true }) rest
    scan_before s [] start rest m h =
        scan_next parse_float stream_err s _ start rest (start_step parse_float s start m)
    scan_before s (line ∷ before) start rest m h =
        elim (Option-cases (scan_step parse_float s line)) [
          | inl stops ↦
              let ended =
                ap (λ r. is_some r.err) (scan_stop parse_float none s line before stops) in
              absurd (cc (ended, h))
          | inr (next, goes) ↦
              scan_next parse_float stream_err s next line (before ++ start ∷ rest) goes
              ∙ scan_before next before start rest m (
                  sym (ap (λ r. is_some r.err) (scan_next parse_float none s next line before goes))
                  ∙ h)
        ]

-- A dump, of lines that each parse and stand for one node, job or task, is read back from a log:
-- where the lines before it hold no complete dump, the capture has the nodes of the node lines under
-- their names, and the jobs, each with the tasks of the lines that follow it, under namespace and
-- name; there is no error, and neither the lines before, even those of a dump that broke off, nor
-- what comes after the dump, nor how the log ends matters.
pub scan_cache_dump-dump_lines :
    (parse_float : String → Result ℤ) (stream_err : Option Failure) (f : Frame)
    (nodes : List (String × CacheNode)) (blocks : List Block) (before rest : List String)
    → IsFrame f
    → All (IsNodeLine parse_float) nodes
    → All (IsBlock parse_float) blocks
    → is_some (scan_cache_dump parse_float none before).err ≡ true
    → scan_cache_dump parse_float stream_err (before ++ (dump_lines f nodes blocks ++ rest))
      ≡ record {
        nodes = dumped_nodes [] nodes;
        jobs = dumped_jobs [] blocks;
        last_parse_err = none;
        err = none;
      }
unfolding scan_cache_dump
scan_cache_dump-dump_lines parse_float stream_err f nodes blocks before rest frame ns bs quiet =
    let scan = scan_loop parse_float stream_err in
    let started = record new_scan { node_started = true } in
    let read = record started { nodes = dumped_nodes [] nodes } in
    let tail = block_lines blocks ++ f.end ∷ [] in
    let s' = record read { node_started = false; job_started = true } in
    scan_before parse_float stream_err new_scan before f.start
      ((map first nodes ++ f.jobs_start ∷ tail) ++ rest) frame.starts quiet
    ∙ ap (scan started) (append_assoc (map first nodes) (f.jobs_start ∷ tail) rest)
    ∙ scan_nodes parse_float stream_err started nodes (f.jobs_start ∷ (tail ++ rest)) ns refl refl
    ∙ scan_next parse_float stream_err read s' f.jobs_start (tail ++ rest)
        (jobs_step parse_float read f.jobs_start refl frame.not_start frame.starts_jobs)
    ∙ ap (scan s') (append_assoc (block_lines blocks) (f.end ∷ []) rest)
    ∙ scan_blocks parse_float stream_err s' blocks f.end rest bs refl refl frame.ends_only
        frame.ends
