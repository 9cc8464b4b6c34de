-- ===== src/Capture/Dump.antt =====
-- The lines that the scheduler prints for a dump of its cache, and what they stand for.
use volens.Base.{◌≡◌, String, true, false, List, [], ◌∷◌, ◌++◌, map, All}
use volens.Base.Int.{ℤ}
use volens.Base.Dict.{Dict, insert}
use volens.Cluster.{CacheNode, CacheTask, CacheJob}
use volens.Model.{Result, ok}
use volens.Capture.Lines.{parse_node_cache, parse_job_cache, parse_task_cache}
use volens.Capture.Scan.{node_dump_start, job_dump_start, cache_dump_end, mentions, cache_job_key}

-- What the scheduler prints: the lines of the nodes, and for each job its line and its tasks' lines.
pub record Block : Type 0 where
  pub line : String
  pub job : CacheJob
  pub tasks : List (String × CacheTask)

abbrev pub first : {A : Type 0} → String × A → String
first (line, a) = line

abbrev pub second : {A : Type 0} → String × A → A
second (line, a) = a

abbrev pub block_lines : List Block → List String
block_lines [] = []
block_lines (b ∷ blocks) = b.line ∷ (map first b.tasks ++ block_lines blocks)

-- What is expected to be read.
abbrev pub dumped_nodes : Dict CacheNode → List (String × CacheNode) → Dict CacheNode
dumped_nodes d [] = d
dumped_nodes d ((line, node) ∷ nodes) = dumped_nodes (insert node.name node d) nodes

abbrev pub with_tasks : CacheJob → List (String × CacheTask) → CacheJob
with_tasks job tasks = record job { tasks = job.tasks ++ map second tasks }

abbrev pub dumped_jobs : Dict CacheJob → List Block → Dict CacheJob
dumped_jobs d [] = d
dumped_jobs d (b ∷ blocks) =
    dumped_jobs (insert (cache_job_key b.job) (with_tasks b.job b.tasks) d) blocks

module _ (parse_float : String → Result ℤ) where
  -- A line that stands for a node, a task or a job, and for nothing else.
  pub record IsNodeLine (entry : String × CacheNode) : Type 0 where
    pub not_start : mentions entry.0 node_dump_start ≡ false
    pub not_jobs : mentions entry.0 job_dump_start ≡ false
    pub is_node : mentions entry.0 "Node (" ≡ true
    pub parses : parse_node_cache parse_float entry.0 ≡ ok entry.1

  pub record IsTaskLine (entry : String × CacheTask) : Type 0 where
    pub not_start : mentions entry.0 node_dump_start ≡ false
    pub not_end : mentions entry.0 cache_dump_end ≡ false
    pub not_job : mentions entry.0 "Job (" ≡ false
    pub is_task : mentions entry.0 "Task (" ≡ true
    pub parses : parse_task_cache parse_float entry.0 ≡ ok entry.1

  pub record IsBlock (b : Block) : Type 0 where
    pub not_start : mentions b.line node_dump_start ≡ false
    pub not_end : mentions b.line cache_dump_end ≡ false
    pub is_job : mentions b.line "Job (" ≡ true
    pub parses : parse_job_cache b.line ≡ ok b.job
    pub tasks : All IsTaskLine b.tasks

-- The three lines that frame a dump.
pub record Frame : Type 0 where
  pub start : String
  pub jobs_start : String
  pub end : String

pub record IsFrame (f : Frame) : Type 0 where
  pub starts : mentions f.start node_dump_start ≡ true
  pub starts_jobs : mentions f.jobs_start job_dump_start ≡ true
  pub not_start : mentions f.jobs_start node_dump_start ≡ false
  pub ends : mentions f.end cache_dump_end ≡ true
  pub ends_only : mentions f.end node_dump_start ≡ false

-- The lines of a dump.
abbrev pub dump_lines : Frame → List (String × CacheNode) → List Block → List String
dump_lines f nodes blocks =
    f.start ∷ (map first nodes ++ f.jobs_start ∷ (block_lines blocks ++ f.end ∷ []))
