-- ===== src/Lib.antt =====
-- Volens diagnoses Pods that stay Pending under the Volcano scheduler. A rule collects evidence
-- from the cluster and gives checks; a check passes, is a determinate failure, is indeterminate, or
-- is skipped. This development models the rules and what they compute.
--
-- Parts, in the order in which an analysis goes through them:
-- - Analysis: internal/agent/rules.go and analyzer.go. The validate, enqueue, jobValid and allocate
--   rules and the loop of Analyze (Analysis/Run); Analysis/Policy is
--   internal/agent/runtime/policy.go.
-- - Validate: internal/agent/validate/validate.go. Preflight checks of the Pod (Evaluate), of its
--   PodGroup (EvaluatePodGroup) and of the gang's tasks (Validate/Gang, evaluateGangTasks).
-- - Enqueue: internal/agent/enqueue/enqueue.go. The queue of the PodGroup (Enqueue/Queues,
--   ResolveQueueName), the events (Enqueue/Events, newestEnqueueEvidence) and the checks (Evaluate).
-- - Filter: internal/agent/filter. The requests of a Pod (Filter/Resources, resources.go), required
--   node affinity (Filter/Affinity, affinity.go), the checks of a node (Filter/NodeChecks, Filter/Fit
--   and Filter/Node, node.go) and the verdict on all nodes (Filter/Evaluate, filter.go).
-- - Snapshot: internal/cluster/proportion_snapshot.go and queue_snapshot.go. The amounts of a resource
--   list (Snapshot/Quota), the sets of a snapshot (Snapshot/Resources), the usage of the jobs
--   (Snapshot) and BuildQueueSnapshot (Snapshot/Build). The sets are a data type: the source names
--   them by strings and panics on a name that no caller passes.
-- - Report: internal/agent/report.go. The checks, plugin hooks and nodes by action (Report,
--   buildActionReports; Report/Split, splitNodesByAction) and the verdict (Report/Finalize,
--   finalizeReport, knownFailures).
-- - Plugins: internal/agent/runtime/plugins.go. The source files that belong to a configured plugin
--   (Plugins/Names), the effective option of a hook (Plugins, effectiveHookOption) and the reports on
--   all hooks (Plugins/Inspect, InspectPluginHooks).
-- - Presentation: internal/agent/presentation.go. Operations on checks (Presentation/Checks), what
--   checks come to (States), the checks of hooks (Hooks), whether the predicates plugin runs a check
--   (Activation, Predicates), the resources and the quota of the queue (Amounts, Queue, Strategy,
--   Capacity), the rows (Rows), the diagnosis (DiagnosisTexts, NodeFailures, Diagnose), the three
--   stages (EnqueueStage, JobValidStage, AllocateStage) and finishReport of analyzer.go (Build). The
--   rules leave it a record (Evidence), and it reads the reports on the plugins' hooks.
-- - Model, Model/Checks, Model/Reports: internal/agent/model, the checks, the results and the report
--   that the parts exchange.
-- - Capture: internal/cluster/cache.go. The patterns (Capture/Patterns) and the lines of a cache dump
--   (Capture/Lines, ParseNodeCache, ParseJobCache, ParseTaskCache, parseDumpResources), the scan of the
--   log (Capture/Scan, scanCacheDump) and captureCacheDumpFromStream (Capture/Stream): a step relation
--   with a constructor for each case of its selects, beside the steps of the scanning goroutine and of
--   the context. Capture/Dump describes what the scheduler prints.
-- - Config: internal/cluster/scheduler_config.go. The path in the scheduler's command
--   (Config/Command, schedulerConfigurationPath), the ConfigMap key that is mounted there (Config,
--   schedulerConfigMapForPath),
--   the policy in its content (Config/Parse, parseSchedulerConfiguration), and how these are put
--   together (Config/Read, GetVolcanoSchedulerConfigurationFor).
-- - Cluster: the records of internal/cluster that the rules read. Kube: the fields of the Kubernetes
--   objects that the program reads.
-- - Base: what the parts share: integers, maps, texts, sorting, strconv.ParseInt and the paths
--   of path/filepath.
-- A file Laws, or one named for what it shows, holds the theorems on its parent; Tests hold sample
-- data, and the theorems applied to it.
--
-- Correspondence. A Go function f is the definition of the same name in snake case; a loop is a
-- structural recursion over the list it ranges over, with its variables as arguments or as a record
-- (InitState, Selection, Counts, Lists, Outcome, Split, Appended, Tally, Merged, Failures), so no fuel
-- is needed; only the digits of a number (Base/Chars, decimal) are counted by fuel, which its value
-- bounds. A map is an association list whose order is the order in which `range` visits it, which Go
-- leaves open; a set is a map into the one value. A pointer is an Option. An error is its text with the answers to
-- apierrors.IsNotFound and to errors.Is at ErrVolcanoSchedulerNotReady. The zero value that a Go
-- function gives beside an error is written out where it is read.
--
-- Numbers. An amount of a resource, a float64 in the program, is an exact integer of thousandths, so
-- rounding is not modelled; what a cache dump prints of a resource is cut to thousandths. A Quantity is the answers of its methods MilliValue, Value and IsZero.
-- The int32 counters of the gang wrap (Base.Int.wrap32), and ParseInt refuses what does not fit in
-- 64 bits. A time is the count of nanoseconds since the zero time.
--
-- Texts. What the program formats by fmt is kept as its pieces in order (Model.Message) and not
-- rendered. Case folding and trimming treat the ASCII range. Lines that the program sorts by
-- sort.Strings are sorted by the resource name they begin with. A text that serves as a key or as an
-- id of a check is built in full (Presentation/Hooks, Plugins). A path of a
-- source file is clean, as git gives it. The diagnosis searches the texts among the pieces of a reason.
--
-- Parameters. What the calls of the cluster client return is a record of answers (Analysis.Answers),
-- the same for a repeated call. The evidence for the presentation (PresentationEvidence), the clock
-- (`now`) and the defaults read from the selected branch are arguments too. So are
-- Toleration.ToleratesTaint of k8s.io/api, strconv.ParseFloat (`parse_float`), which gives hundredths,
-- since Volcano prints two places, or its error, the YAML decoder of the configuration (`unmarshal`)
-- and the informers' listers of Pods and of ConfigMaps (`pods`, `config_maps`). The log is the list
-- of the lines that bufio.Scanner gives and its error at the end. Sending the signal is a step that
-- succeeds or fails.
--
-- Not modelled: the informers and API calls of internal/cluster, the way in which the cache capture
-- opens the log and sends its signal, the analysis of Volcano's source in internal/source, the
-- language model and its skills, the server and the web interface, which are input and output or
-- work on objects of libraries that the repository does not contain.
pub mod Base
pub mod Kube
pub mod Cluster
pub mod Model
pub mod Filter
pub mod Enqueue
pub mod Validate
pub mod Snapshot
pub mod Report
pub mod Analysis
pub mod Presentation
pub mod Plugins
pub mod Capture
pub mod Config
