-- ===== src/Report/Failures.antt =====
-- The conclusion of a finalized report.
use volens.Base.{
  ℕ, ◌+◌, true, false, not, ◌&&◌, Bool, List, ◌∷◌, ◌++◌, map, filter, all, count_if, eqb, ◌==◌,
  if◌then◌else◌,
}
use volens.Base.Int.{pos}
use volens.Model.{Message, text, number, plain, Check}
use volens.Model.Checks.{is_failure}
use volens.Report.Finalize.{plugin_failure, is_plugin_failure, join_lines}
use volens.Report.{check_stage, plugin_stage}
use volens.Model.Reports.{Report}

-- The determinate failures of a report: their lines, and how many there are.
abbrev check_line : Check → Message
check_line c = text c.name ∷ text ": " ∷ c.reason

abbrev pub failure_lines : Report → List Message
failure_lines report =
    map check_line (filter is_failure report.checks)
    ++ map plugin_failure (filter is_plugin_failure report.plugin_hooks)

abbrev pub failure_count : Report → ℕ
failure_count report =
    count_if is_failure report.checks + count_if is_plugin_failure report.plugin_hooks

-- What is concluded of a report with `n` failures of these lines, by whether it passes.
abbrev pub concludes : ℕ → List Message → Bool → Message
concludes n lines true =
    plain
      "All inspected action and plugin checks passed; inspect queue ordering, fairness, and scheduler runtime state."
concludes n lines false =
    if eqb n 0
    then plain
        "Common deterministic rules found no failure; one or more configured action or branch-specific plugin checks require source and scheduler-log analysis."
    else text "Found " ∷ number (pos n) ∷ text " deterministic failure(s):\n- " ∷ join_lines lines

abbrev has_stages : Report → Bool
has_stages report =
    all (λ c. not (check_stage c == "")) report.checks
    && all (λ p. not (plugin_stage p == "")) report.plugin_hooks
