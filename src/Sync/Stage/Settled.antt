-- ===== src/Sync/Stage/Settled.antt =====
-- sync/stage.py: where a report stands after its pull request was settled (db.py `pr_settle`).
use bugalizer.Prelude.{String}
use Prim.Native.String.{◌++◌ as ◌then◌}
use bugalizer.Workflow.{status_eq}
use bugalizer.Store.{mode_eq}
use bugalizer.Store.Transactions.{Terminal, merged_pr, unmerged_pr}
use bugalizer.Sync.Stage.{Lane, Detail, in_completed, in_triaged, was_merged, pr_closed}

-- The lane that a terminal state leads to.
abbrev pub lane_after : Terminal → Lane × Detail
lane_after merged_pr = (in_completed, was_merged)
lane_after unmerged_pr = (in_triaged, pr_closed)
