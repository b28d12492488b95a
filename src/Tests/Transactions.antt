-- ===== src/Tests/Transactions.antt =====
-- The transactions over several tables, on small databases.
use bugalizer.Prelude.{
  ◌≡◌, refl, inl, inr, true, false, none, some, List, [], ◌∷◌, get, row_count, IsIn, arith, subst,
  ◌<◌,
}
use bugalizer.Workflow.{triaged, fix_approved, fix_committed, fix_proposing, closed}
use bugalizer.Store.{Report, Proposal, proposed, Db, Analysis}
use bugalizer.Store.Reports.{report_get, record_pr_report}
use bugalizer.Store.Transactions.{
  PullRequest, record_pull_request, recorded, merged_pr, unmerged_pr, pr_settle, opened,
  record_pr_proposal,
}
use bugalizer.Store.Transactions.Settled.{outcome, settle_moves_once}
use bugalizer.Ledger.{Action, new_action, dispatched, reopen as reopen_kind}
use bugalizer.Ledger.Reopen.{reopen_for_action, reopen_once}
use bugalizer.Startup.{release_orphaned_claims, is_running}
use bugalizer.Startup.Released.{is_orphaned, nothing_orphaned}
use bugalizer.Startup.Interrupted.{interrupted_fix_waits}
use bugalizer.Schedule.{fix_eligible}
use bugalizer.Tests.Data.{report, db}
use bugalizer.Tests.Schedule.{cfg}

abbrev fix_row : Proposal
fix_row = record {
  id = "q";
  bug_report_id = "b";
  analysis_id = none;
  branch_name = none;
  status = proposed;
  pr_url = none;
  pr_number = none;
  pushed_sha = none;
  pr_opened_at = none;
  trigger_ref = none;
  pr_state = none;
  pr_checked_at = none;
  pr_settled_at = none;
  pr_check_error = none;
  created_at = 6;
  updated_at = 6;
}

abbrev with_fix : Db
with_fix = record db { proposals = fix_row ∷ [] }

abbrev pr : PullRequest
pr = record { url = "u"; number = 7; sha = none; branch = "br" }

-- The last alternative is how it went.
recorded_run : (record_pull_request 9 "b" "q" "t1" pr with_fix).1 ≡ recorded
unfolding record_pull_request record_pr_proposal record_pr_report row_count
recorded_run = refl

abbrev pub open_row : Proposal
open_row = opened 9 pr fix_row

abbrev committed_db : Db
committed_db = record db { reports = report "b" fix_committed none ∷ []; proposals = open_row ∷ [] }

settle_moves_once_example :
    ((pr_settle 10 "q" "b" "pr_merged:7" merged_pr committed_db).1 ≡ true)
    × (report_get "b" (pr_settle 10 "q" "b" "pr_merged:7" merged_pr committed_db).0.reports
        ≡ some (outcome 10 "pr_merged:7" merged_pr (report "b" fix_committed none)))
    × ((pr_settle 11 "q" "b" "pr_merged:7" unmerged_pr
          (pr_settle 10 "q" "b" "pr_merged:7" merged_pr committed_db).0).1
        ≡ false)
    × ((pr_settle 11 "q" "b" "pr_merged:7" unmerged_pr
          (pr_settle 10 "q" "b" "pr_merged:7" merged_pr committed_db).0).0.reports
        ≡ (pr_settle 10 "q" "b" "pr_merged:7" merged_pr committed_db).0.reports)
unfolding get
settle_moves_once_example =
    settle_moves_once 10 11 "q" "q" "b" "pr_merged:7" "pr_merged:7" merged_pr unmerged_pr
      committed_db (report "b" fix_committed none) (tt, tt) refl refl

abbrev settled_other : Db
settled_other = record committed_db {
  reports = report "b" fix_committed none ∷ report "c" fix_committed none ∷ [];
}

abbrev request : Action
request = record (new_action "x" "p" "a" reopen_kind none none) { phase = dispatched }

abbrev closed_reports : List Report
closed_reports = report "a" closed none ∷ []

reopen_once_example :
    (reopen_for_action 10 "a" "x" "ok" closed_reports
      (reopen_for_action 9 "a" "x" "ok" closed_reports (request ∷ [])).0.1).0
    ≡ (closed_reports, (reopen_for_action 9 "a" "x" "ok" closed_reports (request ∷ [])).0.1)
unfolding reopen_for_action row_count
reopen_once_example =
    reopen_once 9 10 "a" "a" "x" "ok" "ok" closed_reports closed_reports (request ∷ []) (tt, tt)
      refl

abbrev stopped : Db
stopped = record db { reports = report "a" fix_proposing none ∷ report "b" fix_approved none ∷ [] }

nothing_orphaned_example :
    ((r : Report)
      → IsIn r (release_orphaned_claims 50 (λ i. i) stopped).0.reports
      → is_orphaned r ≡ false)
    × ((a : Analysis)
        → IsIn a (release_orphaned_claims 50 (λ i. i) stopped).0.analyses
        → is_running a ≡ false)
nothing_orphaned_example = nothing_orphaned 50 (λ i. i) stopped

before_restart : (a : Analysis) → IsIn a stopped.analyses → a.created_at < 50
before_restart a (inl e) = subst (λ a. a.created_at < 50) e (omega arith)
before_restart a (inr (inl e)) = subst (λ a. a.created_at < 50) e (omega arith)
before_restart a (inr (inr m)) = absurd m

interrupted_fix_waits_example :
    fix_eligible cfg 90000000
      (release_orphaned_claims 50 (λ i. i) stopped).0
      (report "a" triaged none)
    ≡ false
interrupted_fix_waits_example =
    interrupted_fix_waits cfg 50 90000000 (λ i. i) stopped (report "a" fix_proposing none)
      (report "a" triaged none) before_restart (inl refl) refl refl
