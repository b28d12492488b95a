-- ===== src/Store/Transactions/Recorded.antt =====
-- bugalizer/db.py: what `record_pull_request` leaves, on each of its ways.
use bugalizer.Prelude.{◌≡◌, true, none, some, String, string_eq, get}
use bugalizer.Workflow.{fix_committed, status_eq}
use bugalizer.Store.{Report, Proposal, Db}
use bugalizer.Store.Reports.{report_get, owned_by}
use bugalizer.Store.Transactions.{proposal_key, PullRequest}

-- What a recorded pull request leaves in the two tables.
pub record IsRecorded (before after : Db) (report proposal token : String) (pr : PullRequest)
    : Type 0 where
  pub old : Report
  pub new : Report
  pub row : Proposal
  pub was_there : report_get report before.reports ≡ some old
  pub was_owned : owned_by token old ≡ true
  pub is_there : report_get report after.reports ≡ some new
  pub committed : new.status ≡ fix_committed
  pub released : new.claim_token ≡ none
  pub proposal_there : get proposal_key proposal after.proposals ≡ some row
  pub of_report : row.bug_report_id ≡ report
  pub url : row.pr_url ≡ some pr.url
  pub number : row.pr_number ≡ some pr.number
