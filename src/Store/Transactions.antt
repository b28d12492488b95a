-- ===== src/Store/Transactions.antt =====
-- bugalizer/db.py: the transactions that change several tables at once (`record_pull_request`,
-- `pr_settle`), and the reads of recorded pull requests. A raise in a transaction rolls it back.
pub mod Recorded
pub mod Settled
use bugalizer.Prelude.{
  ℕ, Bool, true, false, ◌&&◌, not, List, [], ◌∷◌, ◌++◌, Option, none, some, String, ◌==◌, string_eq,
  nat_beq, ltb, if◌then◌else◌, cas, get, row_count, update_where, select_where, first_where,
  order_asc,
}
use bugalizer.Workflow.{fix_committed, closed, triaged, status_eq}
use bugalizer.Store.{
  Report, Proposal, ProposalStatus, pr_opened, PrState, open_pr, merged, closed_pr, Db, is_text,
}
use bugalizer.Store.Reports.{report_key, report_get, or_keep, moved, record_pr_report}

abbrev pub proposal_key : Proposal → String
proposal_key p = p.id

-- What the caller gives to `record_pull_request` beside the keys.
pub record PullRequest : Type 0 where
  pub url : String
  pub number : ℕ
  pub sha : Option String
  pub branch : String

abbrev pub opened : ℕ → PullRequest → Proposal → Proposal
opened now pr p = record p {
  pr_url = some pr.url;
  pr_number = some pr.number;
  pushed_sha = or_keep pr.sha p.pushed_sha;
  branch_name = some pr.branch;
  pr_opened_at = some now;
  status = pr_opened;
  updated_at = now;
}

-- `_record_pr_proposal`; false: "proposal does not belong to the report"
unfoldable pub record_pr_proposal :
    ℕ → String → String → PullRequest → List Proposal → List Proposal × Bool
record_pr_proposal now report proposal pr =
    cas proposal_key proposal (λ p. p.bug_report_id == report) (opened now pr)

pub data Recording : Type 0 where
  recorded : Recording
  foreign_proposal : Recording  -- ValueError
  claim_lost : Recording  -- ClaimLostError

-- The rest of the transaction after the proposal's update.
abbrev pub commit_pr : Db → List Proposal × Bool → List Report × Bool → Db × Recording
commit_pr db (ps, false) reports = (db, foreign_proposal)
commit_pr db (ps, true) (rs, false) = (db, claim_lost)
commit_pr db (ps, true) (rs, true) = (record db { proposals = ps; reports = rs }, recorded)

unfoldable pub record_pull_request :
    ℕ → String → String → String → PullRequest → Db → Db × Recording
record_pull_request now report proposal token pr db =
    commit_pr db (record_pr_proposal now report proposal pr db.proposals)
      (record_pr_report now report token db.reports)

-- A time column that a row may lack orders before the others; `pr_opened_at` is set with `pr_url`.
abbrev pub opened_at : Proposal → ℕ
opened_at p = elim p.pr_opened_at [ none ↦ 0 | some t ↦ t ]

abbrev pub head? {ℓ} : {A : Type ℓ} → List A → Option A
head? [] = none
head? (x ∷ xs) = some x

-- `recorded_pull_request`: the report's proposal that has a pull request, the oldest of several.
unfoldable pub recorded_pull_request : String → List Proposal → Option Proposal
recorded_pull_request report ps = head? (
    order_asc opened_at
      (select_where (λ p. p.bug_report_id == report && not (is_text p.pr_url none)) ps))

-- `fix_proposal_record_push_intent`
unfoldable pub record_push_intent : ℕ → String → String → String → List Proposal → List Proposal
record_push_intent now proposal sha branch =
    update_where (λ p. p.id == proposal)
      (λ p. record p { pushed_sha = some sha; branch_name = some branch; updated_at = now })

-- A terminal state of a pull request; any other is a ValueError before anything is read.
pub data Terminal : Type 0 where
  merged_pr unmerged_pr : Terminal

abbrev pub state_of : Terminal → PrState
state_of merged_pr = merged
state_of unmerged_pr = closed_pr

abbrev pub settled_row : ℕ → Terminal → Proposal → Proposal
settled_row now t p = record p {
  pr_state = some (state_of t);
  pr_checked_at = some now;
  pr_settled_at = some now;
  pr_check_error = none;
  updated_at = now;
}

abbrev pub is_committed : Report → Bool
is_committed r = r.status == fix_committed

-- `reason` is the text "pr_merged:<n>".
unfoldable pub settle_report : ℕ → String → String → Terminal → List Report → List Report × Bool
settle_report now report reason merged_pr =
    cas report_key report is_committed (moved now closed (some reason))
settle_report now report reason unmerged_pr =
    cas report_key report is_committed (moved now triaged none)

unfoldable pub pr_settle : ℕ → String → String → String → Terminal → Db → Db × Bool
pr_settle now proposal report reason t db =
    let (rs, moved) = settle_report now report reason t db.reports in
    (
      record db {
        reports = rs;
        proposals =
            update_where (λ p. p.id == proposal && p.bug_report_id == report) (settled_row now t)
              db.proposals;
      },
      moved,
    )

-- `pr_check_record`: one read that settled nothing
unfoldable pub pr_check_open : ℕ → String → List Proposal → List Proposal
pr_check_open now proposal =
    update_where (λ p. p.id == proposal)
      (λ p. record p { pr_state = some open_pr; pr_checked_at = some now; pr_check_error = none })

unfoldable pub pr_check_failed : ℕ → String → String → List Proposal → List Proposal
pr_check_failed now proposal error =
    update_where (λ p. p.id == proposal)
      (λ p. record p { pr_checked_at = some now; pr_check_error = some error })

abbrev pub is_some {ℓ} : {A : Type ℓ} → Option A → Bool
is_some none = false
is_some (some a) = true

abbrev pub checked_before_cutoff : ℕ → Option ℕ → Bool
checked_before_cutoff cutoff none = true
checked_before_cutoff cutoff (some t) = ltb t cutoff

-- The report that a proposal joins.
abbrev pub awaits_merge : String → Option Report → Bool
awaits_merge project none = false
awaits_merge project (some r) = r.project_id == project && r.status == fix_committed

-- Never-read proposals come first, then those read longest ago.
abbrev pub last_check : Proposal → ℕ
last_check p = elim p.pr_checked_at [ none ↦ 0 | some t ↦ t ]

unfoldable pub prs_to_check : String → ℕ → Db → List Proposal
prs_to_check project cutoff db = order_asc last_check (
    select_where
      (λ p.
        awaits_merge project (report_get p.bug_report_id db.reports)
        && is_some p.pr_number
        && not (is_some p.pr_settled_at)
        && checked_before_cutoff cutoff p.pr_checked_at)
      db.proposals)
