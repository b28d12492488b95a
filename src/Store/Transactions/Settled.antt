-- ===== src/Store/Transactions/Settled.antt =====
-- bugalizer/db.py: `pr_settle`, and the list of pull requests to check after it.
use bugalizer.Prelude.{
  ℕ, ◌≡◌, refl, ap, ◌∙◌, ◌≢◌, Bool, true, false, none, some, String, ◌==◌, string_eq, arith,
  IsKeyed, cas, cas-won, get-cas_won, cas_twice, holds, IsIn, IsIn-update_where, IsIn-select_where,
  IsIn-order_asc, eq_iff, select_where, ◌⊎◌, List, KeepsKey, not, ◌&&◌,
}
use bugalizer.Workflow.{fix_committed, closed, triaged, status_eq}
use bugalizer.Store.{Report, Proposal, Db}
use bugalizer.Store.Reports.{report_key, report_get, moved}
use bugalizer.Store.Transactions.{
  Terminal, merged_pr, unmerged_pr, is_committed, settled_row, settle_report, pr_settle,
  prs_to_check, last_check, awaits_merge, is_some, checked_before_cutoff,
}

-- What a terminal state makes of the report.
abbrev pub outcome : ℕ → String → Terminal → Report → Report
outcome now reason merged_pr r = moved now closed (some reason) r
outcome now reason unmerged_pr r = moved now triaged none r

-- Both states of a pull request run one compare-and-set.
settle_as_cas :
    (now : ℕ) (report reason : String) (t : Terminal) (rs : List Report)
    → settle_report now report reason t rs
      ≡ cas report_key report is_committed (outcome now reason t) rs
unfolding settle_report
settle_as_cas now report reason merged_pr rs = refl
settle_as_cas now report reason unmerged_pr rs = refl

left_committed :
    (now : ℕ) (reason : String) (t : Terminal) (r : Report)
    → is_committed (outcome now reason t r) ≡ false
left_committed now reason merged_pr r = refl
left_committed now reason unmerged_pr r = refl

outcome-KeepsKey :
    (now : ℕ) (reason : String) (t : Terminal) → KeepsKey report_key (outcome now reason t)
outcome-KeepsKey now reason merged_pr r = refl
outcome-KeepsKey now reason unmerged_pr r = refl

-- The first settlement of a fix_committed report closes it, with the reason, if the pull request was
-- merged, and sends it back to triaged if not; a second settlement, of any proposal and of this or the other state,
-- that finds the database as the first left it moves nothing. The condition: no two reports have one id.
pub settle_moves_once :
    (now now' : ℕ) (proposal proposal' report reason reason' : String) (t t' : Terminal) (db : Db)
    (r : Report)
    → IsKeyed report_key db.reports
    → report_get report db.reports ≡ some r
    → r.status ≡ fix_committed
    → ((pr_settle now proposal report reason t db).1 ≡ true)
      × (report_get report (pr_settle now proposal report reason t db).0.reports
          ≡ some (outcome now reason t r))
      × ((pr_settle now' proposal' report reason' t'
            (pr_settle now proposal report reason t db).0).1
          ≡ false)
      × ((pr_settle now' proposal' report reason' t'
            (pr_settle now proposal report reason t db).0).0.reports
          ≡ (pr_settle now proposal report reason t db).0.reports)
unfolding pr_settle
settle_moves_once now now' proposal proposal' report reason reason' t t' db r keyed found at =
    let keep = outcome-KeepsKey now reason t in
    let committed : is_committed r ≡ true = rw at in
    let again =
      cas_twice report_key report is_committed is_committed (outcome now reason t)
        (outcome now' reason' t') db.reports r keep keyed found committed
        (left_committed now reason t r) in
    rw (settle_as_cas now report reason t db.reports) (
      rw
        (settle_as_cas now' report reason' t'
          (cas report_key report is_committed (outcome now reason t) db.reports).0)
        (
          cas-won report_key report is_committed (outcome now reason t) db.reports keyed
              ∙ ap (holds is_committed) found
              ∙ committed,
          get-cas_won report_key report is_committed (outcome now reason t) db.reports r keep found
              committed,
          ap (λ x. x.1) again,
          ap (λ x. x.0) again,
        ))

-- A proposal on the list is one of the table that is not settled.
listed-unsettled :
    (project : String) (cutoff : ℕ) (db : Db) (p : Proposal)
    → IsIn p (prs_to_check project cutoff db)
    → IsIn p db.proposals × (is_some p.pr_settled_at ≡ false)
unfolding prs_to_check
listed-unsettled project cutoff db p m =
    let test : Proposal → Bool = λ p.
      awaits_merge project (report_get p.bug_report_id db.reports)
      && is_some p.pr_number
      && not (is_some p.pr_settled_at)
      && checked_before_cutoff cutoff p.pr_checked_at in
    let (m', e) =
      IsIn-select_where test p db.proposals
        (IsIn-order_asc last_check p (select_where test db.proposals) m) in
    (m', ground (arith, e))

-- Once settled, a proposal is on no list of pull requests to check, whatever became of its report.
pub settled-Unchecked :
    (now cutoff : ℕ) (proposal report reason project : String) (t : Terminal) (db : Db)
    (p : Proposal)
    → IsIn p (prs_to_check project cutoff (pr_settle now proposal report reason t db).0)
    → (p.id ≢ proposal) ⊎ (p.bug_report_id ≢ report)
unfolding pr_settle
settled-Unchecked now cutoff proposal report reason project t db p m =
    let (m', unsettled) =
      listed-unsettled project cutoff (pr_settle now proposal report reason t db).0 p m in
    let (s, _, e) =
      IsIn-update_where (λ p. p.id == proposal && p.bug_report_id == report) (settled_row now t) p
        db.proposals m' in
    ground (arith, e, unsettled, eq_iff s.id proposal, eq_iff s.bug_report_id report)
