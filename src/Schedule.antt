-- ===== src/Schedule.antt =====
-- bugalizer/db.py: which reports the queue worker may dispatch to which stage, and the retry gate.
pub mod Budget
pub mod Paid
pub mod Stages
pub mod Unlisted
pub mod Reset
use bugalizer.Prelude.{
  ℕ, suc, ◌*◌, ◌-◌, Bool, true, false, not, ◌&&◌, ◌||◌, List, [], ◌∷◌, Option, none, some, String,
  ◌==◌, string_eq, ltb, leb, nat_beq, if◌then◌else◌, row_count, select_where, first_where,
  delete_where, any, get, order_asc, order_desc,
}
use bugalizer.Workflow.{submitted, triaged, status_eq}
use bugalizer.Store.{
  AnalysisMode, auto, hold, mode_eq, Phase, triage, localization, fix, phase_eq, RunStatus,
  completed, failed, run_eq, Project, Report, Result, Analysis, Proposal, Db, is_text, is_deleted,
  project_key,
}

-- The retry settings of config.py.
pub record Settings : Type 0 where
  pub max_triage_retries : ℕ
  pub max_localize_retries : ℕ
  pub max_fix_retries : ℕ
  pub retry_delay_seconds : ℕ

abbrev pub created : Analysis → ℕ
created a = a.created_at

-- `analyses_for_report`, newest first
unfoldable pub analyses_for_report : String → Phase → List Analysis → List Analysis
analyses_for_report id phase rows =
    order_desc created (select_where (λ a. a.bug_report_id == id && a.phase == phase) rows)

abbrev pub is_completed : Analysis → Bool
is_completed a = a.status == completed

abbrev pub is_failed : Analysis → Bool
is_failed a = a.status == failed

-- Clamped at 0, as the subtraction of ℕ is. Instants are microseconds.
abbrev pub within_delay : ℕ → ℕ → ℕ → Bool
within_delay retry_delay now completed_at = ltb (now - completed_at) (retry_delay * 1000000)

-- The most recent row is inside the retry delay.
abbrev pub latest_within : ℕ → ℕ → Option ℕ → Bool
latest_within retry_delay now none = false
latest_within retry_delay now (some c) = within_delay retry_delay now c

-- `triage_eligible_reports`: the part of the loop that looks at a report's triage rows
unfoldable pub triage_rows_eligible : Settings → ℕ → List Analysis → Bool
triage_rows_eligible cfg now [] = true
triage_rows_eligible cfg now (latest ∷ rows) =
    if any is_completed (latest ∷ rows)
    then false
    else if leb cfg.max_triage_retries (row_count is_failed (latest ∷ rows))
    then false
    else if is_failed latest && latest_within cfg.retry_delay_seconds now latest.completed_at
    then false
    else true

-- The WHERE clauses that the three stages share.
abbrev pub waiting : Report → Bool
waiting r = r.status == triaged && not (r.analysis_mode == hold) && not (is_deleted r)

unfoldable pub triage_eligible : Settings → ℕ → Db → Report → Bool
triage_eligible cfg now db r =
    waiting r && triage_rows_eligible cfg now (analyses_for_report r.id triage db.analyses)

abbrev pub report_created : Report → ℕ
report_created r = r.created_at

unfoldable pub triage_eligible_reports : Settings → ℕ → Db → List Report
triage_eligible_reports cfg now db =
    order_asc report_created (select_where (triage_eligible cfg now db) db.reports)

unfoldable pub submitted_reports : Db → List Report
submitted_reports db =
    order_asc report_created
      (select_where (λ r. r.status == submitted && not (is_deleted r)) db.reports)

unfoldable pub latest_completed_created_at : List Analysis → Option ℕ
latest_completed_created_at [] = none
latest_completed_created_at (r ∷ rs) =
    if is_completed r then some r.created_at else latest_completed_created_at rs

abbrev pub newer : Option ℕ → Analysis → Bool
newer none r = true
newer (some reference) r = ltb reference r.created_at

unfoldable pub failed_attempts_after : List Analysis → Option ℕ → List Analysis
failed_attempts_after rows reference = select_where (λ r. is_failed r && newer reference r) rows

abbrev pub marked_permanent : Option Result → Bool
marked_permanent none = false
marked_permanent (some result) = result.permanent

abbrev pub is_permanent : Analysis → Bool
is_permanent r = marked_permanent r.result

abbrev pub all_rows : Analysis → Bool
all_rows _ = true

unfoldable pub retry_blocked : List Analysis → ℕ → ℕ → ℕ → Bool
retry_blocked [] max_retries retry_delay now = false
retry_blocked (latest ∷ rows) max_retries retry_delay now =
    if any is_permanent (latest ∷ rows)
    then true
    else if leb max_retries (row_count all_rows (latest ∷ rows))
    then true
    else latest_within retry_delay now latest.completed_at

-- `result.get("repo_sha")` of a row whose result may be null
abbrev pub result_sha : Option Result → Option String
result_sha none = none
result_sha (some result) = result.repo_sha

-- A text column as a truth value: null and the empty text are false.
abbrev pub truthy : Option String → Bool
truthy none = false
truthy (some t) = not (t == "")

abbrev pub head_of : Option Project → Option String
head_of none = none
head_of (some p) = p.head_sha

-- The project row that a report joins.
unfoldable pub project_of : Db → Report → Option Project
project_of db r = get project_key r.project_id db.projects

-- `latest_completed_localization`
unfoldable pub latest_localization : Db → Report → Option Analysis
latest_localization db r =
    first_where is_completed (analyses_for_report r.id localization db.analyses)

-- The report has never been localized, or was localized at another commit than the project's.
abbrev pub needs_localization : Option String → Option Analysis → Bool
needs_localization head none = true
needs_localization head (some loc) = truthy head && not (is_text (result_sha loc.result) head)

abbrev pub has_repo : Option Project → Bool
has_repo none = false
has_repo (some p) = not (is_text p.repo_path none)

unfoldable pub localization_blocked : Settings → ℕ → Db → Report → Bool
localization_blocked cfg now db r =
    let rows = analyses_for_report r.id localization db.analyses in
    retry_blocked (failed_attempts_after rows (latest_completed_created_at rows))
      cfg.max_localize_retries cfg.retry_delay_seconds now

unfoldable pub localization_eligible : Settings → ℕ → Db → Report → Bool
localization_eligible cfg now db r =
    waiting r
    && has_repo (project_of db r)
    && any is_completed (analyses_for_report r.id triage db.analyses)
    && not (localization_blocked cfg now db r)
    && needs_localization (head_of (project_of db r)) (latest_localization db r)

unfoldable pub localization_eligible_reports : Settings → ℕ → Db → List Report
localization_eligible_reports cfg now db =
    order_asc report_created (select_where (localization_eligible cfg now db) db.reports)

-- A fix proposal was made from this localization.
unfoldable pub has_proposal_for : Db → Report → Analysis → Bool
has_proposal_for db r loc =
    any (λ p. p.bug_report_id == r.id && is_text p.analysis_id (some loc.id)) db.proposals

unfoldable pub fix_blocked : Settings → ℕ → Db → Report → Analysis → Bool
fix_blocked cfg now db r loc =
    retry_blocked
      (failed_attempts_after (analyses_for_report r.id fix db.analyses) (some loc.created_at))
      cfg.max_fix_retries cfg.retry_delay_seconds now

-- The loop body of `reports_eligible_for_fix` on the latest completed localization.
unfoldable pub fix_ready : Settings → ℕ → Db → Report → Option String → Option Analysis → Bool
fix_ready cfg now db r head none = false
fix_ready cfg now db r head (some loc) =
    truthy head
    && is_text (result_sha loc.result) head
    && not (has_proposal_for db r loc)
    && not (fix_blocked cfg now db r loc)

-- The JOIN drops a report whose project is not there.
abbrev pub joined : Option Project → Bool
joined none = false
joined (some p) = true

unfoldable pub fix_eligible : Settings → ℕ → Db → Report → Bool
fix_eligible cfg now db r =
    r.status == triaged
    && r.analysis_mode == auto
    && not (is_deleted r)
    && joined (project_of db r)
    && fix_ready cfg now db r (head_of (project_of db r)) (latest_localization db r)

unfoldable pub reports_eligible_for_fix : Settings → ℕ → Db → List Report
reports_eligible_for_fix cfg now db =
    order_asc report_created (select_where (fix_eligible cfg now db) db.reports)

-- `reset_stage_retries`: the rows that the DELETE matches, and the table without them
abbrev pub retryable_failure : String → Analysis → Bool
retryable_failure id a =
    a.bug_report_id == id
    && a.status == failed
    && (a.phase == triage || a.phase == localization || a.phase == fix)

unfoldable pub reset_stage_retries : String → List Analysis → List Analysis × Bool
reset_stage_retries id rows =
    (delete_where (retryable_failure id) rows, ltb 0 (row_count (retryable_failure id) rows))

-- `report_failure_info`
pub record FailureInfo : Type 0 where
  pub failed_stage : Phase
  pub last_error : Option String
  pub permanent : Bool

-- The failures of a phase that are newer than its last success.
unfoldable pub open_failures : String → Phase → List Analysis → List Analysis
open_failures id phase rows =
    let own = analyses_for_report id phase rows in
    failed_attempts_after own (latest_completed_created_at own)

-- One turn of the loop over the phases: the newer of two failures, the first if they are equal.
abbrev pub newest_of : Option (Phase × Analysis) → Phase → List Analysis → Option (Phase × Analysis)
newest_of latest phase [] = latest
newest_of none phase (candidate ∷ rows) = some (phase, candidate)
newest_of (some (p, a)) phase (candidate ∷ rows) =
    if ltb a.created_at candidate.created_at then some (phase, candidate) else some (p, a)

abbrev pub error_of : Option Result → Option String
error_of none = none
error_of (some result) = result.error

abbrev pub failure_info : Option (Phase × Analysis) → Option FailureInfo
failure_info none = none
failure_info (some (p, a)) = some (record {
  failed_stage = p;
  last_error = error_of a.result;
  permanent = marked_permanent a.result;
})

unfoldable pub report_failure_info : String → List Analysis → Option FailureInfo
report_failure_info id rows = failure_info (
    newest_of
      (newest_of (newest_of none triage (open_failures id triage rows)) localization
        (open_failures id localization rows))
      fix (open_failures id fix rows))
