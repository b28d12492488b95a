-- ===== src/Startup.antt =====
-- bugalizer/db.py: `release_orphaned_claims`, the transaction that runs once when the process
-- starts. `new_id` gives the identifier that `_new_id()` draws for the row of a report.
pub mod Released
pub mod Interrupted
use bugalizer.Prelude.{
  ℕ, Bool, true, false, List, [], ◌∷◌, ◌++◌, Option, none, some, String, ◌==◌, update_where,
  row_count, select_where, map, nat_beq, if◌then◌else◌,
}
use bugalizer.Workflow.{
  BugStatus, validating, submitted, analyzing, fix_proposing, triaged, status_eq,
}
use bugalizer.Store.{Report, Result, Analysis, fix, running, failed, run_eq, Db}

-- ORPHANED_CLAIM_ROLLBACK
abbrev pub orphaned_claim_rollback : List (BugStatus × BugStatus)
orphaned_claim_rollback =
    (validating, submitted) ∷ (analyzing, triaged) ∷ (fix_proposing, triaged) ∷ []

-- INTERRUPTED_ERROR
abbrev pub interrupted_error : String
interrupted_error = "interrupted: the process stopped mid-stage"

abbrev pub interrupted_result : Bool → Result
interrupted_result permanent = record {
  repo_sha = none;
  error = some interrupted_error;
  permanent = permanent;
  interrupted = true;
}

abbrev pub is_running : Analysis → Bool
is_running a = a.status == running

abbrev pub interrupt : ℕ → Analysis → Analysis
interrupt now a = record a {
  status = failed;
  result = some (interrupted_result false);
  completed_at = some now;
}

abbrev pub is_fixing : Report → Bool
is_fixing r = r.status == fix_proposing

abbrev pub failed_fix : ℕ → (String → String) → Report → Analysis
failed_fix now new_id r = record {
  id = new_id r.id;
  bug_report_id = r.id;
  phase = fix;
  status = failed;
  result = some (interrupted_result true);
  completed_at = some now;
  trigger_ref = none;
  created_at = now;
}

abbrev pub rolled_back : ℕ → BugStatus → Report → Report
rolled_back now rollback r = record r { status = rollback; updated_at = now }

-- The loop over the claims: one UPDATE each, and its row count where that is not 0.
unfoldable pub release_all :
    ℕ → List (BugStatus × BugStatus) → List Report → List Report × List (BugStatus × ℕ)
release_all now [] rs = (rs, [])
release_all now ((claimed, rollback) ∷ claims) rs =
    let n = row_count (λ r. r.status == claimed) rs in
    let (rs', released) =
      release_all now claims
        (update_where (λ r. r.status == claimed) (rolled_back now rollback) rs) in
    (rs', if nat_beq n 0 then released else (claimed, n) ∷ released)

unfoldable pub release_orphaned_claims : ℕ → (String → String) → Db → Db × List (BugStatus × ℕ)
release_orphaned_claims now new_id db =
    let (rs, released) = release_all now orphaned_claim_rollback db.reports in
    (
      record db {
        reports = rs;
        analyses =
            update_where is_running (interrupt now) db.analyses
            ++ map (failed_fix now new_id) (select_where is_fixing db.reports);
      },
      released,
    )
