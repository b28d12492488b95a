-- ===== src/Worker.antt =====
-- queue/worker.py: what one turn of the worker's loop dispatches, in its order. Each list is read by itself, at its
-- time and of the database as it is then: a request on another thread may write between two lists.
pub mod Once
use bugalizer.Prelude.{ℕ, Bool, List, [], ◌∷◌, ◌++◌, String, if◌then◌else◌}
use bugalizer.Store.{Phase, validation, triage, localization, fix, Report, Db}
use bugalizer.Schedule.{
  Settings, submitted_reports, triage_eligible_reports, localization_eligible_reports,
  reports_eligible_for_fix,
}

-- A stage and the report that it is to run on.
abbrev pub Job : Type 0
Job = Phase × String

abbrev pub job_report : Job → String
job_report (phase, report) = report

unfoldable pub tasks_of : Phase → List Report → List Job
tasks_of phase [] = []
tasks_of phase (r ∷ rs) = (phase, r.id) ∷ tasks_of phase rs

-- When a list is read, and what the database holds then.
abbrev pub Seen : Type 0
Seen = Phase → ℕ × Db

-- `_poll_loop`, the tasks of one turn
unfoldable pub dispatched : Bool → Settings → Seen → List Job
dispatched auto_fix_enabled cfg seen =
    tasks_of validation (submitted_reports (seen validation).1)
    ++ (tasks_of triage (triage_eligible_reports cfg (seen triage).0 (seen triage).1)
        ++ (tasks_of localization
              (localization_eligible_reports cfg (seen localization).0 (seen localization).1)
            ++ (if auto_fix_enabled
                then tasks_of fix (reports_eligible_for_fix cfg (seen fix).0 (seen fix).1)
                else [])))
