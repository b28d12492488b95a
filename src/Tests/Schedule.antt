-- ===== src/Tests/Schedule.antt =====
-- The worker's lists on a small database.
use bugalizer.Prelude.{
  IsKeyed, ◌-◌, ◌≤◌, ◌≡◌, refl, false, none, some, List, [], ◌∷◌, ◌++◌, row_count, get, map,
  select_where, order_asc, order_desc, insert_asc, insert_desc, first_where, IsIn, String,
}
use Prim.Native.Nat.{max}
use bugalizer.Workflow.{triaged}
use bugalizer.Store.{
  Report, Analysis, Db, Phase, validation, triage, localization, fix, completed, failed,
}
use bugalizer.Store.Reports.{report_delete}
use bugalizer.Schedule.{
  Settings, analyses_for_report, retry_blocked, localization_blocked, fix_blocked, fix_eligible,
  fix_ready, has_proposal_for, failed_attempts_after, latest_localization, project_of,
  reports_eligible_for_fix, submitted_reports, triage_eligible_reports,
  localization_eligible_reports, reset_stage_retries, report_failure_info,
}
use bugalizer.Schedule.Budget.{counted}
use bugalizer.Schedule.Paid.{Attempts, start, attempt, paid_calls_bounded}
use bugalizer.Schedule.Unlisted.{with_reports, after_delete, deleted_unlisted}
use bugalizer.Schedule.Reset.{reset_opens}
use bugalizer.Worker.{Seen, job_report, dispatched}
use bugalizer.Worker.Once.{turn_dispatches_once}
use bugalizer.Tests.Data.{report, analysis, at_sha, located, db}

abbrev pub cfg : Settings
cfg = record {
  max_triage_retries = 3;
  max_localize_retries = 3;
  max_fix_retries = 2;
  retry_delay_seconds = 60;
}

ids : List Report → List String
ids = map (λ r. r.id)

fix_list : ids (reports_eligible_for_fix cfg 10 db) ≡ "a" ∷ []
unfolding ids reports_eligible_for_fix fix_eligible fix_ready has_proposal_for fix_blocked
    retry_blocked failed_attempts_after analyses_for_report latest_localization project_of
    select_where order_asc order_desc insert_asc insert_desc first_where get
fix_list = refl

abbrev tried : Analysis
tried = analysis "f" "a" fix failed none 20

abbrev relocated : Analysis
relocated = analysis "m" "a" localization completed (some (at_sha "c2")) 30

abbrev two_tries : Db
two_tries = record db { analyses = db.analyses ++ tried ∷ [] }

one_attempt : Attempts cfg (report "a" triaged none) located db 1 two_tries
unfolding fix_eligible fix_ready has_proposal_for fix_blocked retry_blocked failed_attempts_after
    analyses_for_report latest_localization project_of select_where order_desc insert_desc
    first_where get
one_attempt = attempt 10 tried start refl refl refl

paid_calls_bounded_example :
    1 ≤ max 2 1 - row_count (counted (report "a" triaged none) located) db.analyses
paid_calls_bounded_example =
    paid_calls_bounded cfg (report "a" triaged none) located db 1 two_tries one_attempt

deleted_unlisted_example :
    ¬ IsIn (report "a" triaged none) (
      submitted_reports
        (with_reports db (after_delete 7 8 none none triaged (report "a" triaged none) db)))
    × ¬ IsIn (report "a" triaged none) (
        triage_eligible_reports cfg 10
          (with_reports db (after_delete 7 8 none none triaged (report "a" triaged none) db)))
    × ¬ IsIn (report "a" triaged none) (
        localization_eligible_reports cfg 10
          (with_reports db (after_delete 7 8 none none triaged (report "a" triaged none) db)))
    × ¬ IsIn (report "a" triaged none) (
        reports_eligible_for_fix cfg 10
          (with_reports db (after_delete 7 8 none none triaged (report "a" triaged none) db)))
unfolding report_delete row_count
deleted_unlisted_example =
    deleted_unlisted cfg 7 8 10 db none none triaged (report "a" triaged none)
      ((refl, tt), (tt, tt)) refl

reset_opens_example :
    (localization_blocked cfg 30
        (record two_tries { analyses = (reset_stage_retries "a" two_tries.analyses).0 })
        (report "a" triaged none)
      ≡ false)
    × (fix_blocked cfg 30
          (record two_tries { analyses = (reset_stage_retries "a" two_tries.analyses).0 })
          (report "a" triaged none)
          located
        ≡ false)
    × (report_failure_info "a" (reset_stage_retries "a" two_tries.analyses).0 ≡ none)
reset_opens_example = reset_opens cfg 30 two_tries (report "a" triaged none) located

-- The three lists at three times.
abbrev seen : Seen
seen validation = (10, db)
seen triage = (11, db)
seen localization = (12, db)
seen fix = (13, db)

unchanged : (phase : Phase) → (seen phase).1 ≡ db
unchanged validation = refl
unchanged triage = refl
unchanged localization = refl
unchanged fix = refl

turn_dispatches_once_example : IsKeyed job_report (dispatched false cfg seen)
turn_dispatches_once_example = turn_dispatches_once cfg seen db unchanged ((refl, tt), (tt, tt))
