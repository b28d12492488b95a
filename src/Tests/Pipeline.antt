-- ===== src/Tests/Pipeline.antt =====
-- A run of the fix stage whose model call fails, and local stages on the same rows.
use bugalizer.Prelude.{
  ◌≡◌, ◌*◌, inl, update_where, row_count, select_where, order_desc, ◌≤◌, refl, true, false, none,
  some, [], ◌∷◌, get, List, String,
}
use bugalizer.Workflow.{triaged, submitted, validating}
use bugalizer.Store.{Text, Db}
use bugalizer.Store.Reports.{claimed, try_claim_report, report_update_status}
use bugalizer.Schedule.{analyses_for_report}
use bugalizer.Sync.Outcomes.{failed_run, triage_only}
use bugalizer.Pipeline.{World, contents, saved, error, cap_bundle, propose_fix}
use bugalizer.Sync.Results.{utf8_length}
use bugalizer.Ingest.Texts.{length, take}
use bugalizer.Pipeline.Bundle.{total, total_bytes, bundle_within}
use bugalizer.Pipeline.Settled.{HasStatus, status_after, fix_run_settles}
use bugalizer.Pipeline.Local.{
  LocalWorld, gave, raised, claim, process_submitted, process_triaged, process_localization,
  set_head, set_verdict, analysis_update, run_local_analysis,
}
use bugalizer.Pipeline.Local.Freed.{IsHeld, status_of, validation_settles}
use bugalizer.Pipeline.Local.Manual.{IsDone, analysis_frees}
use bugalizer.Tests.Data.{report, db}

abbrev world : World
world = record {
  now = 20;
  new_id = "n9";
  new_proposal_id = "f9";
  trigger_ref = some "x";
  max_bundle = 3;
  candidates = λ a. "a.py" ∷ [];
  read_files = λ paths. contents (("a.py", 1 ∷ 2 ∷ []) ∷ []);
  complete = λ files. error false "timeout";
  save = saved;
  meanwhile = λ m db. db;
  repr = λ t. "None";
  safe_error_text = λ t. t;
}

abbrev files : List (String × Text)
files = ("a.py", 1 ∷ 2 ∷ []) ∷ ("b.py", 8364 ∷ 4 ∷ []) ∷ []

-- Three characters, of which the last takes three bytes: more bytes than the cap.
over_in_bytes : total_bytes (cap_bundle 3 files) ≡ 5
unfolding total_bytes cap_bundle utf8_length length take
over_in_bytes = refl

bundle_within_example :
    (total (cap_bundle 3 files) ≤ 3) × (total_bytes (cap_bundle 3 files) ≤ 4 * 3)
bundle_within_example = bundle_within 3 files

fix_run_settles_example :
    HasStatus "a" (status_after (propose_fix world "a" db).1) (propose_fix world "a" db).0
unfolding get
fix_run_settles_example =
    fix_run_settles world "a" db (report "a" triaged none) (λ m db h. h) ((refl, tt), (tt, tt)) refl
      refl

abbrev desk : LocalWorld
desk = record {
  now = 20;
  new_id = λ phase. "n9";
  trigger_ref = some "x";
  validate = λ r db. gave (some "b");
  triage = λ r.
      gave (record { severity = some "high"; feature_area = none; needs_clarification = true });
  head_sha = λ p. gave "c2";
  repo_map = λ p. gave tt;
  localize = λ r sha. raised "no reply";
  meanwhile = λ m db. db;
}

-- The localization is stale, so the analysis runs and fails.
analysis_frees_example : IsDone desk "a" (run_local_analysis desk "a" db)
unfolding get
analysis_frees_example =
    analysis_frees desk "a" db (report "a" triaged none) (λ s m db h. h) ((refl, tt), (tt, tt)) refl
      (inl refl)

failed_run_test : (run_local_analysis desk "a" db).1 ≡ failed_run
unfolding run_local_analysis process_localization get try_claim_report update_where row_count
    select_where set_head order_desc analyses_for_report
failed_run_test = refl

-- No triage yet: it runs, and asks for a clarification.
abbrev not_triaged : Db
not_triaged = record db { analyses = [] }

triage_only_test : (run_local_analysis desk "a" not_triaged).1 ≡ triage_only
unfolding run_local_analysis process_triaged process_localization get try_claim_report update_where
    row_count order_desc select_where analyses_for_report report_update_status set_verdict
    analysis_update
triage_only_test = refl

abbrev arrived : Db
arrived = record db { reports = report "a" submitted none ∷ [] }

validation_settles_example :
    IsHeld "a"
      (status_of (
        desk.validate
          (claimed 20 validating none (report "a" submitted none))
          (claim desk "a" submitted validating arrived).0))
      (process_submitted desk "a" arrived)
unfolding get
validation_settles_example =
    validation_settles desk "a" arrived (report "a" submitted none) (λ m db h. h) (tt, tt) refl refl
