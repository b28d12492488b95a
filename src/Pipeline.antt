-- ===== src/Pipeline.antt =====
-- pipeline/fix_proposer.py: one run of the fix stage, from its claim to its outcome. The files of the clone, the
-- model's reply and what other requests do to the database meanwhile are the arguments of a World.
pub mod Local
pub mod Settled
pub mod Attempts
pub mod Bundle
use bugalizer.Prelude.{
  ℕ, zero, suc, ◌+◌, ◌-◌, Bool, true, false, not, ◌&&◌, ◌||◌, List, [], ◌∷◌, ◌++◌, Option, none,
  some, String, ◌==◌, string_eq, nat_beq, leb, if◌then◌else◌, first_where, get,
}
use bugalizer.Workflow as W
use bugalizer.Workflow.{BugStatus}
use bugalizer.Store.{
  Text, Project, project_key, Report, Analysis, Phase, fix, RunStatus, completed, failed, Result,
  Proposal, proposed, Db, is_text,
}
use bugalizer.Store.Reports.{report_get, report_update_status, try_claim_report}
use bugalizer.Schedule.{latest_localization, truthy, result_sha}
use bugalizer.Ingest.Texts.{length, take, is_empty}
use bugalizer.Sync.Outcomes.{
  FixOutcome, was_proposed, fix_failed, already_proposed, put_off, fix_not_claimed,
  fix_proposals_for_report, text,
}

-- What the model's call came to: a proposal that passed its validation, or an error, which may be permanent.
pub data Reply : Type 0 where
  valid : Reply
  error : Bool → String → Reply

-- What the reading of the files came to: their contents, or an exception, which may be classed as permanent.
pub data Reading : Type 0 where
  contents : List (String × Text) → Reading
  unreadable : Bool → String → Reading

-- What the writes of a proposal came to: all of them, or an exception after some of its two rows. Each write commits
-- by itself.
pub data Saving : Type 0 where
  saved : Saving
  cut : ℕ → Bool → String → Saving

-- The awaits of a run.
pub data Moment : Type 0 where
  at_read at_call : Moment

pub record World : Type 0 where
  pub now : ℕ
  pub new_id : String  -- of the analysis row
  pub new_proposal_id : String
  pub trigger_ref : Option String
  pub max_bundle : ℕ  -- settings.fix_max_bundle_bytes
  pub candidates : Analysis → List String  -- _collect_candidate_files
  pub read_files : List String → Reading  -- read_candidate_files
  pub complete : List (String × Text) → Reply
  pub save : Saving
  pub meanwhile : Moment → Db → Db
  pub repr : Option String → String  -- Python's repr of a text or None
  pub safe_error_text : String → String  -- _safe_error_text, with the secrets of the call

-- The bundle of file contents, cut to the room that is left.
unfoldable pub cap_bundle : ℕ → List (String × Text) → List (String × Text)
cap_bundle room [] = []
cap_bundle room ((path, content) ∷ files) =
    let clipped = if leb (length content) room then content else take room content in
    let rest = cap_bundle (room - length clipped) files in
    if nat_beq room 0 then [] else (path, clipped) ∷ rest

-- The rows that a run writes: `analysis_create` and `fix_proposal_create` of db.py
abbrev pub analysis_row : World → String → RunStatus → Result → Option ℕ → Analysis
analysis_row w report status result completed_at = record {
  id = w.new_id;
  bug_report_id = report;
  phase = fix;
  status = status;
  result = some result;
  completed_at = completed_at;
  trigger_ref = w.trigger_ref;
  created_at = w.now;
}

abbrev pub no_error : Result
no_error = record { repo_sha = none; error = none; permanent = false; interrupted = false }

abbrev pub failure : Bool → String → Result
failure permanent message = record {
  repo_sha = none;
  error = some message;
  permanent = permanent;
  interrupted = false;
}

abbrev pub proposal_row : World → String → String → Proposal
proposal_row w report analysis = record {
  id = w.new_proposal_id;
  bug_report_id = report;
  analysis_id = some analysis;
  branch_name = none;
  status = proposed;
  pr_url = none;
  pr_number = none;
  pushed_sha = none;
  pr_opened_at = none;
  trigger_ref = w.trigger_ref;
  pr_state = none;
  pr_checked_at = none;
  pr_settled_at = none;
  pr_check_error = none;
  created_at = w.now;
  updated_at = w.now;
}

abbrev pub with_reports : List Report → Db → Db
with_reports rs db = record db { reports = rs }

-- The claim goes back, as the two handlers of exceptions end.
unfoldable pub give_back : World → String → Db → Db
give_back w report db =
    with_reports (try_claim_report w.now report W.fix_proposing W.triaged none db.reports).0 db

-- `except FixProposalDefer`
abbrev pub defer : World → String → String → Db → Db × FixOutcome
defer w report why db = (give_back w report db, put_off (some (w.safe_error_text why)))

-- `except Exception`
abbrev pub failed_attempt : World → String → Bool → String → Db → Db
failed_attempt w report permanent message db = record db {
  analyses =
      db.analyses
      ++ analysis_row w report failed (failure permanent (w.safe_error_text message)) (some w.now)
        ∷ [];
}

unfoldable pub fail : World → String → Bool → String → Db → Db × FixOutcome
fail w report permanent message db = (
  give_back w report (failed_attempt w report permanent message db),
  fix_failed (some (w.safe_error_text message)),
)

abbrev pub to_proposed : World → String → Db → Db
to_proposed w report db =
    with_reports (report_update_status w.now report W.fix_proposed none none db.reports).0 db

-- Step 5: the rows of a proposal, and the status.
abbrev pub proposal_rows : World → String → String → Db → Db
proposal_rows w report analysis db = record db {
  analyses = db.analyses ++ analysis_row w report completed no_error none ∷ [];
  proposals = db.proposals ++ proposal_row w report analysis ∷ [];
}

-- The rows that stand when the exception is raised.
abbrev pub rows_written : World → String → String → ℕ → Db → Db
rows_written w report analysis zero db = db
rows_written w report analysis (suc zero) db = record db {
  analyses = db.analyses ++ analysis_row w report completed no_error none ∷ [];
}
rows_written w report analysis (suc (suc n)) db = proposal_rows w report analysis db

abbrev pub persist_on : World → String → String → Saving → Db → Db × FixOutcome
persist_on w report analysis saved db =
    (to_proposed w report (proposal_rows w report analysis db), was_proposed w.new_proposal_id)
persist_on w report analysis (cut n permanent message) db =
    fail w report permanent message (rows_written w report analysis n db)

unfoldable pub persist : World → String → String → Db → Db × FixOutcome
persist w report analysis db = persist_on w report analysis w.save db

abbrev pub on_reply : World → String → Analysis → Reply → Db → Db × FixOutcome
on_reply w report loc valid db = persist w report loc.id db
on_reply w report loc (error permanent message) db = fail w report permanent message db

abbrev pub on_bundle : World → String → Analysis → List (String × Text) → Db → Db × FixOutcome
on_bundle w report loc [] db =
    defer w report "No candidate file contents available after path+size checks" db
on_bundle w report loc (f ∷ fs) db =
    on_reply w report loc (w.complete (f ∷ fs)) (w.meanwhile at_call db)

abbrev pub on_reading : World → String → Analysis → Reading → Db → Db × FixOutcome
on_reading w report loc (unreadable permanent message) db = fail w report permanent message db
on_reading w report loc (contents files) db =
    on_bundle w report loc (cap_bundle w.max_bundle files) db

abbrev pub on_candidates : World → String → Analysis → List String → Db → Db × FixOutcome
on_candidates w report loc [] db = defer w report "Localization produced no candidate files" db
on_candidates w report loc (c ∷ cs) db =
    on_reading w report loc (w.read_files (c ∷ cs)) (w.meanwhile at_read db)

-- The freshness gate: no paid call on stale evidence.
abbrev pub is_stale : Project → Analysis → Bool
is_stale p loc = not (truthy p.head_sha) || not (is_text (result_sha loc.result) p.head_sha)

abbrev pub stale_text : World → Project → Analysis → String
stale_text w p loc = text (
    "Localization is stale (repo_sha="
    ∷ w.repr (result_sha loc.result)
    ∷ " != project head_sha="
    ∷ w.repr p.head_sha
    ∷ "); skipping fix proposal"
    ∷ [])

abbrev pub on_project : World → String → Analysis → Option Project → Db → Db × FixOutcome
on_project w report loc none db =
    defer w report "Report project has no repo_path; cannot read files" db
on_project w report loc (some p) db =
    if not (truthy p.repo_path)
    then defer w report "Report project has no repo_path; cannot read files" db
    else if is_stale p loc
    then defer w report (stale_text w p loc) db
    else on_candidates w report loc (w.candidates loc) db

abbrev pub on_prior : World → Report → Analysis → Option Proposal → Db → Db × FixOutcome
on_prior w r loc (some prior) db = (to_proposed w r.id db, already_proposed prior.id)
on_prior w r loc none db = on_project w r.id loc (get project_key r.project_id db.projects) db

abbrev pub on_localization : World → Report → Option Analysis → Db → Db × FixOutcome
on_localization w r none db = defer w r.id "No completed localization analysis to work from" db
on_localization w r (some loc) db =
    on_prior w r loc
      (first_where (λ p. is_text p.analysis_id (some loc.id))
        (fix_proposals_for_report r.id db.proposals))
      db

abbrev pub on_report : World → Option Report → Db → Db × FixOutcome
on_report w none db = (db, fix_not_claimed)
on_report w (some r) db = on_localization w r (latest_localization db r) db

-- `propose_fix`, once a request key is there where one is required
unfoldable pub propose_fix : World → String → Db → Db × FixOutcome
propose_fix w report db =
    let (rs, won) = try_claim_report w.now report W.triaged W.fix_proposing none db.reports in
    if won
    then on_report w (report_get report rs) (with_reports rs db)
    else (with_reports rs db, fix_not_claimed)

-- `require_request_key`: none for the ValueError
unfoldable pub propose_fix_with :
    Bool → Option String → World → String → Db → Option (Db × FixOutcome)
propose_fix_with require none w report db = if require then none else some (propose_fix w report db)
propose_fix_with require (some key) w report db =
    if require && key == "" then none else some (propose_fix w report db)
