-- ===== src/Pipeline/Local.antt =====
-- pipeline/orchestrator.py, pipeline/triage.py and pipeline/localizer.py: the stages before the fix, each from its
-- claim to its end. The validation, the clone, the models' replies and what other requests do to the database
-- meanwhile are the arguments of a LocalWorld.
pub mod Freed
pub mod Analysed
pub mod Manual
use bugalizer.Prelude.{
  ℕ, Bool, true, false, not, ◌&&◌, ◌||◌, List, [], ◌∷◌, ◌++◌, Option, none, some, String, ◌==◌,
  string_eq, if◌then◌else◌, any, get, update_where,
}
use bugalizer.Workflow as W
use bugalizer.Workflow.{BugStatus, status_eq}
use bugalizer.Store.{
  Project, project_key, Report, Analysis, Phase, validation, triage, localization, RunStatus,
  running, completed, failed, Result, Db, is_text,
}
use bugalizer.Store.Reports.{report_get, report_update_status, try_claim_report}
use bugalizer.Schedule.{analyses_for_report, is_completed, truthy, result_sha}
use bugalizer.Sync.Outcomes.{
  LocalOutcome, completed_run, failed_run, not_claimed, no_repo, already_fresh, triage_only, text,
}
use bugalizer.Pipeline.{with_reports, no_error, failure}

-- The triage model's reply, once it was parsed.
pub record Verdict : Type 0 where
  pub severity : Option String
  pub feature_area : Option String
  pub needs_clarification : Bool

-- A step that gives a value, or raises with a text.
pub data Try (A : Type 0) : Type 0 where
  gave : A → Try A
  raised : String → Try A

-- The awaits of a stage: another request may write the database there.
pub data LocalMoment : Type 0 where
  at_lock at_triage at_head at_map at_localize : LocalMoment

pub record LocalWorld : Type 0 where
  pub now : ℕ
  pub new_id : Phase → String
  pub trigger_ref : Option String
  pub validate : Report → Db → Try (Option String)  -- the report that it repeats
  pub triage : Report → Try Verdict
  pub head_sha : Project → Try String
  pub repo_map : Project → Try Unit  -- the map, and the model that the project names
  pub localize : Report → String → Try Unit
  pub meanwhile : LocalMoment → Db → Db

abbrev pub set_status : LocalWorld → String → BugStatus → Option String → Db → Db
set_status w id s reason db =
    with_reports (report_update_status w.now id s reason none db.reports).0 db

-- The end of a stage, which waits for the lock.
abbrev pub end_triaged : LocalWorld → String → Db → Db
end_triaged w id db = set_status w id W.triaged none (w.meanwhile at_lock db)

abbrev pub claim : LocalWorld → String → BugStatus → BugStatus → Db → Db × Bool
claim w id from to db =
    let (rs, won) = try_claim_report w.now id from to none db.reports in (with_reports rs db, won)

abbrev pub stage_row :
    LocalWorld → String → Phase → RunStatus → Option Result → Option ℕ → Option String → Analysis
stage_row w report phase status result at ref = record {
  id = w.new_id phase;
  bug_report_id = report;
  phase = phase;
  status = status;
  result = result;
  completed_at = at;
  trigger_ref = ref;
  created_at = w.now;
}

abbrev pub add_analysis : Analysis → Db → Db
add_analysis a db = record db { analyses = db.analyses ++ a ∷ [] }

-- `analysis_update`
unfoldable pub analysis_update : String → RunStatus → Result → ℕ → Db → Db
analysis_update id status result now db = record db {
  analyses =
      update_where (λ a. a.id == id)
        (λ a. record a { status = status; result = some result; completed_at = some now })
        db.analyses;
}

-- `process_submitted`
abbrev pub validated : LocalWorld → String → Try (Option String) → Db → Db
validated w id (raised e) db = (claim w id W.validating W.submitted db).0
validated w id (gave (some other)) db =
    set_status w id W.duplicate (some (text ("duplicate_of:" ∷ other ∷ [])))
      (add_analysis (stage_row w id validation completed (some no_error) (some w.now) none) db)
validated w id (gave none) db =
    set_status w id W.triaged none
      (add_analysis (stage_row w id validation completed (some no_error) (some w.now) none) db)

abbrev pub validate_found : LocalWorld → Option Report → Db → Db
validate_found w none db = db
validate_found w (some r) db = validated w r.id (w.validate r db) (w.meanwhile at_lock db)

unfoldable pub process_submitted : LocalWorld → String → Db → Db
process_submitted w id db =
    let (db', won) = claim w id W.submitted W.validating db in
    if won then validate_found w (report_get id db'.reports) db' else db'

-- `triage_report`
abbrev pub or_same : Option String → String → String
or_same none old = old
or_same (some t) old = if t == "" then old else t

abbrev pub or_same_area : Option String → Option String → Option String
or_same_area none old = old
or_same_area (some t) old = if t == "" then old else some t

-- `report_update_fields`, of the two columns that a triage may set
unfoldable pub set_verdict : LocalWorld → String → Verdict → Db → Db
set_verdict w id v db =
    with_reports
      (update_where (λ r. r.id == id)
        (λ r. record r {
          severity = or_same v.severity r.severity;
          feature_area = or_same_area v.feature_area r.feature_area;
          updated_at = w.now;
        })
        db.reports)
      db

abbrev pub triaged_by : LocalWorld → String → Try Verdict → Db → Db
triaged_by w id (raised e) db =
    set_status w id W.triaged none
      (analysis_update (w.new_id triage) failed (failure false e) w.now db)
triaged_by w id (gave v) db =
    set_status w id (if v.needs_clarification then W.clarification_needed else W.triaged) none
      (set_verdict w id v (analysis_update (w.new_id triage) completed no_error w.now db))

abbrev pub triage_found : LocalWorld → Option Report → Db → Db × Bool
triage_found w none db = (db, false)
triage_found w (some r) db =
    let started =
      add_analysis (stage_row w r.id triage running none none w.trigger_ref)
        (w.meanwhile at_lock db) in
    (triaged_by w r.id (w.triage r) (w.meanwhile at_triage started), true)

-- `process_triaged`: whether triage ran
unfoldable pub process_triaged : LocalWorld → String → Db → Db × Bool
process_triaged w id db =
    let (db', won) = claim w id W.triaged W.analyzing db in
    if won then triage_found w (report_get id db'.reports) db' else (db', false)

-- `localize_report`: the row that it opens, and how it closes it
abbrev pub localized : LocalWorld → String → String → Try Unit → Db → Db × LocalOutcome
localized w id sha (gave u) db = (
  end_triaged w id (
      analysis_update (w.new_id localization) completed (record no_error { repo_sha = some sha })
        w.now db),
  completed_run,
)
localized w id sha (raised e) db = (
  end_triaged w id (analysis_update (w.new_id localization) failed (failure false e) w.now db),
  failed_run,
)

abbrev pub started : LocalWorld → Report → Db → Db
started w r db =
    add_analysis (stage_row w r.id localization running none none w.trigger_ref)
      (w.meanwhile at_lock db)

-- The rest of the stage, on the map of the repository.
abbrev pub with_map : LocalWorld → Report → String → Try Unit → Db → Db × LocalOutcome
with_map w r sha (raised e) db = (end_triaged w r.id db, failed_run)
with_map w r sha (gave u) db =
    localized w r.id sha (w.localize r sha) (w.meanwhile at_localize (started w r db))

abbrev pub is_fresh : String → Analysis → Bool
is_fresh sha a = is_completed a && is_text (result_sha a.result) (some sha)

unfoldable pub set_head : String → String → Db → Db
set_head project sha db = record db {
  projects =
      update_where (λ p. p.id == project) (λ p. record p { head_sha = some sha }) db.projects;
}

abbrev pub with_head : LocalWorld → Report → Project → Try String → Db → Db × LocalOutcome
with_head w r p (raised e) db = (end_triaged w r.id db, failed_run)
with_head w r p (gave sha) db =
    let db' = set_head p.id sha db in
    if any (is_fresh sha) (analyses_for_report r.id localization db'.analyses)
    then (end_triaged w r.id db', already_fresh)
    else with_map w r sha (w.repo_map p) (w.meanwhile at_map db')

abbrev pub with_project : LocalWorld → Report → Option Project → Db → Db × LocalOutcome
with_project w r none db = (end_triaged w r.id db, no_repo)
with_project w r (some p) db =
    if not (truthy p.repo_path)
    then (end_triaged w r.id db, no_repo)
    else with_head w r p (w.head_sha p) (w.meanwhile at_head db)

abbrev pub localize_found : LocalWorld → Option Report → Db → Db × LocalOutcome
localize_found w none db = (db, not_claimed)
localize_found w (some r) db = with_project w r (get project_key r.project_id db.projects) db

-- `process_localization`
unfoldable pub process_localization : LocalWorld → String → Db → Db × LocalOutcome
process_localization w id db =
    let (db', won) = claim w id W.triaged W.analyzing db in
    if won then localize_found w (report_get id db'.reports) db' else (db', not_claimed)

-- `run_local_analysis`
abbrev pub push_asked : LocalWorld → String → Db → Db
push_asked w id db =
    let (db', won) = claim w id W.clarification_needed W.analyzing db in
    if won then set_status w id W.triaged none db' else db'

abbrev pub push_on : LocalWorld → Report → Db → Db
push_on w r db =
    if r.status == W.clarification_needed then push_asked w r.id (w.meanwhile at_lock db) else db

abbrev pub is_not_claimed : LocalOutcome → Bool
is_not_claimed not_claimed = true
is_not_claimed _ = false

abbrev pub then_localize : LocalWorld → String → Db × Bool → Db × LocalOutcome
then_localize w id (db, triaged_now) =
    let (db', outcome) = process_localization w id (w.meanwhile at_lock db) in
    (db', if is_not_claimed outcome && triaged_now then triage_only else outcome)

abbrev pub analysis_on : LocalWorld → Report → Db → Db × LocalOutcome
analysis_on w r db =
    let has_triage = any is_completed (analyses_for_report r.id triage db.analyses) in
    then_localize w r.id
      (if has_triage then (db, false) else process_triaged w r.id (w.meanwhile at_lock db))

abbrev pub analysis_found : LocalWorld → Option Report → Db → Db × LocalOutcome
analysis_found w none db = (db, not_claimed)
analysis_found w (some r) db = analysis_on w r (push_on w r db)

unfoldable pub run_local_analysis : LocalWorld → String → Db → Db × LocalOutcome
run_local_analysis w id db = analysis_found w (report_get id db.reports) db
