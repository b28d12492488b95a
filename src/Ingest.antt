-- ===== src/Ingest.antt =====
-- bugalizer/db.py: a project's ingest settings (`project_update`) and the commit of one poll step
-- (`ingest_commit`). A rollback gives the database back as it was.
pub mod Import
pub mod Fence
pub mod Texts
pub mod Sonicgrid
pub mod Source
pub mod Poller
pub mod Loop
use bugalizer.Prelude.{
  ℕ, zero, suc, ◌+◌, Bool, true, false, not, ◌&&◌, ◌||◌, List, [], ◌∷◌, ◌++◌, Option, none, some,
  String, ◌==◌, string_eq, nat_beq, if◌then◌else◌, any, get, update_where, delete_where,
}
use bugalizer.Workflow.{submitted}
use bugalizer.Store.{
  auto, IngestConfig, Project, project_key, Report, IngestState, Db, is_text, Text,
}
use bugalizer.Store.Reports.{or_keep}
use bugalizer.Ledger.{or_old}

-- A row that `map_report` made for the import, with the identifier that `_new_id()` draws for it.
pub record Imported : Type 0 where
  pub id : String
  pub title : Text
  pub description : Text
  pub reporter : Text
  pub severity : String
  pub ingest_source : String
  pub external_id : String

-- _INGEST_STATE_FIELDS: what a poll may write; a given null is `some none`.
pub record Updates : Type 0 where
  pub cursor : Option (Option String)
  pub rewalk_cursor : Option (Option String)
  pub rewalk_started_at : Option (Option ℕ)
  pub last_full_walk_at : Option (Option ℕ)
  pub last_poll_at : Option ℕ
  pub last_ok_at : Option ℕ
  pub last_error : Option (Option String)
  pub consecutive_failures : Option ℕ

abbrev pub no_updates : Updates
no_updates = record {
  cursor = none;
  rewalk_cursor = none;
  rewalk_started_at = none;
  last_full_walk_at = none;
  last_poll_at = none;
  last_ok_at = none;
  last_error = none;
  consecutive_failures = none;
}

abbrev pub state_key : IngestState → String
state_key s = s.project_id

abbrev pub imported_row : ℕ → String → Imported → Report
imported_row now project r = record {
  id = r.id;
  project_id = project;
  title = r.title;
  description = r.description;
  reporter = r.reporter;
  severity = r.severity;
  feature_area = none;
  status = submitted;
  analysis_mode = auto;
  claim_token = none;
  resolution_reason = none;
  ingest_source = some r.ingest_source;
  external_id = some r.external_id;
  created_at = now;
  updated_at = now;
}

-- The unique index on (project_id, external_id).
abbrev pub is_external : String → String → Report → Bool
is_external project external t = t.project_id == project && is_text t.external_id (some external)

-- INSERT … ON CONFLICT(project_id, external_id) DO NOTHING, with its row count
unfoldable pub import_report : ℕ → String → Imported → List Report → List Report × ℕ
import_report now project r rs =
    if any (is_external project r.external_id) rs
    then (rs, 0)
    else (rs ++ imported_row now project r ∷ [], 1)

unfoldable pub import_reports : ℕ → String → List Imported → List Report → List Report × ℕ
import_reports now project [] rs = (rs, 0)
import_reports now project (r ∷ page) rs =
    let (rs', n) = import_report now project r rs in
    let (rs'', m) = import_reports now project page rs' in (rs'', n + m)

-- A checkpoint that is new counts its creation as the last full walk.
abbrev pub new_state : ℕ → String → ℕ → IngestState
new_state now project generation = record {
  project_id = project;
  generation = generation;
  cursor = none;
  rewalk_cursor = none;
  rewalk_started_at = none;
  last_full_walk_at = some now;
  last_poll_at = none;
  last_ok_at = none;
  last_error = none;
  consecutive_failures = 0;
  imported_total = 0;
}

-- The DELETE of another generation's row, then the INSERT … ON CONFLICT DO NOTHING.
abbrev pub ensure : IngestState → Option IngestState → List IngestState → List IngestState
ensure s none ss = ss ++ s ∷ []
ensure s (some _) ss = ss

unfoldable pub checkpoint : ℕ → String → ℕ → List IngestState → List IngestState
checkpoint now project generation ss =
    let kept =
      delete_where (λ s. s.project_id == project && not (nat_beq s.generation generation)) ss in
    ensure (new_state now project generation) (get state_key project kept) kept

-- The final UPDATE. A column written twice takes the later value, which is the increment.
abbrev pub write_state : Updates → Bool → ℕ → IngestState → IngestState
write_state u count_failure inserted s = record s {
  cursor = or_old u.cursor s.cursor;
  rewalk_cursor = or_old u.rewalk_cursor s.rewalk_cursor;
  rewalk_started_at = or_old u.rewalk_started_at s.rewalk_started_at;
  last_full_walk_at = or_old u.last_full_walk_at s.last_full_walk_at;
  last_poll_at = or_keep u.last_poll_at s.last_poll_at;
  last_ok_at = or_keep u.last_ok_at s.last_ok_at;
  last_error = or_old u.last_error s.last_error;
  consecutive_failures =
      if count_failure
      then suc s.consecutive_failures
      else or_old u.consecutive_failures s.consecutive_failures;
  imported_total = s.imported_total + inserted;
}

-- The generation fence, on the project's row.
abbrev pub is_current : ℕ → Option Project → Bool
is_current generation none = false
is_current generation (some p) =
    not (is_text p.ingest_source none) && nat_beq p.ingest_generation generation

unfoldable pub write_step : ℕ → String → ℕ → List Imported → Updates → Bool → Db → Db × Option ℕ
write_step now project generation page updates count_failure db =
    let (rs, inserted) = import_reports now project page db.reports in
    (
      record db {
        reports = rs;
        ingest_states =
            update_where (λ s. s.project_id == project) (write_state updates count_failure inserted)
              (checkpoint now project generation db.ingest_states);
      },
      some inserted,
    )

unfoldable pub ingest_commit : ℕ → String → ℕ → List Imported → Updates → Bool → Db → Db × Option ℕ
ingest_commit now project generation page updates count_failure db =
    let step = write_step now project generation page updates count_failure db in
    if is_current generation (get project_key project db.projects) then step else (db, none)

-- `project_update`, on the columns that are kept of a project.
pub record ProjectFields : Type 0 where
  pub repo_path : Option (Option String)
  pub head_sha : Option (Option String)
  pub ingest_source : Option (Option String)
  pub ingest_config : Option (Option IngestConfig)

-- `_poll_identity`: the config without `triage_credential_env`
abbrev pub same_poll : Option IngestConfig → Option IngestConfig → Bool
same_poll none none = true
same_poll none (some c) = false
same_poll (some b) none = false
same_poll (some b) (some c) = b.url == c.url && b.credential_env == c.credential_env

abbrev pub ingest_changed : ProjectFields → Project → Bool
ingest_changed f p = not (
    is_text (or_old f.ingest_source p.ingest_source) p.ingest_source
    && same_poll (or_old f.ingest_config p.ingest_config) p.ingest_config)

abbrev pub with_fields : ProjectFields → Bool → Project → Project
with_fields f changed p = record p {
  repo_path = or_old f.repo_path p.repo_path;
  head_sha = or_old f.head_sha p.head_sha;
  ingest_source = or_old f.ingest_source p.ingest_source;
  ingest_config = or_old f.ingest_config p.ingest_config;
  ingest_generation = if changed then suc p.ingest_generation else p.ingest_generation;
}

unfoldable pub update_existing : String → ProjectFields → Option Project → Db → Db
update_existing id f none db = db
update_existing id f (some p) db = record db {
  projects = update_where (λ q. q.id == id) (with_fields f (ingest_changed f p)) db.projects;
  ingest_states =
      let kept = delete_where (λ s. s.project_id == id) db.ingest_states in
      if ingest_changed f p then kept else db.ingest_states;
}

unfoldable pub project_update : String → ProjectFields → Db → Db
project_update id f db = update_existing id f (get project_key id db.projects) db
