-- ===== src/Tests/Data.antt =====
-- Rows that the tests share.
use bugalizer.Prelude.{ℕ, Option, none, some, false, List, [], ◌∷◌, String}
use bugalizer.Workflow.{BugStatus, triaged, fix_approved}
use bugalizer.Store.{
  Report, Analysis, Phase, RunStatus, Result, Project, Db, auto, triage, localization, completed,
}

abbrev pub report : String → BugStatus → Option String → Report
report id s token = record {
  id = id;
  project_id = "p";
  title = 116 ∷ [];
  description = 100 ∷ [];
  reporter = 119 ∷ [];
  severity = "medium";
  feature_area = none;
  status = s;
  analysis_mode = auto;
  claim_token = token;
  resolution_reason = none;
  ingest_source = none;
  external_id = none;
  created_at = 1;
  updated_at = 1;
}

abbrev pub analysis : String → String → Phase → RunStatus → Option Result → ℕ → Analysis
analysis id of ph s result at = record {
  id = id;
  bug_report_id = of;
  phase = ph;
  status = s;
  result = result;
  completed_at = some at;
  trigger_ref = none;
  created_at = at;
}

abbrev pub at_sha : String → Result
at_sha sha = record { repo_sha = some sha; error = none; permanent = false; interrupted = false }

abbrev pub two_reports : List Report
two_reports = report "a" triaged none ∷ report "b" fix_approved (some "t1") ∷ []

abbrev pub project : Project
project = record {
  id = "p";
  repo_path = some "/repo";
  head_sha = some "c1";
  llm_provider = none;
  llm_model = none;
  fix_llm_provider = none;
  fix_llm_model = none;
  ingest_source = none;
  ingest_config = none;
  ingest_generation = 0;
}

-- Report "a": triaged, localized at the head commit, and no fix tried yet.
abbrev pub located : Analysis
located = analysis "l" "a" localization completed (some (at_sha "c1")) 5

abbrev pub db : Db
db = record {
  projects = project ∷ [];
  reports = two_reports;
  analyses = analysis "n" "a" triage completed none 3 ∷ located ∷ [];
  proposals = [];
  ingest_states = [];
}
