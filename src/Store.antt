-- ===== src/Store.antt =====
-- bugalizer/db.py: the tables, a row as a record and a table as the list of its rows in order of
-- insertion. The instants of `_now()` are numbers of microseconds. Columns that no modelled code
-- reads (free text of a report, cost and token counts) are left out.
pub mod Reports
pub mod Races
pub mod Transactions
use bugalizer.Prelude.{
  ℕ, ◌≡◌, refl, Bool, not, List, Option, none, some, String, Comparable, ◌==◌, rank_eq, nat_beq,
  string_eq, if◌then◌else◌,
}
use bugalizer.Workflow.{BugStatus}

pub data AnalysisMode : Type 0 where
  auto local_only hold : AnalysisMode

abbrev pub mode_rank : AnalysisMode → ℕ
mode_rank auto = 0
mode_rank local_only = 1
mode_rank hold = 2

pub mode_unrank : ℕ → AnalysisMode
mode_unrank n = if nat_beq n 0 then auto else if nat_beq n 1 then local_only else hold

pub mode_unrank-rank : (m : AnalysisMode) → mode_unrank (mode_rank m) ≡ m
unfolding mode_unrank
mode_unrank-rank auto = refl
mode_unrank-rank _ = refl

instance abbrev pub mode_eq : Comparable AnalysisMode
mode_eq = rank_eq mode_rank mode_unrank mode_unrank-rank

pub data Phase : Type 0 where
  validation triage localization fix : Phase

abbrev pub phase_rank : Phase → ℕ
phase_rank validation = 0
phase_rank triage = 1
phase_rank localization = 2
phase_rank fix = 3

pub phase_unrank : ℕ → Phase
phase_unrank n =
    if nat_beq n 0
    then validation
    else if nat_beq n 1
    then triage
    else if nat_beq n 2
    then localization
    else fix

pub phase_unrank-rank : (p : Phase) → phase_unrank (phase_rank p) ≡ p
unfolding phase_unrank
phase_unrank-rank validation = refl
phase_unrank-rank _ = refl

instance abbrev pub phase_eq : Comparable Phase
phase_eq = rank_eq phase_rank phase_unrank phase_unrank-rank

-- The status of an analysis row.
pub data RunStatus : Type 0 where
  pending running completed failed : RunStatus

abbrev pub run_rank : RunStatus → ℕ
run_rank pending = 0
run_rank running = 1
run_rank completed = 2
run_rank failed = 3

pub run_unrank : ℕ → RunStatus
run_unrank n =
    if nat_beq n 0
    then pending
    else if nat_beq n 1
    then running
    else if nat_beq n 2
    then completed
    else failed

pub run_unrank-rank : (p : RunStatus) → run_unrank (run_rank p) ≡ p
unfolding run_unrank
run_unrank-rank pending = refl
run_unrank-rank _ = refl

instance abbrev pub run_eq : Comparable RunStatus
run_eq = rank_eq run_rank run_unrank run_unrank-rank

-- The `ingest_config` of a project: where its reports come from.
pub record IngestConfig : Type 0 where
  pub url : String
  pub credential_env : String
  pub triage_credential_env : Option String

pub record Project : Type 0 where
  pub id : String
  pub repo_path : Option String
  pub head_sha : Option String
  pub llm_provider : Option String
  pub llm_model : Option String
  pub fix_llm_provider : Option String
  pub fix_llm_model : Option String
  pub ingest_source : Option String
  pub ingest_config : Option IngestConfig
  pub ingest_generation : ℕ

abbrev pub project_key : Project → String
project_key p = p.id

-- A free text that the code takes apart, as its code points.
abbrev pub Text : Type 0
Text = List ℕ

pub record Report : Type 0 where
  pub id : String
  pub project_id : String
  pub title : Text
  pub description : Text
  pub reporter : Text
  pub severity : String
  pub feature_area : Option String
  pub status : BugStatus
  pub analysis_mode : AnalysisMode
  pub claim_token : Option String
  pub resolution_reason : Option String
  pub ingest_source : Option String
  pub external_id : Option String
  pub created_at : ℕ
  pub updated_at : ℕ

-- The keys that the code reads of an analysis row's JSON `result`.
pub record Result : Type 0 where
  pub repo_sha : Option String
  pub error : Option String
  pub permanent : Bool
  pub interrupted : Bool

pub record Analysis : Type 0 where
  pub id : String
  pub bug_report_id : String
  pub phase : Phase
  pub status : RunStatus
  pub result : Option Result
  pub completed_at : Option ℕ
  pub trigger_ref : Option String
  pub created_at : ℕ

pub data ProposalStatus : Type 0 where
  proposed pr_opened : ProposalStatus

pub data PrState : Type 0 where
  open_pr merged closed_pr : PrState

pub record Proposal : Type 0 where
  pub id : String
  pub bug_report_id : String
  pub analysis_id : Option String
  pub branch_name : Option String
  pub status : ProposalStatus
  pub pr_url : Option String
  pub pr_number : Option ℕ
  pub pushed_sha : Option String
  pub pr_opened_at : Option ℕ
  pub trigger_ref : Option String
  pub pr_state : Option PrState
  pub pr_checked_at : Option ℕ
  pub pr_settled_at : Option ℕ
  pub pr_check_error : Option String
  pub created_at : ℕ
  pub updated_at : ℕ

-- A project's poll checkpoint (table `ingest_state`).
pub record IngestState : Type 0 where
  pub project_id : String
  pub generation : ℕ
  pub cursor : Option String
  pub rewalk_cursor : Option String
  pub rewalk_started_at : Option ℕ
  pub last_full_walk_at : Option ℕ
  pub last_poll_at : Option ℕ
  pub last_ok_at : Option ℕ
  pub last_error : Option String
  pub consecutive_failures : ℕ
  pub imported_total : ℕ

-- A nullable column against a value: SQL's `IS`.
abbrev pub is_text : Option String → Option String → Bool
is_text none none = Bool.true
is_text none (some b) = Bool.false
is_text (some a) none = Bool.false
is_text (some a) (some b) = a == b

-- resolution_reason = 'deleted'
abbrev pub is_deleted : Report → Bool
is_deleted r = is_text r.resolution_reason (some "deleted")

pub record Db : Type 0 where
  pub projects : List Project
  pub reports : List Report
  pub analyses : List Analysis
  pub proposals : List Proposal
  pub ingest_states : List IngestState
