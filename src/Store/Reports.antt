-- ===== src/Store/Reports.antt =====
-- bugalizer/db.py: the conditional updates of `bug_reports`. Each takes the value that `_now()`
-- returned and gives the new table beside what the function returns.
use bugalizer.Prelude.{
  ℕ, Bool, true, ◌&&◌, not, List, Option, none, some, String, ◌==◌, string_eq, if◌then◌else◌, cas,
  get, update_where,
}
use bugalizer.Workflow.{BugStatus, fix_proposed, fix_approved, fix_committed, rejected, status_eq}
use bugalizer.Store.{AnalysisMode, Report, is_text, is_deleted}

abbrev pub report_key : Report → String
report_key r = r.id

-- `report_get`
abbrev pub report_get : String → List Report → Option Report
report_get = get report_key

-- An optional condition of a WHERE clause.
abbrev pub if_given {ℓ} : {A : Type ℓ} → Option A → (A → Bool) → Bool
if_given none p = true
if_given (some a) p = p a

abbrev pub or_keep {ℓ} : {A : Type ℓ} → Option A → Option A → Option A
or_keep none old = old
or_keep (some a) old = some a

-- What each statement writes into its row.
abbrev pub moved : ℕ → BugStatus → Option String → Report → Report
moved now s reason r = record r {
  status = s;
  updated_at = now;
  resolution_reason = or_keep reason r.resolution_reason;
}

abbrev pub deleted : ℕ → Report → Report
deleted now r = record r { status = rejected; resolution_reason = some "deleted"; updated_at = now }

abbrev pub claimed : ℕ → BugStatus → Option String → Report → Report
claimed now s token r = record r {
  status = s;
  claim_token = or_keep token r.claim_token;
  updated_at = now;
}

abbrev pub adopted : ℕ → String → Report → Report
adopted now token r = record r { claim_token = some token; updated_at = now }

-- The claim's end: the token goes.
abbrev pub let_go : ℕ → BugStatus → Report → Report
let_go now s r = record r { status = s; claim_token = none; updated_at = now }

-- A claim as its owner sees it.
abbrev pub owned_by : String → Report → Bool
owned_by token r = r.status == fix_approved && is_text r.claim_token (some token)

unfoldable pub report_update_status :
    ℕ
    → String
    → BugStatus
    → Option String
    → Option BugStatus
    → List Report
    → List Report × Option Report
report_update_status now id new_status reason expected rs =
    let (rs', won) =
      cas report_key id (λ r. if_given expected (λ s. r.status == s)) (moved now new_status reason)
        rs in
    (
      rs',
      elim expected [ none ↦ report_get id rs' | some s ↦ if won then report_get id rs' else none ],
    )

-- The row still is what the caller checked. `expected_claim_token` has a default of its own,
-- `_UNSET`: none here.
abbrev pub still : Option BugStatus → Option (Option String) → Report → Bool
still expected token r =
    not (is_deleted r)
    && if_given expected (λ s. r.status == s)
    && if_given token (λ t. is_text r.claim_token t)

unfoldable pub report_delete :
    ℕ → String → Option BugStatus → Option (Option String) → List Report → List Report × Bool
report_delete now id expected token = cas report_key id (still expected token) (deleted now)

unfoldable pub try_claim_report :
    ℕ → String → BugStatus → BugStatus → Option String → List Report → List Report × Bool
try_claim_report now id expected new_status token =
    cas report_key id (λ r. r.status == expected) (claimed now new_status token)

unfoldable pub adopt_claim : ℕ → String → Option String → String → List Report → List Report × Bool
adopt_claim now id observed new_token =
    cas report_key id (λ r. r.status == fix_approved && is_text r.claim_token observed)
      (adopted now new_token)

unfoldable pub release_claim : ℕ → String → String → List Report → List Report × Bool
release_claim now id token = cas report_key id (owned_by token) (let_go now fix_proposed)

-- `_record_pr_report`: the report's half of `record_pull_request`.
unfoldable pub record_pr_report : ℕ → String → String → List Report → List Report × Bool
record_pr_report now id token = cas report_key id (owned_by token) (let_go now fix_committed)

-- `report_update_fields(report_id, analysis_mode=mode)`
unfoldable pub set_analysis_mode : ℕ → String → AnalysisMode → List Report → List Report
set_analysis_mode now id mode =
    update_where (λ r. r.id == id) (λ r. record r { analysis_mode = mode; updated_at = now })
