-- ===== src/Sync/Outcomes.antt =====
-- sync/actions.py: what a run of the pipeline or of the open-pr step comes to as the outcome of an
-- action, and the outcome that the rows of an action show after a crash.
pub mod Evidence
use Prim.Native.String.{◌++◌ as ◌then◌}
use bugalizer.Prelude.{
  ℕ, ◌+◌, Bool, true, false, not, ◌&&◌, List, [], ◌∷◌, Option, none, some, String, ◌==◌, string_eq,
  ltb, if◌then◌else◌, any, first_where, order_desc, select_where, get,
}
use bugalizer.Workflow.{analyzing, fix_proposing, closed, status_eq, among}
use bugalizer.Store as S
use bugalizer.Store.{AnalysisMode, phase_eq, Report, Analysis, Proposal, Result, Db, is_text}
use bugalizer.Store.Reports.{report_get, report_update_status, set_analysis_mode}
use bugalizer.Schedule.{created, is_completed, is_failed}
use bugalizer.Ledger.{
  Kind, analyze_local, analyze_cloud, fix_and_open_pr, open_pr, set_mode, close, reopen, other,
  Outcome, done, failed, refused, checkpoint, StepName, fix_step, of, Step, Action,
}
use bugalizer.Sync.Actions.{is_compound, Refusal, check_status_transition}
use bugalizer.Sync.Expiry.{ActionResult, result_of, compound_steps}

-- An f-string, as its parts.
unfoldable pub text : List String → String
text [] = ""
text (s ∷ ss) = s then (text ss)

-- The fix step of a compound action.
abbrev pub fix_step_of : Outcome → String → Step
fix_step_of state message = record {
  step = fix_step;
  state = of state;
  message = some message;
  ref = none;
}

-- `step_result`, which `_refuse` and `unconfirmed_failure` use or repeat
unfoldable pub step_result : Kind → Outcome → String → ActionResult
step_result kind state message =
    if is_compound kind
    then result_of state message (some (compound_steps (fix_step_of state message) none))
    else result_of state message none

-- `LocalOutcome` of pipeline/orchestrator.py
pub data LocalOutcome : Type 0 where
  completed_run failed_run not_claimed no_repo already_fresh triage_only : LocalOutcome

unfoldable pub map_local : LocalOutcome → ActionResult
map_local completed_run = result_of done "Local analysis finished: localization written" none
map_local failed_run =
    result_of failed "Local analysis ran and failed; see Bugalizer for the error" none
map_local triage_only =
    result_of failed "Triage asked for clarification; no localization was produced" none
map_local already_fresh =
    result_of refused "Localization is already current for this commit; nothing re-run" none
map_local no_repo = result_of refused "The project repo is not cloned on Bugalizer" none
map_local not_claimed = result_of refused "Another analysis held this report; nothing ran" none

-- `FixOutcome` of pipeline/fix_proposer.py, with what its kind carries
pub data FixOutcome : Type 0 where
  was_proposed : String → FixOutcome
  fix_failed : Option String → FixOutcome
  already_proposed : String → FixOutcome
  put_off : Option String → FixOutcome
  fix_not_claimed : FixOutcome

abbrev pub text_or : String → Option String → String
text_or default none = default
text_or default (some t) = if t == "" then default else t

-- The result of a fix that was proposed.
unfoldable pub proposed_result : Kind → String → ActionResult
proposed_result kind id =
    if is_compound kind
    then record {
      outcome = checkpoint;
      message = none;
      steps = none;
      proposal_id = some id;
      pr_url = none;
    }
    else record {
      outcome = done;
      message = some (text ("Fix proposal " ∷ id ∷ " made" ∷ []));
      steps = none;
      proposal_id = some id;
      pr_url = none;
    }

unfoldable pub map_fix : Kind → FixOutcome → ActionResult
map_fix kind (was_proposed id) = proposed_result kind id
map_fix kind (fix_failed e) =
    step_result kind failed (text ("The fix proposal failed: " ∷ text_or "error" e ∷ []))
map_fix kind (already_proposed id) = step_result kind refused (
    text (
      "The latest localization already has fix proposal " ∷ id
      ∷ "; request Open PR for it, or re-run local analysis first" ∷ []))
map_fix kind (put_off e) =
    step_result kind refused
      (text ("The fix did not run: " ∷ text_or "precondition not met" e ∷ []))
map_fix kind fix_not_claimed = step_result kind refused "Another run held this report; nothing ran"

-- `run_inline`. The exception of a broken database is left out; the text of a refused check is its
-- reason, as `say` writes it.
unfoldable pub set_mode_inline :
    ℕ
    → Action
    → (AnalysisMode → String)
    → List Report
    → Option AnalysisMode
    → List Report × ActionResult
set_mode_inline now row name rs none =
    (rs, result_of failed "Could not set the mode (IntegrityError)" none)
set_mode_inline now row name rs (some mode) = (
  set_analysis_mode now row.report_id mode rs,
  result_of done (text ("Analysis mode set to " ∷ name mode ∷ [])) none,
)

abbrev pub close_said : Option Report → ActionResult
close_said none = result_of refused "Report status changed during the update; request again" none
close_said (some r) = result_of done "Report closed in Bugalizer" none

abbrev pub close_unless :
    ℕ → Report → (Refusal → String) → List Report → Option Refusal → List Report × ActionResult
close_unless now r say rs (some why) = (rs, result_of refused (say why) none)
close_unless now r say rs none =
    let (rs', updated) = report_update_status now r.id closed none (some r.status) rs in
    (rs', close_said updated)

unfoldable pub close_inline :
    ℕ → Report → (Refusal → String) → List Report → List Report × ActionResult
close_inline now r say rs =
    if r.status == closed
    then (rs, result_of done "Report closed in Bugalizer" none)
    else close_unless now r say rs (check_status_transition r closed)

abbrev pub is_set_mode : Kind → Bool
is_set_mode set_mode = true
is_set_mode _ = false

abbrev pub inline_on :
    ℕ
    → Action
    → (AnalysisMode → String)
    → (Refusal → String)
    → List Report
    → Option Report
    → List Report × ActionResult
inline_on now row name say rs none =
    (rs, result_of refused "Bug report not found in Bugalizer" none)
inline_on now row name say rs (some r) =
    if is_set_mode row.kind
    then set_mode_inline now row name rs row.mode
    else close_inline now r say rs

unfoldable pub run_inline :
    ℕ
    → Action
    → (AnalysisMode → String)
    → (Refusal → String)
    → List Report
    → List Report × ActionResult
run_inline now row name say rs = inline_on now row name say rs (report_get row.report_id rs)

-- What one call of `open_pull_request` came to. `raised` is an error with a code that is none of
-- OPEN_PR_REFUSED and not `in_progress`, or an unexpected exception, by its name.
pub data PrAnswer : Type 0 where
  refused_with : String → String → Option String → PrAnswer
  in_progress : PrAnswer
  raised : String → PrAnswer
  opened_as : Bool → String → String → String → PrAnswer

-- `StepResult`
pub record StepResult : Type 0 where
  pub state : Option Outcome
  pub message : String
  pub ref : Option String
  pub attempts : ℕ

abbrev pub waits : ℕ → StepResult
waits n = record { state = none; message = ""; ref = none; attempts = n }

abbrev pub fix_proposals_for_report : String → List Proposal → List Proposal
fix_proposals_for_report report ps =
    order_desc (λ p. p.created_at) (select_where (λ p. p.bug_report_id == report) ps)

abbrev pub first_of : List Proposal → Option Proposal
first_of [] = none
first_of (p ∷ ps) = some p

abbrev pub or_first : Option Proposal → List Proposal → Option Proposal
or_first (some p) ps = some p
or_first none ps = first_of ps

abbrev pub both_given : Option String → Option String → String
both_given (some sha) (some branch) =
    if sha == ""
    then ""
    else if branch == ""
    then ""
    else text ("branch `" ∷ branch ∷ "` pushed; " ∷ [])
both_given _ _ = ""

abbrev pub pushed_text : Option Proposal → String
pushed_text none = ""
pushed_text (some p) = both_given p.pushed_sha p.branch_name

-- `_pushed_note`
unfoldable pub pushed_note : String → Option String → List Proposal → String
pushed_note report proposal ps =
    let rows = fix_proposals_for_report report ps in
    pushed_text (or_first (first_where (λ p. is_text (some p.id) proposal) rows) rows)

abbrev pub pr_step_max_attempts : ℕ
pr_step_max_attempts = 3

abbrev pub with_link : String → Option String → String
with_link message none = message
with_link message (some url) = if url == "" then message else text (message ∷ " (" ∷ url ∷ ")" ∷ [])

-- `pr_step`, on the answer of the call. `number` writes a number in decimal.
unfoldable pub pr_step :
    (ℕ → String) → String → Option String → ℕ → List Proposal → PrAnswer → StepResult
pr_step number report proposal attempts ps (refused_with code message url) = record {
  state = some refused;
  message = text (code ∷ ": " ∷ with_link message url ∷ []);
  ref = none;
  attempts = attempts;
}
pr_step number report proposal attempts ps in_progress = waits attempts
pr_step number report proposal attempts ps (raised detail) =
    if ltb (attempts + 1) pr_step_max_attempts then waits (attempts + 1) else record {
      state = some failed;
      message = text (
          pushed_note report proposal ps
          ∷ "PR creation failed after "
          ∷ number (attempts + 1)
          ∷ " attempts ("
          ∷ detail
          ∷ "); a later Open PR request resumes from here"
          ∷ []);
      ref = none;
      attempts = attempts + 1;
    }
pr_step number report proposal attempts ps (opened_as new pr branch url) = record {
  state = some done;
  message =
      text ("PR #" ∷ pr ∷ " " ∷ (if new then "opened" else "already open") ∷ " on " ∷ branch ∷ []);
  ref = some url;
  attempts = attempts;
}

-- `analyses_by_trigger` and `fix_proposals_by_trigger` of db.py
unfoldable pub analyses_by_trigger : String → List Analysis → List Analysis
analyses_by_trigger id rows =
    order_desc created (select_where (λ a. is_text a.trigger_ref (some id)) rows)

unfoldable pub fix_proposals_by_trigger : String → List Proposal → List Proposal
fix_proposals_by_trigger id ps =
    order_desc (λ p. p.created_at) (select_where (λ p. is_text p.trigger_ref (some id)) ps)

abbrev pub was_interrupted : Option Result → Bool
was_interrupted none = false
was_interrupted (some r) = r.interrupted

-- `_finished_rows`
unfoldable pub finished_rows : String → List Analysis → List Analysis
finished_rows id rows =
    select_where (λ a. not (was_interrupted a.result)) (analyses_by_trigger id rows)

abbrev pub evidence_local : List Analysis → Option ActionResult
evidence_local rows =
    if any (λ a. a.phase == S.localization && is_completed a) rows
    then some (result_of done "Local analysis finished: localization written" none)
    else if any is_failed rows
    then some (result_of failed "Local analysis ran and failed; see Bugalizer for the error" none)
    else none

abbrev pub evidence_fix : Kind → List Analysis → List Proposal → Option ActionResult
evidence_fix kind rows (p ∷ ps) = some (proposed_result kind p.id)
evidence_fix kind rows [] =
    if any (λ a. a.phase == S.fix && is_failed a) rows
    then some (step_result kind failed "The fix proposal failed; see Bugalizer for the error")
    else none

abbrev pub evidence_kind : Kind → String → Db → Option ActionResult
evidence_kind analyze_local id db = evidence_local (finished_rows id db.analyses)
evidence_kind analyze_cloud id db =
    evidence_fix analyze_cloud (finished_rows id db.analyses)
      (fix_proposals_by_trigger id db.proposals)
evidence_kind fix_and_open_pr id db =
    evidence_fix fix_and_open_pr (finished_rows id db.analyses)
      (fix_proposals_by_trigger id db.proposals)
evidence_kind _ id db = none

-- `evidence`
unfoldable pub evidence : Db → Action → Option ActionResult
evidence db row = evidence_kind row.kind row.action_id db

-- `stage_claim_held`
abbrev pub in_stage : Option Report → Bool
in_stage none = false
in_stage (some r) = among r.status (analyzing ∷ fix_proposing ∷ [])

unfoldable pub stage_claim_held : String → List Report → Bool
stage_claim_held report rs = in_stage (report_get report rs)

unfoldable pub unconfirmed_failure : Kind → ActionResult
unconfirmed_failure kind = step_result kind failed (
    text (
      "dispatch could not be confirmed; not retried automatically to avoid "
      ∷ "a second cloud charge; request again" ∷ []))
