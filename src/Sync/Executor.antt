-- ===== src/Sync/Executor.antt =====
-- sync/triage_sync.py and sync/actions.py: the executor. Its tasks interleave only where they await,
-- so a function is what runs between two awaits, and the answer that was awaited is an argument.
pub mod Calls
pub mod Handle
pub mod Drain
pub mod Traced
pub mod Traces
pub mod Handled
pub mod Runs
pub mod Paid
pub mod Payer
pub mod Refused
use bugalizer.Prelude.{
  ℕ, ◌+◌, Bool, true, false, not, ◌&&◌, List, [], ◌∷◌, Option, none, some, String, ◌==◌, string_eq,
  if◌then◌else◌, any,
}
use bugalizer.Workflow.{BugStatus}
use bugalizer.Store.{AnalysisMode, Report, Db}
use bugalizer.Store.Reports.{report_get}
use bugalizer.Ledger.{
  Kind, analyze_local, analyze_cloud, fix_and_open_pr, open_pr, set_mode, close, reopen, other,
  ActionPhase, intent, dispatched, fix_done, finished, action_phase_eq, Outcome, done, failed,
  refused, checkpoint, pr_pending, fix_step, open_pr_step, of, Step, Action, triage_action_get,
  Fields, no_fields, triage_action_update,
}
use bugalizer.Ledger.Reopen.{Reopening, reopened, not_closed, ledger_moved, reopen_for_action}
use bugalizer.Sync.Actions.{Refusal, SyncSettings, is_compound}
use bugalizer.Sync.Slots.{
  Hold, Task, running_task, done_task, of_action, has_stopped, try_hold, release, set_task,
}
use bugalizer.Sync.Expiry.{
  ActionResult, result_of, compound_steps, finish, timed_out, timeout_result, first_step,
}
use bugalizer.Sync.Outcomes.{text, run_inline, PrAnswer, StepResult, pr_step}

-- What the executor reads of the settings, and how texts are written: a number, a mode, the reason of a refusal
-- and a status.
pub record Settings : Type 0 where
  pub sync : SyncSettings
  pub triage_max_concurrent : ℕ
  pub bound : ℕ  -- triage_action_timeout_minutes, in microseconds
  pub timeout_message : String
  pub number : ℕ → String
  pub mode_name : AnalysisMode → String
  pub say : Refusal → String
  pub status_name : BugStatus → String

-- The counters of a tick that the executor raises.
pub record TickOutcome : Type 0 where
  pub actions_started : ℕ
  pub terminals_posted : ℕ
  pub unresolved : ℕ

-- The tables and the module's own state. `llm_tasks` names the action of every LLM task that was
-- created, the newest first.
pub record State : Type 0 where
  pub db : Db
  pub actions : List Action
  pub holds : List Hold
  pub llm_tasks : List String
  pub outcome : TickOutcome

abbrev pub with_actions : List Action → State → State
with_actions rs st = record st { actions = rs }

abbrev pub with_holds : List Hold → State → State
with_holds hs st = record st { holds = hs }

abbrev pub with_reports : List Report → State → State
with_reports rs st = record st { db = record st.db { reports = rs } }

-- `db.triage_action_update(action_id, …)`, where the caller drops the answer
abbrev pub note : String → Option ActionPhase → Fields → State → State
note id expected fields st = with_actions (triage_action_update id expected fields st.actions).0 st

-- `_finish(action_id, result, …)`
abbrev pub end_action : ℕ → String → ActionResult → Option ActionPhase → State → State
end_action now id result expected st = with_actions (finish now id result expected st.actions).0 st

-- `_release`, by another than the task of the hold, and by the task itself as it ends.
abbrev pub give_up : String → State → State
give_up id st = with_holds (release false id st.holds) st

abbrev pub task_ends : String → State → State
task_ends id st = with_holds (release true id st.holds) st

-- `_task_running`
unfoldable pub task_running : String → List Hold → Bool
task_running id hs = any (λ h. of_action id h && not (has_stopped h.task)) hs

-- `if not _task_running(action_id): _release(action_id)`
abbrev pub unless_running : String → State → State
unless_running id st = if task_running id st.holds then st else give_up id st

-- `_spawn_pr`
abbrev pub spawn_pr : String → State → State
spawn_pr id st = with_holds (set_task id running_task st.holds) st

-- `_expire_if_overdue`: whether the action is finished, by this call or before it
abbrev pub expire_row : Settings → ℕ → String → Option Action → State → State × Bool
expire_row cfg now id none st = (st, true)
expire_row cfg now id (some row) st =
    if row.phase == finished
    then (st, true)
    else if timed_out cfg.bound now row
    then (end_action now id (timeout_result cfg.timeout_message row) none st, true)
    else (st, false)

unfoldable pub expire_if_overdue : Settings → ℕ → String → State → State × Bool
expire_if_overdue cfg now id st = expire_row cfg now id (triage_action_get id st.actions) st

-- `reopen_refusal`, with the case of a report that is gone
abbrev pub reopen_refusal : Settings → Option Report → String
reopen_refusal cfg none = "Bug report not found in Bugalizer"
reopen_refusal cfg (some r) =
    text ("Only a closed report can be reopened; this one is " ∷ cfg.status_name r.status ∷ [])

abbrev pub after_reopen :
    Settings → ℕ → Action → (List Report × List Action) × Reopening → State → State
after_reopen cfg now row (tables, reopened) st = with_actions tables.1 (with_reports tables.0 st)
after_reopen cfg now row (tables, ledger_moved) st =
    with_actions tables.1 (with_reports tables.0 st)
after_reopen cfg now row (tables, not_closed) st =
    let st' = with_actions tables.1 (with_reports tables.0 st) in
    let message = reopen_refusal cfg (report_get row.report_id st'.db.reports) in
    end_action now row.action_id (result_of refused message none) (some dispatched) st'

abbrev pub is_reopen : Kind → Bool
is_reopen reopen = true
is_reopen _ = false

-- `_run_inline`
unfoldable pub run_inline_action : Settings → ℕ → Action → State → State
run_inline_action cfg now row st =
    if is_reopen row.kind
    then after_reopen cfg now row
        (reopen_for_action now row.report_id row.action_id "Report reopened in Bugalizer"
          st.db.reports st.actions)
        st
    else (let (reports, result) = run_inline now row cfg.mode_name cfg.say st.db.reports in
        end_action now row.action_id result (some dispatched) (with_reports reports st))

-- `_run_pr`, up to its call of `open_pull_request`: whether the call is made
abbrev pub pr_phase : Action → ActionPhase
pr_phase row = if is_compound row.kind then fix_done else dispatched

abbrev pub pr_start_on : Settings → ℕ → Action → State → State × Bool
pr_start_on cfg now row st =
    if row.phase == pr_phase row
    then (let (st', over) = expire_if_overdue cfg now row.action_id st in (st', not over))
    else (st, false)

abbrev pub pr_start_row : Settings → ℕ → Option Action → State → State × Bool
pr_start_row cfg now none st = (st, false)
pr_start_row cfg now (some row) st = pr_start_on cfg now row st

unfoldable pub pr_start : Settings → ℕ → String → State → State × Bool
pr_start cfg now id st = pr_start_row cfg now (triage_action_get id st.actions) st

abbrev pub done_fix : Step
done_fix = record { step = fix_step; state = of done; message = none; ref = none }

abbrev pub or_done_fix : Option Step → Step
or_done_fix none = done_fix
or_done_fix (some s) = s

abbrev pub compound_message : Outcome → String → String
compound_message done message = text ("Fix proposed and " ∷ message ∷ [])
compound_message refused message = text ("Fix proposed; the PR was refused: " ∷ message ∷ [])
compound_message _ message = text ("Fix proposed; the PR step failed: " ∷ message ∷ [])

abbrev pub with_ref : String → Option String → String
with_ref message none = message
with_ref message (some url) = if url == "" then message else text (message ∷ ": " ∷ url ∷ [])

-- The result of a PR step that came to an outcome.
unfoldable pub pr_result : Action → Outcome → StepResult → ActionResult
pr_result row state step =
    if is_compound row.kind
    then record {
      outcome = state;
      message = some (compound_message state step.message);
      steps = some (
          compound_steps (or_done_fix (first_step row.steps)) (
            some (record {
              step = open_pr_step;
              state = of state;
              message = some step.message;
              ref = step.ref;
            })));
      proposal_id = none;
      pr_url = step.ref;
    }
    else record {
      outcome = state;
      message = some (with_ref step.message step.ref);
      steps = none;
      proposal_id = none;
      pr_url = step.ref;
    }

abbrev pub late_outcome_of : Option Outcome → Outcome
late_outcome_of none = pr_pending
late_outcome_of (some o) = o

abbrev pub after_step : ℕ → Action → StepResult → Option Outcome → State → State
after_step now row step none st =
    note row.action_id (some (pr_phase row)) (record no_fields { attempts = some step.attempts }) st
after_step now row step (some state) st =
    end_action now row.action_id (pr_result row state step) (some (pr_phase row)) st

-- `_run_pr`, from the answer of the call on; `row` is the row that it read before
unfoldable pub pr_end : Settings → ℕ → Action → PrAnswer → State → State
pr_end cfg now row answer st =
    let proposal = if is_compound row.kind then row.fix_proposal_id else none in
    let step = pr_step cfg.number row.report_id proposal row.attempts st.db.proposals answer in
    let (st', over) = expire_if_overdue cfg now row.action_id st in
    if over
    then note row.action_id none
        (record no_fields { late_outcome = some (late_outcome_of step.state) }) st'
    else after_step now row step step.state st'

-- `_checkpoint_fix`
unfoldable pub checkpoint_fix : String → String → ActionPhase → State → State × Bool
checkpoint_fix id proposal from st =
    let (rs, won) =
      triage_action_update id (some from)
        (record no_fields {
          phase = some fix_done;
          fix_proposal_id = some proposal;
          steps = some (
              record {
                step = fix_step;
                state = of done;
                message = some "Proposal made";
                ref = some proposal;
              }
              ∷ []);
        })
        st.actions in
    (with_actions rs st, won)

abbrev pub or_blank : Option String → String
or_blank none = ""
or_blank (some t) = t

abbrev pub is_checkpoint : Outcome → Bool
is_checkpoint checkpoint = true
is_checkpoint _ = false

-- `_run_task`, from the result of the model's call on: whether the task goes on to `_run_pr`
unfoldable pub run_task_end : Settings → ℕ → String → ActionResult → State → State × Bool
run_task_end cfg now id result st =
    let (st', over) = expire_if_overdue cfg now id st in
    let (st'', kept) = checkpoint_fix id (or_blank result.proposal_id) dispatched st' in
    if over
    then (note id none (record no_fields { late_outcome = some result.outcome }) st', false)
    else if is_checkpoint result.outcome
    then if kept
      then (st'', true)
      else (note id none (record no_fields { late_outcome = some checkpoint }) st'', false)
    else (end_action now id result (some dispatched) st', false)
