-- ===== src/Sync/Executor/Handle.antt =====
-- sync/triage_sync.py: what a tick does with an action that sonicgrid lists, and the drain of the
-- terminal states. A handler is a function for each stretch between two awaits.
use bugalizer.Prelude.{
  ℕ, suc, Bool, true, false, not, ◌&&◌, ◌||◌, List, ◌∷◌, Option, none, some, String, ◌==◌,
  string_eq, nat_beq, if◌then◌else◌, first_where,
}
use bugalizer.Store.{Project, Report, is_text}
use bugalizer.Store.Reports.{report_get}
use bugalizer.Ledger.{
  Kind, analyze_local, analyze_cloud, fix_and_open_pr, open_pr, reserved, intent, dispatched,
  fix_done, finished, action_phase_eq, refused, Action, triage_action_get, triage_action_reserve,
  triage_action_delete_reserved, Fields, no_fields, triage_action_update,
}
use bugalizer.Sync.Actions.{Refusal, Request, Authorization, authorize}
use bugalizer.Sync.Slots.{running_task, try_hold, set_task}
use bugalizer.Sync.Expiry.{ActionResult, timed_out, timeout_result}
use bugalizer.Sync.Outcomes.{step_result, evidence, stage_claim_held, unconfirmed_failure}
use bugalizer.Sync.Executor.{
  Settings, State, with_actions, with_holds, end_action, give_up, task_running, unless_running,
  spawn_pr, run_inline_action, checkpoint_fix, is_checkpoint, or_blank,
}

-- `kind in LLM_KINDS`
abbrev pub is_llm_kind : Kind → Bool
is_llm_kind analyze_local = true
is_llm_kind analyze_cloud = true
is_llm_kind fix_and_open_pr = true
is_llm_kind _ = false

-- `kind in PAID_KINDS`
abbrev pub is_paid_kind : Kind → Bool
is_paid_kind analyze_cloud = true
is_paid_kind fix_and_open_pr = true
is_paid_kind _ = false

abbrev pub is_open_pr : Kind → Bool
is_open_pr open_pr = true
is_open_pr _ = false

-- The task of an LLM action is created.
abbrev pub spawn_llm : String → State → State
spawn_llm id st = record st {
  holds = set_task id running_task st.holds;
  llm_tasks = id ∷ st.llm_tasks;
}

abbrev pub count_started : State → State
count_started st = record st {
  outcome = record st.outcome { actions_started = suc st.outcome.actions_started };
}

-- An action that was dispatched starts.
abbrev pub start_kind : Settings → ℕ → Action → State → State
start_kind cfg now row st =
    if is_llm_kind row.kind
    then spawn_llm row.action_id st
    else if is_open_pr row.kind
    then spawn_pr row.action_id st
    else give_up row.action_id (run_inline_action cfg now row st)

-- `_dispatch`, of a row in the phase that it has
unfoldable pub dispatch : Settings → ℕ → Action → State → State
dispatch cfg now row st =
    let (rs, won) =
      triage_action_update row.action_id (some row.phase)
        (record no_fields { phase = some dispatched; dispatched_at = some now }) st.actions in
    if won
    then start_kind cfg now row (count_started (with_actions rs st))
    else give_up row.action_id (with_actions rs st)

-- An action of the listing: `requestedBy` and `params` are in the request.
pub record Listed : Type 0 where
  pub action_id : String
  pub bug_id : String
  pub user_id : Option String
  pub request : Request

-- The end of `_claim_and_start`, on the row and the report that it read.
abbrev pub intend_fields : ℕ → Authorization → Fields
intend_fields now auth = record no_fields {
  phase = some intent;
  intent_at = some now;
  pinned_llm = some auth.pinned;
  no_auto_retry = some auth.no_auto_retry;
  requester_key = some auth.requester_key;
}

abbrev pub intend : ℕ → String → Authorization → State → State × Bool
intend now id auth st =
    let (rs, won) = triage_action_update id (some reserved) (intend_fields now auth) st.actions in
    (with_actions rs st, won)

abbrev pub dispatch_row : Settings → ℕ → Option Action → State → State
dispatch_row cfg now none st = st
dispatch_row cfg now (some row) st = dispatch cfg now row st

abbrev pub granted : Settings → ℕ → String → State × Bool → State
granted cfg now id (st, won) =
    if won then dispatch_row cfg now (triage_action_get id st.actions) st else st

abbrev pub decided : Settings → ℕ → String → Kind → Authorization → Option Refusal → State → State
decided cfg now id kind auth (some why) st =
    end_action now id (step_result kind refused (cfg.say why)) (some reserved) st
decided cfg now id kind auth none st = granted cfg now id (intend now id auth st)

abbrev pub authorized_on : Settings → ℕ → Project → Listed → Option Report → State → State
authorized_on cfg now project a none st = st
authorized_on cfg now project a (some report) st =
    let auth = authorize cfg.sync st.db project report a.request in
    decided cfg now a.action_id a.request.kind auth auth.refusal st

abbrev pub report_of : Option Action → List Report → Option Report
report_of none rs = none
report_of (some row) rs = report_get row.report_id rs

-- `_claim_and_start`, from sonicgrid's answer to `claimed` on
unfoldable pub claim_answered : Settings → ℕ → Project → Listed → ℕ → State → State
claim_answered cfg now project a status st =
    let gone = with_actions (triage_action_delete_reserved a.action_id st.actions) st in
    let report = report_of (triage_action_get a.action_id st.actions) st.db.reports in
    let st' =
      if nat_beq status 404 || nat_beq status 409
      then gone
      else if not (nat_beq status 200)
      then st
      else authorized_on cfg now project a report st in
    unless_running a.action_id st'

-- `_try_hold`, and what follows where it took the slot
abbrev pub on_hold : Settings → Action → Bool → (State → State) → State → State
on_hold cfg row llm next st =
    let (hs, held) = try_hold cfg.triage_max_concurrent row.action_id row.report_id llm st.holds in
    if held then next (with_holds hs st) else st

-- `_apply_evidence`
abbrev pub apply_evidence : Settings → ℕ → Action → ActionResult → State → State
apply_evidence cfg now row found st =
    let (st', kept) = checkpoint_fix row.action_id (or_blank found.proposal_id) row.phase st in
    if is_checkpoint found.outcome
    then if kept then on_hold cfg row false (λ s. spawn_pr row.action_id s) st' else st'
    else end_action now row.action_id found (some row.phase) st

-- The last branch of `_recover`, where the rows show no outcome.
abbrev pub without_evidence : Settings → ℕ → Action → State → State
without_evidence cfg now row st =
    if row.phase == dispatched && stage_claim_held row.report_id st.db.reports
    then st
    else if row.phase == intent
        && (cfg.sync.sonicgrid_user_keys && is_paid_kind row.kind && not row.requester_key)
    then end_action now row.action_id
        (step_result row.kind refused "Requested before per-user keys; request again.")
        (some row.phase) st
    else if row.no_auto_retry
    then end_action now row.action_id (unconfirmed_failure row.kind) (some row.phase) st
    else on_hold cfg row (is_llm_kind row.kind)
        (λ s. unless_running row.action_id (dispatch cfg now row s)) st

abbrev pub on_evidence : Settings → ℕ → Action → Option ActionResult → State → State
on_evidence cfg now row (some found) st = apply_evidence cfg now row found st
on_evidence cfg now row none st = without_evidence cfg now row st

abbrev pub rerun : Settings → ℕ → Action → State → State
rerun cfg now row st =
    if is_open_pr row.kind
    then spawn_pr row.action_id st
    else give_up row.action_id (run_inline_action cfg now row st)

-- `_recover`
unfoldable pub recover : Settings → ℕ → Action → State → State
recover cfg now row st =
    if timed_out cfg.bound now row
    then end_action now row.action_id (timeout_result cfg.timeout_message row) none st
    else if row.phase == fix_done
    then on_hold cfg row false (λ s. spawn_pr row.action_id s) st
    else if row.phase == dispatched && not (is_llm_kind row.kind)
    then on_hold cfg row false (λ s. rerun cfg now row s) st
    else if row.phase == intent || row.phase == dispatched
    then on_evidence cfg now row (evidence st.db row) st
    else st

-- What a handler that reached its first await waits for: nothing, or the answer to `claimed`.
pub data Awaits : Type 0 where
  nothing claim_answer : Awaits

-- `_handle` of an action with no row: up to `_claim_and_start`
abbrev pub count_unresolved : State → State
count_unresolved st = record st {
  outcome = record st.outcome { unresolved = suc st.outcome.unresolved };
}

abbrev pub taken : Project → Listed → Report → State → State × Awaits
taken project a report st =
    let (rs, inserted) =
      triage_action_reserve a.action_id project.id report.id a.request.kind a.request.mode a.user_id
        st.actions in
    if inserted
    then (with_actions rs st, claim_answer)
    else (give_up a.action_id (with_actions rs st), nothing)

abbrev pub handle_new : Settings → Project → Listed → Option Report → State → State × Awaits
handle_new cfg project a none st = (count_unresolved st, nothing)
handle_new cfg project a (some report) st =
    let (hs, held) =
      try_hold cfg.triage_max_concurrent a.action_id report.id (is_llm_kind a.request.kind)
        st.holds in
    if held then taken project a report (with_holds hs st) else (st, nothing)

abbrev pub hold_reserved : Settings → Action → State → State × Awaits
hold_reserved cfg row st =
    let (hs, held) =
      try_hold cfg.triage_max_concurrent row.action_id row.report_id (is_llm_kind row.kind)
        st.holds in
    if held then (with_holds hs st, claim_answer) else (st, nothing)

-- `_handle` of an action with a row
abbrev pub handle_row : Settings → ℕ → Action → State → State × Awaits
handle_row cfg now row st =
    if row.phase == finished || task_running row.action_id st.holds
    then if task_running row.action_id st.holds
        && (not (row.phase == finished) && timed_out cfg.bound now row)
      then (end_action now row.action_id (timeout_result cfg.timeout_message row) none st, nothing)
      else (st, nothing)
    else if row.phase == reserved
    then hold_reserved cfg row st
    else (recover cfg now row st, nothing)

abbrev pub handle_found : Settings → ℕ → Project → Listed → Option Action → State → State × Awaits
handle_found cfg now project a (some row) st = handle_row cfg now row st
handle_found cfg now project a none st =
    let report =
      first_where (λ r. r.project_id == project.id && is_text r.external_id (some a.bug_id))
        st.db.reports in
    handle_new cfg project a report st

-- `_handle`, up to its first await
unfoldable pub handle : Settings → ℕ → Project → Listed → State → State × Awaits
handle cfg now project a st =
    handle_found cfg now project a (triage_action_get a.action_id st.actions) st
