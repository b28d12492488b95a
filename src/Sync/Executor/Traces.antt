-- ===== src/Sync/Executor/Traces.antt =====
-- sync/triage_sync.py: each stretch of the executor is a chain of the ledger's writes, and creates an LLM task
-- only for a row that may start.
use bugalizer.Prelude.{
  ℕ, ◌≡◌, refl, ap, subst, inl, inr, Bool, true, false, not, ◌&&◌, List, Option, none, some, String,
  ◌==◌, string_eq, arith, Bool-cases, Option-cases, cas, update_where_cong, when_key,
}
use bugalizer.Store.{Report}
use bugalizer.Store.Reports.{report_key}
use bugalizer.Ledger.{
  ActionPhase, reserved, intent, dispatched, fix_done, finished, action_phase_eq, Outcome, done,
  checkpoint, Action, action_key, triage_action_get, triage_action_finish, Fields, no_fields,
  triage_action_update, finish_row, unfinished, in_phase,
}
use bugalizer.Ledger.Once.{Move}
use bugalizer.Ledger.Reopen.{
  Reopening, reopened, not_closed, ledger_moved, reopen_for_action, commit_reopen, is_closed,
  is_dispatched, reopened_row,
}
use bugalizer.Sync.Slots.{Hold, try_hold}
use bugalizer.Sync.Expiry.{ActionResult, finish, timed_out, timeout_result, with_url}
use bugalizer.Sync.Outcomes.{run_inline, PrAnswer, StepResult}
use bugalizer.Sync.Executor.{
  Settings, State, with_actions, with_holds, with_reports, end_action, give_up, unless_running,
  task_running, expire_row, expire_if_overdue, after_reopen, is_reopen, run_inline_action, pr_phase,
  pr_start, pr_end, after_step, checkpoint_fix, run_task_end, or_blank, is_checkpoint,
  reopen_refusal,
}
use bugalizer.Sync.Executor as E
use bugalizer.Sync.Executor.Handle.{
  dispatch, is_llm_kind, is_open_pr, count_started, rerun, on_hold,
}
use bugalizer.Sync.Executor.Traced.{
  Write, Trace, here, wrote, started, MayStart, first, retried, started_fields, Run, Quiet,
}
use bugalizer.Sync.Executor.Traced as T

-- An action that is dispatched is not finished.
open_dispatched : (p : ActionPhase) → (not (p == finished) && p == dispatched) ≡ (p == dispatched)
open_dispatched reserved = refl
open_dispatched intent = refl
open_dispatched dispatched = refl
open_dispatched fix_done = refl
open_dispatched finished = refl

start-Write :
    (now : ℕ) (row : Action) (ss : List Action)
    → MayStart row
    → Write ss (triage_action_update row.action_id (some row.phase) (started_fields now) ss).0
start-Write now row ss (first e) =
    rw e (T.move row.action_id (started_fields now) Move.start (omega arith) refl (refl, refl))
start-Write now row ss (retried e _) =
    rw e (T.move row.action_id (started_fields now) Move.again (omega arith) refl (refl, refl))

module _ (rs : List Action) (ids : List String) where
  note-Run :
      (id : String) (expected : Option ActionPhase) (f : Fields) (st : State)
      → f.phase ≡ none
      → f.steps ≡ none
      → Quiet f
      → Run rs ids st
      → Run rs ids (E.note id expected f st)
  note-Run id expected f st hp hs hn t = wrote t (T.note id expected f hp hs hn)

  url-Trace :
      (id : String) (o : Option String) (ss : List Action) (js : List String)
      → Trace rs ids ss js
      → Trace rs ids (with_url id o ss) js
  url-Trace id none ss js t = t
  url-Trace id (some u) ss js t = elim (Bool-cases (u == "")) [
    | inl e ↦ rw e t
    | inr e ↦
        rw e
          (wrote t (T.note id none (record no_fields { pr_url = some u }) refl refl (refl, refl)))
  ]

  pub finish-Trace :
      (now : ℕ) (id : String) (r : ActionResult) (expected : Option ActionPhase) (ss : List Action)
      (js : List String)
      → Trace rs ids ss js
      → Trace rs ids (finish now id r expected ss).0 js
  unfolding finish
  finish-Trace now id r expected ss js t =
      let ended = triage_action_finish now id r.outcome r.message r.steps expected ss in
      let t' : Trace rs ids ended.0 js =
        wrote t (T.finish now id r.outcome r.message r.steps expected) in
      elim (Bool-cases ended.1) [
        | inl e ↦ rw e (url-Trace id r.pr_url ended.0 js t')
        | inr e ↦
            let late = record no_fields { late_outcome = some r.outcome } in
            rw e (wrote t' (T.note id none late refl refl (refl, refl)))
      ]

  pub end-Run :
      (now : ℕ) (id : String) (r : ActionResult) (expected : Option ActionPhase) (st : State)
      → Run rs ids st
      → Run rs ids (end_action now id r expected st)
  end-Run now id r expected st t = finish-Trace now id r expected st.actions st.llm_tasks t

  expire-Run :
      (cfg : Settings) (now : ℕ) (id : String) (st : State)
      → Run rs ids st
      → Run rs ids (expire_if_overdue cfg now id st).0
  unfolding expire_if_overdue
  expire-Run cfg now id st t = by_row (triage_action_get id st.actions)
    where
      by_row : (o : Option Action) → Run rs ids (expire_row cfg now id o st).0
      by_row none = t
      by_row (some row) = elim (Bool-cases (row.phase == finished)) [
        | inl e ↦ rw e t
        | inr e ↦ elim (Bool-cases (timed_out cfg.bound now row)) [
          | inl g ↦ rw (e, g) (end-Run now id (timeout_result cfg.timeout_message row) none st t)
          | inr g ↦ rw (e, g) t
        ]
      ]

  pub checkpoint-Run :
      (id proposal : String) {p : ActionPhase} (st : State)
      → Move p fix_done
      → Run rs ids st
      → Run rs ids (checkpoint_fix id proposal p st).0
  unfolding checkpoint_fix
  checkpoint-Run id proposal st m t = wrote t (T.move id _ m (omega arith) refl (refl, refl))

  pub task_end-Run :
      (cfg : Settings) (now : ℕ) (id : String) (r : ActionResult) (st : State)
      → Run rs ids st
      → Run rs ids (run_task_end cfg now id r st).0
  unfolding run_task_end
  task_end-Run cfg now id r st t =
      let over = expire_if_overdue cfg now id st in
      let t' : Run rs ids over.0 = expire-Run cfg now id st t in
      let kept = checkpoint_fix id (or_blank r.proposal_id) dispatched over.0 in
      let k : Run rs ids kept.0 =
        checkpoint-Run id (or_blank r.proposal_id) over.0 Move.checked t' in
      let late : Outcome → Fields = λ o. record no_fields { late_outcome = some o } in
      elim (Bool-cases over.1) [
        | inl e ↦ rw e (note-Run id none (late r.outcome) over.0 refl refl (refl, refl) t')
        | inr e ↦ elim (Bool-cases (is_checkpoint r.outcome)) [
          | inr g ↦ rw (e, g) (end-Run now id r (some dispatched) over.0 t')
          | inl g ↦ elim (Bool-cases kept.1) [
            | inl f ↦ rw (e, g, f) k
            | inr f ↦
                rw (e, g, f) (note-Run id none (late checkpoint) kept.0 refl refl (refl, refl) k)
          ]
        ]
      ]

  pub pr_start-Run :
      (cfg : Settings) (now : ℕ) (id : String) (st : State)
      → Run rs ids st
      → Run rs ids (pr_start cfg now id st).0
  unfolding pr_start
  pr_start-Run cfg now id st t = elim (Option-cases (triage_action_get id st.actions)) [
    | inl e ↦ rw e t
    | inr (row, e) ↦ elim (Bool-cases (row.phase == pr_phase row)) [
      | inl g ↦ rw (e, g) (expire-Run cfg now row.action_id st t)
      | inr g ↦ rw (e, g) t
    ]
  ]

  pub pr_end-Run :
      (cfg : Settings) (now : ℕ) (row : Action) (answer : PrAnswer) (st : State)
      → Run rs ids st
      → Run rs ids (pr_end cfg now row answer st)
  unfolding pr_end
  pr_end-Run cfg now row answer st t =
      let over = expire_if_overdue cfg now row.action_id st in
      let t' : Run rs ids over.0 = expire-Run cfg now row.action_id st t in
      elim (Bool-cases over.1) [
        | inl e ↦ rw e (note-Run row.action_id none _ over.0 refl refl (refl, refl) t')
        | inr e ↦ rw e (by_state over.0 _ _ t')
      ]
    where
      by_state :
          (st' : State) (s : StepResult) (o : Option Outcome)
          → Run rs ids st'
          → Run rs ids (after_step now row s o st')
      by_state st' s none t' =
          note-Run row.action_id (some (pr_phase row)) _ st' refl refl (refl, refl) t'
      by_state st' s (some o) t' = end-Run now row.action_id _ (some (pr_phase row)) st' t'

  reopened-Trace :
      (now : ℕ) (row : Action) (message : String) (st : State)
      → Run rs ids st
      → Trace rs ids
          (reopen_for_action now row.report_id row.action_id message st.db.reports st.actions).0.1
          st.llm_tasks
  unfolding reopen_for_action triage_action_finish
  reopened-Trace now row message st t =
      split (cas report_key row.report_id is_closed (reopened_row now) st.db.reports)
        (cas action_key row.action_id is_dispatched f st.actions) w
    where
      f : Action → Action
      f = finish_row now done (some message) none

      w :
          Write st.actions
            (cas action_key row.action_id is_dispatched
              (finish_row now done (some message) none)
              st.actions).0
      w =
          subst (Write st.actions)
            (update_where_cong
              (when_key action_key row.action_id
                (λ r. unfinished r && in_phase (some dispatched) r))
              (when_key action_key row.action_id is_dispatched) f st.actions
              (λ r. ap (λ b. (r.action_id == row.action_id) && b) (open_dispatched r.phase)))
            (T.finish now row.action_id done (some message) none (some dispatched))

      split :
          (a : List Report × Bool) (b : List Action × Bool)
          → Write st.actions b.0
          → Trace rs ids (commit_reopen st.db.reports st.actions a b).0.1 st.llm_tasks
      split (a, false) b w = t
      split (a, true) (b, false) w = t
      split (a, true) (b, true) w = wrote t w

  inline-Run :
      (cfg : Settings) (now : ℕ) (row : Action) (st : State)
      → Run rs ids st
      → Run rs ids (run_inline_action cfg now row st)
  unfolding run_inline_action
  inline-Run cfg now row st t = elim (Bool-cases (is_reopen row.kind)) [
    | inr e ↦
        let ran = run_inline now row cfg.mode_name cfg.say st.db.reports in
        rw e (end-Run now row.action_id ran.1 (some dispatched) (with_reports ran.0 st) t)
    | inl e ↦ rw e (
        by_answer
          (reopen_for_action now row.report_id row.action_id "Report reopened in Bugalizer"
            st.db.reports st.actions)
          (reopened-Trace now row "Report reopened in Bugalizer" st t))
  ]
    where
      by_answer :
          (x : (List Report × List Action) × Reopening)
          → Trace rs ids x.0.1 st.llm_tasks
          → Run rs ids (after_reopen cfg now row x st)
      by_answer (tables, reopened) t' = t'
      by_answer (tables, ledger_moved) t' = t'
      by_answer (tables, not_closed) t' =
          end-Run now row.action_id _ (some dispatched)
            (with_actions tables.1 (with_reports tables.0 st)) t'

  -- A dispatch of the row that stands in the ledger.
  pub dispatch-Run :
      (cfg : Settings) (now : ℕ) (row : Action) (st : State)
      → triage_action_get row.action_id st.actions ≡ some row
      → MayStart row
      → Run rs ids st
      → Run rs ids (dispatch cfg now row st)
  unfolding dispatch
  dispatch-Run cfg now row st found may t =
      let f = started_fields now in
      let won = triage_action_update row.action_id (some row.phase) f st.actions in
      let w : Trace rs ids won.0 st.llm_tasks = wrote t (start-Write now row st.actions may) in
      let st' = with_actions won.0 st in
      elim (Bool-cases won.1) [
        | inr e ↦ rw e w
        | inl e ↦ elim (Bool-cases (is_llm_kind row.kind)) [
          | inl g ↦ rw (e, g) (started now row t found may)
          | inr g ↦ elim (Bool-cases (is_open_pr row.kind)) [
            | inl h ↦ rw (e, g, h) w
            | inr h ↦ rw (e, g, h) (inline-Run cfg now row (count_started st') w)
          ]
        ]
      ]

  pub rerun-Run :
      (cfg : Settings) (now : ℕ) (row : Action) (st : State)
      → Run rs ids st
      → Run rs ids (rerun cfg now row st)
  rerun-Run cfg now row st t = elim (Bool-cases (is_open_pr row.kind)) [
    | inl e ↦ rw e t
    | inr e ↦ rw e (inline-Run cfg now row st t)
  ]

  pub unless_running-Run :
      (id : String) (st : State) → Run rs ids st → Run rs ids (unless_running id st)
  unless_running-Run id st t = elim (Bool-cases (task_running id st.holds)) [
    | inl e ↦ rw e t
    | inr e ↦ rw e t
  ]

  -- What follows a hold, on a state whose holds are not those of the ledger.
  pub on_hold-Run :
      (cfg : Settings) (row : Action) (llm : Bool) (next : State → State) (st : State)
      → ((hs : List Hold) → Run rs ids (next (with_holds hs st)))
      → Run rs ids st
      → Run rs ids (on_hold cfg row llm next st)
  on_hold-Run cfg row llm next st run t =
      let held = try_hold cfg.triage_max_concurrent row.action_id row.report_id llm st.holds in
      elim (Bool-cases held.1) [ inl e ↦ rw e (run held.0) | inr e ↦ rw e t ]
