-- ===== src/Sync/Executor/Runs.antt =====
-- sync/triage_sync.py: the runs of the executor, in any order of its stretches and beside anything that the other
-- parts of the program do to their own tables.
use bugalizer.Prelude.{
  ℕ, ◌≡◌, refl, inl, inr, List, [], ◌∷◌, Option, none, some, String, string_eq, IsKeyed, Bool-cases,
  nat_beq, ◌&&◌,
}
use bugalizer.Store.{Project, Db, is_text}
use bugalizer.Ledger.{finished, Action, action_key, triage_action_get, triage_actions_open}
use bugalizer.Ledger.Once.{SameOutcome, finished_forever, Steps-IsKeyed}
use bugalizer.Sync.Slots.{Hold}
use bugalizer.Sync.Expiry.{ActionResult, timed_out, timeout_result, expire_rows, expire_overdue}
use bugalizer.Sync.Outcomes.{PrAnswer, text}
use bugalizer.Sync.Executor.{
  Settings, State, TickOutcome, with_actions, run_task_end, pr_start, pr_end, note,
}
use bugalizer.Sync.Executor.Handle.{Listed, handle, claim_answered}
use bugalizer.Sync.Executor.Drain.{
  acked, acked_with, with_current, outcome_name, is_breach, drain_answer,
}
use bugalizer.Sync.Executor.Traced.{Trace, here, wrote, Run, Trace-Steps}
use bugalizer.Sync.Executor.Traced as T
use bugalizer.Sync.Executor.Traces.{finish-Trace, task_end-Run, pr_start-Run, pr_end-Run}
use bugalizer.Sync.Executor.Handled.{handle-Run, claim-Run}

pub data Exec (cfg : Settings) (st : State) : State → Type 0 where
  handled : (now : ℕ) (project : Project) (a : Listed) → Exec cfg st (handle cfg now project a st).0
  claimed :
      (now : ℕ) (project : Project) (a : Listed) (status : ℕ)
      → Exec cfg st (claim_answered cfg now project a status st)
  task_ended :
      (now : ℕ) (id : String) (result : ActionResult)
      → Exec cfg st (run_task_end cfg now id result st).0
  pr_began : (now : ℕ) (id : String) → Exec cfg st (pr_start cfg now id st).0
  pr_ended :
      (now : ℕ) (row : Action) (answer : PrAnswer) → Exec cfg st (pr_end cfg now row answer st)
  expired :
      (now : ℕ) (project : Option String)
      → Exec cfg st
          (with_actions (expire_overdue cfg.bound now cfg.timeout_message project st.actions).0 st)
  -- The answer to a POST of the drain.
  posted :
      (row : Action) (answer : ℕ × Option String) → Exec cfg st (drain_answer cfg row answer st)
  -- A task ends, the process stops, or another part of the program writes a table of its own.
  elsewhere :
      (db : Db) (hs : List Hold) (counts : TickOutcome)
      → Exec cfg st (record st { db = db; holds = hs; outcome = counts })

pub data Runs (cfg : Settings) (st : State) : State → Type 0 where
  start : Runs cfg st st
  step : {st' st'' : State} → Runs cfg st st' → Exec cfg st' st'' → Runs cfg st st''

module _ (rs : List Action) (ids : List String) (cfg : Settings) where
  expire_rows-Trace :
      (now : ℕ) (rows ss : List Action) (js : List String)
      → Trace rs ids ss js
      → Trace rs ids (expire_rows cfg.bound now cfg.timeout_message rows ss).0 js
  unfolding expire_rows
  expire_rows-Trace now [] ss js t = t
  expire_rows-Trace now (row ∷ rows) ss js t = elim (Bool-cases (timed_out cfg.bound now row)) [
    | inl e ↦ rw e (
        expire_rows-Trace now rows _ js (
          finish-Trace rs ids now row.action_id (timeout_result cfg.timeout_message row) none ss js
            t))
    | inr e ↦ rw e (expire_rows-Trace now rows ss js t)
  ]

  answer-Run :
      (row : Action) (answer : ℕ × Option String) (st : State)
      → Run rs ids st
      → Run rs ids (drain_answer cfg row answer st)
  answer-Run row (status, current) st t =
      let code = with_current (text ("http_" ∷ cfg.number status ∷ [])) current in
      let ack : Trace rs ids (note row.action_id none acked st).actions st.llm_tasks =
        wrote t (T.note row.action_id none acked refl refl (refl, refl)) in
      let breach : Trace rs ids (note row.action_id none (acked_with code) st).actions
          st.llm_tasks =
        wrote t (T.note row.action_id none (acked_with code) refl refl (refl, refl)) in
      elim (Bool-cases (nat_beq status 200)) [
        | inl a ↦ rw a ack
        | inr a ↦
            elim (Bool-cases (nat_beq status 409 && is_text current (outcome_name row.outcome))) [
              | inl b ↦ rw (a, b) ack
              | inr b ↦ elim (Bool-cases (is_breach status)) [
                | inl c ↦ rw (a, b, c) breach
                | inr c ↦ rw (a, b, c) t
              ]
            ]
      ]

  Exec-Run :
      {st st' : State}
      → IsKeyed action_key st.actions
      → Exec cfg st st'
      → Run rs ids st
      → Run rs ids st'
  unfolding expire_overdue
  Exec-Run {st} keyed (handled now project a) t = handle-Run rs ids cfg now project a st t
  Exec-Run {st} keyed (claimed now project a status) t =
      claim-Run rs ids cfg now project a status st keyed t
  Exec-Run {st} keyed (task_ended now id result) t = task_end-Run rs ids cfg now id result st t
  Exec-Run {st} keyed (pr_began now id) t = pr_start-Run rs ids cfg now id st t
  Exec-Run {st} keyed (pr_ended now row answer) t = pr_end-Run rs ids cfg now row answer st t
  Exec-Run {st} keyed (expired now project) t =
      expire_rows-Trace now (triage_actions_open project st.actions) st.actions st.llm_tasks t
  Exec-Run {st} keyed (posted row answer) t = answer-Run row answer st t
  Exec-Run {st} keyed (elsewhere db hs counts) t = t

-- Whatever the executor does is a chain of the ledger's writes and of LLM tasks that may start.
pub Runs-Run :
    {cfg : Settings} {st st' : State}
    → IsKeyed action_key st.actions
    → Runs cfg st st'
    → Run st.actions st.llm_tasks st'
Runs-Run {cfg} {st} keyed start = here
Runs-Run {cfg} {st} keyed (step {st'} {st''} rs e) =
    let t = Runs-Run keyed rs in
    Exec-Run st.actions st.llm_tasks cfg (Steps-IsKeyed (Trace-Steps t) keyed) e t

-- However the executor runs on, an action that is finished keeps its outcome, its message, its steps and the time
-- of its end.
pub run_keeps_outcome :
    (cfg : Settings) (st st' : State) (id : String) (row : Action)
    → Runs cfg st st'
    → IsKeyed action_key st.actions
    → triage_action_get id st.actions ≡ some row
    → row.phase ≡ finished
    → (s : Action) × (triage_action_get id st'.actions ≡ some s) × SameOutcome row s
run_keeps_outcome cfg st st' id row runs keyed found over =
    finished_forever id row keyed (Trace-Steps (Runs-Run keyed runs)) found over
