-- ===== src/Sync/Executor/Drain.antt =====
-- sync/triage_sync.py: the drain, which posts the terminal state of each finished action until sonicgrid
-- has acknowledged it. `advance` stands for the POST of an action: its status and the state that its body names.
pub mod Acked
use bugalizer.Prelude.{
  ℕ, suc, Bool, true, false, not, ◌&&◌, ◌||◌, List, [], ◌∷◌, Option, none, some, String, ◌==◌,
  string_eq, nat_beq, if◌then◌else◌,
}
use bugalizer.Store.{is_text}
use bugalizer.Ledger.{
  Outcome, done, failed, refused, checkpoint, pr_pending, fix_step, of, skipped, Step, Action,
  Fields, no_fields, triage_actions_unacked,
}
use bugalizer.Sync.Actions.{is_compound}
use bugalizer.Sync.Expiry.{compound_steps}
use bugalizer.Sync.Outcomes.{text}
use bugalizer.Sync.Executor.{Settings, State, note, or_blank}

-- `row["outcome"]`, a text
unfoldable pub outcome_text : Outcome → String
outcome_text done = "done"
outcome_text failed = "failed"
outcome_text refused = "refused"
outcome_text checkpoint = "fix_done"
outcome_text pr_pending = "pr_pending"

abbrev pub outcome_name : Option Outcome → Option String
outcome_name none = none
outcome_name (some o) = some (outcome_text o)

pub record TerminalBody : Type 0 where
  pub state : Option Outcome
  pub message : Option String
  pub steps : Option (List Step)

abbrev pub given_text : Option String → Option String
given_text none = none
given_text (some t) = if t == "" then none else some t

abbrev pub only_state : Option Outcome → Step
only_state none = record { step = fix_step; state = skipped; message = none; ref = none }
only_state (some o) = record { step = fix_step; state = of o; message = none; ref = none }

abbrev pub steps_or : Option Outcome → Option (List Step) → List Step
steps_or outcome none = compound_steps (only_state outcome) none
steps_or outcome (some []) = compound_steps (only_state outcome) none
steps_or outcome (some (s ∷ ss)) = s ∷ ss

-- `_terminal_body`
unfoldable pub terminal_body : Action → TerminalBody
terminal_body row = record {
  state = row.outcome;
  message = given_text row.message;
  steps = if is_compound row.kind then some (steps_or row.outcome row.steps) else none;
}

abbrev pub count_posted : State → State
count_posted st = record st {
  outcome = record st.outcome { terminals_posted = suc st.outcome.terminals_posted };
}

abbrev pub acked : Fields
acked = record no_fields { terminal_acked = some true }

abbrev pub with_current : String → Option String → String
with_current code none = code
with_current code (some t) = if t == "" then code else text (code ∷ ":" ∷ t ∷ [])

abbrev pub acked_with : String → Fields
acked_with error = record no_fields { terminal_acked = some true; terminal_error = some error }

-- The statuses of a contract breach.
abbrev pub is_breach : ℕ → Bool
is_breach status = nat_beq status 400 || nat_beq status 404 || nat_beq status 409

abbrev pub drain_answer : Settings → Action → ℕ × Option String → State → State
drain_answer cfg row (status, current) st =
    if nat_beq status 200
    then count_posted (note row.action_id none acked st)
    else if nat_beq status 409 && is_text current (outcome_name row.outcome)
    then note row.action_id none acked st
    else if is_breach status
    then (let code = text ("http_" ∷ cfg.number status ∷ []) in
        note row.action_id none (acked_with (with_current code current)) st)
    else st

-- A POST is answered, or it ends the drain by _Abort: a timeout, a network error, a 401 or a 5xx.
abbrev pub Advance : Type 0
Advance = String → TerminalBody → Option (ℕ × Option String)

-- What follows the POST of a row, and whether the drain goes on.
abbrev pub after_post : Settings → Action → Option (ℕ × Option String) → State → State × Bool
after_post cfg row none st = (st, false)
after_post cfg row (some answer) st = (drain_answer cfg row answer st, true)

-- `meanwhile` is what the other tasks do while the POST of an action is awaited.
unfoldable pub drain_rows :
    Settings → Advance → (String → State → State) → List Action → State → State
drain_rows cfg advance meanwhile [] st = st
drain_rows cfg advance meanwhile (row ∷ rows) st =
    let (st', goes_on) =
      after_post cfg row (advance row.action_id (terminal_body row)) (meanwhile row.action_id st) in
    let rest = drain_rows cfg advance meanwhile rows st' in if goes_on then rest else st'

-- `_drain`: the rows are those that wait when it begins
unfoldable pub drain : Settings → Advance → (String → State → State) → String → State → State
drain cfg advance meanwhile project st =
    drain_rows cfg advance meanwhile (triage_actions_unacked project st.actions) st
