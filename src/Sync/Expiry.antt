-- ===== src/Sync/Expiry.antt =====
-- sync/triage_sync.py: how an action finishes, and the time bound. The clipping of a message to 2000
-- characters is left out.
pub mod Overdue
pub mod Kept
use bugalizer.Prelude.{
  ℕ, zero, suc, ◌+◌, ◌-◌, Bool, true, false, not, ◌&&◌, List, [], ◌∷◌, Option, none, some, String,
  ◌==◌, leb, if◌then◌else◌, string_eq,
}
use bugalizer.Ledger.{
  Kind, fix_and_open_pr, ActionPhase, fix_done, finished, action_phase_eq, Outcome, done, failed,
  StepName, fix_step, open_pr_step, StepState, of, skipped, Step, Action, triage_action_get, Fields,
  no_fields, triage_action_update, triage_action_finish, triage_actions_open,
}
use bugalizer.Sync.Actions.{is_compound}

-- `Result` of sync/actions.py
pub record ActionResult : Type 0 where
  pub outcome : Outcome
  pub message : Option String
  pub steps : Option (List Step)
  pub proposal_id : Option String
  pub pr_url : Option String

abbrev pub result_of : Outcome → String → Option (List Step) → ActionResult
result_of outcome message steps = record {
  outcome = outcome;
  message = some message;
  steps = steps;
  proposal_id = none;
  pr_url = none;
}

abbrev pub skipped_pr : Step
skipped_pr = record { step = open_pr_step; state = skipped; message = none; ref = none }

-- `compound_steps`: the step after the first that is not done is skipped
abbrev pub compound_steps : Step → Option Step → List Step
compound_steps first none = first ∷ skipped_pr ∷ []
compound_steps first (some pr) = first ∷ pr ∷ []

abbrev pub failed_step : StepName → String → Step
failed_step name message = record {
  step = name;
  state = of failed;
  message = some message;
  ref = none;
}

-- `if finished and result.pr_url`
abbrev pub with_url : String → Option String → List Action → List Action
with_url id none rs = rs
with_url id (some url) rs =
    let noted = (triage_action_update id none (record no_fields { pr_url = some url }) rs).0 in
    if url == "" then rs else noted

-- `_finish`: a late completion is kept for the operator only
unfoldable pub finish :
    ℕ → String → ActionResult → Option ActionPhase → List Action → List Action × Bool
finish now id result expected rs =
    let (rs', ended) =
      triage_action_finish now id result.outcome result.message result.steps expected rs in
    let late =
      (triage_action_update id none (record no_fields { late_outcome = some result.outcome })
        rs').0 in
    (if ended then with_url id result.pr_url rs' else late, ended)

-- `_timed_out`, with the bound in microseconds
abbrev pub overdue : ℕ → ℕ → Option ℕ → Bool
overdue bound now none = false
overdue bound now (some started) = leb bound (now - started)

abbrev pub timed_out : ℕ → ℕ → Action → Bool
timed_out bound now row = overdue bound now row.intent_at

abbrev pub first_step : Option (List Step) → Option Step
first_step none = none
first_step (some []) = none
first_step (some (s ∷ ss)) = some s

abbrev pub timeout_steps : String → Bool → Option Step → List Step
timeout_steps message at_pr none = compound_steps (failed_step fix_step message) none
timeout_steps message at_pr (some first) =
    if at_pr
    then compound_steps first (some (failed_step open_pr_step message))
    else compound_steps (failed_step fix_step message) none

-- `_timeout_result`: a compound action that is past its checkpoint keeps the step that is done
unfoldable pub timeout_result : String → Action → ActionResult
timeout_result message row =
    if is_compound row.kind
    then result_of failed message
        (some (timeout_steps message (row.phase == fix_done) (first_step row.steps)))
    else result_of failed message none

-- `expire_overdue`, on the rows that were open when it began; it returns how many it finished
unfoldable pub expire_rows : ℕ → ℕ → String → List Action → List Action → List Action × ℕ
expire_rows bound now message [] rs = (rs, 0)
expire_rows bound now message (row ∷ rows) rs =
    let (rs', won) = finish now row.action_id (timeout_result message row) none rs in
    let late = timed_out bound now row in
    let (left, n) = expire_rows bound now message rows (if late then rs' else rs) in
    (left, if late && won then suc n else n)

unfoldable pub expire_overdue : ℕ → ℕ → String → Option String → List Action → List Action × ℕ
expire_overdue bound now message project rs =
    expire_rows bound now message (triage_actions_open project rs) rs
