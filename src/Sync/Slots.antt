-- ===== src/Sync/Slots.antt =====
-- sync/triage_sync.py: the executor slots (`_holds`), one action for a report and a bound on the LLM
-- actions that run at once. A hold's task is known by whether it is done.
pub mod Bounded
use bugalizer.Prelude.{
  ℕ, Bool, true, false, not, ◌&&◌, ◌||◌, List, [], ◌∷◌, ◌++◌, Option, none, some, String, ◌==◌,
  string_eq, leb, if◌then◌else◌, any, row_count, update_where, delete_where,
}
use Prim.Native.Nat.{max}

pub data Task : Type 0 where
  no_task running_task done_task : Task

-- `_Hold`, with the action that it is kept under
pub record Hold : Type 0 where
  pub action_id : String
  pub report_id : String
  pub llm : Bool
  pub task : Task

abbrev pub hold_key : Hold → String
hold_key h = h.action_id

abbrev pub has_stopped : Task → Bool
has_stopped no_task = true
has_stopped running_task = false
has_stopped done_task = true

abbrev pub is_llm : Hold → Bool
is_llm h = h.llm

abbrev pub of_action : String → Hold → Bool
of_action id h = h.action_id == id

abbrev pub of_report : String → Hold → Bool
of_report id h = h.report_id == id

abbrev pub new_hold : String → String → Bool → Hold
new_hold id report llm = record { action_id = id; report_id = report; llm = llm; task = no_task }

-- The bound: at least one.
abbrev pub llm_cap : ℕ → ℕ
llm_cap triage_max_concurrent = max 1 triage_max_concurrent

-- `_try_hold`
unfoldable pub try_hold : ℕ → String → String → Bool → List Hold → List Hold × Bool
try_hold limit id report llm hs =
    if any (of_action id) hs
    then (hs, true)
    else if any (of_report report) hs
    then (hs, false)
    else if llm && leb (llm_cap limit) (row_count is_llm hs)
    then (hs, false)
    else (hs ++ new_hold id report llm ∷ [], true)

-- `_release`; `own` says that the hold's task is the one that calls
unfoldable pub release : Bool → String → List Hold → List Hold
release own id = delete_where (λ h. of_action id h && (has_stopped h.task || own))

-- A task is attached to a hold, and ends.
abbrev pub with_task : Task → Hold → Hold
with_task t h = record h { task = t }

unfoldable pub set_task : String → Task → List Hold → List Hold
set_task id t = update_where (of_action id) (with_task t)
