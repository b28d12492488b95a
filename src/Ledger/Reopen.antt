-- ===== src/Ledger/Reopen.antt =====
-- bugalizer/db.py: `reopen_for_action`, the transaction that reopens a closed report and finishes
-- the action that asked for it.
use bugalizer.Prelude.{
  ℕ, ◌≡◌, refl, ap, ◌∙◌, Bool, true, false, List, none, some, String, ◌==◌, string_eq, IsKeyed, get,
  cas, cas_won_row, cas_twice, subst,
}
use bugalizer.Workflow.{closed, triaged, status_eq}
use bugalizer.Store.{Report}
use bugalizer.Store.Reports.{report_key, report_get}
use bugalizer.Ledger.{dispatched, action_phase_eq, done, Action, action_key, finish_row}

pub data Reopening : Type 0 where
  reopened : Reopening  -- "done"
  not_closed : Reopening
  ledger_moved : Reopening

abbrev pub is_closed : Report → Bool
is_closed r = r.status == closed

abbrev pub is_dispatched : Action → Bool
is_dispatched r = r.phase == dispatched

abbrev pub reopened_row : ℕ → Report → Report
reopened_row now r = record r { status = triaged; resolution_reason = none; updated_at = now }

-- The end of the transaction: a lost update rolls both tables back.
abbrev pub commit_reopen :
    List Report
    → List Action
    → List Report × Bool
    → List Action × Bool
    → (List Report × List Action) × Reopening
commit_reopen rs actions (rs', false) _ = ((rs, actions), not_closed)
commit_reopen rs actions (rs', true) (actions', false) = ((rs, actions), ledger_moved)
commit_reopen rs actions (rs', true) (actions', true) = ((rs', actions'), reopened)

unfoldable pub reopen_for_action :
    ℕ
    → String
    → String
    → String
    → List Report
    → List Action
    → (List Report × List Action) × Reopening
reopen_for_action now report action message rs actions =
    commit_reopen rs actions (cas report_key report is_closed (reopened_row now) rs)
      (cas action_key action is_dispatched (finish_row now done (some message) none) actions)

-- What a reopening leaves.
pub record IsReopened (rs : List Report) (actions : List Action) (rs' : List Report)
    (actions' : List Action) (report action message : String) (now : ℕ) : Type 0 where
  pub old : Report
  pub row : Action
  pub was_closed : report_get report rs ≡ some old × (old.status ≡ closed)
  pub is_open : report_get report rs' ≡ some (reopened_row now old)
  pub was_dispatched : get action_key action actions ≡ some row × (row.phase ≡ dispatched)
  pub is_finished :
      get action_key action actions' ≡ some (finish_row now done (some message) none row)

-- A reopening that happened won the ledger's update.
reopened_actions :
    (now : ℕ) (report action message : String) (rs : List Report) (actions : List Action)
    → (reopen_for_action now report action message rs actions).1 ≡ reopened
    → cas action_key action is_dispatched (finish_row now done (some message) none) actions
      ≡ ((reopen_for_action now report action message rs actions).0.1, true)
unfolding reopen_for_action
reopened_actions now report action message rs actions =
    split (cas report_key report is_closed (reopened_row now) rs)
      (cas action_key action is_dispatched (finish_row now done (some message) none) actions)
  where
    split :
        (r : List Report × Bool) (a : List Action × Bool)
        → (commit_reopen rs actions r a).1 ≡ reopened
        → a ≡ ((commit_reopen rs actions r a).0.1, true)
    split (rs', false) a h = cc
    split (rs', true) (acts, false) h = cc
    split (rs', true) (acts, true) h = refl

-- Without the ledger's update nothing is written.
ledger_lost :
    (now : ℕ) (report action message : String) (rs : List Report) (actions : List Action)
    → cas action_key action is_dispatched (finish_row now done (some message) none) actions
      ≡ (actions, false)
    → (reopen_for_action now report action message rs actions).0 ≡ (rs, actions)
unfolding reopen_for_action
ledger_lost now report action message rs actions h =
    ap (λ a. (commit_reopen rs actions (cas report_key report is_closed (reopened_row now) rs) a).0)
      h
    ∙ split (cas report_key report is_closed (reopened_row now) rs)
  where
    split :
        (r : List Report × Bool) → (commit_reopen rs actions r (actions, false)).0 ≡ (rs, actions)
    split (rs', false) = refl
    split (rs', true) = refl

-- An action reopens at most one report: once it did, it reopens none, whatever the reports are then.
pub reopen_once :
    (now now' : ℕ) (report report' action message message' : String) (rs rs' : List Report)
    (actions : List Action)
    → IsKeyed action_key actions
    → (reopen_for_action now report action message rs actions).1 ≡ reopened
    → (reopen_for_action now' report' action message' rs'
        (reopen_for_action now report action message rs actions).0.1).0
      ≡ (rs', (reopen_for_action now report action message rs actions).0.1)
reopen_once now now' report report' action message message' rs rs' actions ak won =
    let f : Action → Action = finish_row now done (some message) none in
    let g : Action → Action = finish_row now' done (some message') none in
    let after = (reopen_for_action now report action message rs actions).0.1 in
    let e : cas action_key action is_dispatched f actions ≡ (after, true) =
      reopened_actions now report action message rs actions won in
    let (a, there, d) =
      cas_won_row action_key action is_dispatched f actions ak (ap (λ x. x.1) e) in
    ledger_lost now' report' action message' rs' after (
      subst (λ x. cas action_key action is_dispatched g x ≡ (x, false)) (ap (λ x. x.0) e)
        (cas_twice action_key action is_dispatched is_dispatched f g actions a (λ _. refl) ak there
          d refl))
