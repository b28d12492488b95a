-- ===== src/Sync/Executor/Drain/Acked.antt =====
-- sync/triage_sync.py: what a drain leaves, when sonicgrid answers.
use bugalizer.Prelude.{ℕ, ◌≡◌, true, ◌||◌, Option, none, some, String, string_eq, nat_beq, IsIn}
use bugalizer.Ledger.{action_phase_eq, Action}
use bugalizer.Sync.Executor.{State}
use bugalizer.Sync.Executor.Drain.{is_breach}

-- sonicgrid took a position on the action: it is posted, or a contract breach.
abbrev pub IsAnswer : ℕ → Type 0
IsAnswer status = (nat_beq status 200 || is_breach status) ≡ true

-- Every row of an action has its acknowledgment.
abbrev pub IsAcked : String → State → Type 0
IsAcked id st = (r : Action) → IsIn r st.actions → r.action_id ≡ id → r.terminal_acked ≡ true

-- sonicgrid answers a POST, and takes a position.
abbrev pub IsAnswered : Option (ℕ × Option String) → Type 0
IsAnswered none = ⊥
IsAnswered (some answer) = IsAnswer answer.0
