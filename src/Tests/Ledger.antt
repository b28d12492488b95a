-- ===== src/Tests/Ledger.antt =====
-- The life of one action in the ledger.
use bugalizer.Prelude.{none, some, [], ◌∷◌}
use bugalizer.Ledger.{Action, set_mode, new_action, finish_row, done, failed, triage_action_finish}
use bugalizer.Ledger.Once.{Steps, here, next, finish}

abbrev fresh : Action
fresh = new_action "x" "p" "a" set_mode none none

abbrev ended : Action
ended = finish_row 5 done (some "mode set") none fresh

-- A second finish, after the time bound say, comes too late.
late :
    Steps
      (ended ∷ [])
      (triage_action_finish 9 "x" failed (some "timed out") none none (ended ∷ [])).0
late = next here (finish 9 "x" failed (some "timed out") none none)

first :
    Steps (fresh ∷ []) (triage_action_finish 5 "x" done (some "mode set") none none (fresh ∷ [])).0
first = next here (finish 5 "x" done (some "mode set") none none)
