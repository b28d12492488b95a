-- ===== src/Sync/Expiry/Kept.antt =====
-- sync/triage_sync.py: what the time bound does to outcomes that are there.
use bugalizer.Prelude.{
  ℕ, ◌≡◌, refl, inl, inr, List, [], ◌∷◌, Option, none, some, String, ◌==◌, string_eq, Bool-cases,
  IsKeyed,
}
use bugalizer.Ledger.{
  ActionPhase, finished, Action, action_key, no_fields, triage_action_get, triage_action_finish,
  triage_actions_open,
}
use bugalizer.Ledger.Once as Once
use bugalizer.Ledger.Once.{Steps, here, next, SameOutcome, finished_forever}
use bugalizer.Sync.Expiry.{
  ActionResult, with_url, finish, timed_out, timeout_result, expire_rows, expire_overdue,
}

url-Steps :
    (rs rs' : List Action) (id : String) (o : Option String)
    → Steps rs rs'
    → Steps rs (with_url id o rs')
url-Steps rs rs' id none s = s
url-Steps rs rs' id (some u) s = elim (Bool-cases (u == "")) [
  | inl e ↦ rw e s
  | inr e ↦ rw e (next s (Once.note id none (record no_fields { pr_url = some u }) refl refl))
]

-- To finish an action is a statement of the ledger and a note.
pub finish-Steps :
    (now : ℕ) (id : String) (result : ActionResult) (expected : Option ActionPhase)
    (rs rs' : List Action)
    → Steps rs rs'
    → Steps rs (finish now id result expected rs').0
unfolding finish
finish-Steps now id result expected rs rs' s =
    let first =
      triage_action_finish now id result.outcome result.message result.steps expected rs' in
    let s' : Steps rs first.0 =
      next s (Once.finish now id result.outcome result.message result.steps expected) in
    elim (Bool-cases first.1) [
      | inl e ↦ rw e (url-Steps rs first.0 id result.pr_url s')
      | inr e ↦ rw e (
          next s'
            (Once.note id none (record no_fields { late_outcome = some result.outcome }) refl refl))
    ]

expire_rows-Steps :
    (bound now : ℕ) (message : String) (rows rs rs' : List Action)
    → Steps rs rs'
    → Steps rs (expire_rows bound now message rows rs').0
unfolding expire_rows
expire_rows-Steps bound now message [] rs rs' s = s
expire_rows-Steps bound now message (row ∷ rows) rs rs' s =
    elim (Bool-cases (timed_out bound now row)) [
      | inl e ↦ rw e (
          expire_rows-Steps bound now message rows rs _
            (finish-Steps now row.action_id (timeout_result message row) none rs rs' s))
      | inr e ↦ rw e (expire_rows-Steps bound now message rows rs rs' s)
    ]

-- The pass over the overdue actions keeps the outcome, the message, the steps and the time of an
-- action that was finished before it.
pub expiry_keeps_outcome :
    (bound now : ℕ) (message : String) (project : Option String) (id : String) (r : Action)
    (rs : List Action)
    → IsKeyed action_key rs
    → triage_action_get id rs ≡ some r
    → r.phase ≡ finished
    → (s : Action) × (triage_action_get id (expire_overdue bound now message project rs).0 ≡ some s)
      × SameOutcome r s
unfolding expire_overdue
expiry_keeps_outcome bound now message project id r rs keyed found f =
    finished_forever id r keyed
      (expire_rows-Steps bound now message (triage_actions_open project rs) rs rs here) found f
