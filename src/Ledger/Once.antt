-- ===== src/Ledger/Once.antt =====
-- bugalizer/db.py: an action's outcome and its phase over time. `Step` lists what the callers in
-- sync/triage_sync.py do to the ledger.
use bugalizer.Prelude.{
  ℕ, ◌≤◌, ◌≡◌, refl, subst, inl, inr, ◌&&◌, List, Option, none, some, String, ◌==◌, string_eq,
  arith, Option-cases, IsKeyed, get, get-update_where, when_key, touch, unless, get-delete_where,
  get-append_some, IsKeyed-update_where, IsKeyed-delete_where, IsKeyed-append,
}
use bugalizer.Store.{AnalysisMode}
use bugalizer.Ledger.{
  Kind, ActionPhase, reserved, intent, dispatched, fix_done, finished, action_phase_eq,
  action_phase_rank, Outcome, Action, action_key, triage_action_get, new_action,
  triage_action_reserve, in_phase, unfinished, finish_row, triage_action_delete_reserved, Fields,
  set_fields, triage_action_update, triage_action_finish,
}
use bugalizer.Ledger as L

-- The phase writes of triage_sync.py, with the phase that each expects.
pub data Move : ActionPhase → ActionPhase → Type 0 where
  authorize : Move reserved intent
  start : Move intent dispatched
  again : Move dispatched dispatched
  checked : Move dispatched fix_done
  recovered : Move intent fix_done

pub data Step (rs : List Action) : List Action → Type 0 where
  reserve :
      (id project report : String) (kind : Kind) (mode : Option AnalysisMode) (user : Option String)
      → Step rs (triage_action_reserve id project report kind mode user rs).0
  drop : (id : String) → Step rs (triage_action_delete_reserved id rs)
  note :
      (id : String) (expected : Option ActionPhase) (fields : Fields)
      → fields.phase ≡ none
      → fields.steps ≡ none
      → Step rs (triage_action_update id expected fields rs).0
  move :
      (id : String) {p q : ActionPhase} (fields : Fields)
      → Move p q
      → fields.phase ≡ some q
      → Step rs (triage_action_update id (some p) fields rs).0
  finish :
      (now : ℕ) (id : String) (outcome : Outcome) (message : Option String)
      (steps : Option (List L.Step)) (expected : Option ActionPhase)
      → Step rs (triage_action_finish now id outcome message steps expected rs).0

pub data Steps (rs : List Action) : List Action → Type 0 where
  here : Steps rs rs
  next : {ss ts : List Action} → Steps rs ss → Step ss ts → Steps rs ts

-- Two rows of one finished action show the same outcome.
pub record SameOutcome (r s : Action) : Type 0 where
  pub still : s.phase ≡ finished
  pub outcome : s.outcome ≡ r.outcome
  pub message : s.message ≡ r.message
  pub steps : s.steps ≡ r.steps
  pub finished_at : s.finished_at ≡ r.finished_at

-- What a statement does to a row that is there: `none` for a DELETE.
abbrev Keeps : Action → Option Action → Type 0
Keeps r none = r.phase ≡ reserved
Keeps r (some s) =
    (action_phase_rank r.phase ≤ action_phase_rank s.phase) × (r.phase ≡ finished → SameOutcome r s)

note-Keeps :
    (id : String) (expected : Option ActionPhase) (f : Fields) (r : Action)
    → f.phase ≡ none
    → f.steps ≡ none
    → Keeps r (some (touch (when_key action_key id (in_phase expected)) (set_fields f) r))
unfolding set_fields
note-Keeps id expected f r hp hs = ground arith

Move-Keeps :
    (id : String) {p q : ActionPhase} (f : Fields) (r : Action)
    → Move p q
    → f.phase ≡ some q
    → Keeps r (some (touch (when_key action_key id (in_phase (some p))) (set_fields f) r))
unfolding set_fields
Move-Keeps id f r authorize hp = ground arith
Move-Keeps id f r start hp = ground arith
Move-Keeps id f r again hp = ground arith
Move-Keeps id f r checked hp = ground arith
Move-Keeps id f r recovered hp = ground arith

finish-Keeps :
    (now : ℕ) (id : String) (o : Outcome) (m : Option String) (st : Option (List L.Step))
    (expected : Option ActionPhase) (r : Action)
    → Keeps r (
        some (
          touch
            (when_key action_key id (λ r. unfinished r && in_phase expected r))
            (finish_row now o m st)
            r))
finish-Keeps now id o m st expected r = ground arith

keeps_id : (fields : Fields) (r : Action) → action_key (set_fields fields r) ≡ action_key r
unfolding set_fields
keeps_id fields r = refl

drop-Keeps :
    (id : String) (r : Action)
    → Keeps r (unless (λ r. r.action_id == id && r.phase == reserved) (some r))
drop-Keeps id r = ground arith

Keeps-refl : (r : Action) → Keeps r (some r)
Keeps-refl r = ground arith

reserve-Keeps :
    (id project report : String) (kind : Kind) (mode : Option AnalysisMode) (user : Option String)
    (j : String) (rs : List Action) (r : Action)
    → get action_key j rs ≡ some r
    → Keeps r (get action_key j (triage_action_reserve id project report kind mode user rs).0)
unfolding triage_action_reserve
reserve-Keeps id project report kind mode user j rs r found =
    elim (Option-cases (get action_key id rs)) [
      | inl e ↦
          rw
            (
              e,
              get-append_some action_key j rs (new_action id project report kind mode user) r found,
            )
            (Keeps-refl r)
      | inr (s, e) ↦ rw (e, found) (Keeps-refl r)
    ]

-- One statement, seen from a row that is there before it.
Step-Keeps :
    {rs ss : List Action} (j : String) (r : Action)
    → IsKeyed action_key rs
    → Step rs ss
    → get action_key j rs ≡ some r
    → Keeps r (get action_key j ss)
unfolding triage_action_update triage_action_finish triage_action_delete_reserved
Step-Keeps {rs} j r keyed (reserve id project report kind mode user) found =
    reserve-Keeps id project report kind mode user j rs r found
Step-Keeps {rs} j r keyed (drop id) found =
    rw
      (
        get-delete_where action_key j (λ r. r.action_id == id && r.phase == reserved) rs keyed,
        found,
      )
      (drop-Keeps id r)
Step-Keeps {rs} j r keyed (note id expected fields hp hs) found =
    rw
      (
        get-update_where action_key j (when_key action_key id (in_phase expected))
            (set_fields fields) rs (keeps_id fields),
        found,
      )
      (note-Keeps id expected fields r hp hs)
Step-Keeps {rs} j r keyed (move id {p} fields m hp) found =
    rw
      (
        get-update_where action_key j (when_key action_key id (in_phase (some p)))
            (set_fields fields) rs (keeps_id fields),
        found,
      )
      (Move-Keeps id fields r m hp)
Step-Keeps {rs} j r keyed (finish now id o m st expected) found =
    rw
      (
        get-update_where action_key j
            (when_key action_key id (λ r. unfinished r && in_phase expected r))
            (finish_row now o m st) rs (λ _. refl),
        found,
      )
      (finish-Keeps now id o m st expected r)

Step-IsKeyed : {rs ss : List Action} → Step rs ss → IsKeyed action_key rs → IsKeyed action_key ss
unfolding triage_action_reserve triage_action_update triage_action_finish
    triage_action_delete_reserved
Step-IsKeyed {rs} (reserve id project report kind mode user) k =
    elim (Option-cases (get action_key id rs)) [
      | inl e ↦
          rw e (IsKeyed-append action_key rs (new_action id project report kind mode user) e k)
      | inr (s, e) ↦ rw e k
    ]
Step-IsKeyed {rs} (drop id) k =
    IsKeyed-delete_where action_key (λ r. r.action_id == id && r.phase == reserved) rs k
Step-IsKeyed {rs} (note id expected fields hp hs) k =
    IsKeyed-update_where action_key (when_key action_key id (in_phase expected)) (set_fields fields)
      rs (keeps_id fields) k
Step-IsKeyed {rs} (move id {p} fields m hp) k =
    IsKeyed-update_where action_key (when_key action_key id (in_phase (some p))) (set_fields fields)
      rs (keeps_id fields) k
Step-IsKeyed {rs} (finish now id o m st expected) k =
    IsKeyed-update_where action_key
      (when_key action_key id (λ r. unfinished r && in_phase expected r)) (finish_row now o m st) rs
      (λ _. refl) k

pub Steps-IsKeyed :
    {rs ss : List Action} → Steps rs ss → IsKeyed action_key rs → IsKeyed action_key ss
Steps-IsKeyed here k = k
Steps-IsKeyed (next ss s) k = Step-IsKeyed s (Steps-IsKeyed ss k)

Keeps-trans : (r s : Action) (o : Option Action) → Keeps r (some s) → Keeps s o → Keeps r o
Keeps-trans r s none h k = ground arith
Keeps-trans r s (some t) h k = ground arith

Keeps-none : (r : Action) (o : Option Action) → r.phase ≡ reserved → Keeps r o
Keeps-none r none e = e
Keeps-none r (some t) e = ground arith

Steps-Keeps :
    {rs ss : List Action} (j : String) (r : Action)
    → IsKeyed action_key rs
    → Steps rs ss
    → get action_key j rs ≡ some r
    → Keeps r (get action_key j ss)
Steps-Keeps j r keyed here found = rw found (Keeps-refl r)
Steps-Keeps j r keyed (next {ss} {ts} before s) found = elim (Option-cases (get action_key j ss)) [
  | inl e ↦
      Keeps-none r (get action_key j ts) (subst (Keeps r) e (Steps-Keeps j r keyed before found))
  | inr (t, e) ↦
      Keeps-trans r t (get action_key j ts) (subst (Keeps r) e (Steps-Keeps j r keyed before found))
        (Step-Keeps j t (Steps-IsKeyed before keyed) s e)
]

-- Once an action is finished, whatever the callers do afterwards it stays in the ledger, finished,
-- with the outcome, message, steps and time of the first finish.
pub finished_forever :
    {rs ss : List Action} (j : String) (r : Action)
    → IsKeyed action_key rs
    → Steps rs ss
    → triage_action_get j rs ≡ some r
    → r.phase ≡ finished
    → (s : Action) × (triage_action_get j ss ≡ some s) × SameOutcome r s
unfolding triage_action_get
finished_forever {ss} j r keyed steps found e = elim (Option-cases (get action_key j ss)) [
  | inl gone ↦ absurd (ground (arith, subst (Keeps r) gone (Steps-Keeps j r keyed steps found)))
  | inr (s, kept) ↦ (s, kept, (subst (Keeps r) kept (Steps-Keeps j r keyed steps found)).1 e)
]

-- The phase of an action never goes back in the order reserved, intent, dispatched, fix_done,
-- finished.
pub phase_mono :
    {rs ss : List Action} (j : String) (r s : Action)
    → IsKeyed action_key rs
    → Steps rs ss
    → triage_action_get j rs ≡ some r
    → triage_action_get j ss ≡ some s
    → action_phase_rank r.phase ≤ action_phase_rank s.phase
unfolding triage_action_get
phase_mono j r s keyed steps found found' =
    (subst (Keeps r) found' (Steps-Keeps j r keyed steps found)).0
