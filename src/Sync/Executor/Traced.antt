-- ===== src/Sync/Executor/Traced.antt =====
-- sync/triage_sync.py: the ledger writes of the executor, and the LLM tasks that it creates beside
-- them. Each write is one that the callers of the ledger make.
use bugalizer.Prelude.{
  ℕ, suc, ◌≤◌, ◌<◌, ◌≡◌, refl, sym, subst, inl, inr, Bool, true, false, ◌&&◌, List, ◌∷◌, Option,
  none, some, String, ◌==◌, string_eq, arith, Bool-cases, Option-cases, IsKeyed, get, get-cas,
  get-cas_won, when_key, get-delete_where, get-append_some, get-append, eq_of_test, ==-self,
  row_count,
}
use bugalizer.Store.{AnalysisMode}
use bugalizer.Ledger.{
  Kind, ActionPhase, reserved, intent, dispatched, fix_done, finished, action_phase_eq,
  action_phase_rank, Outcome, Pin, Pins, Action, action_key, triage_action_get, new_action,
  triage_action_reserve, in_phase, unfinished, finish_row, triage_action_delete_reserved, Fields,
  no_fields, set_fields, triage_action_update, triage_action_finish,
}
use bugalizer.Ledger as L
use bugalizer.Sync.Actions.{is_paid}
use bugalizer.Sync.Executor.{State}
use bugalizer.Ledger.Once as Once
use bugalizer.Ledger.Once.{Move, Steps, Steps-IsKeyed}

-- Only the authorization sets `no_auto_retry` and the pins.
abbrev pub Quiet : Fields → Type 0
Quiet f = (f.no_auto_retry ≡ none) × (f.pinned_llm ≡ none)

-- Pins with a paid model for the fix stage come with `no_auto_retry`.
abbrev pub PinsOnce : Pins → Bool → Type 0
PinsOnce pins retry = (pin : Pin) → pins.fix ≡ some pin → is_paid pin.0 ≡ true → retry ≡ true

-- A write that creates no LLM task.
pub data Write (rs : List Action) : List Action → Type 0 where
  reserve :
      (id project report : String) (kind : Kind) (mode : Option AnalysisMode) (user : Option String)
      → Write rs (triage_action_reserve id project report kind mode user rs).0
  drop : (id : String) → Write rs (triage_action_delete_reserved id rs)
  note :
      (id : String) (expected : Option ActionPhase) (fields : Fields)
      → fields.phase ≡ none
      → fields.steps ≡ none
      → Quiet fields
      → Write rs (triage_action_update id expected fields rs).0
  authorize :
      (id : String) (fields : Fields) (pins : Pins) (retry : Bool)
      → fields.phase ≡ some intent
      → fields.pinned_llm ≡ some pins
      → fields.no_auto_retry ≡ some retry
      → PinsOnce pins retry
      → Write rs (triage_action_update id (some reserved) fields rs).0
  move :
      (id : String) {p q : ActionPhase} (fields : Fields)
      → Move p q
      → 1 < action_phase_rank q
      → fields.phase ≡ some q
      → Quiet fields
      → Write rs (triage_action_update id (some p) fields rs).0
  finish :
      (now : ℕ) (id : String) (outcome : Outcome) (message : Option String)
      (steps : Option (List L.Step)) (expected : Option ActionPhase)
      → Write rs (triage_action_finish now id outcome message steps expected rs).0

-- A row that may be given to the model's task: on its first dispatch, or again when it may be retried.
pub data MayStart (row : Action) : Type 0 where
  first : row.phase ≡ intent → MayStart row
  retried : row.phase ≡ dispatched → row.no_auto_retry ≡ false → MayStart row

abbrev pub started_fields : ℕ → Fields
started_fields now = record no_fields { phase = some dispatched; dispatched_at = some now }

-- What the executor did, from a ledger and the tasks that were created on.
pub data Trace (rs : List Action) (ids : List String) : List Action → List String → Type 0 where
  here : Trace rs ids rs ids
  wrote :
      {ss ts : List Action} {js : List String}
      → Trace rs ids ss js
      → Write ss ts
      → Trace rs ids ts js
  started :
      {ss : List Action} {js : List String} (now : ℕ) (row : Action)
      → Trace rs ids ss js
      → triage_action_get row.action_id ss ≡ some row
      → MayStart row
      → Trace rs ids
          (triage_action_update row.action_id (some row.phase) (started_fields now) ss).0
          (row.action_id ∷ js)

Write-Step : {rs ss : List Action} → Write rs ss → Once.Step rs ss
Write-Step (reserve id project report kind mode user) =
    Once.reserve id project report kind mode user
Write-Step (drop id) = Once.drop id
Write-Step (note id expected fields hp hs hn) = Once.note id expected fields hp hs
Write-Step (authorize id fields pins retry hp hl hn once) = Once.move id fields Once.authorize hp
Write-Step (move id fields m hr hp hn) = Once.move id fields m hp
Write-Step (finish now id outcome message steps expected) =
    Once.finish now id outcome message steps expected

start-Step :
    (now : ℕ) (row : Action) (rs : List Action)
    → MayStart row
    → Once.Step rs (triage_action_update row.action_id (some row.phase) (started_fields now) rs).0
start-Step now row rs (first e) =
    rw e (Once.move row.action_id (started_fields now) Once.start refl)
start-Step now row rs (retried e _) =
    rw e (Once.move row.action_id (started_fields now) Once.again refl)

-- Whatever the executor did is a chain of the ledger's statements.
pub Trace-Steps :
    {rs : List Action} {ids : List String} {ss : List Action} {js : List String}
    → Trace rs ids ss js
    → Steps rs ss
Trace-Steps here = Once.here
Trace-Steps (wrote t w) = Once.next (Trace-Steps t) (Write-Step w)
Trace-Steps (started {ss} now row t found may) =
    Once.next (Trace-Steps t) (start-Step now row ss may)

-- How many LLM tasks of an action were created.
abbrev pub tasks_of : String → List String → ℕ
tasks_of id = row_count (λ j. j == id)

-- An action that is not dispatched had no task, and one that may not be retried at most one.
abbrev pub Spent : ℕ → Option Action → Type 0
Spent n none = n ≡ 0
Spent n (some r) = (action_phase_rank r.phase ≤ 1 → n ≡ 0) × (r.no_auto_retry ≡ true → n ≤ 1)

abbrev pub AllSpent : List Action → List String → Type 0
AllSpent rs ids = (j : String) → Spent (tasks_of j ids) (triage_action_get j rs)

-- An update of a row keeps that, if it sets `no_auto_retry` only on a row that is not dispatched and
-- takes no other row back to that.
abbrev pub KeepsSpent : (Action → Action) → Action → Type 0
KeepsSpent f r = (n : ℕ) → Spent n (some r) → Spent n (some (f r))

update-Spent :
    (id : String) (expected : Option ActionPhase) (f : Fields) (rs : List Action) (j : String)
    (n : ℕ)
    → ((r : Action) → in_phase expected r ≡ true → KeepsSpent (set_fields f) r)
    → Spent n (triage_action_get j rs)
    → Spent n (triage_action_get j (triage_action_update id expected f rs).0)
unfolding triage_action_get triage_action_update set_fields
update-Spent id expected f rs j n keeps h = elim (Option-cases (get action_key j rs)) [
  | inl e ↦
      rw (get-cas action_key id (in_phase expected) (set_fields f) rs j (λ _. refl), e) (rw e at h)
  | inr (r, e) ↦
      let before : Spent n (some r) = rw e at h in
      rw (get-cas action_key id (in_phase expected) (set_fields f) rs j (λ _. refl), e)
        (elim (Bool-cases (when_key action_key id (in_phase expected) r)) [
          | inl hit ↦ rw hit (keeps r (ground (arith, hit)) n before)
          | inr miss ↦ rw miss before
        ])
]

note-Spent :
    (id : String) (expected : Option ActionPhase) (f : Fields) (rs : List Action) (j : String)
    (n : ℕ)
    → f.phase ≡ none
    → f.no_auto_retry ≡ none
    → Spent n (triage_action_get j rs)
    → Spent n (triage_action_get j (triage_action_update id expected f rs).0)
unfolding set_fields
note-Spent id expected f rs j n hp hn h =
    update-Spent id expected f rs j n (λ r hit m k. ground (arith, hp, hn)) h

authorize-Spent :
    (id : String) (f : Fields) (rs : List Action) (j : String) (n : ℕ)
    → f.phase ≡ some intent
    → Spent n (triage_action_get j rs)
    → Spent n (triage_action_get j (triage_action_update id (some reserved) f rs).0)
unfolding set_fields
authorize-Spent id f rs j n hp h =
    update-Spent id (some reserved) f rs j n
      (λ r hit m k.
        let e : r.phase ≡ reserved = eq_of_test r.phase reserved hit in
        let zero_yet : m ≡ 0 = k.0 (rw e (omega arith)) in ground (arith, hp, zero_yet))
      h

move-Spent :
    (id : String) (p q : ActionPhase) (f : Fields) (rs : List Action) (j : String) (n : ℕ)
    → 1 < action_phase_rank q
    → f.phase ≡ some q
    → f.no_auto_retry ≡ none
    → Spent n (triage_action_get j rs)
    → Spent n (triage_action_get j (triage_action_update id (some p) f rs).0)
unfolding set_fields
move-Spent id p q f rs j n later hp hn h =
    update-Spent id (some p) f rs j n (λ r hit m k. ground (arith, hp, hn, later)) h

finish-Spent :
    (now : ℕ) (id : String) (o : Outcome) (m : Option String) (st : Option (List L.Step))
    (expected : Option ActionPhase) (rs : List Action) (j : String) (n : ℕ)
    → Spent n (triage_action_get j rs)
    → Spent n (triage_action_get j (triage_action_finish now id o m st expected rs).0)
unfolding triage_action_get triage_action_finish
finish-Spent now id o m st expected rs j n h =
    let p : Action → Bool = λ r. unfinished r && in_phase expected r in
    elim (Option-cases (get action_key j rs)) [
      | inl e ↦ rw (get-cas action_key id p (finish_row now o m st) rs j (λ _. refl), e) (rw e at h)
      | inr (r, e) ↦
          let before : Spent n (some r) = rw e at h in
          rw (get-cas action_key id p (finish_row now o m st) rs j (λ _. refl), e)
            (ground (arith, before))
    ]

drop-Spent :
    (id : String) (rs : List Action) (j : String) (n : ℕ)
    → IsKeyed action_key rs
    → Spent n (triage_action_get j rs)
    → Spent n (triage_action_get j (triage_action_delete_reserved id rs))
unfolding triage_action_get triage_action_delete_reserved
drop-Spent id rs j n keyed h = elim (Option-cases (get action_key j rs)) [
  | inl e ↦
      rw (get-delete_where action_key j (λ r. r.action_id == id && r.phase == reserved) rs keyed, e)
        (rw e at h)
  | inr (r, e) ↦
      let before : Spent n (some r) = rw e at h in
      rw (get-delete_where action_key j (λ r. r.action_id == id && r.phase == reserved) rs keyed, e)
        (ground (arith, before, eq_of_test r.phase reserved))
]

reserve-Spent :
    (id project report : String) (kind : Kind) (mode : Option AnalysisMode) (user : Option String)
    (rs : List Action) (j : String) (n : ℕ)
    → Spent n (triage_action_get j rs)
    → Spent n (triage_action_get j (triage_action_reserve id project report kind mode user rs).0)
unfolding triage_action_get triage_action_reserve
reserve-Spent id project report kind mode user rs j n h =
    let new = new_action id project report kind mode user in
    elim (Option-cases (get action_key id rs)) [
      | inr (s, e) ↦ rw e h
      | inl e ↦ elim (Option-cases (get action_key j rs)) [
        | inr (r, g) ↦ rw (e, get-append_some action_key j rs new r g) (rw g at h)
        | inl g ↦
            let zero_yet : n ≡ 0 = rw g at h in
            rw (e, get-append action_key j rs new g) (ground (arith, zero_yet))
      ]
    ]

Write-Spent :
    {rs ss : List Action} (j : String) (n : ℕ)
    → IsKeyed action_key rs
    → Write rs ss
    → Spent n (triage_action_get j rs)
    → Spent n (triage_action_get j ss)
Write-Spent {rs} j n keyed (reserve id project report kind mode user) h =
    reserve-Spent id project report kind mode user rs j n h
Write-Spent {rs} j n keyed (drop id) h = drop-Spent id rs j n keyed h
Write-Spent {rs} j n keyed (note id expected fields hp hs hn) h =
    note-Spent id expected fields rs j n hp hn.0 h
Write-Spent {rs} j n keyed (authorize id fields pins retry hp hl hn once) h =
    authorize-Spent id fields rs j n hp h
Write-Spent {rs} j n keyed (move id {p} {q} fields m hr hp hn) h =
    move-Spent id p q fields rs j n hr hp hn.0 h
Write-Spent {rs} j n keyed (finish now id outcome message steps expected) h =
    finish-Spent now id outcome message steps expected rs j n h

started_row-Spent :
    (now : ℕ) (row : Action) (n : ℕ)
    → MayStart row
    → Spent n (some row)
    → Spent (suc n) (some (set_fields (started_fields now) row))
unfolding set_fields
started_row-Spent now row n (first e) h =
    let zero_yet : n ≡ 0 = h.0 (rw e (omega arith)) in ground (arith, zero_yet)
started_row-Spent now row n (retried e free) h = ground (arith, free)

own-Spent :
    (now : ℕ) (row : Action) (rs : List Action) (n : ℕ)
    → triage_action_get row.action_id rs ≡ some row
    → MayStart row
    → Spent n (triage_action_get row.action_id rs)
    → Spent (suc n) (
        triage_action_get row.action_id
          (triage_action_update row.action_id (some row.phase) (started_fields now) rs).0)
unfolding triage_action_get triage_action_update set_fields
own-Spent now row rs n found may h =
    let after =
      get-cas_won action_key row.action_id (in_phase (some row.phase))
        (set_fields (started_fields now)) rs row (λ _. refl) found (==-self row.phase) in
    subst (Spent (suc n)) (sym after) (started_row-Spent now row n may (subst (Spent n) found h))

-- The task of an action that may start: the row becomes dispatched and has one task more.
start-Spent :
    (now : ℕ) (row : Action) (rs : List Action) (ids : List String) (j : String)
    → triage_action_get row.action_id rs ≡ some row
    → MayStart row
    → Spent (tasks_of j ids) (triage_action_get j rs)
    → Spent (tasks_of j (row.action_id ∷ ids)) (
        triage_action_get j
          (triage_action_update row.action_id (some row.phase) (started_fields now) rs).0)
unfolding triage_action_get triage_action_update set_fields row_count
start-Spent now row rs ids j found may h = elim (Bool-cases (row.action_id == j)) [
  | inr ne ↦
      let same : tasks_of j (row.action_id ∷ ids) ≡ tasks_of j ids = rw ne refl in
      rw same (
        update-Spent row.action_id (some row.phase) (started_fields now) rs j (tasks_of j ids)
          (λ r hit m k. ground (arith, k)) h)
  | inl own ↦
      let e : row.action_id ≡ j = eq_of_test row.action_id j own in
      let more : tasks_of j (row.action_id ∷ ids) ≡ suc (tasks_of j ids) = rw own refl in
      rw more (
        subst
          (λ k. Spent (suc (tasks_of j ids)) (
            triage_action_get k
              (triage_action_update row.action_id (some row.phase) (started_fields now) rs).0))
          e
          (own-Spent now row rs (tasks_of j ids) found may
            (subst (λ k. Spent (tasks_of j ids) (triage_action_get k rs)) (sym e) h)))
]

-- An LLM task is created at most once for an action that may not be retried.
pub Trace-Spent :
    {rs : List Action} {ids : List String} {ss : List Action} {js : List String}
    → IsKeyed action_key rs
    → Trace rs ids ss js
    → AllSpent rs ids
    → AllSpent ss js
Trace-Spent keyed here h = h
Trace-Spent keyed (wrote {ss} {ts} {js} t w) h = λ j.
    Write-Spent j (tasks_of j js) (Steps-IsKeyed (Trace-Steps t) keyed) w (Trace-Spent keyed t h j)
Trace-Spent keyed (started {ss} {js} now row t found may) h =
    λ j. start-Spent now row ss js j found may (Trace-Spent keyed t h j)

-- The writes of an executor, beside the tasks that it has created.
abbrev pub Run : List Action → List String → State → Type 0
Run rs ids st = Trace rs ids st.actions st.llm_tasks
