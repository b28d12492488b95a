-- ===== src/Sync/Executor/Paid.antt =====
-- sync/triage_sync.py: how often a paid model is asked for an action.
use mathlib.Core.Option.{some-injective}
use bugalizer.Prelude.{
  ℕ, ◌≤◌, ◌≡◌, refl, ap, sym, ◌∙◌, subst, inl, inr, Bool, true, ◌&&◌, List, [], ◌∷◌, Option, some,
  String, ◌==◌, string_eq, Bool-cases, Option-cases, IsKeyed, get, IsIn, IsIn-update_where,
  IsIn-delete_where, IsIn-append, get_of_IsIn, when_key, row_count,
}
use bugalizer.Store.{AnalysisMode}
use bugalizer.Store.Reports.{or_keep}
use bugalizer.Ledger.{
  Kind, Action, action_key, triage_action_get, new_action, triage_action_reserve, in_phase, or_old,
  unfinished, finish_row, triage_action_delete_reserved, Fields, set_fields, triage_action_update,
  triage_action_finish, Pin, Pins, reserved, action_phase_eq, ActionPhase, Outcome, Step,
}
use bugalizer.Ledger.Once.{Steps-IsKeyed}
use bugalizer.Sync.Actions.{is_paid}
use bugalizer.Sync.Executor.{Settings, State}
use bugalizer.Sync.Executor.Traced.{
  Write, Trace, here, wrote, started, started_fields, Quiet, PinsOnce, tasks_of, AllSpent,
  Trace-Spent, Trace-Steps, Spent,
}
use bugalizer.Sync.Executor.Traced as T
use bugalizer.Sync.Executor.Runs.{Runs, Runs-Run}

-- A row whose fix stage is pinned to a paid model may not be retried.
abbrev PaysOnce : Action → Type 0
PaysOnce r = (pins : Pins) → r.pinned_llm ≡ some pins → PinsOnce pins r.no_auto_retry

abbrev AllPayOnce : List Action → Type 0
AllPayOnce rs = (r : Action) → IsIn r rs → PaysOnce r

update-PaysOnce :
    (id : String) (expected : Option ActionPhase) (f : Fields) (rs : List Action)
    → ((r : Action) → PaysOnce r → PaysOnce (set_fields f r))
    → AllPayOnce rs
    → AllPayOnce (triage_action_update id expected f rs).0
unfolding triage_action_update set_fields
update-PaysOnce id expected f rs keeps h r m =
    let (s, n, e) =
      IsIn-update_where (when_key action_key id (in_phase expected)) (set_fields f) r rs m in
    subst PaysOnce e (elim (Bool-cases (when_key action_key id (in_phase expected) s)) [
      | inl hit ↦ rw hit (keeps s (h s n))
      | inr miss ↦ rw miss (h s n)
    ])

Quiet-PaysOnce : (f : Fields) (r : Action) → Quiet f → PaysOnce r → PaysOnce (set_fields f r)
unfolding set_fields
Quiet-PaysOnce f r q h pins pinned =
    subst (PinsOnce pins) (sym (ap (λ o. or_old o r.no_auto_retry) q.0))
      (h pins (ap (λ o. or_keep o r.pinned_llm) (sym q.1) ∙ pinned))

granted-PaysOnce :
    (f : Fields) (pins : Pins) (retry : Bool) (r : Action)
    → f.pinned_llm ≡ some pins
    → f.no_auto_retry ≡ some retry
    → PinsOnce pins retry
    → PaysOnce (set_fields f r)
unfolding set_fields
granted-PaysOnce f pins retry r hl hn once pins' pinned =
    let same : pins ≡ pins' =
      some-injective pins pins' (ap (λ o. or_keep o r.pinned_llm) (sym hl) ∙ pinned) in
    subst (λ p. PinsOnce p (or_old f.no_auto_retry r.no_auto_retry)) same
      (subst (PinsOnce pins) (sym (ap (λ o. or_old o r.no_auto_retry) hn)) once)

finish-PaysOnce :
    (now : ℕ) (id : String) (o : Outcome) (m : Option String) (st : Option (List Step))
    (expected : Option ActionPhase) (rs : List Action)
    → AllPayOnce rs
    → AllPayOnce (triage_action_finish now id o m st expected rs).0
unfolding triage_action_finish
finish-PaysOnce now id o m st expected rs h r n =
    let p = when_key action_key id (λ r. unfinished r && in_phase expected r) in
    let (s, k, e) = IsIn-update_where p (finish_row now o m st) r rs n in
    subst PaysOnce e
      (elim (Bool-cases (p s)) [ inl hit ↦ rw hit (h s k) | inr miss ↦ rw miss (h s k) ])

reserve-PaysOnce :
    (id project report : String) (kind : Kind) (mode : Option AnalysisMode) (user : Option String)
    (rs : List Action)
    → AllPayOnce rs
    → AllPayOnce (triage_action_reserve id project report kind mode user rs).0
unfolding triage_action_reserve
reserve-PaysOnce id project report kind mode user rs h =
    let new = new_action id project report kind mode user in
    elim (Option-cases (get action_key id rs)) [
      | inr (s, e) ↦ rw e h
      | inl e ↦ rw e (λ r m. elim (IsIn-append r rs (new ∷ []) m) [
        | inl old ↦ h r old
        | inr (inl g) ↦ subst PaysOnce g (λ pins pinned pin fixed paid. cc)
        | inr (inr g) ↦ absurd g
      ])
    ]

Write-PaysOnce : {rs ss : List Action} → Write rs ss → AllPayOnce rs → AllPayOnce ss
unfolding triage_action_delete_reserved
Write-PaysOnce {rs} (T.reserve id project report kind mode user) h =
    reserve-PaysOnce id project report kind mode user rs h
Write-PaysOnce {rs} (T.drop id) h =
    λ r m. h r (IsIn-delete_where (λ r. r.action_id == id && r.phase == reserved) r rs m)
Write-PaysOnce {rs} (T.note id expected fields hp hs hn) h =
    update-PaysOnce id expected fields rs (λ r k. Quiet-PaysOnce fields r hn k) h
Write-PaysOnce {rs} (T.authorize id fields pins retry hp hl hn once) h =
    update-PaysOnce id (some reserved) fields rs
      (λ r k. granted-PaysOnce fields pins retry r hl hn once) h
Write-PaysOnce {rs} (T.move id {p} {q} fields m hr hp hn) h =
    update-PaysOnce id (some p) fields rs (λ r k. Quiet-PaysOnce fields r hn k) h
Write-PaysOnce {rs} (T.finish now id outcome message steps expected) h =
    finish-PaysOnce now id outcome message steps expected rs h

Trace-PaysOnce :
    {rs : List Action} {ids : List String} {ss : List Action} {js : List String}
    → Trace rs ids ss js
    → AllPayOnce rs
    → AllPayOnce ss
Trace-PaysOnce here h = h
Trace-PaysOnce (wrote t w) h = Write-PaysOnce w (Trace-PaysOnce t h)
Trace-PaysOnce (started {ss} {js} now row t found may) h =
    update-PaysOnce row.action_id (some row.phase) (started_fields now) ss
      (λ r k. Quiet-PaysOnce (started_fields now) r (refl, refl) k) (Trace-PaysOnce t h)

-- From an empty ledger, in whatever order the executor's stretches run, crashes and restarts included, an action
-- whose fix stage is pinned to a paid model is given to the model's task at most once.
pub paid_model_once :
    (cfg : Settings) (st st' : State) (row : Action) (pins : Pins) (pin : Pin)
    → Runs cfg st st'
    → st.actions ≡ []
    → st.llm_tasks ≡ []
    → IsIn row st'.actions
    → row.pinned_llm ≡ some pins
    → pins.fix ≡ some pin
    → is_paid pin.0 ≡ true
    → tasks_of row.action_id st'.llm_tasks ≤ 1
unfolding triage_action_get row_count get
paid_model_once cfg st st' row pins pin runs no_rows no_tasks m pinned fixed paid =
    let keyed : IsKeyed action_key st.actions = rw no_rows tt in
    let t = Runs-Run keyed runs in
    let unspent : AllSpent st.actions st.llm_tasks = λ j. rw (no_rows, no_tasks) refl in
    let none_pays : AllPayOnce st.actions = λ r k. absurd (subst (IsIn r) no_rows k) in
    let found = get_of_IsIn action_key row st'.actions (Steps-IsKeyed (Trace-Steps t) keyed) m in
    let spent =
      subst (Spent (tasks_of row.action_id st'.llm_tasks)) found
        (Trace-Spent keyed t unspent row.action_id) in
    spent.1 (Trace-PaysOnce t none_pays row m pins pinned pin fixed paid)
