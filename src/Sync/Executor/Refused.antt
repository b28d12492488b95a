-- ===== src/Sync/Executor/Refused.antt =====
-- sync/triage_sync.py: what a claimed action may start, and an action that the authorization refuses.
use bugalizer.Prelude.{
  ℕ, ◌≡◌, refl, ap, ◌∙◌, ◌⊎◌, Bool, true, not, ◌&&◌, ◌||◌, List, Option, if_lem, if◌then◌else◌,
  nat_beq, arith, none, some, String, string_eq, Bool-cases, IsKeyed, inl, inr, cas, cas-won,
  get-cas_won,
}
use bugalizer.Store.{Project, Report}
use bugalizer.Store.Reports.{report_get}
use bugalizer.Ledger.{
  Kind, reserved, action_phase_eq, refused, Action, action_key, triage_action_get,
  triage_action_delete_reserved, triage_action_finish, finish_row, unfinished, in_phase,
}
use bugalizer.Sync.Actions.{Refusal, is_compound, authorize}
use bugalizer.Sync.Expiry.{ActionResult, finish}
use bugalizer.Sync.Outcomes.{step_result}
use bugalizer.Sync.Executor.{
  Settings, State, with_actions, end_action, unless_running, task_running,
}
use bugalizer.Sync.Executor.Handle.{Listed, report_of, authorized_on, decided, claim_answered}

-- A finish from the phase that the row is in is written.
finished_row :
    (now : ℕ) (id : String) (r : ActionResult) (rs : List Action) (row : Action)
    → IsKeyed action_key rs
    → triage_action_get id rs ≡ some row
    → row.phase ≡ reserved
    → r.pr_url ≡ none
    → triage_action_get id (finish now id r (some reserved) rs).0
      ≡ some (finish_row now r.outcome r.message r.steps row)
unfolding finish triage_action_get triage_action_finish
finished_row now id r rs row keyed found here no_url =
    let p : Action → Bool = λ r. unfinished r && in_phase (some reserved) r in
    let f = finish_row now r.outcome r.message r.steps in
    let passes : p row ≡ true = rw here refl in
    let won : (cas action_key id p f rs).1 ≡ true =
      cas-won action_key id p f rs keyed ∙ rw found passes in
    rw (won, no_url) (get-cas_won action_key id p f rs row (λ _. refl) found passes)

no_url : (kind : Kind) (message : String) → (step_result kind refused message).pr_url ≡ none
unfolding step_result
no_url kind message = elim (Bool-cases (is_compound kind)) [ inl e ↦ rw e refl | inr e ↦ rw e refl ]

is_refused : (kind : Kind) (message : String) → (step_result kind refused message).outcome ≡ refused
unfolding step_result
is_refused kind message = elim (Bool-cases (is_compound kind)) [
  | inl e ↦ rw e refl
  | inr e ↦ rw e refl
]

-- The release of a slot writes no table.
released :
    (id : String) (st : State)
    → ((unless_running id st).actions ≡ st.actions)
      × ((unless_running id st).llm_tasks ≡ st.llm_tasks)
      × ((unless_running id st).db ≡ st.db)
released id st = elim (Bool-cases (task_running id st.holds)) [
  | inl e ↦ rw e (refl, refl, refl)
  | inr e ↦ rw e (refl, refl, refl)
]

-- When sonicgrid grants the claim of a reserved action that the authorization refuses, the action is finished as
-- refused straight from its reservation: no LLM task is created and the other tables are as they were.
pub refused_runs_nothing :
    (cfg : Settings) (now : ℕ) (project : Project) (a : Listed) (st : State) (row : Action)
    (report : Report) (why : Refusal)
    → IsKeyed action_key st.actions
    → triage_action_get a.action_id st.actions ≡ some row
    → row.phase ≡ reserved
    → report_get row.report_id st.db.reports ≡ some report
    → (authorize cfg.sync st.db project report a.request).refusal ≡ some why
    → (triage_action_get a.action_id (claim_answered cfg now project a 200 st).actions
        ≡ some (
            finish_row now refused
              (step_result a.request.kind refused (cfg.say why)).message
              (step_result a.request.kind refused (cfg.say why)).steps
              row))
      × ((claim_answered cfg now project a 200 st).llm_tasks ≡ st.llm_tasks)
      × ((claim_answered cfg now project a 200 st).db ≡ st.db)
unfolding claim_answered
refused_runs_nothing cfg now project a st row report why keyed found here reported refusal =
    let id = a.action_id in
    let result = step_result a.request.kind refused (cfg.say why) in
    let s = end_action now id result (some reserved) st in
    let row_report : report_of (triage_action_get id st.actions) st.db.reports ≡ some report =
      ap (λ o. report_of o st.db.reports) found ∙ reported in
    let inner : authorized_on cfg now project a
          (report_of (triage_action_get id st.actions) st.db.reports) st
        ≡ s =
      ap (λ o. authorized_on cfg now project a o st) row_report
      ∙ ap
          (λ o.
            decided cfg now id a.request.kind (authorize cfg.sync st.db project report a.request) o
              st)
          refusal in
    let after = λ (x : State). unless_running id x in
    let (acts, tasks, tables) = released id s in
    (
      ap (λ x. triage_action_get id (after x).actions) inner
          ∙ ap (triage_action_get id) acts
          ∙ finished_row now id result st.actions row keyed found here
              (no_url a.request.kind (cfg.say why))
          ∙ ap (λ o. some (finish_row now o result.message result.steps row))
              (is_refused a.request.kind (cfg.say why)),
      ap (λ x. (after x).llm_tasks) inner ∙ tasks,
      ap (λ x. (after x).db) inner ∙ tables,
    )

-- sonicgrid granted the claim, and the authorization, asked on the report of the action's row, does not refuse.
pub record IsPermitted (cfg : Settings) (project : Project) (a : Listed) (status : ℕ) (st : State)
    : Type 0 where
  pub row : Action
  pub report : Report
  pub granted : status ≡ 200
  pub of_action : triage_action_get a.action_id st.actions ≡ some row
  pub of_row : report_get row.report_id st.db.reports ≡ some report
  pub allowed : (authorize cfg.sync st.db project report a.request).refusal ≡ none

-- Whatever sonicgrid answers to the claim of an action, either the LLM tasks and the tables of the pipeline stay as
-- they were, or it granted the claim and the authorization of the action, on its report as it is now, does not refuse.
pub claim_runs-IsPermitted :
    (cfg : Settings) (now : ℕ) (project : Project) (a : Listed) (status : ℕ) (st : State)
    → (((claim_answered cfg now project a status st).llm_tasks ≡ st.llm_tasks)
        × ((claim_answered cfg now project a status st).db ≡ st.db))
      ⊎ IsPermitted cfg project a status st
unfolding claim_answered
claim_runs-IsPermitted cfg now project a status st =
    let gone = with_actions (triage_action_delete_reserved a.action_id st.actions) st in
    when_let_go
      (if nat_beq status 404 || nat_beq status 409
        then gone
        else if not (nat_beq status 200)
        then st
        else authorized_on cfg now project a found st)
      (if_lem P (nat_beq status 404 || nat_beq status 409) gone
        (if not (nat_beq status 200) then st else authorized_on cfg now project a found st)
        (λ _. inl (refl, refl))
        (λ _.
          if_lem P (not (nat_beq status 200)) st (authorized_on cfg now project a found st)
            (λ _. inl (refl, refl))
            (λ e. by_row (ground (arith, e)) (triage_action_get a.action_id st.actions) refl)))
  where
    P : State → Type 0
    P s = ((s.llm_tasks ≡ st.llm_tasks) × (s.db ≡ st.db)) ⊎ IsPermitted cfg project a status st

    found : Option Report
    found = report_of (triage_action_get a.action_id st.actions) st.db.reports

    when_let_go : (s : State) → P s → P (unless_running a.action_id s)
    when_let_go s (inr p) = inr p
    when_let_go s (inl (tasks, tables)) =
        let (_, tasks', tables') = released a.action_id s in inl (tasks' ∙ tasks, tables' ∙ tables)

    by_refusal :
        (row : Action) (report : Report) (o : Option Refusal)
        → status ≡ 200
        → triage_action_get a.action_id st.actions ≡ some row
        → report_get row.report_id st.db.reports ≡ some report
        → (authorize cfg.sync st.db project report a.request).refusal ≡ o
        → P (
            decided cfg now a.action_id a.request.kind
              (authorize cfg.sync st.db project report a.request)
              o
              st)
    by_refusal row report (some why) ok f g e = inl (refl, refl)
    by_refusal row report none ok f g e = inr (record {
      row = row;
      report = report;
      granted = ok;
      of_action = f;
      of_row = g;
      allowed = e;
    })

    by_report :
        (row : Action) (o : Option Report)
        → status ≡ 200
        → triage_action_get a.action_id st.actions ≡ some row
        → report_get row.report_id st.db.reports ≡ o
        → P (authorized_on cfg now project a o st)
    by_report row none ok f g = inl (refl, refl)
    by_report row (some report) ok f g =
        by_refusal row report (authorize cfg.sync st.db project report a.request).refusal ok f g
          refl

    by_row :
        status ≡ 200
        → (o : Option Action) → triage_action_get a.action_id st.actions ≡ o
        → P (authorized_on cfg now project a (report_of o st.db.reports) st)
    by_row ok none f = inl (refl, refl)
    by_row ok (some row) f = by_report row (report_get row.report_id st.db.reports) ok f refl
