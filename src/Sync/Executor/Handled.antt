-- ===== src/Sync/Executor/Handled.antt =====
-- sync/triage_sync.py: the handler of a listed action, with its recovery and the answer to its claim, as a
-- chain of the ledger's writes.
use mathlib.Core.Option.{some-injective}
use bugalizer.Prelude.{
  ℕ, ◌≡◌, refl, ap, sym, ◌∙◌, subst, ◌⊎◌, inl, inr, true, false, not, ◌&&◌, ◌||◌, List, Option,
  none, some, String, ◌==◌, string_eq, nat_beq, Bool-cases, Option-cases, eq_of_test, if◌then◌else◌,
  if_lem, get-key, IsKeyed, get, cas, get-cas_won, cas_won_row, first_where, get, cas, get-cas_won,
  cas_won_row,
}
use bugalizer.Store.{Project, Report, is_text}
use bugalizer.Ledger.{
  Kind, ActionPhase, reserved, intent, dispatched, fix_done, finished, action_phase_eq, Action,
  action_key, triage_action_get, in_phase, set_fields, triage_action_reserve,
  triage_action_delete_reserved, triage_action_update,
}
use bugalizer.Ledger.Once.{Move}
use bugalizer.Sync.Actions.{Refusal, Authorization, authorize}
use bugalizer.Sync.Actions.Authorized.{authorize-MaySpend}
use bugalizer.Sync.Slots.{try_hold}
use bugalizer.Sync.Expiry.{ActionResult, timed_out, timeout_result}
use bugalizer.Sync.Outcomes.{evidence, stage_claim_held, unconfirmed_failure}
use bugalizer.Sync.Executor.{
  Settings, State, with_actions, with_holds, end_action, unless_running, task_running, spawn_pr,
  checkpoint_fix, or_blank, is_checkpoint,
}
use bugalizer.Sync.Executor.Handle.{
  Listed, Awaits, nothing, claim_answer, intend_fields, dispatch, is_llm_kind, is_paid_kind, rerun,
  on_hold, apply_evidence, without_evidence, on_evidence, recover, intend, granted, dispatch_row,
  decided, authorized_on, report_of, claim_answered, taken, handle_new, hold_reserved, handle_row,
  handle,
}
use bugalizer.Sync.Executor.Traced.{Trace, wrote, MayStart, first, retried, Run, PinsOnce}
use bugalizer.Sync.Executor.Traced as T
use bugalizer.Sync.Executor.Traces.{
  end-Run, checkpoint-Run, dispatch-Run, rerun-Run, unless_running-Run, on_hold-Run,
}

-- The phases that recovery looks for evidence in.
abbrev WaitsForEvidence : Action → Type 0
WaitsForEvidence row = (row.phase ≡ intent) ⊎ (row.phase ≡ dispatched)

to_checkpoint : (p : ActionPhase) → (p ≡ intent) ⊎ (p ≡ dispatched) → Move p fix_done
to_checkpoint p (inl e) = rw e Move.recovered
to_checkpoint p (inr e) = rw e Move.checked

may_start : (row : Action) → WaitsForEvidence row → row.no_auto_retry ≡ false → MayStart row
may_start row (inl e) h = first e
may_start row (inr e) h = retried e h

-- A row stands under its own key.
own_key :
    (id : String) (rs : List Action) (row : Action)
    → triage_action_get id rs ≡ some row
    → triage_action_get row.action_id rs ≡ some row
unfolding triage_action_get
own_key id rs row found =
    subst (λ k. triage_action_get k rs ≡ some row) (sym (get-key action_key id rs row found)) found

-- The row of an action that was granted is in the phase that the grant wrote.
granted_phase :
    (now : ℕ) (id : String) (auth : Authorization) (st : State) (row : Action)
    → IsKeyed action_key st.actions
    → (intend now id auth st).1 ≡ true
    → triage_action_get id (intend now id auth st).0.actions ≡ some row
    → row.phase ≡ intent
unfolding triage_action_get triage_action_update set_fields
granted_phase now id auth st row keyed won found =
    let f = set_fields (intend_fields now auth) in
    let p = in_phase (some reserved) in
    let (r, there, e) = cas_won_row action_key id p f st.actions keyed won in
    let after : get action_key id (cas action_key id p f st.actions).0 ≡ some (f r) =
      get-cas_won action_key id p f st.actions r (λ _. refl) there e in
    ap (λ x. x.phase) (sym (some-injective (f r) row (sym after ∙ found)))

module _ (rs : List Action) (ids : List String) where
  evidence-Run :
      (cfg : Settings) (now : ℕ) (row : Action) (found : ActionResult) (st : State)
      → WaitsForEvidence row
      → Run rs ids st
      → Run rs ids (apply_evidence cfg now row found st)
  evidence-Run cfg now row found st waits t =
      let kept = checkpoint_fix row.action_id (or_blank found.proposal_id) row.phase st in
      let k : Run rs ids kept.0 =
        checkpoint-Run rs ids row.action_id (or_blank found.proposal_id) st
          (to_checkpoint row.phase waits) t in
      elim (Bool-cases (is_checkpoint found.outcome)) [
        | inr e ↦ rw e (end-Run rs ids now row.action_id found (some row.phase) st t)
        | inl e ↦ elim (Bool-cases kept.1) [
          | inr g ↦ rw (e, g) k
          | inl g ↦
              rw (e, g)
                (on_hold-Run rs ids cfg row false (λ s. spawn_pr row.action_id s) kept.0 (λ _. k) k)
        ]
      ]

  -- Without evidence, only an action that may be retried is dispatched.
  without-Run :
      (cfg : Settings) (now : ℕ) (row : Action) (st : State)
      → triage_action_get row.action_id st.actions ≡ some row
      → WaitsForEvidence row
      → Run rs ids st
      → Run rs ids (without_evidence cfg now row st)
  without-Run cfg now row st found waits t =
      elim (Bool-cases (row.phase == dispatched && stage_claim_held row.report_id st.db.reports)) [
        | inl a ↦ rw a t
        | inr a ↦
            elim (Bool-cases (
              row.phase == intent
              && (cfg.sync.sonicgrid_user_keys
                  && is_paid_kind row.kind
                  && not row.requester_key))) [
                    | inl b ↦ rw (a, b) (end-Run rs ids now row.action_id _ (some row.phase) st t)
                    | inr b ↦
                        let next : State → State =
                          λ s. unless_running row.action_id (dispatch cfg now row s) in
                        let give_over =
                          end_action now row.action_id (unconfirmed_failure row.kind)
                            (some row.phase) st in
                        rw (a, b)
                          (if_lem (Run rs ids) row.no_auto_retry give_over
                            (on_hold cfg row (is_llm_kind row.kind) next st)
                            (λ c. end-Run rs ids now row.action_id _ (some row.phase) st t)
                            (λ c.
                              on_hold-Run rs ids cfg row (is_llm_kind row.kind) next st
                                (λ hs.
                                  unless_running-Run rs ids row.action_id
                                    (dispatch cfg now row (with_holds hs st))
                                    (dispatch-Run rs ids cfg now row (with_holds hs st) found
                                      (may_start row waits c) t))
                                t))
                  ]
      ]

  pub recover-Run :
      (cfg : Settings) (now : ℕ) (row : Action) (st : State)
      → triage_action_get row.action_id st.actions ≡ some row
      → Run rs ids st
      → Run rs ids (recover cfg now row st)
  unfolding recover
  recover-Run cfg now row st found t = elim (Bool-cases (timed_out cfg.bound now row)) [
    | inl a ↦ rw a (end-Run rs ids now row.action_id _ none st t)
    | inr a ↦ elim (Bool-cases (row.phase == fix_done)) [
      | inl b ↦
          rw (a, b) (on_hold-Run rs ids cfg row false (λ s. spawn_pr row.action_id s) st (λ _. t) t)
      | inr b ↦ elim (Bool-cases (row.phase == dispatched && not (is_llm_kind row.kind))) [
        | inl c ↦
            rw (a, b, c)
              (on_hold-Run rs ids cfg row false (λ s. rerun cfg now row s) st
                (λ hs. rerun-Run rs ids cfg now row (with_holds hs st) t) t)
        | inr c ↦ elim (Bool-cases (row.phase == intent || row.phase == dispatched)) [
          | inr d ↦ rw (a, b, c, d) t
          | inl d ↦ rw (a, b, c, d) (by_evidence (waits d) (evidence st.db row))
        ]
      ]
    ]
  ]
    where
      waits : (row.phase == intent || row.phase == dispatched) ≡ true → WaitsForEvidence row
      waits d = elim (Bool-cases (row.phase == intent)) [
        | inl e ↦ inl (eq_of_test row.phase intent e)
        | inr e ↦ inr (eq_of_test row.phase dispatched (rw e at d))
      ]

      by_evidence :
          WaitsForEvidence row
          → (o : Option ActionResult) → Run rs ids (on_evidence cfg now row o st)
      by_evidence w none = without-Run cfg now row st found w t
      by_evidence w (some r) = evidence-Run cfg now row r st w t

  -- A grant: the row that is read again after the write is in the phase intent.
  intend-Run :
      (now : ℕ) (id : String) (auth : Authorization) (st : State)
      → PinsOnce auth.pinned auth.no_auto_retry
      → Run rs ids st
      → Run rs ids (intend now id auth st).0
  intend-Run now id auth st once t =
      wrote t
        (T.authorize id (intend_fields now auth) auth.pinned auth.no_auto_retry refl refl refl once)

  -- The rows that the grant reads again: under the key of the action, in the phase that it wrote.
  granted-Run :
      (cfg : Settings) (now : ℕ) (id : String) (auth : Authorization) (st : State)
      → IsKeyed action_key st.actions
      → PinsOnce auth.pinned auth.no_auto_retry
      → Run rs ids st
      → Run rs ids (granted cfg now id (intend now id auth st))
  granted-Run cfg now id auth st keyed once t =
      let (st', won) = intend now id auth st in
      let t' : Run rs ids st' = intend-Run now id auth st once t in
      if_lem (Run rs ids) won (dispatch_row cfg now (triage_action_get id st'.actions) st') st'
        (λ e. by_row (triage_action_get id st'.actions) refl e t') (λ _. t')
    where
      by_row :
          (o : Option Action)
          → triage_action_get id (intend now id auth st).0.actions ≡ o
          → (intend now id auth st).1 ≡ true
          → Run rs ids (intend now id auth st).0
          → Run rs ids (dispatch_row cfg now o (intend now id auth st).0)
      by_row none found won t' = t'
      by_row (some row) found won t' =
          let st' = (intend now id auth st).0 in
          dispatch-Run rs ids cfg now row st' (own_key id st'.actions row found)
            (first (granted_phase now id auth st row keyed won found)) t'

  decided-Run :
      (cfg : Settings) (now : ℕ) (id : String) (kind : Kind) (auth : Authorization)
      (o : Option Refusal) (st : State)
      → IsKeyed action_key st.actions
      → (o ≡ none → PinsOnce auth.pinned auth.no_auto_retry)
      → Run rs ids st
      → Run rs ids (decided cfg now id kind auth o st)
  decided-Run cfg now id kind auth (some why) st keyed once t =
      end-Run rs ids now id _ (some reserved) st t
  decided-Run cfg now id kind auth none st keyed once t =
      granted-Run cfg now id auth st keyed (once refl) t

  authorized-Run :
      (cfg : Settings) (now : ℕ) (project : Project) (a : Listed) (o : Option Report) (st : State)
      → IsKeyed action_key st.actions
      → Run rs ids st
      → Run rs ids (authorized_on cfg now project a o st)
  authorized-Run cfg now project a none st keyed t = t
  authorized-Run cfg now project a (some r) st keyed t =
      let auth = authorize cfg.sync st.db project r a.request in
      decided-Run cfg now a.action_id a.request.kind auth auth.refusal st keyed
        (λ granted pin fixed paid.
          (authorize-MaySpend cfg.sync st.db project r a.request pin granted fixed).once paid)
        t

  pub claim-Run :
      (cfg : Settings) (now : ℕ) (project : Project) (a : Listed) (status : ℕ) (st : State)
      → IsKeyed action_key st.actions
      → Run rs ids st
      → Run rs ids (claim_answered cfg now project a status st)
  unfolding claim_answered
  claim-Run cfg now project a status st keyed t =
      let gone : State = with_actions (triage_action_delete_reserved a.action_id st.actions) st in
      let report = report_of (triage_action_get a.action_id st.actions) st.db.reports in
      let authorized = authorized_on cfg now project a report st in
      unless_running-Run rs ids a.action_id _ (
        if_lem (Run rs ids) (nat_beq status 404 || nat_beq status 409) gone
          (if not (nat_beq status 200) then st else authorized) (λ _. wrote t (T.drop a.action_id))
          (λ _.
            if_lem (Run rs ids) (not (nat_beq status 200)) st authorized (λ _. t)
              (λ _. authorized-Run cfg now project a report st keyed t)))

  taken-Run :
      (project : Project) (a : Listed) (r : Report) (st : State)
      → Run rs ids st
      → Run rs ids (taken project a r st).0
  taken-Run project a r st t =
      let inserted =
        triage_action_reserve a.action_id project.id r.id a.request.kind a.request.mode a.user_id
          st.actions in
      let t' : Trace rs ids inserted.0 st.llm_tasks =
        wrote t (T.reserve a.action_id project.id r.id a.request.kind a.request.mode a.user_id) in
      elim (Bool-cases inserted.1) [ inl e ↦ rw e t' | inr e ↦ rw e t' ]

  new-Run :
      (cfg : Settings) (project : Project) (a : Listed) (o : Option Report) (st : State)
      → Run rs ids st
      → Run rs ids (handle_new cfg project a o st).0
  new-Run cfg project a none st t = t
  new-Run cfg project a (some r) st t =
      let held =
        try_hold cfg.triage_max_concurrent a.action_id r.id (is_llm_kind a.request.kind) st.holds in
      elim (Bool-cases held.1) [
        | inl e ↦ rw e (taken-Run project a r (with_holds held.0 st) t)
        | inr e ↦ rw e t
      ]

  abbrev Began : State × Awaits → Type 0
  Began x = Run rs ids x.0

  row-Run :
      (cfg : Settings) (now : ℕ) (row : Action) (st : State)
      → triage_action_get row.action_id st.actions ≡ some row
      → Run rs ids st
      → Run rs ids (handle_row cfg now row st).0
  row-Run cfg now row st found t =
      let running = task_running row.action_id st.holds in
      let late = not (row.phase == finished) && timed_out cfg.bound now row in
      let over = end_action now row.action_id (timeout_result cfg.timeout_message row) none st in
      let held =
        try_hold cfg.triage_max_concurrent row.action_id row.report_id (is_llm_kind row.kind)
          st.holds in
      if_lem Began (row.phase == finished || running)
        (if running && late then (over, nothing) else (st, nothing))
        (if row.phase == reserved
          then hold_reserved cfg row st
          else (recover cfg now row st, nothing))
        (λ _.
          if_lem Began (running && late) (over, nothing) (st, nothing)
            (λ _. end-Run rs ids now row.action_id _ none st t) (λ _. t))
        (λ _.
          if_lem Began (row.phase == reserved) (hold_reserved cfg row st)
            (recover cfg now row st, nothing)
            (λ _.
              if_lem Began held.1 (with_holds held.0 st, claim_answer) (st, nothing) (λ _. t)
                (λ _. t))
            (λ _. recover-Run cfg now row st found t))

  pub handle-Run :
      (cfg : Settings) (now : ℕ) (project : Project) (a : Listed) (st : State)
      → Run rs ids st
      → Run rs ids (handle cfg now project a st).0
  unfolding handle
  handle-Run cfg now project a st t =
      elim (Option-cases (triage_action_get a.action_id st.actions)) [
        | inl e ↦ rw e (
            new-Run cfg project a
              (first_where
                (λ r. r.project_id == project.id && is_text r.external_id (some a.bug_id))
                st.db.reports)
              st t)
        | inr (row, e) ↦ rw e (row-Run cfg now row st (own_key a.action_id st.actions row e) t)
      ]
