-- ===== src/Sync/Expiry/Overdue.antt =====
-- sync/triage_sync.py: what the time bound leaves open.
use bugalizer.Store.Reports.{if_given}
use bugalizer.Prelude.{
  ℕ, ◌≡◌, refl, ap, sym, ◌∙◌, subst, ◌⊎◌, inl, inr, Bool, false, ◌&&◌, ◌||◌, List, [], ◌∷◌, Option,
  none, some, String, ◌==◌, string_eq, ==-self, arith, Bool-cases, IsIn, IsIn-update_where,
  IsIn-select_where, when_key, eq_of_test, select_where, select_where-IsIn,
}
use bugalizer.Ledger.{
  finished, action_phase_eq, Action, action_key, in_phase, unfinished, finish_row, Fields,
  no_fields, set_fields, triage_action_update, triage_action_finish, triage_actions_open, intent,
  dispatched, fix_done, or_old,
}
use bugalizer.Sync.Expiry.{
  ActionResult, with_url, finish, timed_out, timeout_result, expire_rows, expire_overdue,
}

-- A row that a statement about one action leaves: finished, or of another action and as it was.
abbrev pub Ended : String → List Action → Action → Type 0
Ended id rs r = (r.phase ≡ finished) ⊎ (((r.action_id == id) ≡ false) × IsIn r rs)

finish_statement-Ended :
    (now : ℕ) (id : String) (result : ActionResult) (rs : List Action) (r : Action)
    → IsIn r (triage_action_finish now id result.outcome result.message result.steps none rs).0
    → Ended id rs r
unfolding triage_action_finish
finish_statement-Ended now id result rs r m =
    let (s, n, e) =
      IsIn-update_where (when_key action_key id (λ r. unfinished r && in_phase none r))
        (finish_row now result.outcome result.message result.steps) r rs m in
    elim (Bool-cases (s.action_id == id)) [
      | inl own ↦ elim (Bool-cases (s.phase == finished)) [
        | inl f ↦
            let same : s ≡ r = rw (own, f) at e in
            inl (ap (λ t. t.phase) (sym same) ∙ eq_of_test s.phase finished f)
        | inr f ↦
            let written : finish_row now result.outcome result.message result.steps s ≡ r =
              rw (own, f) at e in
            inl (ap (λ t. t.phase) (sym written))
      ]
      | inr ne ↦
          let same : s ≡ r = rw ne at e in
          inr (subst (λ t. ((t.action_id == id) ≡ false) × IsIn t rs) same (ne, n))
    ]

-- A note on the action keeps that.
note-Ended :
    (id : String) (fields : Fields) (rs rs' : List Action) (r : Action)
    → fields.phase ≡ none
    → ((s : Action) → IsIn s rs' → Ended id rs s)
    → IsIn r (triage_action_update id none fields rs').0
    → Ended id rs r
unfolding triage_action_update set_fields
note-Ended id fields rs rs' r keep ended m =
    let (s, n, e) =
      IsIn-update_where (when_key action_key id (in_phase none)) (set_fields fields) r rs' m in
    elim (Bool-cases (s.action_id == id)) [
      | inl own ↦
          let written : set_fields fields s ≡ r = rw own at e in
          let phase : r.phase ≡ s.phase =
            ap (λ t. t.phase) (sym written) ∙ ap (λ p. or_old p s.phase) keep in
          elim (ended s n) [
            | inl f ↦ inl (phase ∙ f)
            | inr (ne, _) ↦ absurd (ground (arith, own, ne))
          ]
      | inr ne ↦ let same : s ≡ r = rw ne at e in subst (Ended id rs) same (ended s n)
    ]

finish-Ended :
    (now : ℕ) (id : String) (result : ActionResult) (rs : List Action) (r : Action)
    → IsIn r (finish now id result none rs).0
    → Ended id rs r
unfolding finish
finish-Ended now id result rs r m =
    let first = triage_action_finish now id result.outcome result.message result.steps none rs in
    elim (Bool-cases first.1) [
      | inl e ↦ url result.pr_url (rw e at m)
      | inr e ↦
          note-Ended id (record no_fields { late_outcome = some result.outcome }) rs first.0 r refl
            (finish_statement-Ended now id result rs) (rw e at m)
    ]
  where
    url :
        (o : Option String)
        → IsIn r (
            with_url id o
              (triage_action_finish now id result.outcome result.message result.steps none rs).0)
        → Ended id rs r
    url none m = finish_statement-Ended now id result rs r m
    url (some u) m = elim (Bool-cases (u == "")) [
      | inl e ↦ finish_statement-Ended now id result rs r (rw e at m)
      | inr e ↦
          note-Ended id (record no_fields { pr_url = some u }) rs
            (triage_action_finish now id result.outcome result.message result.steps none rs).0 r
            refl (finish_statement-Ended now id result rs) (rw e at m)
    ]

-- A row after the pass: finished, or one that was there, and not an overdue one of the snapshot.
expire_rows-left :
    (bound now : ℕ) (message : String) (rows rs : List Action) (r : Action)
    → IsIn r (expire_rows bound now message rows rs).0
    → (r.phase ≡ finished) ⊎ (IsIn r rs × (IsIn r rows → timed_out bound now r ≡ false))
unfolding expire_rows
expire_rows-left bound now message [] rs r m = inr (m, λ h. absurd h)
expire_rows-left bound now message (row ∷ rows) rs r m =
    elim (Bool-cases (timed_out bound now row)) [
      | inl e ↦
          let rs' = (finish now row.action_id (timeout_result message row) none rs).0 in
          elim (expire_rows-left bound now message rows rs' r (rw e at m)) [
            | inl f ↦ inl f
            | inr (k, rest) ↦
                elim (finish-Ended now row.action_id (timeout_result message row) rs r k) [
                  | inl f ↦ inl f
                  | inr (ne, there) ↦ inr (
                    there,
                    λ h. elim h [
                      | inl same ↦
                          absurd
                            (ground (arith, ne, ap (λ t. t.action_id) same, ==-self row.action_id))
                      | inr later ↦ rest later
                    ],
                  )
                ]
          ]
      | inr e ↦ elim (expire_rows-left bound now message rows rs r (rw e at m)) [
        | inl f ↦ inl f
        | inr (there, rest) ↦ inr (
          there,
          λ h. elim h [
            | inl same ↦ subst (λ t. timed_out bound now t ≡ false) same e
            | inr later ↦ rest later
          ],
        )
      ]
    ]

-- After the pass over a project's actions, none that is open is past its time bound, whatever the
-- listing of sonicgrid says.
pub nothing_overdue :
    (bound now : ℕ) (message : String) (project : Option String) (rs : List Action) (r : Action)
    → IsIn r (triage_actions_open project (expire_overdue bound now message project rs).0)
    → timed_out bound now r ≡ false
unfolding expire_overdue triage_actions_open
nothing_overdue bound now message project rs r m =
    let is_open : Action → Bool = λ r.
      (r.phase == intent || r.phase == dispatched || r.phase == fix_done)
      && if_given project (λ p. r.project_id == p) in
    let (there, e) =
      IsIn-select_where is_open r (expire_rows bound now message (select_where is_open rs) rs).0
        m in
    elim (expire_rows-left bound now message (select_where is_open rs) rs r there) [
      | inl f ↦ absurd (ground (arith, e, f))
      | inr (was, rest) ↦ rest (select_where-IsIn is_open r rs was e)
    ]
