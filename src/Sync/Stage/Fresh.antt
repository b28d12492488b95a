-- ===== src/Sync/Stage/Fresh.antt =====
-- sync/stage.py against the worker's schedule in db.py: the lane shows what the fix stage decides on.
use bugalizer.Prelude.{
  ℕ, ◌≡◌, refl, ap, sym, ◌∙◌, subst, inl, inr, Bool, true, false, List, Option, some, String, ◌==◌,
  string_eq, arith, Bool-cases, Option-cases, first_where, select_where, order_desc,
  first_where-select_where, select_where-select_where, select_where-order_desc, if◌then◌else◌,
  eq_of_test,
}
use bugalizer.Workflow.{triaged, status_eq}
use bugalizer.Store.{
  hold, mode_eq, Phase, phase_eq, fix, localization, Project, Report, Analysis, Proposal, Db,
}
use bugalizer.Schedule.{
  Settings, created, is_completed, analyses_for_report, latest_localization, project_of,
  fix_eligible, fix_ready,
}
use bugalizer.Sync.Stage.{
  in_triaged, Detail, fix_failed, pr_closed, localized, newest, any_status, fresh,
  localization_detail, shows_failed_fix, shows_closed_pr, head_proposal, work_detail,
  triaged_detail, stage_by_status, stage_of,
}

-- All rows of a report, newest first.
abbrev pub analyses_of : String → List Analysis → List Analysis
analyses_of id rows = order_desc created (select_where (λ a. a.bug_report_id == id) rows)

-- The newest row of a phase is the same in the report's rows and in those of the phase.
pub newest-analyses_of :
    (p : Analysis → Bool) (ph : Phase) (id : String) (rows : List Analysis)
    → newest p ph (analyses_of id rows) ≡ first_where p (analyses_for_report id ph rows)
unfolding newest analyses_for_report
newest-analyses_of p ph id rows =
    let own : Analysis → Bool = λ a. a.bug_report_id == id in
    let in_phase : Analysis → Bool = λ a. a.phase == ph in
    sym (first_where-select_where in_phase p (order_desc created (select_where own rows)))
    ∙ ap (first_where p) (select_where-order_desc created in_phase (select_where own rows))
    ∙ ap (λ xs. first_where p (order_desc created xs)) (select_where-select_where own in_phase rows)

-- What a lane can show of a report that the fix stage takes.
pub data Workable : Detail → Type 0 where
  is_localized : Workable localized
  had_failed_fix : Workable fix_failed
  had_closed_pr : Workable pr_closed

fresh-Workable :
    (loc : Option Analysis) (l : Analysis) (last_fix : Option Analysis) (p : Option Proposal)
    (project : Option Project)
    → loc ≡ some l
    → fresh l project ≡ true
    → Workable (
        if shows_failed_fix last_fix loc p
        then fix_failed
        else if shows_closed_pr last_fix loc p
        then pr_closed
        else localization_detail loc project)
fresh-Workable loc l last_fix p project e f = elim (Bool-cases (shows_failed_fix last_fix loc p)) [
  | inl g ↦ rw g had_failed_fix
  | inr g ↦ elim (Bool-cases (shows_closed_pr last_fix loc p)) [
    | inl h ↦ rw (g, h) had_closed_pr
    | inr h ↦
        rw (g, h)
          (subst (λ o. Workable (localization_detail o project)) (sym e) (rw f is_localized))
  ]
]

-- What the fix stage asks of a report, as far as its lane shows it.
record Parts (db : Db) (r : Report) : Type 0 where
  at : r.status ≡ triaged
  not_held : (r.analysis_mode == hold) ≡ false
  loc : Analysis
  there : latest_localization db r ≡ some loc
  is_fresh : fresh loc (project_of db r) ≡ true

eligible-Parts :
    (cfg : Settings) (now : ℕ) (db : Db) (r : Report)
    → fix_eligible cfg now db r ≡ true
    → Parts db r
unfolding fix_eligible fix_ready
eligible-Parts cfg now db r e = elim (Option-cases (latest_localization db r)) [
  | inl f ↦ absurd (ground (arith, e, f))
  | inr (l, f) ↦ record {
    at = eq_of_test r.status triaged (ground (arith, e));
    not_held = ground (arith, e);
    loc = l;
    there = f;
    is_fresh = ground (arith, e, f);
  }
]

triaged_lane :
    (r : Report) (analyses : List Analysis) (ps : List Proposal) (project : Option Project)
    → r.status ≡ triaged
    → (r.analysis_mode == hold) ≡ false
    → stage_of r analyses ps project ≡ (in_triaged, work_detail analyses ps project)
unfolding stage_of stage_by_status triaged_detail
triaged_lane r analyses ps project at mode = rw at (rw mode refl)

fresh_work :
    (db : Db) (r : Report) (l : Analysis) (ps : List Proposal)
    → latest_localization db r ≡ some l
    → fresh l (project_of db r) ≡ true
    → Workable (work_detail (analyses_of r.id db.analyses) ps (project_of db r))
unfolding work_detail latest_localization
fresh_work db r l ps there f =
    let rows = analyses_of r.id db.analyses in
    fresh-Workable (newest is_completed localization rows) l (newest any_status fix rows)
      (head_proposal ps) (project_of db r)
      (newest-analyses_of is_completed localization r.id db.analyses ∙ there) f

-- A report that the worker may give to the paid fix stage is in the triaged lane, and its detail is
-- localized, or tells of a failed fix or a closed pull request: never held, stale or not localized.
pub eligible-Workable :
    (cfg : Settings) (now : ℕ) (db : Db) (r : Report) (proposals : List Proposal)
    → fix_eligible cfg now db r ≡ true
    → (d : Detail) × (stage_of r (analyses_of r.id db.analyses) proposals (project_of db r)
        ≡ (in_triaged, d))
      × Workable d
eligible-Workable cfg now db r proposals e =
    let parts = eligible-Parts cfg now db r e in
    let rows = analyses_of r.id db.analyses in
    (
      work_detail rows proposals (project_of db r),
      triaged_lane r rows proposals (project_of db r) parts.at parts.not_held,
      fresh_work db r parts.loc proposals parts.there parts.is_fresh,
    )
