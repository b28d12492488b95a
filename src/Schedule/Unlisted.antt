-- ===== src/Schedule/Unlisted.antt =====
-- bugalizer/db.py: which reports no list of the worker holds.
use bugalizer.Prelude.{
  subst, holds, ℕ, ◌≡◌, refl, ap, sym, ◌∙◌, true, false, List, Option, none, some, String, ◌==◌,
  string_eq, arith, touch, IsIn, IsIn-update_where, IsKeyed, cas, when_key, get_of_IsIn,
  get-cas_won, cas-IsKeyed, cas_won_row, eq_iff,
}
use bugalizer.Workflow.{status_eq, BugStatus}
use bugalizer.Store.{hold, mode_eq, Report, Db, is_deleted}
use bugalizer.Store.Reports.{
  report_key, report_get, moved, set_analysis_mode, report_delete, report_update_status, deleted,
  still,
}
use bugalizer.Schedule.{
  Settings, triage_eligible, triage_eligible_reports, localization_eligible,
  localization_eligible_reports, fix_eligible, reports_eligible_for_fix, submitted_reports, waiting,
}
use bugalizer.Schedule.Stages.{listed, is_submitted}

-- No automatic LLM stage lists the report.
abbrev pub Unlisted : Settings → ℕ → Db → Report → Type 0
Unlisted cfg now db r =
    ¬ IsIn r (triage_eligible_reports cfg now db)
    × ¬ IsIn r (localization_eligible_reports cfg now db)
    × ¬ IsIn r (reports_eligible_for_fix cfg now db)

idle-Unlisted :
    (cfg : Settings) (now : ℕ) (db : Db) (r : Report)
    → (IsIn r db.reports → waiting r ≡ false)
    → Unlisted cfg now db r
unfolding triage_eligible_reports localization_eligible_reports reports_eligible_for_fix
    triage_eligible localization_eligible fix_eligible
idle-Unlisted cfg now db r idle = (
  λ h. let (m, e) = listed (triage_eligible cfg now db) db.reports r h in ground (arith, e, idle m),
  λ h.
      let (m, e) = listed (localization_eligible cfg now db) db.reports r h in
      ground (arith, e, idle m),
  λ h. let (m, e) = listed (fix_eligible cfg now db) db.reports r h in ground (arith, e, idle m),
)

abbrev pub with_reports : Db → List Report → Db
with_reports db rs = record db { reports = rs }

-- A delete, then a status written by a stage that was still running.
abbrev pub after_delete :
    ℕ → ℕ → Option BugStatus → Option (Option String) → BugStatus → Report → Db → List Report
after_delete now now' expected token s r db =
    (report_update_status now' r.id s none none
      (report_delete now r.id expected token db.reports).0).0

held_idle :
    (now : ℕ) (id : String) (r : Report) (rs : List Report)
    → r.id ≡ id
    → IsIn r (set_analysis_mode now id hold rs)
    → waiting r ≡ false
unfolding set_analysis_mode
held_idle now id r rs e m =
    let (s, _, t) =
      IsIn-update_where (λ r. r.id == id) (λ r. record r { analysis_mode = hold; updated_at = now })
        r rs m in
    ground (arith, t, e, eq_iff s.id id)

-- Once a report's mode is set to hold, no list of an LLM stage holds it.
pub held-Unlisted :
    (cfg : Settings) (now now' : ℕ) (db : Db) (r : Report)
    → Unlisted cfg now' (with_reports db (set_analysis_mode now r.id hold db.reports)) r
held-Unlisted cfg now now' db r =
    idle-Unlisted cfg now' (with_reports db (set_analysis_mode now r.id hold db.reports)) r
      (held_idle now r.id r db.reports refl)

moved_id :
    (now : ℕ) (id : String) (s : BugStatus) (t : Report)
    → (touch (when_key report_key id (λ _. true)) (moved now s none) t).id ≡ t.id
moved_id now id s t = ground arith

-- The row of a won delete, wherever it stands in the table.
deleted_row :
    (now : ℕ) (expected : Option BugStatus) (token : Option (Option String)) (id : String)
    (t : Report) (rs : List Report)
    → IsKeyed report_key rs
    → (report_delete now id expected token rs).1 ≡ true
    → t.id ≡ id
    → IsIn t (report_delete now id expected token rs).0
    → is_deleted t ≡ true
unfolding report_delete
deleted_row now expected token id t rs keyed won e m =
    let (s, found, q) =
      cas_won_row report_key id (still expected token) (deleted now) rs keyed won in
    let after : report_get id (cas report_key id (still expected token) (deleted now) rs).0
        ≡ some (deleted now s) =
      get-cas_won report_key id (still expected token) (deleted now) rs s (λ _. refl) found q in
    let here : report_get t.id (cas report_key id (still expected token) (deleted now) rs).0
        ≡ some t =
      get_of_IsIn report_key t (cas report_key id (still expected token) (deleted now) rs).0
        (cas-IsKeyed report_key id (still expected token) (deleted now) rs (λ _. refl) keyed) m in
    sym (
      ap (holds is_deleted) (
        sym after
        ∙ subst
            (λ k.
              report_get k (cas report_key id (still expected token) (deleted now) rs).0 ≡ some t)
            e here))

moved_deleted :
    (now : ℕ) (id : String) (s : BugStatus) (t : Report)
    → is_deleted t ≡ true
    → is_deleted (touch (when_key report_key id (λ _. true)) (moved now s none) t) ≡ true
moved_deleted now id s t h = ground arith

after_delete-IsDeleted :
    (now now' : ℕ) (db : Db) (expected : Option BugStatus) (token : Option (Option String))
    (s : BugStatus) (r : Report)
    → IsKeyed report_key db.reports
    → (report_delete now r.id expected token db.reports).1 ≡ true
    → IsIn r (after_delete now now' expected token s r db)
    → is_deleted r ≡ true
unfolding report_update_status
after_delete-IsDeleted now now' db expected token s r keyed won m =
    let rs = (report_delete now r.id expected token db.reports).0 in
    let (t, m', e) =
      IsIn-update_where (when_key report_key r.id (λ _. true)) (moved now' s none) r rs m in
    subst (λ x. is_deleted x ≡ true) e
      (moved_deleted now' r.id s t (
        deleted_row now expected token r.id t db.reports keyed won
          (sym (moved_id now' r.id s t) ∙ ap report_key e) m'))

-- Once a delete of a report has succeeded, no list of the worker holds it, also after a status that
-- a stage in flight writes (with no reason of its own).
pub deleted_unlisted :
    (cfg : Settings) (now now' now'' : ℕ) (db : Db) (expected : Option BugStatus)
    (token : Option (Option String)) (s : BugStatus) (r : Report)
    → IsKeyed report_key db.reports
    → (report_delete now r.id expected token db.reports).1 ≡ true
    → ¬ IsIn r (submitted_reports (with_reports db (after_delete now now' expected token s r db)))
      × ¬ IsIn r (
          triage_eligible_reports cfg now''
            (with_reports db (after_delete now now' expected token s r db)))
      × ¬ IsIn r (
          localization_eligible_reports cfg now''
            (with_reports db (after_delete now now' expected token s r db)))
      × ¬ IsIn r (
          reports_eligible_for_fix cfg now''
            (with_reports db (after_delete now now' expected token s r db)))
unfolding submitted_reports
deleted_unlisted cfg now now' now'' db expected token s r keyed won =
    let gone = after_delete-IsDeleted now now' db expected token s r keyed won in
    let (a, b, c) =
      idle-Unlisted cfg now'' (with_reports db (after_delete now now' expected token s r db)) r
        (λ m. ground (arith, gone m)) in
    (
      λ h.
          let (m, e) = listed is_submitted (after_delete now now' expected token s r db) r h in
          ground (arith, gone m, e),
      a,
      b,
      c,
    )
