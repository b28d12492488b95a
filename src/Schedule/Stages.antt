-- ===== src/Schedule/Stages.antt =====
-- bugalizer/db.py: the lists of the worker against one another.
use bugalizer.Prelude.{
  ℕ, ◌≡◌, refl, inl, inr, Bool, true, false, not, ◌&&◌, List, [], ◌∷◌, ◌==◌, string_eq, arith,
  Bool-cases, Option-cases, any, order_asc, select_where, IsIn, IsIn-select_where, IsIn-order_asc,
}
use bugalizer.Workflow.{submitted, status_eq}
use bugalizer.Store.{mode_eq, triage, Report, Analysis, Db, is_deleted}
use bugalizer.Schedule.{
  report_created, Settings, analyses_for_report, triage_rows_eligible, triage_eligible,
  triage_eligible_reports, localization_eligible, localization_eligible_reports, fix_ready,
  fix_eligible, reports_eligible_for_fix, submitted_reports, is_completed, latest_localization,
}

untriaged :
    (cfg : Settings) (now : ℕ) (rows : List Analysis)
    → triage_rows_eligible cfg now rows ≡ true
    → any is_completed rows ≡ false
unfolding triage_rows_eligible
untriaged cfg now [] h = refl
untriaged cfg now (latest ∷ rows) h = elim (Bool-cases (any is_completed (latest ∷ rows))) [
  | inl e ↦ absurd (ground (arith, e, h))
  | inr e ↦ e
]

-- Whatever the time at each.
pub triage_or_localization :
    (cfg : Settings) (now now' : ℕ) (db : Db) (r : Report)
    → triage_eligible cfg now db r ≡ true
    → localization_eligible cfg now' db r ≡ true
    → ⊥
unfolding triage_eligible localization_eligible
triage_or_localization cfg now now' db r t l =
    ground (arith, untriaged cfg now (analyses_for_report r.id triage db.analyses))

localization_or_fix :
    (cfg : Settings) (now : ℕ) (db : Db) (r : Report)
    → localization_eligible cfg now db r ≡ true
    → fix_eligible cfg now db r ≡ true
    → ⊥
unfolding localization_eligible fix_eligible fix_ready
localization_or_fix cfg now db r l f = elim (Option-cases (latest_localization db r)) [
  | inl e ↦ ground (arith, e)
  | inr (loc, e) ↦ ground (arith, e)
]

-- A report of a list is in the table and passed the list's test.
pub listed :
    (p : Report → Bool) (rs : List Report) (r : Report)
    → IsIn r (order_asc report_created (select_where p rs))
    → IsIn r rs × (p r ≡ true)
listed p rs r h = IsIn-select_where p r rs (IsIn-order_asc report_created r (select_where p rs) h)

abbrev pub is_submitted : Report → Bool
is_submitted r = r.status == submitted && not (is_deleted r)

pub submitted_or_triage :
    (cfg : Settings) (now : ℕ) (db : Db) (r : Report)
    → is_submitted r ≡ true
    → triage_eligible cfg now db r ≡ true
    → ⊥
unfolding triage_eligible
submitted_or_triage cfg now db r s t = ground arith

-- In one poll no report is listed both as submitted and for triage, both for triage and for
-- localization, or both for localization and for a fix.
pub worker_stages_disjoint :
    (cfg : Settings) (now : ℕ) (db : Db) (r : Report)
    → ¬ (IsIn r (submitted_reports db) × IsIn r (triage_eligible_reports cfg now db))
      × ¬ (
          IsIn r (triage_eligible_reports cfg now db)
          × IsIn r (localization_eligible_reports cfg now db))
      × ¬ (
          IsIn r (localization_eligible_reports cfg now db)
          × IsIn r (reports_eligible_for_fix cfg now db))
unfolding submitted_reports triage_eligible_reports localization_eligible_reports
    reports_eligible_for_fix
worker_stages_disjoint cfg now db r = (
  λ h.
      submitted_or_triage cfg now db r (listed is_submitted db.reports r h.0).1
        (listed (triage_eligible cfg now db) db.reports r h.1).1,
  λ h.
      triage_or_localization cfg now now db r
        (listed (triage_eligible cfg now db) db.reports r h.0).1
        (listed (localization_eligible cfg now db) db.reports r h.1).1,
  λ h.
      localization_or_fix cfg now db r
        (listed (localization_eligible cfg now db) db.reports r h.0).1
        (listed (fix_eligible cfg now db) db.reports r h.1).1,
)
