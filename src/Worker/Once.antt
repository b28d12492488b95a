-- ===== src/Worker/Once.antt =====
-- queue/worker.py: how often one turn of the loop dispatches a report.
use bugalizer.Prelude.{
  ℕ, ◌≡◌, refl, ap, sym, ◌∙◌, subst, inl, inr, Bool, true, false, List, [], ◌∷◌, ◌++◌, String,
  string_eq, eq_iff, arith, select_where, order_asc, has_key, Fresh, IsKeyed, IsKeyed-select_where,
  IsKeyed-order_asc, IsIn, Fresh-of_apart, same_row, IsKeyed-++, Fresh-++, Bool-cases,
}
use bugalizer.Workflow.{status_eq}
use bugalizer.Store.{Phase, validation, triage, localization, Report, Db, mode_eq}
use bugalizer.Store.Reports.{report_key}
use bugalizer.Schedule.{
  report_created, Settings, submitted_reports, triage_eligible, triage_eligible_reports,
  localization_eligible, localization_eligible_reports,
}
use bugalizer.Schedule.Stages.{listed, is_submitted, submitted_or_triage, triage_or_localization}
use bugalizer.Worker.{Job, Seen, job_report, tasks_of, dispatched}

tasks_of-IsIn :
    (phase : Phase) (j : Job) (rs : List Report)
    → IsIn j (tasks_of phase rs)
    → (r : Report) × IsIn r rs × (job_report j ≡ r.id)
unfolding tasks_of
tasks_of-IsIn phase j [] m = absurd m
tasks_of-IsIn phase j (r ∷ rs) (inl e) = (r, inl refl, sym (ap job_report e))
tasks_of-IsIn phase j (r ∷ rs) (inr m) = let (s, n, e) = tasks_of-IsIn phase j rs m in (s, inr n, e)

tasks_of-Fresh :
    (phase : Phase) (k : String) (rs : List Report)
    → Fresh report_key k rs
    → Fresh job_report k (tasks_of phase rs)
unfolding tasks_of
tasks_of-Fresh phase k [] h = tt
tasks_of-Fresh phase k (r ∷ rs) h = (h.0, tasks_of-Fresh phase k rs h.1)

tasks_of-IsKeyed :
    (phase : Phase) (rs : List Report)
    → IsKeyed report_key rs
    → IsKeyed job_report (tasks_of phase rs)
unfolding tasks_of
tasks_of-IsKeyed phase [] h = tt
tasks_of-IsKeyed phase (r ∷ rs) h =
    (tasks_of-Fresh phase r.id rs h.0, tasks_of-IsKeyed phase rs h.1)

-- A list of the worker: rows of the table that pass a test, in order.
abbrev Lists : List Report → List Report → Type 0
Lists rs table = IsKeyed report_key rs × ((r : Report) → IsIn r rs → IsIn r table)

lists :
    (p : Report → Bool) (table : List Report)
    → IsKeyed report_key table
    → Lists (order_asc report_created (select_where p table)) table
lists p table keyed = (
  IsKeyed-order_asc report_key report_created (select_where p table)
      (IsKeyed-select_where report_key p table keyed),
  λ r m. (listed p table r m).0,
)

-- A job of one list is for another report than every job of a list that shares no report with it.
apart :
    (phase phase' : Phase) (rs ss table : List Report) (j : Job)
    → IsKeyed report_key table
    → Lists rs table
    → Lists ss table
    → ((r : Report) → ¬ (IsIn r rs × IsIn r ss))
    → IsIn j (tasks_of phase rs)
    → Fresh job_report (job_report j) (tasks_of phase' ss)
apart phase phase' rs ss table j keyed (_, ins) (_, ins') disjoint m =
    let (r, n, e) = tasks_of-IsIn phase j rs m in
    Fresh-of_apart job_report (job_report j) (tasks_of phase' ss) (λ j' m'.
      let (s, n', e') = tasks_of-IsIn phase' j' ss m' in
      elim (Bool-cases (has_key job_report (job_report j) j')) [
        | inl same ↦
            let one : r ≡ s =
              same_row report_key r s table keyed (ins r n) (ins' s n')
                (sym e ∙ ground (arith, same, eq_iff (job_report j') (job_report j), e')) in
            absurd (disjoint s (subst (λ t. IsIn t rs) one n, n'))
        | inr other ↦ other
      ])

submitted_or_localization :
    (cfg : Settings) (now : ℕ) (db : Db) (r : Report)
    → ¬ (IsIn r (submitted_reports db) × IsIn r (localization_eligible_reports cfg now db))
unfolding submitted_reports localization_eligible_reports localization_eligible
submitted_or_localization cfg now db r (s, l) =
    let a : is_submitted r ≡ true = (listed is_submitted db.reports r s).1 in
    let b : localization_eligible cfg now db r ≡ true =
      (listed (localization_eligible cfg now db) db.reports r l).1 in
    ground arith

submitted_or_triaged :
    (cfg : Settings) (now : ℕ) (db : Db) (r : Report)
    → ¬ (IsIn r (submitted_reports db) × IsIn r (triage_eligible_reports cfg now db))
unfolding submitted_reports triage_eligible_reports
submitted_or_triaged cfg now db r (s, t) =
    submitted_or_triage cfg now db r (listed is_submitted db.reports r s).1
      (listed (triage_eligible cfg now db) db.reports r t).1

triaged_or_localized :
    (cfg : Settings) (now now' : ℕ) (db : Db) (r : Report)
    → ¬ (
        IsIn r (triage_eligible_reports cfg now db)
        × IsIn r (localization_eligible_reports cfg now' db))
unfolding triage_eligible_reports localization_eligible_reports
triaged_or_localized cfg now now' db r (t, l) =
    triage_or_localization cfg now now' db r (listed (triage_eligible cfg now db) db.reports r t).1
      (listed (localization_eligible cfg now' db) db.reports r l).1

-- The tasks of the three lists of one database, each at its time.
tasks-IsKeyed :
    (cfg : Settings) (now now' : ℕ) (db : Db)
    → IsKeyed report_key db.reports
    → IsKeyed job_report (
        tasks_of validation (submitted_reports db)
        ++ (tasks_of triage (triage_eligible_reports cfg now db)
            ++ (tasks_of localization (localization_eligible_reports cfg now' db) ++ [])))
unfolding submitted_reports triage_eligible_reports localization_eligible_reports
tasks-IsKeyed cfg now now' db keyed =
    IsKeyed-++ job_report s (t ++ (l ++ [])) (tasks_of-IsKeyed validation ss ks.0)
      (IsKeyed-++ job_report t (l ++ []) (tasks_of-IsKeyed triage ts kt.0)
        (IsKeyed-++ job_report l [] (tasks_of-IsKeyed localization ls kl.0) tt (λ _ _. tt))
        (λ j m.
          Fresh-++ job_report (job_report j) l []
            (apart triage localization ts ls db.reports j keyed kt kl
              (triaged_or_localized cfg now now' db) m)
            tt))
      (λ j m.
        Fresh-++ job_report (job_report j) t (l ++ [])
          (apart validation triage ss ts db.reports j keyed ks kt (submitted_or_triaged cfg now db)
            m)
          (Fresh-++ job_report (job_report j) l []
            (apart validation localization ss ls db.reports j keyed ks kl
              (submitted_or_localization cfg now' db) m)
            tt))
  where
    ss : List Report
    ss = submitted_reports db

    ts : List Report
    ts = triage_eligible_reports cfg now db

    ls : List Report
    ls = localization_eligible_reports cfg now' db

    s : List Job
    s = tasks_of validation ss

    t : List Job
    t = tasks_of triage ts

    l : List Job
    l = tasks_of localization ls

    ks : Lists ss db.reports
    ks = lists is_submitted db.reports keyed

    kt : Lists ts db.reports
    kt = lists (triage_eligible cfg now db) db.reports keyed

    kl : Lists ls db.reports
    kl = lists (localization_eligible cfg now' db) db.reports keyed

-- With the automatic fixes off, one turn of the worker's loop dispatches no report twice, neither to one stage nor
-- to two, however much time passes between its lists. The conditions: no two rows of bug_reports have one id, and no
-- other request writes the database between the lists of the turn.
pub turn_dispatches_once :
    (cfg : Settings) (seen : Seen) (db : Db)
    → ((phase : Phase) → (seen phase).1 ≡ db)
    → IsKeyed report_key db.reports
    → IsKeyed job_report (dispatched false cfg seen)
unfolding dispatched
turn_dispatches_once cfg seen db same keyed =
    rw (same validation, same triage, same localization)
      (tasks-IsKeyed cfg (seen triage).0 (seen localization).0 db keyed)
