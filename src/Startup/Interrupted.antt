-- ===== src/Startup/Interrupted.antt =====
-- bugalizer/db.py: a paid stage that `release_orphaned_claims` interrupted, and the worker after it.
use bugalizer.Prelude.{
  ℕ, ◌<◌, ◌≡◌, refl, ap, inl, inr, Bool, true, false, ◌&&◌, List, some, String, ◌==◌, ==-self,
  string_eq, arith, map, select_where, update_where, Option-cases, IsIn, IsIn-select_where,
  select_where-IsIn, order_desc-IsIn, IsIn-order_desc, IsIn-first_where, append-IsIn, any-IsIn,
  order_desc, [], ◌∷◌,
}
use bugalizer.Workflow.{fix_proposing, status_eq}
use bugalizer.Store.{Phase, localization, fix, phase_eq, run_eq, Report, Analysis, Db}
use bugalizer.Schedule.{
  Settings, created, analyses_for_report, is_completed, is_failed, is_permanent, newer,
  failed_attempts_after, retry_blocked, latest_localization, fix_eligible, fix_ready, fix_blocked,
}
use bugalizer.Startup.{is_running, interrupt, is_fixing, failed_fix, release_orphaned_claims}
use bugalizer.Startup.Released.{analyses_interrupted}

permanent_blocks :
    (a : Analysis) (rows : List Analysis) (m d now : ℕ)
    → IsIn a rows
    → is_permanent a ≡ true
    → retry_blocked rows m d now ≡ true
unfolding retry_blocked
permanent_blocks a [] m d now h e = absurd h
permanent_blocks a (r ∷ rows) m d now h e = ground (arith, any-IsIn is_permanent a (r ∷ rows) h e)

map-IsIn :
    (f : Report → Analysis) (r : Report) (rs : List Report) → IsIn r rs → IsIn (f r) (map f rs)
map-IsIn f r [] m = absurd m
map-IsIn f r (s ∷ rs) (inl e) = inl (ap f e)
map-IsIn f r (s ∷ rs) (inr m) = inr (map-IsIn f r rs m)

-- The failed row of a report that was in fix_proposing.
failed_row_there :
    (now : ℕ) (new_id : String → String) (db : Db) (s : Report)
    → IsIn s db.reports
    → is_fixing s ≡ true
    → IsIn (failed_fix now new_id s) (release_orphaned_claims now new_id db).0.analyses
unfolding release_orphaned_claims
failed_row_there now new_id db s m e =
    append-IsIn (failed_fix now new_id s) (update_where is_running (interrupt now) db.analyses)
      (map (failed_fix now new_id) (select_where is_fixing db.reports))
      (inr (
        map-IsIn (failed_fix now new_id) s (select_where is_fixing db.reports)
          (select_where-IsIn is_fixing s db.reports m e)))

-- The latest localization of the new database is an old one.
latest-old :
    (now : ℕ) (new_id : String → String) (db : Db) (r : Report) (loc : Analysis)
    → ((a : Analysis) → IsIn a db.analyses → a.created_at < now)
    → latest_localization (release_orphaned_claims now new_id db).0 r ≡ some loc
    → loc.created_at < now
unfolding latest_localization analyses_for_report
latest-old now new_id db r loc old e =
    let rows = (release_orphaned_claims now new_id db).0.analyses in
    let own : Analysis → Bool = λ a. a.bug_report_id == r.id && a.phase == localization in
    let (m, _) = IsIn-first_where is_completed loc (order_desc created (select_where own rows)) e in
    let (m', own_loc) =
      IsIn-select_where own loc rows (IsIn-order_desc created loc (select_where own rows) m) in
    elim (analyses_interrupted now new_id db loc m') [
      | inl (b, n, t) ↦ ground (arith, old b n, t)
      | inr (s, n, t) ↦ absurd (ground (arith, own_loc, t))
    ]

-- A failed row of a stage is one of the attempts that the gate counts.
attempt-IsIn :
    (id : String) (ph : Phase) (reference : ℕ) (a : Analysis) (rows : List Analysis)
    → IsIn a rows
    → (a.bug_report_id == id && a.phase == ph) ≡ true
    → (is_failed a && newer (some reference) a) ≡ true
    → IsIn a (failed_attempts_after (analyses_for_report id ph rows) (some reference))
unfolding failed_attempts_after analyses_for_report
attempt-IsIn id ph reference a rows m own counts =
    let test : Analysis → Bool = λ a. a.bug_report_id == id && a.phase == ph in
    select_where-IsIn (λ a. is_failed a && newer (some reference) a) a
      (order_desc created (select_where test rows))
      (order_desc-IsIn created a (select_where test rows) (select_where-IsIn test a rows m own))
      counts

blocks_fix :
    (cfg : Settings) (now later : ℕ) (new_id : String → String) (db : Db) (s r : Report)
    (loc : Analysis)
    → IsIn s db.reports
    → s.status ≡ fix_proposing
    → r.id ≡ s.id
    → loc.created_at < now
    → fix_blocked cfg later (release_orphaned_claims now new_id db).0 r loc ≡ true
unfolding fix_blocked
blocks_fix cfg now later new_id db s r loc m at same lt =
    let rows = (release_orphaned_claims now new_id db).0.analyses in
    let fixing : is_fixing s ≡ true = rw at in
    let own : (s.id == r.id && fix == fix) ≡ true = rw (same, ==-self s.id) in
    permanent_blocks (failed_fix now new_id s)
      (failed_attempts_after (analyses_for_report r.id fix rows) (some loc.created_at))
      cfg.max_fix_retries cfg.retry_delay_seconds later
      (attempt-IsIn r.id fix loc.created_at (failed_fix now new_id s) rows
        (failed_row_there now new_id db s m fixing) own (ground arith))
      refl

-- A report whose paid stage was running when the process stopped is not listed for a fix at any
-- later time, whatever the retry settings, while its rows stay: its failed row is permanent. Rows
-- are older than the restart.
pub interrupted_fix_waits :
    (cfg : Settings) (now later : ℕ) (new_id : String → String) (db : Db) (s r : Report)
    → ((a : Analysis) → IsIn a db.analyses → a.created_at < now)
    → IsIn s db.reports
    → s.status ≡ fix_proposing
    → r.id ≡ s.id
    → fix_eligible cfg later (release_orphaned_claims now new_id db).0 r ≡ false
unfolding fix_eligible fix_ready
interrupted_fix_waits cfg now later new_id db s r old m at same =
    elim (Option-cases (latest_localization (release_orphaned_claims now new_id db).0 r)) [
      | inl e ↦ ground (arith, e)
      | inr (loc, e) ↦ ground (
        arith,
        e,
        blocks_fix cfg now later new_id db s r loc m at same (latest-old now new_id db r loc old e),
      )
    ]
