-- ===== src/Ingest/Poller/Forward.antt =====
-- ingest/poller.py: the forward walk, and what the stored cursor promises.
use bugalizer.Prelude.{
  ℕ, zero, suc, ◌≡◌, refl, sym, subst, inl, inr, Bool, false, List, [], Option, none, some, String,
  Bool-cases, get,
}
use bugalizer.Store.{project_key, Report, Db}
use bugalizer.Ingest.{
  Imported, Updates, is_external, import_reports, is_current, write_step, ingest_commit,
}
use bugalizer.Ingest.Import.{HasAll, import_reports-keeps, import_reports-HasAll}
use bugalizer.Ingest.Source.{
  bad_cursor, unauthorized, PollPage, Fetched, page_of, refused, fetched, World, Limits, Poll, Run,
  Flow, run_of,
}
use bugalizer.Ingest.Poller.{
  commit, map_page, cursor_update, forward_on, forward, asked, skip_counted, counted, walk_ends,
}
use bugalizer.Ingest.Poller.Covered.{
  KeepsReports, Passed, begin, pass, Passed-keeps, Covered, IsCalm, map_page-ids, CursorWrite,
  write_step-Covered,
}

-- The rest of the process is calm in this world.
abbrev pub AllCalm : World → Poll → Type 0
AllCalm w p = (k : ℕ) (db : Db) → IsCalm p.project_id p.generation db (w.others k db)

pub calm-Covered :
    (w : World) (p : Poll) (db db' : Db)
    → IsCalm p.project_id p.generation db db'
    → Covered w p db
    → Covered w p db'
calm-Covered w p db db' calm covered s m project gen =
    Passed-keeps w p.project_id db.reports db'.reports s.cursor calm.reports
      (covered s (calm.states s m project gen) project gen)

-- The reports after an import that runs on what the rest of the process left.
abbrev pub imported_in : World → Poll → List Imported → Run → List Report
imported_in w p rows run =
    (import_reports (w.now run.step) p.project_id rows (w.others run.step run.db).reports).0

-- A commit keeps the promise if its cursor was passed, and if what follows it keeps the promise.
pub commit-Covered :
    (w : World) (cfg : Limits) (p : Poll) (rows : List Imported) (u : Updates) (failed : Bool)
    (run : Run) (k : ℕ → Run → Flow)
    → AllCalm w p
    → Covered w p run.db
    → CursorWrite w p.project_id (imported_in w p rows run) u.cursor
    → ((n : ℕ) (run' : Run)
        → Covered w p run'.db
        → run'.db.reports ≡ imported_in w p rows run
        → Covered w p (run_of (k n run')).db)
    → Covered w p (run_of (commit w cfg p rows u failed run k)).db
unfolding commit ingest_commit write_step
commit-Covered w cfg p rows u failed run k calm covered new follows =
    let db = w.others run.step run.db in
    let before = calm-Covered w p run.db db (calm run.step run.db) covered in
    elim (Bool-cases (is_current p.generation (get project_key p.project_id db.projects))) [
      | inl e ↦
          rw e
            (follows _ _ (write_step-Covered (w.now run.step) w p rows u failed db before new) refl)
      | inr e ↦ rw e before
    ]

imported_keeps :
    (w : World) (p : Poll) (rows : List Imported) (run : Run)
    → AllCalm w p
    → KeepsReports p.project_id run.db.reports (imported_in w p rows run)
imported_keeps w p rows run calm e h =
    import_reports-keeps (w.now run.step) p.project_id rows (is_external p.project_id e)
      (w.others run.step run.db).reports ((calm run.step run.db).reports e h)

module _ (w : World) (cfg : Limits) (p : Poll) (calm : AllCalm w p) where
  -- The cursor of a page whose reports were committed.
  next_cursor-Passed :
      (cursor : Option String) (page : PollPage) (run : Run) (next : Option String)
      → fetched (w.reply run.step cursor) ≡ page_of page
      → page.next_cursor ≡ next
      → Passed w p.project_id run.db.reports cursor
      → Passed w p.project_id
          (imported_in w p
            (map_page w cfg p (suc run.step) page.reports)
            (skip_counted w cfg p page (asked w cfg p run)))
          next
  next_cursor-Passed cursor page run none f e before = begin
  next_cursor-Passed cursor page run (some d) f e before =
      let rows = map_page w cfg p (suc run.step) page.reports in
      let at = skip_counted w cfg p page (asked w cfg p run) in
      pass run.step cursor page d
        (Passed-keeps w p.project_id run.db.reports (imported_in w p rows at) cursor
          (imported_keeps w p rows at calm) before)
        f e
        (subst (λ es. HasAll p.project_id es (imported_in w p rows at))
          (map_page-ids w cfg p (suc run.step) page.reports)
          (import_reports-HasAll (w.now at.step) p.project_id rows
            (w.others at.step at.db).reports))

  cursor_update-CursorWrite :
      (rs : List Report) (next : Option String)
      → Passed w p.project_id rs next
      → CursorWrite w p.project_id rs (cursor_update w cfg p next).cursor
  cursor_update-CursorWrite rs none h = tt
  cursor_update-CursorWrite rs (some c) h = h

  pub forward-Covered :
      (pages : ℕ) (cursor : Option String) (run : Run)
      → Covered w p run.db
      → Passed w p.project_id run.db.reports cursor
      → Covered w p (run_of (forward w cfg p pages cursor run)).db
  unfolding forward forward_on
  forward-Covered zero cursor run covered before = covered
  forward-Covered (suc pages) cursor run covered before =
      on (λ c run h b. forward-Covered pages c run h b) (fetched (w.reply run.step cursor)) refl
    where
      on :
          ((c : Option String) (r : Run)
            → Covered w p r.db
            → Passed w p.project_id r.db.reports c
            → Covered w p (run_of (forward w cfg p pages c r)).db)
          → (f : Fetched) → fetched (w.reply run.step cursor) ≡ f
          → Covered w p
              (run_of (forward_on w cfg p (forward w cfg p pages) f (asked w cfg p run))).db
      on ih (refused bad_cursor) f =
          commit-Covered w cfg p [] _ false (asked w cfg p run) _ calm covered begin
            (λ n run' h _. h)
      on ih (refused unauthorized) f = covered
      on ih (refused _) f = covered
      on ih (page_of page) f =
          let rows = map_page w cfg p (suc run.step) page.reports in
          let at = skip_counted w cfg p page (asked w cfg p run) in
          let passed = next_cursor-Passed cursor page run page.next_cursor f refl before in
          commit-Covered w cfg p rows (cursor_update w cfg p page.next_cursor) false at _ calm
            covered (cursor_update-CursorWrite (imported_in w p rows at) page.next_cursor passed)
            (λ n run' h e. elim (Bool-cases (walk_ends w cfg p page)) [
              | inl x ↦ rw x h
              | inr x ↦ rw x (
                  ih page.next_cursor (counted w cfg p n run') h
                    (subst (λ rs. Passed w p.project_id rs page.next_cursor) (sym e) passed))
            ])
