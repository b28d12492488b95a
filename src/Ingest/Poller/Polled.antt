-- ===== src/Ingest/Poller/Polled.antt =====
-- ingest/poller.py: a whole poll, on each of its branches, and what the stored cursor promises.
use bugalizer.Prelude.{
  ℕ, zero, suc, ◌≡◌, refl, sym, subst, inl, inr, Bool, false, List, [], Option, none, some, String,
  ◌==◌, string_eq, Bool-cases, Option-cases, get, IsIn-get, get-key, nat_beq, nat_beq_iff, ◌||◌,
}
use bugalizer.Store.{IngestConfig, Project, project_key, IngestState, Db}
use bugalizer.Ingest.{Imported, Updates, state_key}
use bugalizer.Ingest.Source.{
  PollError, bad_cursor, PollPage, Fetched, page_of, refused, fetched, World, Limits, Poll, Run,
  Flow, go, stale, run_of, credential_missing,
}
use bugalizer.Ingest.Poller.{
  commit, map_page, forward, asked, skip_counted, counted, walk_ends, own_cursor, rewalk_on,
  rewalk_pages, rewalk_start, rewalk_from, rewalk, rewalk_updates, state_of, finish, and_then,
  if_clean, walks, walk, poll_with, poll_project, settled, missing, rewalk_due, last_full_walk,
  new_outcome, set_error, poll_from,
}
use bugalizer.Ingest.Poller.Covered.{Passed, begin, Covered, CursorWrite}
use bugalizer.Ingest.Poller.Forward.{AllCalm, commit-Covered, forward-Covered}

module _ (w : World) (cfg : Limits) (p : Poll) (calm : AllCalm w p) where
  -- A commit that does not write the cursor.
  other_commit-Covered :
      (rows : List Imported) (u : Updates) (failed : Bool) (run : Run) (k : ℕ → Run → Flow)
      → u.cursor ≡ none
      → Covered w p run.db
      → ((n : ℕ) (r : Run) → Covered w p r.db → Covered w p (run_of (k n r)).db)
      → Covered w p (run_of (commit w cfg p rows u failed run k)).db
  other_commit-Covered rows u failed run k e covered follows =
      commit-Covered w cfg p rows u failed run k calm covered
        (subst (CursorWrite w p.project_id _) (sym e) tt) (λ n r h _. follows n r h)

  rewalk_updates-keeps :
      (started : ℕ) (page : PollPage) → (rewalk_updates w cfg p started page).cursor ≡ none
  rewalk_updates-keeps started page = elim (Bool-cases (walk_ends w cfg p page)) [
    | inl e ↦ rw e
    | inr e ↦ rw e (elim (Option-cases page.next_cursor) [ inl f ↦ rw f | inr (c, f) ↦ rw f ])
  ]

  rewalk_pages-Covered :
      (started pages : ℕ) (cursor : Option String) (run : Run)
      → Covered w p run.db
      → Covered w p (run_of (rewalk_pages w cfg p started pages cursor run)).db
  unfolding rewalk_pages rewalk_on
  rewalk_pages-Covered started zero cursor run covered = covered
  rewalk_pages-Covered started (suc pages) cursor run covered =
      on (λ c r h. rewalk_pages-Covered started pages c r h) (fetched (w.reply run.step cursor))
    where
      on :
          ((c : Option String) (r : Run)
            → Covered w p r.db
            → Covered w p (run_of (rewalk_pages w cfg p started pages c r)).db)
          → (f : Fetched)
          → Covered w p
              (run_of (
                rewalk_on w cfg p started
                  (rewalk_pages w cfg p started pages)
                  f
                  (asked w cfg p run))).db
      on ih (refused bad_cursor) =
          other_commit-Covered [] _ false (asked w cfg p run) _ refl covered (λ n r h. h)
      on ih (refused _) = covered
      on ih (page_of page) =
          other_commit-Covered (map_page w cfg p (suc run.step) page.reports)
            (rewalk_updates w cfg p started page) false
            (skip_counted w cfg p page (asked w cfg p run)) _ (rewalk_updates-keeps started page)
            covered
            (λ n r h. elim (Bool-cases (walk_ends w cfg p page)) [
              | inl x ↦ rw x h
              | inr x ↦ rw x (ih page.next_cursor (counted w cfg p n r) h)
            ])

  rewalk_start-Covered :
      (full : Bool) (s : Option IngestState) (run : Run)
      → Covered w p run.db
      → Covered w p (run_of (rewalk_start w cfg p full s run)).db
  unfolding rewalk_start
  rewalk_start-Covered full s run covered =
      elim (Bool-cases (full || rewalk_due w cfg p (w.now run.step) (last_full_walk w cfg p s))) [
        | inl e ↦ rw e (
            other_commit-Covered [] _ false run _ refl covered
              (λ n r h. rewalk_pages-Covered (w.now run.step) cfg.ingest_rewalk_pages none r h))
        | inr e ↦ rw e covered
      ]

  rewalk-Covered :
      (full : Bool) (run : Run)
      → Covered w p run.db
      → Covered w p (run_of (rewalk w cfg p full run)).db
  unfolding rewalk
  rewalk-Covered full run covered = from (state_of w cfg p run.db)
    where
      from : (s : Option IngestState) → Covered w p (run_of (rewalk_from w cfg p full s run)).db
      from none = rewalk_start-Covered full none run covered
      from (some s) = elim (Option-cases s.rewalk_started_at) [
        | inl e ↦ rw e (rewalk_start-Covered full (some s) run covered)
        | inr (t, e) ↦
            rw e (rewalk_pages-Covered t cfg.ingest_rewalk_pages s.rewalk_cursor run covered)
      ]

  finish-Covered : (run : Run) → Covered w p run.db → Covered w p (run_of (finish w cfg p run)).db
  unfolding finish
  finish-Covered run covered = elim (Option-cases run.outcome.error) [
    | inl e ↦ other_commit-Covered [] _ _ run _ (rw e) covered (λ n r h. h)
    | inr (x, e) ↦ other_commit-Covered [] _ _ run _ (rw e) covered (λ n r h. h)
  ]

  and_then-Covered :
      (f : Flow) (k : Run → Flow)
      → Covered w p (run_of f).db
      → ((r : Run) → Covered w p r.db → Covered w p (run_of (k r)).db)
      → Covered w p (run_of (and_then f k)).db
  and_then-Covered (go r) k h follows = follows r h
  and_then-Covered (stale r) k h follows = h

  own_cursor-Passed :
      (db : Db) (s : Option IngestState)
      → state_of w cfg p db ≡ s
      → Covered w p db
      → Passed w p.project_id db.reports (own_cursor p.generation s)
  own_cursor-Passed db none e covered = begin
  own_cursor-Passed db (some s) e covered = elim (Bool-cases (nat_beq s.generation p.generation)) [
    | inl g ↦ rw g (
        covered s (IsIn-get state_key p.project_id s db.ingest_states e)
          (get-key state_key p.project_id db.ingest_states s e)
          ((nat_beq_iff s.generation p.generation).0 g))
    | inr g ↦ rw g begin
  ]

  walk-Covered :
      (full : Bool) (token : Option String) (run : Run)
      → Covered w p run.db
      → Covered w p (run_of (walk w cfg p full token run)).db
  unfolding walk walks
  walk-Covered full token run covered = elim (Bool-cases (missing token)) [
    | inl e ↦ rw e (finish-Covered (set_error w cfg p credential_missing run) covered)
    | inr e ↦
        let first =
          forward w cfg p cfg.ingest_max_pages (own_cursor p.generation (state_of w cfg p run.db))
            run in
        let second : Run → Flow = λ r. if_clean r.outcome.error (rewalk w cfg p full) r in
        rw e (
          and_then-Covered (and_then first second) (finish w cfg p)
            (and_then-Covered first second
              (forward-Covered w cfg p calm cfg.ingest_max_pages
                (own_cursor p.generation (state_of w cfg p run.db)) run covered
                (own_cursor-Passed run.db (state_of w cfg p run.db) refl covered))
              (λ r h. clean r.outcome.error r h))
            finish-Covered)
  ]
    where
      clean :
          (e : Option PollError) (r : Run)
          → Covered w p r.db
          → Covered w p (run_of (if_clean e (rewalk w cfg p full) r)).db
      clean none r h = rewalk-Covered full r h
      clean (some x) r h = h

settled-Covered :
    (w : World) (p : Poll) (f : Flow) → Covered w p (run_of f).db → Covered w p (settled f).0
settled-Covered w p (go r) h = h
settled-Covered w p (stale r) h = h

abbrev pub poll_of : Project → String → Poll
poll_of q source = record { project_id = q.id; generation = q.ingest_generation; source = source }

-- A poll, on each of its branches, keeps this true: the stored cursor of the project's generation was
-- reached from the beginning over pages of the source whose reports all stand in the table. The rest
-- of the process takes no imported report away and makes no checkpoint of this generation.
pub poll_covers :
    (w : World) (cfg : Limits) (id source : String) (full : Bool) (db : Db) (q : Project)
    → AllCalm w (poll_of q source)
    → get project_key id db.projects ≡ some q
    → Covered w (poll_of q source) db
    → Covered w (poll_of q source) (poll_project w cfg id full db).0
unfolding poll_project
poll_covers w cfg id source full db q calm found covered = rw found (configured q.ingest_source)
  where
    polled :
        (s : String) (c : Option IngestConfig)
        → Covered w (poll_of q source) (poll_with w cfg full db q c s).0
    polled s none = covered
    polled s (some c) =
        settled-Covered w (poll_of q s)
          (walk w cfg (poll_of q s) full (w.credential c.credential_env)
            (record { db = db; step = 0; outcome = new_outcome }))
          (walk-Covered w cfg (poll_of q s) calm full (w.credential c.credential_env)
            (record { db = db; step = 0; outcome = new_outcome }) covered)

    configured : (o : Option String) → Covered w (poll_of q source) (poll_from w cfg full db q o).0
    configured none = covered
    configured (some s) = elim (Bool-cases (s == "")) [
      | inl e ↦ rw e covered
      | inr e ↦ rw e (polled s q.ingest_config)
    ]
