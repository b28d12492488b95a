-- ===== src/Ingest/Poller.antt =====
-- ingest/poller.py: one poll of a project: the forward walk, the re-walk and the bookkeeping. An
-- unexpected exception is not modelled.
pub mod Covered
pub mod Forward
pub mod Polled
use bugalizer.Prelude.{
  ℕ, zero, suc, ◌+◌, ◌-◌, ◌^◌, Bool, true, false, not, ◌&&◌, ◌||◌, List, [], ◌∷◌, Option, none,
  some, String, ◌==◌, string_eq, nat_beq, leb, ltb, if◌then◌else◌, get, select_where, ◌++◌,
}
use Prim.Native.Nat.{min, max}
use bugalizer.Store.{IngestConfig, Project, project_key, IngestState, Db, is_text}
use bugalizer.Ingest.{Imported, Updates, no_updates, state_key, ingest_commit}
use bugalizer.Ingest.Texts.{length}
use bugalizer.Ingest.Sonicgrid.{PollReport, map_report}
use bugalizer.Ingest.Source.{
  Fetched, Flow, Limits, Poll, PollError, PollOutcome, PollPage, Reply, Run, World, answered,
  bad_cursor, config_changed, credential_missing, fetched, go, http_raised, malformed_response,
  network_error, not_configured, page_of, parsed, refused, run_of, source_not_configured, stale,
  timed_out, timeout_raised, unauthorized, unexpected_status, upstream_error,
}

module _ (w : World) (cfg : Limits) (p : Poll) where
  -- `_page_limit`
  abbrev pub page_limit : ℕ
  page_limit = max 1 (min 200 cfg.ingest_page_limit)

  abbrev pub set_error : PollError → Run → Run
  set_error e run = record run { outcome = record run.outcome { error = some e } }

  abbrev pub counted : ℕ → Run → Run
  counted n run = record run {
    outcome = record run.outcome {
      imported = run.outcome.imported + n;
      pages = suc run.outcome.pages;
    };
  }

  abbrev pub committed : Run → Db × Option ℕ → (ℕ → Run → Flow) → Flow
  committed run (db, none) k = stale (record run { db = db; step = suc run.step })
  committed run (db, some n) k = k n (record run { db = db; step = suc run.step })

  -- `_Poll.commit`, and what follows it
  unfoldable pub commit : List Imported → Updates → Bool → Run → (ℕ → Run → Flow) → Flow
  commit rows u failed run k =
      committed run
        (ingest_commit (w.now run.step) p.project_id p.generation rows u failed
          (w.others run.step run.db))
        k

  abbrev pub map_one : ℕ → Option PollReport → List Imported → List Imported
  map_one step r rows = elim (map_report r p.source (new_for r)) [
    | none ↦ rows
    | some row ↦ row ∷ rows
  ]
    where
      new_for : Option PollReport → String
      new_for none = ""
      new_for (some r) = w.new_id step r.id

  -- `_map_page`: the rows, and how many reports are skipped
  unfoldable pub map_page : ℕ → List (Option PollReport) → List Imported
  map_page step [] = []
  map_page step (r ∷ rs) = map_one step r (map_page step rs)

  unfoldable pub skipped_in : List (Option PollReport) → ℕ
  skipped_in [] = 0
  skipped_in (none ∷ rs) = suc (skipped_in rs)
  skipped_in (some r ∷ rs) = skipped_in rs

  abbrev pub skip_counted : PollPage → Run → Run
  skip_counted page run = record run {
    outcome = record run.outcome { skipped = run.outcome.skipped + skipped_in page.reports };
  }

  -- `_walk_ends`
  abbrev pub walk_ends : PollPage → Bool
  walk_ends page = is_text page.next_cursor none || ltb (length page.reports) page_limit

  abbrev pub asked : Run → Run
  asked run = record run { step = suc run.step }

  abbrev pub cursor_update : Option String → Updates
  cursor_update none = no_updates
  cursor_update (some c) = record no_updates { cursor = some (some c) }

  -- The loop body of `_forward`; `next` is the rest of the loop.
  unfoldable pub forward_on : (Option String → Run → Flow) → Fetched → Run → Flow
  forward_on next (refused bad_cursor) run =
      commit [] (record no_updates { cursor = some none }) false run
        (λ _ run. go (set_error bad_cursor run))
  forward_on next (refused e) run = go (set_error e run)
  forward_on next (page_of page) run =
      commit (map_page run.step page.reports) (cursor_update page.next_cursor) false
        (skip_counted page run)
        (λ n run.
          let rest = next page.next_cursor (counted n run) in
          if walk_ends page then go (counted n run) else rest)

  unfoldable pub forward : ℕ → Option String → Run → Flow
  forward zero cursor run = go run
  forward (suc pages) cursor run =
      forward_on (forward pages) (fetched (w.reply run.step cursor)) (asked run)

  -- `_rewalk_due`
  abbrev pub rewalk_due : ℕ → Option ℕ → Bool
  rewalk_due now none = false
  rewalk_due now (some last) = leb cfg.rewalk_interval (now - last)

  abbrev pub rewalk_update : Option String → Updates
  rewalk_update none = no_updates
  rewalk_update (some c) = record no_updates { rewalk_cursor = some (some c) }

  -- The last page of a re-walk also writes when it started.
  abbrev pub rewalk_updates : ℕ → PollPage → Updates
  rewalk_updates started page =
      if walk_ends page
      then record no_updates {
        last_full_walk_at = some (some started);
        rewalk_started_at = some none;
        rewalk_cursor = some none;
      }
      else rewalk_update page.next_cursor

  unfoldable pub rewalk_on : ℕ → (Option String → Run → Flow) → Fetched → Run → Flow
  rewalk_on started next (refused bad_cursor) run =
      commit [] (record no_updates { rewalk_cursor = some none }) false run
        (λ _ run. go (set_error bad_cursor run))
  rewalk_on started next (refused e) run = go (set_error e run)
  rewalk_on started next (page_of page) run =
      commit (map_page run.step page.reports) (rewalk_updates started page) false
        (skip_counted page run)
        (λ n run.
          let rest = next page.next_cursor (counted n run) in
          if walk_ends page then go (counted n run) else rest)

  unfoldable pub rewalk_pages : ℕ → ℕ → Option String → Run → Flow
  rewalk_pages started zero cursor run = go run
  rewalk_pages started (suc pages) cursor run =
      rewalk_on started (rewalk_pages started pages) (fetched (w.reply run.step cursor)) (asked run)

  abbrev pub state_of : Db → Option IngestState
  state_of db = get state_key p.project_id db.ingest_states

  abbrev pub last_full_walk : Option IngestState → Option ℕ
  last_full_walk none = none
  last_full_walk (some s) = s.last_full_walk_at

  -- The start of a re-walk: its time is written with a null cursor.
  unfoldable pub rewalk_start : Bool → Option IngestState → Run → Flow
  rewalk_start full s run =
      let started = w.now run.step in
      let walk =
        commit []
          (record no_updates { rewalk_started_at = some (some started); rewalk_cursor = some none })
          false run (λ _ run. rewalk_pages started cfg.ingest_rewalk_pages none run) in
      if full || rewalk_due (w.now run.step) (last_full_walk s) then walk else go run

  abbrev pub rewalk_from : Bool → Option IngestState → Run → Flow
  rewalk_from full none run = rewalk_start full none run
  rewalk_from full (some s) run = elim s.rewalk_started_at [
    | none ↦ rewalk_start full (some s) run
    | some started ↦ rewalk_pages started cfg.ingest_rewalk_pages s.rewalk_cursor run
  ]

  -- `_rewalk`
  unfoldable pub rewalk : Bool → Run → Flow
  rewalk full run = rewalk_from full (state_of run.db) run

  abbrev pub failures_of : Option IngestState → ℕ
  failures_of none = 0
  failures_of (some s) = s.consecutive_failures

  abbrev pub noted : Run → Run
  noted run = record run {
    outcome = record run.outcome { consecutive_failures = failures_of (state_of run.db) };
  }

  abbrev pub finish_updates : ℕ → Option PollError → Updates
  finish_updates now none = record no_updates {
    last_poll_at = some now;
    last_ok_at = some now;
    last_error = some none;
    consecutive_failures = some 0;
  }
  finish_updates now (some e) = record no_updates {
    last_poll_at = some now;
    last_error = some (some (w.error_text e));
  }

  -- `_finish`: one write for the whole poll
  unfoldable pub finish : Run → Flow
  finish run =
      commit [] (finish_updates (w.now run.step) run.outcome.error) (failed run.outcome.error) run
        (λ _ run. go (noted run))
    where
      failed : Option PollError → Bool
      failed none = false
      failed (some e) = true

abbrev pub and_then : Flow → (Run → Flow) → Flow
and_then (go run) k = k run
and_then (stale run) k = stale run

abbrev pub if_clean : Option PollError → (Run → Flow) → Run → Flow
if_clean none k run = k run
if_clean (some e) k run = go run

abbrev pub new_outcome : PollOutcome
new_outcome = record {
  imported = 0;
  pages = 0;
  skipped = 0;
  error = none;
  stale = false;
  consecutive_failures = 0;
}

-- A checkpoint of another generation is not read.
abbrev pub own_cursor : ℕ → Option IngestState → Option String
own_cursor generation none = none
own_cursor generation (some s) = if nat_beq s.generation generation then s.cursor else none

-- The forward walk, then the re-walk if that found no error, then the bookkeeping.
unfoldable pub walks : World → Limits → Poll → Bool → Run → Flow
walks w cfg p full run =
    and_then
      (and_then
        (forward w cfg p cfg.ingest_max_pages (own_cursor p.generation (state_of w cfg p run.db))
          run)
        (λ run. if_clean run.outcome.error (rewalk w cfg p full) run))
      (finish w cfg p)

abbrev pub missing : Option String → Bool
missing none = true
missing (some t) = t == ""

-- The body of `poll_project`, on the token.
unfoldable pub walk : World → Limits → Poll → Bool → Option String → Run → Flow
walk w cfg p full token run =
    if missing token
    then finish w cfg p (set_error w cfg p credential_missing run)
    else walks w cfg p full run

abbrev pub settled : Flow → Db × PollOutcome
settled (go run) = (run.db, run.outcome)
settled (stale run) = (run.db, record run.outcome { error = some config_changed; stale = true })

abbrev pub unconfigured : Db → Db × PollOutcome
unconfigured db = (db, record new_outcome { error = some not_configured })

abbrev pub poll_with :
    World → Limits → Bool → Db → Project → Option IngestConfig → String → Db × PollOutcome
poll_with w cfg full db q none source = unconfigured db
poll_with w cfg full db q (some config) source = settled (
    walk w cfg (record { project_id = q.id; generation = q.ingest_generation; source = source })
      full (w.credential config.credential_env)
      (record { db = db; step = 0; outcome = new_outcome }))

abbrev pub poll_from : World → Limits → Bool → Db → Project → Option String → Db × PollOutcome
poll_from w cfg full db q none = unconfigured db
poll_from w cfg full db q (some source) =
    let polled = poll_with w cfg full db q q.ingest_config source in
    if source == "" then unconfigured db else polled

abbrev pub poll_source : World → Limits → Bool → Db → Option Project → Db × PollOutcome
poll_source w cfg full db none = unconfigured db
poll_source w cfg full db (some q) = poll_from w cfg full db q q.ingest_source

unfoldable pub poll_project : World → Limits → String → Bool → Db → Db × PollOutcome
poll_project w cfg id full db = poll_source w cfg full db (get project_key id db.projects)
