-- ===== src/Ingest/Loop.antt =====
-- ingest/poller.py: the tick of the background loop, and how long it leaves a project alone.
pub mod Backoff
use bugalizer.Prelude.{
  ℕ, zero, suc, ◌+◌, ◌-◌, ◌^◌, Bool, true, false, not, ◌&&◌, ◌||◌, List, [], ◌∷◌, Option, none,
  some, String, ◌==◌, string_eq, nat_beq, leb, ltb, if◌then◌else◌, get, select_where, ◌++◌,
}
use Prim.Native.Nat.{min, max}
use bugalizer.Store.{IngestConfig, Project, project_key, IngestState, Db, is_text}
use bugalizer.Ingest.{Imported, Updates, no_updates, state_key, ingest_commit}
use bugalizer.Ingest.Texts.{length}
use bugalizer.Ingest.Sonicgrid.{PollReport, map_report}
use bugalizer.Ingest.Source.{
  Fetched, Flow, Limits, Poll, PollError, PollOutcome, PollPage, Reply, Run, World, answered,
  bad_cursor, config_changed, credential_missing, fetched, go, http_raised, malformed_response,
  network_error, not_configured, page_of, parsed, refused, run_of, source_not_configured, stale,
  timed_out, timeout_raised, unauthorized, unexpected_status, upstream_error,
}

-- The background loop's memory: the ticks left to skip of each project, and the database.
pub record Loop : Type 0 where
  pub skip : String → ℕ
  pub db : Db

abbrev pub max_backoff_ticks : ℕ
max_backoff_ticks = 32

-- A poll that was fenced out is no failure of the source.
unfoldable pub backoff : PollOutcome → ℕ
backoff o =
    if not (is_clean o.error) && not o.stale
    then min (2 ^ max o.consecutive_failures 1) max_backoff_ticks
    else 0
  where
    is_clean : Option PollError → Bool
    is_clean none = true
    is_clean (some e) = false

abbrev pub set_skip : String → ℕ → (String → ℕ) → String → ℕ
set_skip id n skip j = if j == id then n else skip j

module _ (poll : String → Db → Db × PollOutcome) where
  abbrev pub poll_now : String → Loop → Loop
  poll_now id loop =
      let (db, outcome) = poll id loop.db in
      record { skip = set_skip id (backoff outcome) loop.skip; db = db }

  -- One turn of the loop over the projects, and the projects that it polled.
  unfoldable pub tick_project : String → Loop → Loop × List String
  tick_project id loop =
      if ltb 0 (loop.skip id)
      then (record loop { skip = set_skip id (loop.skip id - 1) loop.skip }, [])
      else (poll_now id loop, id ∷ [])

  -- `run_tick`, on the projects that have an ingest source
  unfoldable pub run_tick : List Project → Loop → Loop × List String
  run_tick [] loop = (loop, [])
  run_tick (q ∷ qs) loop =
      let (loop', polled) = tick_project q.id loop in
      let (loop'', rest) = run_tick qs loop' in (loop'', polled ++ rest)

-- `projects_with_ingest`: the table is in the order of its creation
unfoldable pub projects_with_ingest : Db → List Project
projects_with_ingest db = select_where (λ q. not (is_text q.ingest_source none)) db.projects
