-- ===== src/Tests/Ingest.antt =====
-- Imports, fences and polls of a small project.
use bugalizer.Prelude.{
  ℕ, ◌+◌, ◌≤◌, ◌≡◌, refl, inl, false, none, some, [], ◌∷◌, Option, String, arith, get, IsIn,
}
use bugalizer.Store.{Project, Db}
use bugalizer.Ingest.{
  Imported, no_updates, state_key, ingest_commit, write_step, import_reports, import_report,
  ProjectFields, project_update,
}
use bugalizer.Ingest.Import.{replay_inserts_nothing}
use bugalizer.Ingest.Fence.{change_fences_poll}
use bugalizer.Ingest.Sonicgrid.{
  PollReport, map_report, description_max, reporter_max, derive_title, description_of, reporter_of,
}
use bugalizer.Ingest.Sonicgrid.Bounds.{Fits, map_report-Fits}
use bugalizer.Ingest.Source.{World, Limits, answered}
use bugalizer.Ingest.Poller.{poll_project, new_outcome}
use bugalizer.Ingest.Loop.{max_backoff_ticks}
use bugalizer.Ingest.Poller.Covered.{Covered}
use bugalizer.Ingest.Poller.Forward.{AllCalm}
use bugalizer.Ingest.Poller.Polled.{poll_of, poll_covers}
use bugalizer.Ingest.Loop.Backoff.{Tick, polled_at, polled_within}
use bugalizer.Tests.Data.{db, project}

abbrev fed : Project
fed = record project {
  ingest_source = some "sonicgrid";
  ingest_config =
      some (record { url = "u"; credential_env = "POLL"; triage_credential_env = none });
  ingest_generation = 3;
}

abbrev fed_db : Db
fed_db = record db { projects = fed ∷ []; reports = [] }

abbrev row : String → Imported
row id = record {
  id = id;
  title = 116 ∷ [];
  description = 100 ∷ [];
  reporter = 119 ∷ [];
  severity = "medium";
  ingest_source = "sonicgrid";
  external_id = "e1";
}

replay_inserts_nothing_example :
    ((ingest_commit 10 "p" 3
        (row "n2" ∷ [])
        no_updates
        false
        (ingest_commit 9 "p" 3 (row "n1" ∷ []) no_updates false fed_db).0).1
      ≡ some 0)
    × ((ingest_commit 10 "p" 3
          (row "n2" ∷ [])
          no_updates
          false
          (ingest_commit 9 "p" 3 (row "n1" ∷ []) no_updates false fed_db).0).0.reports
        ≡ (ingest_commit 9 "p" 3 (row "n1" ∷ []) no_updates false fed_db).0.reports)
unfolding ingest_commit write_step import_reports import_report get
replay_inserts_nothing_example =
    replay_inserts_nothing 9 10 "p" 3 (row "n1" ∷ []) (row "n2" ∷ []) no_updates no_updates false
      false fed_db 1 refl refl

abbrev new_url : ProjectFields
new_url = record {
  repo_path = none;
  head_sha = none;
  ingest_source = none;
  ingest_config =
      some (some (record { url = "v"; credential_env = "POLL"; triage_credential_env = none }));
}

change_fences_poll_example :
    (ingest_commit 9 "p" 3 (row "n1" ∷ []) no_updates false (project_update "p" new_url fed_db)
      ≡ (project_update "p" new_url fed_db, none))
    × (get state_key "p" (project_update "p" new_url fed_db).ingest_states ≡ none)
unfolding get
change_fences_poll_example =
    change_fences_poll 9 "p" new_url 3 (row "n1" ∷ []) no_updates false fed_db fed refl refl
      (omega arith)

abbrev triage_on : ProjectFields
triage_on = record new_url {
  ingest_config =
      some (some (record { url = "u"; credential_env = "POLL"; triage_credential_env = some "T" }));
}

abbrev raw : Option PollReport
raw = some (record { id = "e1"; description = some (104 ∷ 105 ∷ []); reporter_name = none })

map_report-Fits_example :
    Fits 81 (derive_title (104 ∷ 105 ∷ []))
    × Fits description_max (description_of (some (104 ∷ 105 ∷ [])))
    × Fits reporter_max (reporter_of none)
unfolding map_report
map_report-Fits_example =
    map_report-Fits raw "sonicgrid" "n1"
      (record {
        id = "n1";
        title = derive_title (104 ∷ 105 ∷ []);
        description = description_of (some (104 ∷ 105 ∷ []));
        reporter = reporter_of none;
        severity = "medium";
        ingest_source = "sonicgrid";
        external_id = "e1";
      })
      refl

-- A source with one page, and a process that does nothing else.
abbrev world : World
world = record {
  reply = λ k c. answered 200 (some (record { reports = raw ∷ []; next_cursor = some "c1" }));
  now = λ k. 100;
  new_id = λ k e. e;
  others = λ k db. db;
  credential = λ name. some "token";
  error_text = λ e. "error";
}

abbrev limits : Limits
limits = record {
  ingest_page_limit = 100;
  ingest_max_pages = 20;
  ingest_rewalk_pages = 5;
  rewalk_interval = 1000;
}

calm : AllCalm world (poll_of fed "sonicgrid")
calm k d = record { reports = λ e h. h; states = λ s m project gen. m }

poll_covers_example :
    Covered world (poll_of fed "sonicgrid") (poll_project world limits "p" false fed_db).0
unfolding get
poll_covers_example =
    poll_covers world limits "p" "sonicgrid" false fed_db fed calm refl
      (λ s m project gen. absurd m)

abbrev ticks : ℕ → Tick
ticks k = record {
  poll = λ id db. (db, record new_outcome { consecutive_failures = 9 });
  projects = fed ∷ [];
}

polled_within_example :
    (m : ℕ) × (m ≤ max_backoff_ticks)
    × IsIn "p" (polled_at ticks (m + 4) (record { skip = λ id. 0; db = fed_db }))
polled_within_example =
    polled_within ticks "p" (record { skip = λ id. 0; db = fed_db }) 4 (λ k. (tt, tt))
      (λ k. (fed, inl refl, refl)) refl
