-- ===== src/Ingest/Source.antt =====
-- ingest/poller.py: the answers of a source (`_fetch`) and the state of a poll. The source's answers,
-- the clock, the identifiers that an import draws and what the rest of the process does to the
-- database before each commit are a `World`.
use bugalizer.Prelude.{
  ℕ, Bool, ◌&&◌, List, Option, none, some, String, string_eq, nat_beq, leb, ltb, if◌then◌else◌,
}
use bugalizer.Store.{Db}
use bugalizer.Ingest.Sonicgrid.{PollReport}

-- The fixed error vocabulary.
pub data PollError : Type 0 where
  unauthorized source_not_configured bad_cursor upstream_error network_error : PollError
  timed_out malformed_response credential_missing not_configured config_changed : PollError
  unexpected_status : ℕ → PollError

pub record PollPage : Type 0 where
  pub reports : List (Option PollReport)
  pub next_cursor : Option String

-- What a request comes to. `parse_page`, on a body that is JSON, is pydantic's: a page or nothing.
pub data Reply : Type 0 where
  timeout_raised http_raised : Reply
  answered : ℕ → Option PollPage → Reply

pub data Fetched : Type 0 where
  page_of : PollPage → Fetched
  refused : PollError → Fetched

abbrev pub parsed : Option PollPage → Fetched
parsed none = refused malformed_response
parsed (some page) = page_of page

-- `_fetch`
unfoldable pub fetched : Reply → Fetched
fetched timeout_raised = refused timed_out
fetched http_raised = refused network_error
fetched (answered status body) =
    if nat_beq status 200
    then parsed body
    else if nat_beq status 400
    then refused bad_cursor
    else if nat_beq status 401
    then refused unauthorized
    else if nat_beq status 503
    then refused source_not_configured
    else if leb 500 status && ltb status 600
    then refused upstream_error
    else refused (unexpected_status status)

pub record World : Type 0 where
  pub reply : ℕ → Option String → Reply
  pub now : ℕ → ℕ
  pub new_id : ℕ → String → String
  pub others : ℕ → Db → Db
  pub credential : String → Option String  -- resolve_env_credential
  pub error_text : PollError → String

pub record Limits : Type 0 where
  pub ingest_page_limit : ℕ
  pub ingest_max_pages : ℕ
  pub ingest_rewalk_pages : ℕ
  pub rewalk_interval : ℕ  -- ingest_rewalk_hours, in microseconds

pub record PollOutcome : Type 0 where
  pub imported : ℕ
  pub pages : ℕ
  pub skipped : ℕ
  pub error : Option PollError
  pub stale : Bool
  pub consecutive_failures : ℕ

pub record Poll : Type 0 where
  pub project_id : String
  pub generation : ℕ
  pub source : String

-- A poll in progress: `step` counts what it asked of the world.
pub record Run : Type 0 where
  pub db : Db
  pub step : ℕ
  pub outcome : PollOutcome

-- `stale` is the exception _Stale.
pub data Flow : Type 0 where
  go : Run → Flow
  stale : Run → Flow

abbrev pub run_of : Flow → Run
run_of (go run) = run
run_of (stale run) = run
