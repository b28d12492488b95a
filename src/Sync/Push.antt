-- ===== src/Sync/Push.antt =====
-- sync/triage_sync.py and bugalizer/db.py: the push of the results, with the table triage_results. A stored payload
-- is the one that its text was written from. `fingerprint` stands for the SHA-256 of a payload's text.
pub mod Issued
pub mod Rounds
use Prim.Native.Nat.{max}
use bugalizer.Prelude.{
  ℕ, zero, suc, ◌+◌, Bool, true, false, not, ◌&&◌, ◌||◌, List, [], ◌∷◌, ◌++◌, Option, none, some,
  String, ◌==◌, string_eq, nat_beq, leb, if◌then◌else◌, get, update_where, order_asc, select_where,
}
use bugalizer.Store.{Project, Report, is_text}
use bugalizer.Store.Reports.{or_keep}
use bugalizer.Ingest.Texts.{take}
use bugalizer.Sync.Outcomes.{text}
use bugalizer.Sync.Results.{Run, Draft, Core, build_payload}

pub record Payload : Type 0 where
  pub revision : ℕ
  pub core : Core

pub record TriageResult : Type 0 where
  pub report_id : String
  pub project_id : String
  pub fingerprint : Option String
  pub revision : ℕ
  pub payload : Option Payload
  pub acked_fingerprint : Option String
  pub failed_fingerprint : Option String
  pub last_status : Option ℕ
  pub last_error : Option String
  pub pushed_at : Option ℕ

abbrev pub result_key : TriageResult → String
result_key r = r.report_id

-- `triage_result_get`
unfoldable pub triage_result_get : String → List TriageResult → Option TriageResult
triage_result_get = get result_key

-- `triage_result_stage`: the row that is inserted, or what a row that is there becomes
abbrev pub staged : String → Payload → TriageResult → TriageResult
staged fp payload r = record r {
  fingerprint = some fp;
  revision = payload.revision;
  payload = some payload;
  failed_fingerprint = none;
  last_error = none;
}

abbrev pub new_result : String → String → String → Payload → TriageResult
new_result report project fp payload = record {
  report_id = report;
  project_id = project;
  fingerprint = some fp;
  revision = payload.revision;
  payload = some payload;
  acked_fingerprint = none;
  failed_fingerprint = none;
  last_status = none;
  last_error = none;
  pushed_at = none;
}

abbrev pub stage_on :
    String → String → String → Payload → Option TriageResult → List TriageResult → List TriageResult
stage_on report project fp payload none rs = rs ++ new_result report project fp payload ∷ []
stage_on report project fp payload (some _) rs =
    update_where (λ r. r.report_id == report) (staged fp payload) rs

unfoldable pub triage_result_stage :
    String → String → String → Payload → List TriageResult → List TriageResult
triage_result_stage report project fp payload rs =
    stage_on report project fp payload (get result_key report rs) rs

-- The columns that `triage_result_update` accepts.
pub record ResultFields : Type 0 where
  pub revision : Option ℕ
  pub acked_fingerprint : Option String
  pub failed_fingerprint : Option String
  pub last_status : ℕ
  pub last_error : Option String
  pub pushed_at : ℕ

abbrev pub or_revision : Option ℕ → ℕ → ℕ
or_revision none old = old
or_revision (some n) old = n

abbrev pub set_result : ResultFields → TriageResult → TriageResult
set_result f r = record r {
  revision = or_revision f.revision r.revision;
  acked_fingerprint = or_keep f.acked_fingerprint r.acked_fingerprint;
  failed_fingerprint = or_keep f.failed_fingerprint r.failed_fingerprint;
  last_status = some f.last_status;
  last_error = f.last_error;
  pushed_at = some f.pushed_at;
}

unfoldable pub triage_result_update : String → ResultFields → List TriageResult → List TriageResult
triage_result_update report f = update_where (λ r. r.report_id == report) (set_result f)

abbrev pub is_imported : String → Report → Bool
is_imported project r =
    r.project_id == project && (elim r.external_id [ none ↦ false | some e ↦ true ])

abbrev pub report_created : Report → ℕ
report_created r = r.created_at

-- `sync_reports`
unfoldable pub sync_reports : String → List Report → List Report
sync_reports project rs = order_asc report_created (select_where (is_imported project) rs)

-- What is to be pushed: `core` is none where the stored payload is sent again.
pub record Todo : Type 0 where
  pub stamp : ℕ
  pub report : Report
  pub fp : String
  pub core : Option Core
  pub stored : Option TriageResult

abbrev pub todo_stamp : Todo → ℕ
todo_stamp t = t.stamp

-- The stored fingerprint is the one of the core.
abbrev pub is_stored : String → Option TriageResult → Bool
is_stored fp none = false
is_stored fp (some r) = is_text r.fingerprint (some fp)

-- sonicgrid has taken a position on the fingerprint.
abbrev pub is_settled : String → Option TriageResult → Bool
is_settled fp none = false
is_settled fp (some r) =
    is_text r.acked_fingerprint (some fp) || is_text r.failed_fingerprint (some fp)

unfoldable pub todo_of : String → Report → Core → Option TriageResult → Option Todo
todo_of fp report core stored =
    if is_stored fp stored
    then if is_settled fp stored
      then none
      else some (record {
        stamp = core.updated_at;
        report = report;
        fp = fp;
        core = none;
        stored = stored;
      })
    else some (record {
      stamp = core.updated_at;
      report = report;
      fp = fp;
      core = some core;
      stored = stored;
    })

abbrev pub add_todo : Option Todo → List Todo → List Todo
add_todo none rest = rest
add_todo (some t) rest = t ∷ rest

unfoldable pub todos :
    (Core → String) → (Report → Core) → List TriageResult → List Report → List Todo
todos fingerprint core_of rs [] = []
todos fingerprint core_of rs (r ∷ reports) =
    let core = core_of r in
    add_todo (todo_of (fingerprint core) r core (get result_key r.id rs))
      (todos fingerprint core_of rs reports)

-- sonicgrid's answer to a PUT
pub record PutAnswer : Type 0 where
  pub status : ℕ
  pub applied : Option Bool
  pub stored_revision : Option ℕ

-- The revision of a new payload: above the last one, and above any that a clock has given.
abbrev pub next_revision : Option TriageResult → ℕ → ℕ
next_revision none epoch = max 0 epoch
next_revision (some r) epoch = max (suc r.revision) epoch

abbrev pub payload_of : Option TriageResult → Option Payload
payload_of none = none
payload_of (some r) = r.payload

-- `applied` is False, and the stored revision is not below the one that was sent
abbrev pub overtaken : ℕ → Option Bool → Option ℕ → Option ℕ
overtaken revision (some false) (some stored) = if leb revision stored then some stored else none
overtaken revision _ _ = none

abbrev pub is_refused_put : ℕ → Bool
is_refused_put status = nat_beq status 400 || nat_beq status 404 || nat_beq status 413

-- What `_push` writes for an answer. `number` writes a status in decimal.
unfoldable pub answer_fields : (ℕ → String) → ℕ → String → ℕ → PutAnswer → ResultFields
answer_fields number now fp revision answer =
    if nat_beq answer.status 200
    then record {
      revision = overtaken revision answer.applied answer.stored_revision;
      acked_fingerprint = some fp;
      failed_fingerprint = none;
      last_status = 200;
      last_error = none;
      pushed_at = now;
    }
    else if is_refused_put answer.status
    then record {
      revision = none;
      acked_fingerprint = none;
      failed_fingerprint = some fp;
      last_status = answer.status;
      last_error = some (text ("http_" ∷ number answer.status ∷ []));
      pushed_at = now;
    }
    else record {
      revision = none;
      acked_fingerprint = none;
      failed_fingerprint = none;
      last_status = answer.status;
      last_error = some (text ("unexpected_status:" ∷ number answer.status ∷ []));
      pushed_at = now;
    }

-- The table beside the PUTs that were made, the newest first, each with its report.
pub record Pushes : Type 0 where
  pub results : List TriageResult
  pub sent : List (String × Payload)

-- A PUT is answered, or it ends the push by _Abort: a timeout, a network error, a 401 or a 5xx.
abbrev pub Put : Type 0
Put = Report → Payload → Option PutAnswer

-- What follows a PUT, and whether the push goes on. It may have reached sonicgrid also where it ends the push.
abbrev pub after_put :
    (ℕ → String)
    → ℕ
    → Todo
    → Payload
    → Option PutAnswer
    → List TriageResult
    → Pushes
    → Pushes × Bool
after_put number now t payload none rs p =
    (record { results = rs; sent = (t.report.id, payload) ∷ p.sent }, false)
after_put number now t payload (some answer) rs p = (
  record {
    results =
        triage_result_update t.report.id (answer_fields number now t.fp payload.revision answer) rs;
    sent = (t.report.id, payload) ∷ p.sent;
  },
  true,
)

-- The table is the one that holds the payload already.
abbrev pub send :
    (ℕ → String) → ℕ → Todo → Payload → Put → List TriageResult → Pushes → Pushes × Bool
send number now t payload put rs p = after_put number now t payload (put t.report payload) rs p

-- A stored row without its payload raises, which ends the push.
abbrev pub resend : (ℕ → String) → ℕ → Todo → Option Payload → Put → Pushes → Pushes × Bool
resend number now t none put p = (p, false)
resend number now t (some payload) put p = send number now t payload put p.results p

abbrev pub push_on : (ℕ → String) → String → ℕ → Todo → Option Core → Put → Pushes → Pushes × Bool
push_on number project now t none put p = resend number now t (payload_of t.stored) put p
push_on number project now t (some core) put p =
    let payload : Payload = record { revision = next_revision t.stored now; core = core } in
    send number now t payload put (triage_result_stage t.report.id project t.fp payload p.results) p

-- One round of the loop of `_push`; `now` is the clock, in microseconds
unfoldable pub push_one : (ℕ → String) → String → ℕ → Todo → Put → Pushes → Pushes × Bool
push_one number project now t put p = push_on number project now t t.core put p

unfoldable pub push_all : (ℕ → String) → String → (Report → ℕ) → List Todo → Put → Pushes → Pushes
push_all number project clock [] put p = p
push_all number project clock (t ∷ ts) put p =
    let (p', goes_on) = push_one number project (clock t.report) t put p in
    let rest = push_all number project clock ts put p' in if goes_on then rest else p'

-- `_push`, of the reports with the payloads that their rows give; `clock` is the time when a report is reached
unfoldable pub push :
    (ℕ → String)
    → (Core → String)
    → ℕ
    → String
    → (Report → ℕ)
    → (Report → Core)
    → List Report
    → Put
    → Pushes
    → Pushes
push number fingerprint per_tick project clock core_of reports put p =
    let found = todos fingerprint core_of p.results (sync_reports project reports) in
    push_all number project clock (take (max 1 per_tick) (order_asc todo_stamp found)) put p

-- The payloads of a project's reports, from their rows.
abbrev pub core_from : (Report → List Run) → (Report → List Draft) → Option Project → Report → Core
core_from runs drafts project r = build_payload r (runs r) (drafts r) project
