-- ===== src/Tests/Runs.antt =====
-- Runs of the action executor.
use bugalizer.Prelude.{
  ◌≡◌, ◌≤◌, ◌⊎◌, refl, inl, true, none, some, [], ◌∷◌, List, get, update_where, select_where,
  row_count, order_desc, insert_desc, first_where,
}
use bugalizer.Workflow.{triaged}
use bugalizer.Store as S
use bugalizer.Store.{Db, Analysis}
use bugalizer.Schedule.{latest_localization, analyses_for_report}
use bugalizer.Ledger.{
  Action, analyze_cloud, open_pr, new_action, dispatched, finish_row, done, failed,
  triage_action_get, triage_action_reserve, insert_new, triage_action_update, set_fields,
}
use bugalizer.Ledger.Once.{SameOutcome}
use bugalizer.Sync.Slots.{try_hold, release, set_task}
use bugalizer.Sync.Expiry.{ActionResult, expire_overdue}
use bugalizer.Sync.Actions.{
  authorize, authorize_kind, authorize_paid, authorize_env, check_cloud_analysis, is_paid,
  allowlisted, lowered, same_text, only_fix,
}
use bugalizer.Sync.Outcomes.{
  evidence, finished_rows, analyses_by_trigger, fix_proposals_by_trigger, step_result,
}
use bugalizer.Sync.Outcomes.Evidence.{Backed, evidence-Backed}
use bugalizer.Sync.Executor.{Settings, State, task_running, with_actions}
use bugalizer.Sync.Executor.Handle.{Listed, handle, claim_answered, dispatch}
use bugalizer.Sync.Executor.Drain.{Advance}
use bugalizer.Sync.Executor.Traced.{tasks_of}
use bugalizer.Sync.Executor.Runs.{start, step, handled, claimed, expired, run_keeps_outcome}
use bugalizer.Sync.Executor.Paid.{paid_model_once}
use bugalizer.Sync.Executor.Calls.{CredentialAnswer}
use bugalizer.Sync.Executor.Payer.{PaidBy, task_call-PaidBy}
use bugalizer.Sync.Executor.Calls.{task_call}
use bugalizer.Sync.Executor.Refused.{IsPermitted, claim_runs-IsPermitted}
use bugalizer.Ingest.Texts.{chars, strip, rstrip, lstrip}
use bugalizer.Tests.Data.{report, project, db, analysis}
use bugalizer.Tests.Sync.{sync_cfg, asks}

abbrev cfg : Settings
cfg = record {
  sync = sync_cfg;
  triage_max_concurrent = 1;
  bound = 60;
  timeout_message = "timed out";
  number = λ n. "n";
  mode_name = λ m. "m";
  say = λ why. "no";
  status_name = λ s. "s";
}

abbrev listed : Listed
listed = record { action_id = "x"; bug_id = "e"; user_id = some "u"; request = asks }

abbrev with_rows : List Action → State
with_rows rs = record {
  db = record db { reports = record (report "a" triaged none) { external_id = some "e" } ∷ [] };
  actions = rs;
  holds = [];
  llm_tasks = [];
  outcome = record { actions_started = 0; terminals_posted = 0; unresolved = 0 };
}

-- A paid action that was dispatched.
abbrev paid_row : Action
paid_row = record (new_action "x" "p" "a" analyze_cloud none (some "u")) {
  phase = dispatched;
  no_auto_retry = true;
  pinned_llm = some (only_fix ("x", "m"));
  intent_at = some 11;
  dispatched_at = some 11;
}

abbrev after_claim : State
after_claim =
    claim_answered cfg 11 project listed 200 (handle cfg 10 project listed (with_rows [])).0

paid_model_once_example : tasks_of "x" after_claim.llm_tasks ≤ 1
unfolding handle claim_answered dispatch triage_action_get triage_action_reserve insert_new
    triage_action_update set_fields get update_where row_count first_where try_hold release set_task
    task_running authorize authorize_kind authorize_paid authorize_env check_cloud_analysis is_paid
    allowlisted lowered same_text chars strip rstrip lstrip latest_localization analyses_for_report
    select_where order_desc insert_desc
paid_model_once_example =
    paid_model_once cfg (with_rows []) after_claim paid_row (only_fix ("x", "m")) ("x", "m")
      (step (step start (handled 10 project listed)) (claimed 11 project listed 200)) refl refl
      (inl refl) refl refl refl

abbrev ended_row : Action
ended_row = finish_row 7 done (some "ok") none (record paid_row { action_id = "z" })

run_keeps_outcome_example :
    (s : Action) × (triage_action_get "z"
        (with_actions
          (expire_overdue cfg.bound 100 cfg.timeout_message none (paid_row ∷ ended_row ∷ [])).0
          (with_rows (paid_row ∷ ended_row ∷ []))).actions
      ≡ some s)
    × SameOutcome ended_row s
unfolding triage_action_get get
run_keeps_outcome_example =
    run_keeps_outcome cfg (with_rows (paid_row ∷ ended_row ∷ [])) _ "z" ended_row
      (step start (expired 100 none)) ((refl, tt), (tt, tt)) refl refl

abbrev refusing : Advance
refusing id b = some (409, some "failed")

abbrev failed_fix : Analysis
failed_fix = record (analysis "f" "a" S.fix S.failed none 9) { trigger_ref = some "x" }

abbrev failed_of_x : ActionResult
failed_of_x =
    step_result paid_row.kind failed "The fix proposal failed; see Bugalizer for the error"

evidence-Backed_example :
    Backed paid_row.kind "x" (record db { analyses = failed_fix ∷ [] }) failed_of_x
unfolding evidence finished_rows analyses_by_trigger fix_proposals_by_trigger select_where
    order_desc insert_desc step_result
evidence-Backed_example =
    evidence-Backed (record db { analyses = failed_fix ∷ [] }) paid_row failed_of_x refl

abbrev on_key : Action
on_key = record paid_row { requester_key = true; pinned_llm = some (only_fix ("anthropic", "m")) }

abbrev gives_key : CredentialAnswer
gives_key = record {
  status = 200;
  provider = some "anthropic";
  api_key = some "k";
  error = none;
  code = none;
}

task_call-PaidBy_example :
    PaidBy sync_cfg on_key gives_key (task_call sync_cfg (λ c. true) on_key gives_key)
task_call-PaidBy_example = task_call-PaidBy sync_cfg (λ c. true) on_key gives_key

abbrev asks_pr : Listed
asks_pr = record listed { request = record asks { kind = open_pr } }

abbrev reserved_row : Action
reserved_row = new_action "x" "p" "a" open_pr none none

claim_runs-IsPermitted_example :
    (((claim_answered cfg 9 project asks_pr 409 (with_rows (reserved_row ∷ []))).llm_tasks
        ≡ (with_rows (reserved_row ∷ [])).llm_tasks)
      × ((claim_answered cfg 9 project asks_pr 409 (with_rows (reserved_row ∷ []))).db
          ≡ (with_rows (reserved_row ∷ [])).db))
    ⊎ IsPermitted cfg project asks_pr 409 (with_rows (reserved_row ∷ []))
claim_runs-IsPermitted_example =
    claim_runs-IsPermitted cfg 9 project asks_pr 409 (with_rows (reserved_row ∷ []))
