-- ===== src/Tests/Sync.antt =====
-- The lane of a report, and the decision on an action.
use bugalizer.Prelude.{
  ◌≡◌, refl, true, false, none, some, [], get, select_where, order_desc, insert_desc, first_where,
}
use Prim.Native.String.{◌++◌ as ◌then◌}
use bugalizer.Workflow.{triaged}
use bugalizer.Schedule.{
  fix_eligible, fix_ready, has_proposal_for, fix_blocked, retry_blocked, failed_attempts_after,
  analyses_for_report, latest_localization, project_of,
}
use bugalizer.Ledger.{analyze_local, analyze_cloud}
use bugalizer.Sync.Stage.{Detail, in_triaged, stage_of}
use bugalizer.Sync.Stage.Fresh.{analyses_of, Workable, eligible-Workable}
use bugalizer.Sync.Actions.{
  SyncSettings, Request, authorize, authorize_kind, authorize_paid, authorize_env,
  check_cloud_analysis, is_paid, allowlisted, lowered, same_text,
}
use bugalizer.Sync.Actions.Authorized.{MaySpend, authorize-MaySpend}
use bugalizer.Ingest.Texts.{chars, strip, rstrip, lstrip}
use bugalizer.Tests.Data.{report, db, project}
use bugalizer.Tests.Schedule.{cfg}

eligible-Workable_example :
    (d : Detail) × (stage_of
        (report "a" triaged none)
        (analyses_of "a" db.analyses)
        []
        (project_of db (report "a" triaged none))
      ≡ (in_triaged, d))
    × Workable d
unfolding fix_eligible fix_ready has_proposal_for fix_blocked retry_blocked failed_attempts_after
    analyses_for_report latest_localization project_of select_where order_desc insert_desc
    first_where get
eligible-Workable_example = eligible-Workable cfg 10 db (report "a" triaged none) [] refl

abbrev pub sync_cfg : SyncSettings
sync_cfg = record {
  sonicgrid_user_keys = false;
  in_cloud_users = λ email. true;
  fix_provider = "x";
  default_fix_model = "m";
  default_triage_model = "q";
  default_localize_model = "q";
}

abbrev pub asks : Request
asks = record {
  kind = analyze_cloud;
  email = some "a@b";
  repo_write = false;
  cloud_spend = false;
  llm = none;
  mode = none;
}

authorize-MaySpend_example :
    MaySpend sync_cfg asks (authorize sync_cfg db project (report "a" triaged none) asks) ("x", "m")
unfolding authorize authorize_kind authorize_paid authorize_env check_cloud_analysis is_paid
    allowlisted lowered same_text chars strip rstrip lstrip latest_localization analyses_for_report
    select_where order_desc insert_desc first_where
authorize-MaySpend_example =
    authorize-MaySpend sync_cfg db project (report "a" triaged none) asks ("x", "m") refl refl

abbrev asks_local : Request
asks_local = record asks { kind = analyze_local }
