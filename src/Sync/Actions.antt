-- ===== src/Sync/Actions.antt =====
-- sync/actions.py: the decision, once for an action, whether it may run and on which models
-- (`authorize`), with the checks of api/reports.py and the model choice of llm/client.py. The texts of
-- the refusals are their reasons here.
pub mod Authorized
use bugalizer.Prelude.{
  ℕ, ◌+◌, Bool, true, false, not, ◌&&◌, ◌||◌, List, [], ◌∷◌, Option, none, some, String, ◌==◌,
  string_eq, nat_beq, leb, ltb, if◌then◌else◌,
}
use bugalizer.Workflow.{
  BugStatus, triaged, clarification_needed, closed, status_eq, among, terminal_statuses,
  validate_transition,
}
use bugalizer.Store.{AnalysisMode, Project, Report, Analysis, Db, is_text, Text}
use bugalizer.Schedule.{truthy, result_sha, head_of, latest_localization}
use bugalizer.Ledger.{
  Kind, analyze_local, analyze_cloud, fix_and_open_pr, open_pr, set_mode, close, reopen, other, Pin,
  Pins,
}
use bugalizer.Ingest.Texts.{chars, length, strip, is_empty, within}

-- Why an action is refused before it runs.
pub data Refusal : Type 0 where
  unknown_kind local_stage_paid not_analyzable : Refusal
  no_repo_write no_cloud_spend not_allowlisted : Refusal
  user_keys_off legacy no_pin bad_mode not_closed : Refusal
  not_triaged no_localization stale_localization : Refusal
  terminal_status invalid_transition : Refusal

-- The settings that the decision reads. `in_cloud_users` is the membership of the stripped and
-- case-folded email in the configured set.
pub record SyncSettings : Type 0 where
  pub sonicgrid_user_keys : Bool
  pub in_cloud_users : String → Bool
  pub fix_provider : String
  pub default_fix_model : String
  pub default_triage_model : String
  pub default_localize_model : String

-- `params.llm`, where a value that is no text is none
pub record LlmParam : Type 0 where
  pub provider : Option String
  pub model : Option String

-- An action as sonicgrid lists it.
pub record Request : Type 0 where
  pub kind : Kind
  pub email : Option String
  pub repo_write : Bool
  pub cloud_spend : Bool
  pub llm : Option LlmParam
  pub mode : Option AnalysisMode

pub record Authorization : Type 0 where
  pub refusal : Option Refusal
  pub pinned : Pins
  pub no_auto_retry : Bool
  pub requester_key : Bool

abbrev pub no_pins : Pins
no_pins = record { triage = none; localization = none; fix = none }

abbrev pub refuse : Refusal → Pins → Authorization
refuse why pins = record {
  refusal = some why;
  pinned = pins;
  no_auto_retry = false;
  requester_key = false;
}

abbrev pub allow : Pins → Bool → Bool → Authorization
allow pins retry key = record {
  refusal = none;
  pinned = pins;
  no_auto_retry = retry;
  requester_key = key;
}

-- Lower case, as far as a comparison with a text of ASCII letters can tell.
abbrev pub lower : ℕ → ℕ
lower n = if within 65 90 n then n + 32 else n

unfoldable pub lowered : Text → Text
lowered [] = []
lowered (n ∷ t) = lower n ∷ lowered t

unfoldable pub same_text : Text → Text → Bool
same_text [] [] = true
same_text [] (n ∷ t) = false
same_text (m ∷ s) [] = false
same_text (m ∷ s) (n ∷ t) = nat_beq m n && same_text s t

-- `is_paid`: the provider is not local
unfoldable pub is_paid : String → Bool
is_paid provider = not (same_text (lowered (strip (chars provider))) (chars "ollama"))

unfoldable pub allowlisted : SyncSettings → Option String → Bool
allowlisted cfg none = false
allowlisted cfg (some email) = not (email == "") && cfg.in_cloud_users email

abbrev pub chosen : Option String → String → String
chosen none default = default
chosen (some t) default = if t == "" then default else t

-- `resolve_local_llm`, with the default model of the stage
abbrev pub resolve_local_llm : Project → String → Pin
resolve_local_llm p default_model =
    (chosen p.llm_provider "ollama", chosen p.llm_model default_model)

abbrev pub resolve_fix_llm : SyncSettings → Project → Pin
resolve_fix_llm cfg p =
    (chosen p.fix_llm_provider cfg.fix_provider, chosen p.fix_llm_model cfg.default_fix_model)

-- `check_local_analysis`
unfoldable pub check_local_analysis : Report → Option Refusal
check_local_analysis r =
    if among r.status (triaged ∷ clarification_needed ∷ []) then none else some not_analyzable

abbrev pub check_localization : Option String → Option Analysis → Option Refusal
check_localization head none = some no_localization
check_localization head (some loc) =
    if not (truthy head) || not (is_text (result_sha loc.result) head)
    then some stale_localization
    else none

-- `check_cloud_analysis`
unfoldable pub check_cloud_analysis : Db → Report → Project → Option Refusal
check_cloud_analysis db r p =
    if not (r.status == triaged)
    then some not_triaged
    else check_localization p.head_sha (latest_localization db r)

-- `check_status_transition`
unfoldable pub check_status_transition : Report → BugStatus → Option Refusal
check_status_transition r target =
    if among r.status terminal_statuses
    then some terminal_status
    else if not (validate_transition r.status target true)
    then some invalid_transition
    else none

-- The last check of a branch: its refusal, or the authorization.
abbrev pub unless_refused : Option Refusal → Pins → Authorization → Authorization
unless_refused none pins granted = granted
unless_refused (some why) pins granted = refuse why pins

abbrev pub model_max : ℕ
model_max = 200

-- `requester_pin`, on the value of `params.llm`
abbrev pub pin_of : Option String → Option String → Option Pin
pin_of none model = none
pin_of (some provider) none = none
pin_of (some provider) (some model) =
    if not (provider == "anthropic")
    then none
    else if is_empty (strip (chars model)) || ltb model_max (length (chars model))
    then none
    else some (provider, model)

unfoldable pub requester_pin : LlmParam → Option Pin
requester_pin llm = pin_of llm.provider llm.model

abbrev pub only_fix : Pin → Pins
only_fix pin = record { triage = none; localization = none; fix = some pin }

abbrev pub is_compound : Kind → Bool
is_compound fix_and_open_pr = true
is_compound _ = false

abbrev pub is_cloud : Kind → Bool
is_cloud analyze_cloud = true
is_cloud _ = false

abbrev pub on_pin : Db → Project → Report → Request → Option Pin → Authorization
on_pin db p r a none = refuse no_pin no_pins
on_pin db p r a (some pin) =
    if is_compound a.kind && not a.repo_write
    then refuse no_repo_write (only_fix pin)
    else if is_compound a.kind && not a.cloud_spend
    then refuse no_cloud_spend (only_fix pin)
    else unless_refused (check_cloud_analysis db r p) (only_fix pin)
        (allow (only_fix pin) true true)

-- `_authorize_requester`
unfoldable pub authorize_requester :
    Db → Project → Report → Request → Option LlmParam → Authorization
authorize_requester db p r a none = refuse legacy no_pins
authorize_requester db p r a (some llm) = on_pin db p r a (requester_pin llm)

-- The local stages: both must resolve to a local provider.
unfoldable pub authorize_local : SyncSettings → Project → Report → Authorization
authorize_local cfg p r =
    let triage = resolve_local_llm p cfg.default_triage_model in
    let localize = resolve_local_llm p cfg.default_localize_model in
    let pins : Pins = record { triage = some triage; localization = some localize; fix = none } in
    if is_paid triage.0 || is_paid localize.0
    then refuse local_stage_paid pins
    else unless_refused (check_local_analysis r) pins (allow pins false false)

-- A paid kind on the key of the environment.
unfoldable pub authorize_env : SyncSettings → Db → Project → Report → Request → Authorization
authorize_env cfg db p r a =
    let pin = resolve_fix_llm cfg p in
    let paid = is_paid pin.0 in
    if is_compound a.kind && not a.repo_write
    then refuse no_repo_write (only_fix pin)
    else if is_compound a.kind && (paid && not a.cloud_spend)
    then refuse no_cloud_spend (only_fix pin)
    else if (is_cloud a.kind || paid) && not (allowlisted cfg a.email)
    then refuse not_allowlisted (only_fix pin)
    else unless_refused (check_cloud_analysis db r p) (only_fix pin)
        (allow (only_fix pin) (is_cloud a.kind || paid) false)

abbrev pub has_llm : Option LlmParam → Bool
has_llm none = false
has_llm (some llm) = true

unfoldable pub authorize_paid : SyncSettings → Db → Project → Report → Request → Authorization
authorize_paid cfg db p r a =
    if cfg.sonicgrid_user_keys
    then authorize_requester db p r a a.llm
    else if has_llm a.llm
    then refuse user_keys_off no_pins
    else authorize_env cfg db p r a

abbrev pub authorize_mode : Option AnalysisMode → Authorization
authorize_mode none = refuse bad_mode no_pins
authorize_mode (some mode) = allow no_pins false false

unfoldable pub authorize_kind :
    Kind → SyncSettings → Db → Project → Report → Request → Authorization
authorize_kind (other name) cfg db p r a = refuse unknown_kind no_pins
authorize_kind analyze_local cfg db p r a = authorize_local cfg p r
authorize_kind analyze_cloud cfg db p r a = authorize_paid cfg db p r a
authorize_kind fix_and_open_pr cfg db p r a = authorize_paid cfg db p r a
authorize_kind open_pr cfg db p r a =
    if a.repo_write then allow no_pins false false else refuse no_repo_write no_pins
authorize_kind set_mode cfg db p r a = authorize_mode a.mode
authorize_kind reopen cfg db p r a =
    if r.status == closed then allow no_pins false false else refuse not_closed no_pins
authorize_kind close cfg db p r a =
    unless_refused (check_status_transition r closed) no_pins (allow no_pins false false)

unfoldable pub authorize : SyncSettings → Db → Project → Report → Request → Authorization
authorize cfg db p r a = authorize_kind a.kind cfg db p r a
