-- ===== src/Sync/Executor/Calls.antt =====
-- sync/triage_sync.py and sync/actions.py: the requester's key, and the call that an LLM task makes.
use bugalizer.Prelude.{
  ℕ, Bool, true, false, not, ◌&&◌, ◌||◌, List, [], ◌∷◌, Option, none, some, String, ◌==◌, string_eq,
  nat_beq, leb, if◌then◌else◌,
}
use bugalizer.Ledger.{Kind, analyze_local, failed, refused, Pin, Action}
use bugalizer.Ingest.Texts.{chars, length}
use bugalizer.Sync.Actions.{SyncSettings, is_paid}
use bugalizer.Sync.Expiry.{ActionResult}
use bugalizer.Sync.Outcomes.{text, step_result}

-- sonicgrid's answer to the request for a credential: the keys of its body that are texts. `is_lower` is Python's
-- test of a character.
pub record CredentialAnswer : Type 0 where
  pub status : ℕ
  pub provider : Option String
  pub api_key : Option String
  pub error : Option String
  pub code : Option String

abbrev pub all_lower : (ℕ → Bool) → List ℕ → Bool
all_lower is_lower [] = true
all_lower is_lower (c ∷ cs) = (is_lower c || nat_beq c 95) && all_lower is_lower cs

abbrev pub known_code : (ℕ → Bool) → Option String → String
known_code is_lower none = "unknown"
known_code is_lower (some code) =
    if code == ""
    then "unknown"
    else if leb (length (chars code)) 40 && all_lower is_lower (chars code)
    then code
    else "unknown"

abbrev pub first_given : Option String → Option String → Option String
first_given none b = b
first_given (some a) b = if a == "" then b else some a

-- `_credential_code`
unfoldable pub credential_code : (ℕ → Bool) → CredentialAnswer → String
credential_code is_lower answer = known_code is_lower (first_given answer.error answer.code)

-- `_pin`, for each stage
abbrev pub pinned_fix : Action → Option Pin
pinned_fix row = elim row.pinned_llm [ none ↦ none | some pins ↦ pins.fix ]

abbrev pub pinned_triage : Action → Option Pin
pinned_triage row = elim row.pinned_llm [ none ↦ none | some pins ↦ pins.triage ]

abbrev pub pinned_localization : Action → Option Pin
pinned_localization row = elim row.pinned_llm [ none ↦ none | some pins ↦ pins.localization ]

-- The key, or the result of the action.
pub data Fetched : Type 0 where
  key : String → Fetched
  no_key : ActionResult → Fetched

-- A key that is accepted: of the pinned provider, which is the requester's.
abbrev pub accepted : Option String → Option String → Option Pin → Option String
accepted (some k) (some provider) (some pin) =
    if (provider == "anthropic" && provider == pin.0) && not (k == "") then some k else none
accepted _ _ _ = none

abbrev pub fetched_on : Kind → Option String → Fetched
fetched_on kind none = no_key (step_result kind failed "invalid credential response")
fetched_on kind (some k) = key k

-- `_credential_outcome`
unfoldable pub credential_outcome : (ℕ → Bool) → Action → CredentialAnswer → Fetched
credential_outcome is_lower row answer =
    let code = credential_code is_lower answer in
    let status = answer.status in
    if nat_beq status 200
    then fetched_on row.kind (accepted answer.api_key answer.provider (pinned_fix row))
    else if nat_beq status 409 && code == "already_released"
    then no_key (step_result row.kind failed "credential already used; request again")
    else if nat_beq status 409 && code == "no_key"
    then no_key (
        step_result row.kind refused (
          text (
            "No Claude API key is saved for the requester; add it in AI settings "
            ∷ "and request again" ∷ [])))
    else if nat_beq status 403
    then no_key (step_result row.kind refused "The requester is no longer a sonicgrid admin")
    else if nat_beq status 404 || nat_beq status 409
    then no_key (
        step_result row.kind refused (
          text (
            "Sonicgrid did not release a key for this action ("
            ∷ (if nat_beq status 409 then code else "not_found")
            ∷ ")"
            ∷ [])))
    else no_key (step_result row.kind failed "could not fetch your API key; request again")

-- The call that `run_llm` makes, with the models that it is given.
pub data LlmCall : Type 0 where
  no_call : ActionResult → LlmCall
  local_analysis : Option Pin → Option Pin → LlmCall
  fix_on_key : Pin → String → LlmCall
  fix_on_env : Option Pin → LlmCall

abbrev pub on_request_key : Kind → Option Pin → Option String → LlmCall
on_request_key kind (some pin) (some k) =
    if not (pin.0 == "anthropic") || k == ""
    then no_call (step_result kind failed "invalid credential response")
    else fix_on_key pin k
on_request_key kind _ _ = no_call (step_result kind failed "invalid credential response")

abbrev pub pin_is_paid : Option Pin → Bool
pin_is_paid none = true
pin_is_paid (some pin) = is_paid pin.0

abbrev pub is_local : Kind → Bool
is_local analyze_local = true
is_local _ = false

abbrev pub legacy_call : Action → LlmCall
legacy_call row =
    no_call (step_result row.kind refused "Requested before per-user keys; request again.")

-- `run_llm`, up to its call; `api_key` is the key that was fetched
unfoldable pub llm_call : SyncSettings → Action → Option String → LlmCall
llm_call cfg row api_key =
    let pin = pinned_fix row in
    if row.requester_key
    then on_request_key row.kind pin api_key
    else if is_local row.kind
    then local_analysis (pinned_triage row) (pinned_localization row)
    else if cfg.sonicgrid_user_keys && pin_is_paid pin
    then legacy_call row
    else fix_on_env pin

abbrev pub on_fetched : SyncSettings → Action → Fetched → LlmCall
on_fetched cfg row (key k) = llm_call cfg row (some k)
on_fetched cfg row (no_key r) = no_call r

-- `_run_task`, up to the call: the key is asked for only where the action runs on the requester's
unfoldable pub task_call : SyncSettings → (ℕ → Bool) → Action → CredentialAnswer → LlmCall
task_call cfg is_lower row answer =
    if row.requester_key
    then on_fetched cfg row (credential_outcome is_lower row answer)
    else llm_call cfg row none
