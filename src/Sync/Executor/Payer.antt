-- ===== src/Sync/Executor/Payer.antt =====
-- sync/actions.py: on whose key an LLM task runs.
use bugalizer.Prelude.{
  ℕ, ◌≡◌, refl, ap, sym, ◌∙◌, subst, inl, inr, Bool, true, false, not, ◌&&◌, ◌||◌, Option, none,
  some, String, ◌==◌, string_eq, nat_beq, arith, Bool-cases, if◌then◌else◌, if_lem, eq_of_test,
  and_true,
}
use bugalizer.Ledger.{Pin, Action}
use bugalizer.Sync.Actions.{SyncSettings}
use bugalizer.Sync.Executor.Calls.{
  CredentialAnswer, Fetched, accepted, fetched_on, pinned_fix, pinned_triage, pinned_localization,
  credential_outcome, credential_code, LlmCall, no_call, local_analysis, fix_on_key, fix_on_env,
  on_request_key, pin_is_paid, is_local, llm_call, on_fetched, task_call, legacy_call,
}

-- A key that sonicgrid released with this answer, for the provider that the action is pinned to.
pub record IsReleased (row : Action) (answer : CredentialAnswer) (pin : Pin) (k : String)
    : Type 0 where
  pub on_request : row.requester_key ≡ true
  pub status : answer.status ≡ 200
  pub released : answer.api_key ≡ some k
  pub provider : answer.provider ≡ some "anthropic"
  pub pinned : pinned_fix row ≡ some pin
  pub on_provider : pin.0 ≡ "anthropic"

abbrev pub PaidBy : SyncSettings → Action → CredentialAnswer → LlmCall → Type 0
PaidBy cfg row answer (no_call r) = Unit
PaidBy cfg row answer (local_analysis t l) =
    (row.requester_key ≡ false)
    × (is_local row.kind ≡ true)
    × (t ≡ pinned_triage row)
    × (l ≡ pinned_localization row)
PaidBy cfg row answer (fix_on_env pin) =
    (row.requester_key ≡ false)
    × (is_local row.kind ≡ false)
    × (pin ≡ pinned_fix row)
    × (cfg.sonicgrid_user_keys ≡ true → pin_is_paid pin ≡ false)
PaidBy cfg row answer (fix_on_key pin k) = IsReleased row answer pin k

module _ (cfg : SyncSettings) (row : Action) (answer : CredentialAnswer) where
  env_call :
      (k : Option String) → row.requester_key ≡ false → PaidBy cfg row answer (llm_call cfg row k)
  unfolding llm_call
  env_call k free =
      let P = PaidBy cfg row answer in
      subst
        (λ b. P (
          if b
          then on_request_key row.kind (pinned_fix row) k
          else if is_local row.kind
          then local_analysis (pinned_triage row) (pinned_localization row)
          else if cfg.sonicgrid_user_keys && pin_is_paid (pinned_fix row)
          then legacy_call row
          else fix_on_env (pinned_fix row)))
        (sym free)
        (if_lem P (is_local row.kind) _ _ (λ local. (free, local, refl, refl))
          (λ not_local.
            if_lem P (cfg.sonicgrid_user_keys && pin_is_paid (pinned_fix row)) _ _ (λ _. tt)
              (λ e. (free, not_local, refl, λ on. ground (arith, e, on)))))

  request_call :
      (pin : Pin) (k : String)
      → IsReleased row answer pin k
      → PaidBy cfg row answer (llm_call cfg row (some k))
  unfolding llm_call
  request_call pin k released =
      let P = PaidBy cfg row answer in
      let asked : P (on_request_key row.kind (some pin) (some k)) =
        if_lem P (not (pin.0 == "anthropic") || k == "") _ _ (λ _. tt) (λ _. released) in
      let asked' : P (on_request_key row.kind (pinned_fix row) (some k)) =
        subst (λ o. P (on_request_key row.kind o (some k))) (sym released.pinned) asked in
      subst
        (λ b. P (
          if b
          then on_request_key row.kind (pinned_fix row) (some k)
          else if is_local row.kind
          then local_analysis (pinned_triage row) (pinned_localization row)
          else if cfg.sonicgrid_user_keys && pin_is_paid (pinned_fix row)
          then legacy_call row
          else fix_on_env (pinned_fix row)))
        (sym released.on_request) asked'

-- The key that an answer gives is released for the pinned provider.
accepted_key :
    (o p : Option String) (pin : Option Pin) (k : String)
    → accepted o p pin ≡ some k
    → (q : Pin) × (pin ≡ some q) × (o ≡ some k) × (p ≡ some "anthropic") × (q.0 ≡ "anthropic")
accepted_key none p pin k h = cc
accepted_key (some j) none pin k h = cc
accepted_key (some j) (some provider) none k h = cc
accepted_key (some j) (some provider) (some pin) k h =
    elim (Bool-cases ((provider == "anthropic" && provider == pin.0) && not (j == ""))) [
      | inr e ↦ absurd (ground (arith, h, e))
      | inl e ↦
          let (both, _) =
            and_true (provider == "anthropic" && provider == pin.0) (not (j == "")) e in
          let (known, same) = and_true (provider == "anthropic") (provider == pin.0) both in
          let named : provider ≡ "anthropic" = eq_of_test provider "anthropic" known in
          let pinned : provider ≡ pin.0 = eq_of_test provider pin.0 same in
          (pin, refl, rw e at h, ap some named, sym pinned ∙ named)
    ]

-- A fix is asked of a model on the environment's key only for an action that is no local analysis and not on its
-- requester's key, of the pinned model, and where the users' own keys are enabled only if that is pinned and not paid.
-- A fix on a requester's key is asked with the key that sonicgrid's answer of 200 released, for the pinned provider,
-- which is Anthropic. A local analysis runs only for an action of that kind that is not on its requester's key, with
-- the models pinned for its two stages.
pub task_call-PaidBy :
    (cfg : SyncSettings) (is_lower : ℕ → Bool) (row : Action) (answer : CredentialAnswer)
    → PaidBy cfg row answer (task_call cfg is_lower row answer)
unfolding task_call credential_outcome
task_call-PaidBy cfg is_lower row answer =
    if_lem P row.requester_key _ _ on_request (λ e. env_call cfg row answer none e)
  where
    P : LlmCall → Type 0
    P = PaidBy cfg row answer

    by_key :
        row.requester_key ≡ true
        → answer.status ≡ 200
        → (o : Option String) → accepted answer.api_key answer.provider (pinned_fix row) ≡ o
        → P (on_fetched cfg row (fetched_on row.kind o))
    by_key own ok none e = tt
    by_key own ok (some k) e =
        let (pin, pinned, given, provider, named) =
          accepted_key answer.api_key answer.provider (pinned_fix row) k e in
        request_call cfg row answer pin k (record {
          on_request = own;
          status = ok;
          released = given;
          provider = provider;
          pinned = pinned;
          on_provider = named;
        })

    on_request :
        row.requester_key ≡ true → P (on_fetched cfg row (credential_outcome is_lower row answer))
    on_request own =
        let Q : Fetched → Type 0 = λ f. P (on_fetched cfg row f) in
        if_lem Q (nat_beq answer.status 200) _ _
          (λ ok.
            by_key own (ground (arith, ok))
              (accepted answer.api_key answer.provider (pinned_fix row)) refl)
          (λ _.
            if_lem Q
              (nat_beq answer.status 409 && credential_code is_lower answer == "already_released") _
              _ (λ _. tt)
              (λ _.
                if_lem Q (nat_beq answer.status 409 && credential_code is_lower answer == "no_key")
                  _ _ (λ _. tt)
                  (λ _.
                    if_lem Q (nat_beq answer.status 403) _ _ (λ _. tt)
                      (λ _.
                        if_lem Q (nat_beq answer.status 404 || nat_beq answer.status 409) _ _
                          (λ _. tt) (λ _. tt)))))
