-- ===== src/Sync/Actions/Authorized.antt =====
-- sync/actions.py: what an authorized action can spend, on whose key, and with which consents.
use mathlib.Core.Option.{some-injective}
use bugalizer.Prelude.{
  ◌≡◌, refl, ap, sym, ◌∙◌, ◌⊎◌, inl, inr, Bool, true, false, not, ◌&&◌, ◌||◌, Option, none, some,
  string_eq, arith, if◌then◌else◌, subst,
}
use bugalizer.Store.{Project, Report, Db}
use bugalizer.Ledger.{
  Kind, analyze_local, analyze_cloud, fix_and_open_pr, open_pr, set_mode, close, reopen, other, Pin,
  Pins,
}
use bugalizer.Sync.Actions.{
  Refusal, SyncSettings, LlmParam, Request, Authorization, is_paid, allowlisted, resolve_fix_llm,
  check_local_analysis, check_cloud_analysis, unless_refused, only_fix, is_compound, is_cloud,
  requester_pin, on_pin, authorize_requester, authorize_local, authorize_env, authorize_paid,
  authorize_kind, authorize, allow, refuse, has_llm, no_pins, no_repo_write, no_cloud_spend,
  not_allowlisted, user_keys_off, local_stage_paid, resolve_local_llm,
}

-- What an authorization that pins a model for the fix stage guarantees.
pub record MaySpend (cfg : SyncSettings) (a : Request) (z : Authorization) (pin : Pin)
    : Type 0 where
  pub once : is_paid pin.0 ≡ true → z.no_auto_retry ≡ true
  pub payer :
      is_paid pin.0 ≡ true
      → ((z.requester_key ≡ true) × (cfg.sonicgrid_user_keys ≡ true))
        ⊎ ((z.requester_key ≡ false)
            × (cfg.sonicgrid_user_keys ≡ false)
            × (allowlisted cfg a.email ≡ true))
  pub spend_consent : is_compound a.kind ≡ true → is_paid pin.0 ≡ true → a.cloud_spend ≡ true
  pub write_consent : is_compound a.kind ≡ true → a.repo_write ≡ true

-- An authorization that was not refused pins for the fix stage only what it may spend on.
abbrev pub Spends : SyncSettings → Request → Authorization → Type 0
Spends cfg a z = (pin : Pin) → z.refusal ≡ none → z.pinned.fix ≡ some pin → MaySpend cfg a z pin

-- A gate that an authorization passed was open.
gate :
    (closed : Bool) (why : Refusal) (pins : Pins) (z : Authorization)
    → (if closed then refuse why pins else z).refusal ≡ none
    → (closed ≡ false) × ((if closed then refuse why pins else z) ≡ z)
gate true why pins z h = cc
gate false why pins z h = (refl, refl)

last_gate :
    (o : Option Refusal) (pins : Pins) (z : Authorization)
    → (unless_refused o pins z).refusal ≡ none
    → unless_refused o pins z ≡ z
last_gate none pins z h = refl
last_gate (some why) pins z h = cc

passed : (z z' : Authorization) → z ≡ z' → z.refusal ≡ none → z'.refusal ≡ none
passed z z' e h = ap (λ z. z.refusal) (sym e) ∙ h

-- An authorization on the key of the environment is the last one of its branch, and the three gates
-- before it were open.
env_granted :
    (cfg : SyncSettings) (db : Db) (p : Project) (r : Report) (a : Request)
    → (authorize_env cfg db p r a).refusal ≡ none
    → ((is_compound a.kind && not a.repo_write) ≡ false)
      × ((is_compound a.kind && (is_paid (resolve_fix_llm cfg p).0 && not a.cloud_spend)) ≡ false)
      × (((is_cloud a.kind || is_paid (resolve_fix_llm cfg p).0) && not (allowlisted cfg a.email))
          ≡ false)
      × (authorize_env cfg db p r a
          ≡ allow
              (only_fix (resolve_fix_llm cfg p))
              (is_cloud a.kind || is_paid (resolve_fix_llm cfg p).0)
              false)
unfolding authorize_env
env_granted cfg db p r a h =
    let pin = resolve_fix_llm cfg p in
    let paid = is_paid pin.0 in
    let z₄ = allow (only_fix pin) (is_cloud a.kind || paid) false in
    let z₃ = unless_refused (check_cloud_analysis db r p) (only_fix pin) z₄ in
    let b₃ = (is_cloud a.kind || paid) && not (allowlisted cfg a.email) in
    let z₂ = if b₃ then refuse not_allowlisted (only_fix pin) else z₃ in
    let b₂ = is_compound a.kind && (paid && not a.cloud_spend) in
    let z₁ = if b₂ then refuse no_cloud_spend (only_fix pin) else z₂ in
    let b₁ = is_compound a.kind && not a.repo_write in
    let z₀ = if b₁ then refuse no_repo_write (only_fix pin) else z₁ in
    let (e₁, q₁) = gate b₁ no_repo_write (only_fix pin) z₁ h in
    let h₁ = passed z₀ z₁ q₁ h in
    let (e₂, q₂) = gate b₂ no_cloud_spend (only_fix pin) z₂ h₁ in
    let h₂ = passed z₁ z₂ q₂ h₁ in
    let (e₃, q₃) = gate b₃ not_allowlisted (only_fix pin) z₃ h₂ in
    let h₃ = passed z₂ z₃ q₃ h₂ in
    (e₁, e₂, e₃, q₁ ∙ q₂ ∙ q₃ ∙ last_gate (check_cloud_analysis db r p) (only_fix pin) z₄ h₃)

env-Spends :
    (cfg : SyncSettings) (db : Db) (p : Project) (r : Report) (a : Request)
    → cfg.sonicgrid_user_keys ≡ false
    → Spends cfg a (authorize_env cfg db p r a)
env-Spends cfg db p r a off pin granted pinned =
    let (write, spend, listed, is) = env_granted cfg db p r a granted in
    let same : resolve_fix_llm cfg p ≡ pin =
      some-injective (resolve_fix_llm cfg p) pin (ap (λ z. z.pinned.fix) (sym is) ∙ pinned) in
    subst (λ z. MaySpend cfg a z pin) (sym is)
      (record {
        once = λ paid. ground (arith, rw (← same) at paid);
        payer = λ paid. inr (refl, off, ground (arith, listed, rw (← same) at paid));
        spend_consent = λ c paid. ground (arith, spend, c, rw (← same) at paid);
        write_consent = λ c. ground (arith, write, c);
      })

own_granted :
    (db : Db) (p : Project) (r : Report) (a : Request) (pin : Pin)
    → (on_pin db p r a (some pin)).refusal ≡ none
    → ((is_compound a.kind && not a.repo_write) ≡ false)
      × ((is_compound a.kind && not a.cloud_spend) ≡ false)
      × (on_pin db p r a (some pin) ≡ allow (only_fix pin) true true)
own_granted db p r a pin h =
    let z₃ = allow (only_fix pin) true true in
    let z₂ = unless_refused (check_cloud_analysis db r p) (only_fix pin) z₃ in
    let b₂ = is_compound a.kind && not a.cloud_spend in
    let z₁ = if b₂ then refuse no_cloud_spend (only_fix pin) else z₂ in
    let b₁ = is_compound a.kind && not a.repo_write in
    let z₀ = if b₁ then refuse no_repo_write (only_fix pin) else z₁ in
    let (e₁, q₁) = gate b₁ no_repo_write (only_fix pin) z₁ h in
    let h₁ = passed z₀ z₁ q₁ h in
    let (e₂, q₂) = gate b₂ no_cloud_spend (only_fix pin) z₂ h₁ in
    let h₂ = passed z₁ z₂ q₂ h₁ in
    (e₁, e₂, q₁ ∙ q₂ ∙ last_gate (check_cloud_analysis db r p) (only_fix pin) z₃ h₂)

own-Spends :
    (cfg : SyncSettings) (db : Db) (p : Project) (r : Report) (a : Request)
    → cfg.sonicgrid_user_keys ≡ true
    → (o : Option Pin) → Spends cfg a (on_pin db p r a o)
own-Spends cfg db p r a on none pin granted pinned = cc
own-Spends cfg db p r a on (some own) pin granted pinned =
    let (write, spend, is) = own_granted db p r a own granted in
    subst (λ z. MaySpend cfg a z pin) (sym is)
      (record {
        once = λ paid. refl;
        payer = λ paid. inl (refl, on);
        spend_consent = λ c paid. ground (arith, spend, c);
        write_consent = λ c. ground (arith, write, c);
      })

paid_branch :
    (cfg : SyncSettings) (db : Db) (p : Project) (r : Report) (a : Request) (keys llm : Bool)
    → cfg.sonicgrid_user_keys ≡ keys
    → has_llm a.llm ≡ llm
    → authorize_paid cfg db p r a ≡ (
        if keys
        then authorize_requester db p r a a.llm
        else if llm
        then refuse user_keys_off no_pins
        else authorize_env cfg db p r a)
unfolding authorize_paid
paid_branch cfg db p r a keys llm e f =
    ap
      (λ k.
        if k
        then authorize_requester db p r a a.llm
        else if has_llm a.llm
        then refuse user_keys_off no_pins
        else authorize_env cfg db p r a)
      e
    ∙ ap
        (λ l.
          if keys
          then authorize_requester db p r a a.llm
          else if l
          then refuse user_keys_off no_pins
          else authorize_env cfg db p r a)
        f

requester-Spends :
    (cfg : SyncSettings) (db : Db) (p : Project) (r : Report) (a : Request) (o : Option LlmParam)
    → cfg.sonicgrid_user_keys ≡ true
    → Spends cfg a (authorize_requester db p r a o)
unfolding authorize_requester
requester-Spends cfg db p r a none on = λ pin granted pinned. cc
requester-Spends cfg db p r a (some llm) on = own-Spends cfg db p r a on (requester_pin llm)

paid-Spends :
    (cfg : SyncSettings) (db : Db) (p : Project) (r : Report) (a : Request)
    → Spends cfg a (authorize_paid cfg db p r a)
paid-Spends cfg db p r a = on_key cfg.sonicgrid_user_keys (has_llm a.llm) refl refl
  where
    on_key :
        (keys llm : Bool)
        → cfg.sonicgrid_user_keys ≡ keys
        → has_llm a.llm ≡ llm
        → Spends cfg a (authorize_paid cfg db p r a)
    on_key true llm e f =
        subst (Spends cfg a) (sym (paid_branch cfg db p r a true llm e f))
          (requester-Spends cfg db p r a a.llm e)
    on_key false true e f =
        subst (Spends cfg a) (sym (paid_branch cfg db p r a false true e f))
          (λ pin granted pinned. cc)
    on_key false false e f =
        subst (Spends cfg a) (sym (paid_branch cfg db p r a false false e f))
          (env-Spends cfg db p r a e)

local-unpinned :
    (cfg : SyncSettings) (p : Project) (r : Report) (pin : Pin)
    → (authorize_local cfg p r).pinned.fix ≡ some pin
    → ⊥
unfolding authorize_local
local-unpinned cfg p r pin h = ground (arith, h)

-- An action that is authorized with a model pinned for the paid stage: if the model is paid, it is
-- never retried automatically, and it runs on the requester's own key with user keys on, or on the
-- key of the environment with user keys off and an allowlisted email; a compound action has the
-- repo-write consent, and the cloud-spend consent if its model is paid.
pub authorize-MaySpend :
    (cfg : SyncSettings) (db : Db) (p : Project) (r : Report) (a : Request) (pin : Pin)
    → (authorize cfg db p r a).refusal ≡ none
    → (authorize cfg db p r a).pinned.fix ≡ some pin
    → MaySpend cfg a (authorize cfg db p r a) pin
unfolding authorize authorize_kind
authorize-MaySpend cfg db p r a pin = by_kind a.kind
  where
    by_kind :
        (k : Kind)
        → (authorize_kind k cfg db p r a).refusal ≡ none
        → (authorize_kind k cfg db p r a).pinned.fix ≡ some pin
        → MaySpend cfg a (authorize_kind k cfg db p r a) pin
    by_kind (other name) granted pinned = cc
    by_kind analyze_local granted pinned = absurd (local-unpinned cfg p r pin pinned)
    by_kind analyze_cloud granted pinned = paid-Spends cfg db p r a pin granted pinned
    by_kind fix_and_open_pr granted pinned = paid-Spends cfg db p r a pin granted pinned
    by_kind open_pr granted pinned = absurd (ground (arith, pinned))
    by_kind set_mode granted pinned = absurd (ground (arith, pinned))
    by_kind reopen granted pinned = absurd (ground (arith, pinned))
    by_kind close granted pinned = absurd (ground (arith, pinned))

local_granted :
    (cfg : SyncSettings) (p : Project) (r : Report) (pin : Pin)
    → (authorize_local cfg p r).refusal ≡ none
    → ((authorize_local cfg p r).pinned.triage ≡ some pin)
      ⊎ ((authorize_local cfg p r).pinned.localization ≡ some pin)
    → is_paid pin.0 ≡ false
unfolding authorize_local
local_granted cfg p r pin h pinned =
    let triage = resolve_local_llm p cfg.default_triage_model in
    let localize = resolve_local_llm p cfg.default_localize_model in
    let pins : Pins = record { triage = some triage; localization = some localize; fix = none } in
    let b = is_paid triage.0 || is_paid localize.0 in
    let z₁ = unless_refused (check_local_analysis r) pins (allow pins false false) in
    let z₀ = if b then refuse local_stage_paid pins else z₁ in
    let (e, q) = gate b local_stage_paid pins z₁ h in
    let is =
      q ∙ last_gate (check_local_analysis r) pins (allow pins false false) (passed z₀ z₁ q h) in
    elim pinned [
      | inl k ↦
          let same : triage ≡ pin =
            some-injective triage pin (ap (λ z. z.pinned.triage) (sym is) ∙ k) in
          ap (λ x. is_paid x.0) (sym same) ∙ ground (arith, e)
      | inr k ↦
          let same : localize ≡ pin =
            some-injective localize pin (ap (λ z. z.pinned.localization) (sym is) ∙ k) in
          ap (λ x. is_paid x.0) (sym same) ∙ ground (arith, e)
    ]

-- An authorized local analysis pins only models of local providers, whatever the project names.
pub local_runs_free :
    (cfg : SyncSettings) (db : Db) (p : Project) (r : Report) (a : Request) (pin : Pin)
    → a.kind ≡ analyze_local
    → (authorize cfg db p r a).refusal ≡ none
    → ((authorize cfg db p r a).pinned.triage ≡ some pin)
      ⊎ ((authorize cfg db p r a).pinned.localization ≡ some pin)
    → is_paid pin.0 ≡ false
unfolding authorize authorize_kind
local_runs_free cfg db p r a pin kind granted pinned =
    local_granted cfg p r pin (rw kind at granted) (rw kind at pinned)
