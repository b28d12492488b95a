-- ===== src/Ledger.antt =====
-- bugalizer/db.py: the ledger of triage actions (table `triage_actions`), keyed by the action id.
pub mod Once
pub mod Reopen
use bugalizer.Prelude.{
  ℕ, ◌≡◌, refl, Bool, true, false, not, ◌&&◌, ◌||◌, List, [], ◌∷◌, ◌++◌, Option, none, some, String,
  Comparable, ◌==◌, rank_eq, nat_beq, string_eq, if◌then◌else◌, cas, get, row_count, delete_where,
  select_where, order_asc,
}
use bugalizer.Store.{AnalysisMode}
use bugalizer.Store.Reports.{if_given, or_keep}

-- `kind` is a text; `other` stands for the ones that are not in KINDS.
pub data Kind : Type 0 where
  analyze_local analyze_cloud fix_and_open_pr open_pr set_mode close reopen : Kind
  other : String → Kind

pub data ActionPhase : Type 0 where
  reserved intent dispatched fix_done finished : ActionPhase

abbrev pub action_phase_rank : ActionPhase → ℕ
action_phase_rank reserved = 0
action_phase_rank intent = 1
action_phase_rank dispatched = 2
action_phase_rank fix_done = 3
action_phase_rank finished = 4

pub action_phase_unrank : ℕ → ActionPhase
action_phase_unrank n =
    if nat_beq n 0
    then reserved
    else if nat_beq n 1
    then intent
    else if nat_beq n 2
    then dispatched
    else if nat_beq n 3
    then fix_done
    else finished

pub action_phase_unrank-rank : (p : ActionPhase) → action_phase_unrank (action_phase_rank p) ≡ p
unfolding action_phase_unrank
action_phase_unrank-rank reserved = refl
action_phase_unrank-rank _ = refl

instance abbrev pub action_phase_eq : Comparable ActionPhase
action_phase_eq = rank_eq action_phase_rank action_phase_unrank action_phase_unrank-rank

-- What an action came to: `outcome` is one of the first three; a checkpoint and a late answer may be
-- one of the others.
pub data Outcome : Type 0 where
  done failed refused checkpoint pr_pending : Outcome

-- A (provider, model) pair.
abbrev pub Pin : Type 0
Pin = String × String

pub record Pins : Type 0 where
  pub triage : Option Pin
  pub localization : Option Pin
  pub fix : Option Pin

-- One step of `fix_and_open_pr` as it is reported.
pub data StepName : Type 0 where
  fix_step open_pr_step : StepName

pub data StepState : Type 0 where
  of : Outcome → StepState
  skipped : StepState

pub record Step : Type 0 where
  pub step : StepName
  pub state : StepState
  pub message : Option String
  pub ref : Option String

pub record Action : Type 0 where
  pub action_id : String
  pub project_id : String
  pub report_id : String
  pub kind : Kind
  pub mode : Option AnalysisMode  -- params.mode
  pub requested_by_user_id : Option String
  pub phase : ActionPhase
  pub no_auto_retry : Bool
  pub pinned_llm : Option Pins
  pub intent_at : Option ℕ
  pub dispatched_at : Option ℕ
  pub finished_at : Option ℕ
  pub outcome : Option Outcome
  pub message : Option String
  pub steps : Option (List Step)
  pub fix_proposal_id : Option String
  pub pr_url : Option String
  pub attempts : ℕ
  pub terminal_acked : Bool
  pub terminal_error : Option String
  pub late_outcome : Option Outcome
  pub requester_key : Bool  -- key_mode = 'requester'

abbrev pub action_key : Action → String
action_key r = r.action_id

unfoldable pub triage_action_get : String → List Action → Option Action
triage_action_get = get action_key

abbrev pub new_action :
    String → String → String → Kind → Option AnalysisMode → Option String → Action
new_action id project report kind mode user = record {
  action_id = id;
  project_id = project;
  report_id = report;
  kind = kind;
  mode = mode;
  requested_by_user_id = user;
  phase = reserved;
  no_auto_retry = false;
  pinned_llm = none;
  intent_at = none;
  dispatched_at = none;
  finished_at = none;
  outcome = none;
  message = none;
  steps = none;
  fix_proposal_id = none;
  pr_url = none;
  attempts = 0;
  terminal_acked = false;
  terminal_error = none;
  late_outcome = none;
  requester_key = false;
}

-- `INSERT … ON CONFLICT(action_id) DO NOTHING`, on the row that is there
unfoldable pub insert_new : Action → Option Action → List Action → List Action × Bool
insert_new a none rs = (rs ++ a ∷ [], true)
insert_new a (some _) rs = (rs, false)

unfoldable pub triage_action_reserve :
    String
    → String
    → String
    → Kind
    → Option AnalysisMode
    → Option String
    → List Action
    → List Action × Bool
unfolding insert_new
triage_action_reserve id project report kind mode user rs =
    insert_new (new_action id project report kind mode user) (get action_key id rs) rs

unfoldable pub triage_action_delete_reserved : String → List Action → List Action
triage_action_delete_reserved id = delete_where (λ r. r.action_id == id && r.phase == reserved)

-- The columns that `triage_action_update` accepts: it never writes `outcome`, `message` or
-- `finished_at`. `fields` gives the row with the given columns set.
pub record Fields : Type 0 where
  pub phase : Option ActionPhase
  pub no_auto_retry : Option Bool
  pub pinned_llm : Option Pins
  pub intent_at : Option ℕ
  pub dispatched_at : Option ℕ
  pub fix_proposal_id : Option String
  pub pr_url : Option String
  pub attempts : Option ℕ
  pub steps : Option (List Step)
  pub terminal_acked : Option Bool
  pub terminal_error : Option String
  pub late_outcome : Option Outcome
  pub requester_key : Option Bool

abbrev pub no_fields : Fields
no_fields = record {
  phase = none;
  no_auto_retry = none;
  pinned_llm = none;
  intent_at = none;
  dispatched_at = none;
  fix_proposal_id = none;
  pr_url = none;
  attempts = none;
  steps = none;
  terminal_acked = none;
  terminal_error = none;
  late_outcome = none;
  requester_key = none;
}

abbrev pub or_old {ℓ} : {A : Type ℓ} → Option A → A → A
or_old none old = old
or_old (some a) old = a

unfoldable pub set_fields : Fields → Action → Action
set_fields f r = record r {
  phase = or_old f.phase r.phase;
  no_auto_retry = or_old f.no_auto_retry r.no_auto_retry;
  pinned_llm = or_keep f.pinned_llm r.pinned_llm;
  intent_at = or_keep f.intent_at r.intent_at;
  dispatched_at = or_keep f.dispatched_at r.dispatched_at;
  fix_proposal_id = or_keep f.fix_proposal_id r.fix_proposal_id;
  pr_url = or_keep f.pr_url r.pr_url;
  attempts = or_old f.attempts r.attempts;
  steps = or_keep f.steps r.steps;
  terminal_acked = or_old f.terminal_acked r.terminal_acked;
  terminal_error = or_keep f.terminal_error r.terminal_error;
  late_outcome = or_keep f.late_outcome r.late_outcome;
  requester_key = or_old f.requester_key r.requester_key;
}

abbrev pub in_phase : Option ActionPhase → Action → Bool
in_phase expected r = if_given expected (λ p. r.phase == p)

unfoldable pub triage_action_update :
    String → Option ActionPhase → Fields → List Action → List Action × Bool
unfolding set_fields
triage_action_update id expected fields = cas action_key id (in_phase expected) (set_fields fields)

abbrev pub finish_row : ℕ → Outcome → Option String → Option (List Step) → Action → Action
finish_row now outcome message steps r = record r {
  phase = finished;
  outcome = some outcome;
  message = message;
  steps = steps;
  finished_at = some now;
}

abbrev pub unfinished : Action → Bool
unfinished r = not (r.phase == finished)

unfoldable pub triage_action_finish :
    ℕ
    → String
    → Outcome
    → Option String
    → Option (List Step)
    → Option ActionPhase
    → List Action
    → List Action × Bool
triage_action_finish now id outcome message steps expected =
    cas action_key id (λ r. unfinished r && in_phase expected r)
      (finish_row now outcome message steps)

abbrev pub finished_time : Action → ℕ
finished_time r = elim r.finished_at [ none ↦ 0 | some t ↦ t ]

-- Finished actions whose terminal POST is not yet acknowledged, the oldest first.
unfoldable pub triage_actions_unacked : String → List Action → List Action
triage_actions_unacked project rs =
    order_asc finished_time (
      select_where (λ r. r.project_id == project && r.phase == finished && not r.terminal_acked) rs)

-- Authorized, unfinished actions.
unfoldable pub triage_actions_open : Option String → List Action → List Action
triage_actions_open project = select_where (λ r.
    (r.phase == intent || r.phase == dispatched || r.phase == fix_done)
    && if_given project (λ p. r.project_id == p))

-- `triage_action_counts`: how many unacknowledged actions stand in a phase, and how many are
-- acknowledged.
unfoldable pub count_in_phase : String → ActionPhase → List Action → ℕ
count_in_phase project phase = row_count (λ r.
    r.project_id == project && not (r.phase == finished && r.terminal_acked) && r.phase == phase)

unfoldable pub count_acked : String → List Action → ℕ
count_acked project =
    row_count (λ r. r.project_id == project && r.phase == finished && r.terminal_acked)
