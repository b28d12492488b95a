-- ===== src/Sync/Stage.antt =====
-- sync/stage.py: the board lane of a report and its detail, from the report's rows, newest first. A
-- stamp is a number, and 0 where the source has the empty text.
pub mod Fresh
pub mod Settled
use bugalizer.Prelude.{
  ℕ, Bool, true, false, not, ◌&&◌, List, [], ◌∷◌, Option, none, some, String, ◌==◌, string_eq, ltb,
  leb, if◌then◌else◌, first_where, order_desc, select_where,
}
use text.Mathlib.Text.{starts_with}
use bugalizer.Workflow as W
use bugalizer.Workflow.{BugStatus}
use bugalizer.Store.{
  hold, mode_eq, Phase, validation, triage, localization, fix, phase_eq, running, failed, run_eq,
  PrState, open_pr, merged, closed_pr, Project, Report, Analysis, Proposal, is_text,
}
use bugalizer.Schedule.{created, is_completed, is_failed, truthy, result_sha, head_of}

pub data Lane : Type 0 where
  in_submitted in_triage in_triaged in_fix in_review in_completed : Lane

pub data Detail : Type 0 where
  queued under_validation : Detail
  triaging localizing starting : Detail
  needs_clarification put_off held fix_failed pr_closed localized stale not_localized : Detail
  proposing : Detail
  fix_ready opening_pr pr_is_open : Detail
  was_rejected was_duplicate was_merged was_closed : Detail

-- `_newest`
unfoldable pub newest : (Analysis → Bool) → Phase → List Analysis → Option Analysis
newest p phase rows = first_where (λ a. a.phase == phase && p a) rows

abbrev pub any_status : Analysis → Bool
any_status a = true

-- `_stamp`
abbrev pub stamp : Option Analysis → ℕ
stamp none = 0
stamp (some a) = a.created_at

abbrev pub proposal_stamp : Option Proposal → ℕ
proposal_stamp none = 0
proposal_stamp (some p) = p.created_at

-- `_fresh`
abbrev pub fresh : Analysis → Option Project → Bool
fresh loc project = truthy (head_of project) && is_text (result_sha loc.result) (head_of project)

-- The first proposal of the list.
abbrev pub head_proposal : List Proposal → Option Proposal
head_proposal [] = none
head_proposal (p ∷ ps) = some p

-- A failed fix that nothing has followed.
abbrev pub shows_failed_fix : Option Analysis → Option Analysis → Option Proposal → Bool
shows_failed_fix none loc p = false
shows_failed_fix (some a) loc p =
    is_failed a && ltb (stamp loc) a.created_at && ltb (proposal_stamp p) a.created_at

abbrev pub is_closed_state : Option PrState → Bool
is_closed_state none = false
is_closed_state (some open_pr) = false
is_closed_state (some merged) = false
is_closed_state (some closed_pr) = true

abbrev pub settled_stamp : Proposal → ℕ
settled_stamp p = elim p.pr_settled_at [ none ↦ p.updated_at | some t ↦ t ]

-- A pull request that was closed, with nothing after its settlement.
abbrev pub shows_closed_pr : Option Analysis → Option Analysis → Option Proposal → Bool
shows_closed_pr last_fix loc none = false
shows_closed_pr last_fix loc (some p) =
    is_closed_state p.pr_state
    && leb (stamp loc) (settled_stamp p)
    && leb (stamp last_fix) (settled_stamp p)

abbrev pub localization_detail : Option Analysis → Option Project → Detail
localization_detail none project = not_localized
localization_detail (some loc) project = if fresh loc project then localized else stale

-- The end of `_triaged_detail`, on a report that is triaged and not held.
unfoldable pub work_detail : List Analysis → List Proposal → Option Project → Detail
work_detail analyses proposals project =
    let loc = newest is_completed localization analyses in
    let last_fix = newest any_status fix analyses in
    let p = head_proposal proposals in
    if shows_failed_fix last_fix loc p
    then fix_failed
    else if shows_closed_pr last_fix loc p
    then pr_closed
    else localization_detail loc project

unfoldable pub triaged_detail : Report → List Analysis → List Proposal → Option Project → Detail
triaged_detail r analyses proposals project =
    if r.analysis_mode == hold then held else work_detail analyses proposals project

abbrev pub running_detail : Option Analysis → Detail
running_detail none = starting
running_detail (some a) =
    if a.phase == triage then triaging else if a.phase == localization then localizing else starting

abbrev pub raw_reason : Option String → String
raw_reason none = ""
raw_reason (some t) = t

abbrev pub completed_detail : Report → Detail
completed_detail r =
    if starts_with (raw_reason r.resolution_reason) "pr_merged:" then was_merged else was_closed

unfoldable pub stage_by_status :
    BugStatus → Report → List Analysis → List Proposal → Option Project → Lane × Detail
stage_by_status W.submitted r rows ps project = (in_submitted, queued)
stage_by_status W.validating r rows ps project = (in_submitted, under_validation)
stage_by_status W.analyzing r rows ps project =
    (in_triage, running_detail (first_where (λ a. a.status == running) rows))
stage_by_status W.clarification_needed r rows ps project = (in_triaged, needs_clarification)
stage_by_status W.deferred r rows ps project = (in_triaged, put_off)
stage_by_status W.triaged r rows ps project = (in_triaged, triaged_detail r rows ps project)
stage_by_status W.fix_proposing r rows ps project = (in_fix, proposing)
stage_by_status W.fix_proposed r rows ps project = (in_review, fix_ready)
stage_by_status W.fix_approved r rows ps project = (in_review, opening_pr)
stage_by_status W.fix_committed r rows ps project = (in_review, pr_is_open)
stage_by_status W.rejected r rows ps project = (in_completed, was_rejected)
stage_by_status W.duplicate r rows ps project = (in_completed, was_duplicate)
stage_by_status W.closed r rows ps project = (in_completed, completed_detail r)
stage_by_status W.verified r rows ps project = (in_completed, completed_detail r)

unfoldable pub stage_of : Report → List Analysis → List Proposal → Option Project → Lane × Detail
stage_of r analyses proposals project = stage_by_status r.status r analyses proposals project
