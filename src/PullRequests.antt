-- ===== src/PullRequests.antt =====
-- git_ops/pull_request.py: one call of open-pr, from its checks to the release of its claim. Git, GitHub and what
-- other requests do to the database while the call awaits them are the arguments of a World.
pub mod Released
pub mod Untouched
use bugalizer.Prelude.{
  ℕ, Bool, true, false, not, ◌&&◌, ◌||◌, List, [], ◌∷◌, Option, none, some, String, ◌==◌, string_eq,
  nat_beq, if◌then◌else◌, any, first_where, select_where, get, row_count,
}
use Prim.Native.String.{◌++◌ as ◌then◌}
use bugalizer.Workflow.{fix_proposed, fix_approved, status_eq, among}
use bugalizer.Store.{Project, project_key, Report, Proposal, Db, is_text}
use bugalizer.Store.Reports.{report_get, try_claim_report, adopt_claim, release_claim}
use bugalizer.Store.Transactions.{
  PullRequest, Recording, recorded, foreign_proposal, claim_lost, record_pull_request,
  recorded_pull_request, record_push_intent,
}
use bugalizer.Sync.Outcomes.{fix_proposals_for_report}

-- The codes of OpenPrError. `unexpected` stands for an exception that is none.
pub data PrCode : Type 0 where
  report_not_found proposal_not_found no_proposal pr_exists in_progress wrong_status : PrCode
  github_not_configured not_github not_cloned bad_default_branch bad_id : PrCode
  github_error branch_exists pr_unattributed diff_does_not_apply git_error unexpected : PrCode

-- A pull request as GitHub shows it, and a commit with the trailers of its message.
pub record RemotePr : Type 0 where
  pub html_url : String
  pub number : ℕ
  pub head_sha : Option String

pub record Commit : Type 0 where
  pub sha : Option String
  pub report_trailer : Option String
  pub proposal_trailer : Option String

-- What a step came to: `code` where it raised.
pub data Step (A : Type 0) : Type 0 where
  gave : A → Step A
  code : PrCode → Step A

pub data Created : Type 0 where
  created : RemotePr → Created
  already_exists : Created
  create_failed : Created

-- The awaits of a call.
pub data Moment : Type 0 where
  at_cleanup at_find at_commits at_tip at_build at_push at_create at_find_again at_end : Moment

pub record World : Type 0 where
  pub token : Option String  -- settings.github_token_value()
  pub slug : Project → Option (String × String)
  pub has_clone : Project → Bool
  pub is_safe_branch : Project → Bool
  pub is_safe_id : String → Bool
  pub new_token : String  -- uuid.uuid4().hex
  pub clock : Moment → ℕ
  pub elsewhere : Moment → Db → Db
  pub cleanup : Step Unit
  pub find_pr : Moment → Step (Option RemotePr)
  pub pr_commits : RemotePr → Step (List Commit)
  pub remote_branch_tip : Step (Option String)
  pub build_commit : Step String
  pub push : Step Unit
  pub create_pr : Created

-- What was written to the remote.
pub data RemoteWrite : Type 0 where
  pushed : String → RemoteWrite
  opened_pr : RemotePr → RemoteWrite

-- The database, the claims of this process (`_active_claims`) and the writes to the remote, the newest first.
pub record Desk : Type 0 where
  pub db : Db
  pub active : List (String × String)
  pub remote : List RemoteWrite

abbrev pub with_db : Db → Desk → Desk
with_db db d = record d { db = db }

abbrev pub wrote : RemoteWrite → Desk → Desk
wrote x d = record d { remote = x ∷ d.remote }

abbrev pub await_at : World → Moment → Desk → Desk
await_at w m d = with_db (w.elsewhere m d.db) d

-- `OpenPrResponse`
pub record Answer : Type 0 where
  pub pr_url : Option String
  pub pr_number : Option ℕ
  pub branch : String
  pub fix_proposal_id : String
  pub is_new : Bool

pub data Reply : Type 0 where
  answered : ℕ → Answer → Reply
  conflict : Answer → Reply  -- (409, error.body())
  raised : PrCode → Reply

abbrev pub branch_for : String → String
branch_for report = "fix/bugalizer-" then report

abbrev pub branch_of : Proposal → Option String → String
branch_of p none = branch_for p.bug_report_id
branch_of p (some b) = if b == "" then branch_for p.bug_report_id else b

-- `_answer`
abbrev pub answer : Proposal → Bool → Answer
answer p new = record {
  pr_url = p.pr_url;
  pr_number = p.pr_number;
  branch = branch_of p p.branch_name;
  fix_proposal_id = p.id;
  is_new = new;
}

-- `requested_id is not None and requested_id != id`
abbrev pub differs : Option String → String → Bool
differs none id = false
differs (some r) id = not (r == id)

-- `_recorded_answer`
unfoldable pub recorded_answer : Proposal → Option String → Reply
recorded_answer p requested =
    if differs requested p.id then raised pr_exists else answered 200 (answer p false)

-- `fix_proposal_of_report` of db.py
unfoldable pub fix_proposal_of_report : String → String → List Proposal → Option Proposal
fix_proposal_of_report report id = first_where (λ p. p.id == id && p.bug_report_id == report)

-- `open_pr_running`
abbrev pub open_pr_running : String → Desk → Bool
open_pr_running report d = any (λ c. c.0 == report) d.active

-- A call that owns its claim, with the proposals that it reads when it holds it.
pub record Call : Type 0 where
  pub report_id : String
  pub claim_token : String
  pub requested_id : Option String
  pub proposal : Proposal
  pub proposals : List Proposal

-- A step of a claimed call leaves the desk, whether the call is finalized, and the reply.
abbrev pub Ran : Type 0
Ran = Desk × Bool × Reply

abbrev pub fails : PrCode → Desk → Ran
fails c d = (d, false, raised c)

-- `_record`
abbrev pub pull_request_of : String → RemotePr → Option String → PullRequest
pull_request_of report pr sha = record {
  url = pr.html_url;
  number = pr.number;
  sha = sha;
  branch = branch_for report;
}

abbrev pub reply_with : (Proposal → Reply) → Option Proposal → Reply
reply_with f none = raised unexpected
reply_with f (some p) = f p

abbrev pub after_record : Call → String → (Proposal → Reply) → Desk → Db × Recording → Ran
after_record call proposal f d (db, recorded) =
    (with_db db d, true, reply_with f (fix_proposal_of_report call.report_id proposal db.proposals))
after_record call proposal f d (db, claim_lost) = fails in_progress (with_db db d)
after_record call proposal f d (db, foreign_proposal) = fails unexpected (with_db db d)

unfoldable pub record_pr :
    World → Moment → Call → String → RemotePr → Option String → (Proposal → Reply) → Desk → Ran
record_pr w m call proposal pr sha f d = after_record call proposal f d (
    record_pull_request (w.clock m) call.report_id proposal call.claim_token
      (pull_request_of call.report_id pr sha) d.db)

-- `_resolve_owner`
abbrev pub has_sha : Option String → RemotePr → List Commit → Bool
has_sha none pr commits = false
has_sha (some s) pr commits =
    not (s == "") && (is_text pr.head_sha (some s) || any (λ c. is_text c.sha (some s)) commits)

abbrev pub by_intent : Call → RemotePr → List Commit → List Proposal
by_intent call pr commits = select_where (λ p. has_sha p.pushed_sha pr commits) call.proposals

abbrev pub names_proposal : Call → Option String → Bool
names_proposal call none = false
names_proposal call (some id) = any (λ p. p.id == id) call.proposals

unfoldable pub by_trailer : Call → List Commit → Option String
by_trailer call [] = none
by_trailer call (c ∷ cs) =
    let rest = by_trailer call cs in
    if is_text c.report_trailer (some call.report_id) && names_proposal call c.proposal_trailer
    then c.proposal_trailer
    else rest

abbrev pub only_one : List Proposal → Option String → Option String
only_one [] other = other
only_one (p ∷ []) other = some p.id
only_one (p ∷ q ∷ ps) other = other

unfoldable pub resolve_owner : Call → RemotePr → List Commit → Option String
resolve_owner call pr commits = only_one (by_intent call pr commits) (by_trailer call commits)

-- `_record_existing_pr`
abbrev pub existing_reply : Call → Proposal → Reply
existing_reply call p =
    if differs call.requested_id p.id
    then conflict (answer p false)
    else answered 200 (answer p false)

abbrev pub record_for : World → Call → RemotePr → Option String → Option String → Desk → Ran
record_for w call pr (some owner) requested d =
    record_pr w at_commits call owner pr none (λ p. existing_reply call p) d
record_for w call pr none (some requested) d =
    record_pr w at_commits call requested pr none (λ p. existing_reply call p) d
record_for w call pr none none d = fails pr_unattributed d

abbrev pub with_commits : World → Call → RemotePr → Step (List Commit) → Desk → Ran
with_commits w call pr (code c) d = fails c d
with_commits w call pr (gave commits) d =
    record_for w call pr (resolve_owner call pr commits) call.requested_id d

unfoldable pub record_existing_pr : World → Call → RemotePr → Desk → Ran
record_existing_pr w call pr d = with_commits w call pr (w.pr_commits pr) (await_at w at_commits d)

-- `_create_pr`
abbrev pub found_again : World → Call → Step (Option RemotePr) → Desk → Ran
found_again w call (code c) d = fails c d
found_again w call (gave none) d = fails github_error d
found_again w call (gave (some pr)) d = record_existing_pr w call pr d

abbrev pub with_created : World → Call → Proposal → String → Created → Desk → Ran
with_created w call proposal sha (created pr) d =
    record_pr w at_create call proposal.id pr (some sha) (λ p. answered 201 (answer p true))
      (wrote (opened_pr pr) d)
with_created w call proposal sha already_exists d =
    found_again w call (w.find_pr at_find_again) (await_at w at_find_again d)
with_created w call proposal sha create_failed d = fails github_error d

unfoldable pub create_pr : World → Call → Proposal → String → Desk → Ran
create_pr w call proposal sha d =
    with_created w call proposal sha w.create_pr (await_at w at_create d)

-- Steps 6 to 9 of `_run_claimed`: build, record the intent, push, open.
abbrev pub after_push : World → Call → String → Step Unit → Desk → Ran
after_push w call sha (code c) d = fails c d
after_push w call sha (gave u) d = create_pr w call call.proposal sha (wrote (pushed sha) d)

abbrev pub intend_push : World → Call → String → Desk → Desk
intend_push w call sha d =
    with_db
      (record d.db {
        proposals =
            record_push_intent (w.clock at_build) call.proposal.id sha (branch_for call.report_id)
              d.db.proposals;
      })
      d

abbrev pub after_build : World → Call → Step String → Desk → Ran
after_build w call (code c) d = fails c d
after_build w call (gave sha) d =
    after_push w call sha w.push (await_at w at_push (intend_push w call sha d))

-- A branch that is on the remote: whose push it was.
abbrev pub with_pusher : World → Call → String → Option Proposal → Desk → Ran
with_pusher w call tip none d = fails branch_exists d
with_pusher w call tip (some p) d =
    if differs call.requested_id p.id then fails branch_exists d else create_pr w call p tip d

abbrev pub with_tip : World → Call → Step (Option String) → Desk → Ran
with_tip w call (code c) d = fails c d
with_tip w call (gave none) d = after_build w call w.build_commit (await_at w at_build d)
with_tip w call (gave (some tip)) d =
    with_pusher w call tip (first_where (λ p. is_text p.pushed_sha (some tip)) call.proposals) d

abbrev pub with_found : World → Call → Step (Option RemotePr) → Desk → Ran
with_found w call (code c) d = fails c d
with_found w call (gave (some pr)) d = record_existing_pr w call pr d
with_found w call (gave none) d = with_tip w call w.remote_branch_tip (await_at w at_tip d)

-- `_run_claimed`
unfoldable pub run_claimed : World → Call → Desk → Ran
run_claimed w call d =
    let call' : Call = record call {
      proposals = fix_proposals_for_report call.report_id d.db.proposals;
    } in
    with_found w call' (w.find_pr at_find) (await_at w at_find d)

-- The claimed part of `open_pull_request`, with its two `finally`s.
abbrev pub after_cleanup : World → Call → Step Unit → Desk → Ran
after_cleanup w call (code c) d = fails c d
after_cleanup w call (gave u) d = run_claimed w call d

abbrev pub let_claim_go : World → Call → Ran → Desk × Reply
let_claim_go w call (d, finalized, reply) =
    let db = w.elsewhere at_end d.db in
    let released = (release_claim (w.clock at_end) call.report_id call.claim_token db.reports).0 in
    let active =
      select_where (λ c. not (c.0 == call.report_id && c.1 == call.claim_token)) d.active in
    (
      record d { db = if finalized then db else record db { reports = released }; active = active },
      reply,
    )

unfoldable pub run_call : World → Call → Desk → Desk × Reply
run_call w call d = let_claim_go w call (after_cleanup w call w.cleanup (await_at w at_cleanup d))

-- The compare-and-set of the claim.
abbrev pub lost_reply : Option Report → Reply
lost_reply none = raised wrong_status
lost_reply (some r) = if r.status == fix_approved then raised in_progress else raised wrong_status

abbrev pub claim : World → Report → Desk → List Report × Bool
claim w r d =
    if r.status == fix_approved
    then adopt_claim (w.clock at_cleanup) r.id r.claim_token w.new_token d.db.reports
    else try_claim_report (w.clock at_cleanup) r.id fix_proposed fix_approved (some w.new_token)
        d.db.reports

abbrev pub claim_and_run : World → Report → Option String → Proposal → Desk → Desk × Reply
claim_and_run w r requested proposal d =
    let (rs, won) = claim w r d in
    let d' : Desk = with_db (record d.db { reports = rs }) d in
    let call : Call = record {
      report_id = r.id;
      claim_token = w.new_token;
      requested_id = requested;
      proposal = proposal;
      proposals = [];
    } in
    if won
    then run_call w call (record d' { active = (r.id, w.new_token) ∷ d.active })
    else (d', lost_reply (report_get r.id rs))

-- The checks of the project.
abbrev pub refuse_project : World → Report → Project → Option PrCode
refuse_project w r p =
    if elim (w.slug p) [ none ↦ true | some s ↦ false ]
    then some not_github
    else if not (w.has_clone p)
    then some not_cloned
    else if not (w.is_safe_branch p)
    then some bad_default_branch
    else if not (w.is_safe_id r.id) || not (w.is_safe_id p.id)
    then some bad_id
    else none

abbrev pub unless_refused :
    World → Report → Option String → Proposal → Option PrCode → Desk → Desk × Reply
unless_refused w r requested proposal (some c) d = (d, raised c)
unless_refused w r requested proposal none d = claim_and_run w r requested proposal d

abbrev pub with_project :
    World → Report → Option String → Proposal → Option Project → Desk → Desk × Reply
with_project w r requested proposal none d = (d, raised not_github)
with_project w r requested proposal (some p) d =
    unless_refused w r requested proposal (refuse_project w r p) d

abbrev pub with_token :
    World → Report → Option String → Proposal → Option String → Desk → Desk × Reply
with_token w r requested proposal none d = (d, raised github_not_configured)
with_token w r requested proposal (some token) d =
    with_project w r requested proposal (get project_key r.project_id d.db.projects) d

abbrev pub with_proposal : World → Report → Option String → Option Proposal → Desk → Desk × Reply
with_proposal w r requested none d = (d, raised no_proposal)
with_proposal w r requested (some proposal) d =
    if open_pr_running r.id d
    then (d, raised in_progress)
    else if not (among r.status (fix_proposed ∷ fix_approved ∷ []))
    then (d, raised wrong_status)
    else with_token w r requested proposal w.token d

abbrev pub or_newest : Option Proposal → List Proposal → Option Proposal
or_newest chosen [] = none
or_newest none (p ∷ ps) = some p
or_newest (some q) (p ∷ ps) = some q

abbrev pub unless_recorded :
    World → Report → Option String → Option Proposal → Option Proposal → Desk → Desk × Reply
unless_recorded w r requested chosen (some p) d = (d, recorded_answer p requested)
unless_recorded w r requested chosen none d =
    with_proposal w r requested (or_newest chosen (fix_proposals_for_report r.id d.db.proposals)) d

abbrev pub on_requested : World → Report → String → Option Proposal → Desk → Desk × Reply
on_requested w r id none d = (d, raised proposal_not_found)
on_requested w r id (some p) d =
    unless_recorded w r (some id) (some p) (recorded_pull_request r.id d.db.proposals) d

abbrev pub with_requested : World → Report → Option String → Desk → Desk × Reply
with_requested w r none d =
    unless_recorded w r none none (recorded_pull_request r.id d.db.proposals) d
with_requested w r (some id) d =
    on_requested w r id (fix_proposal_of_report r.id id d.db.proposals) d

abbrev pub with_report : World → Option String → Option Report → Desk → Desk × Reply
with_report w requested none d = (d, raised report_not_found)
with_report w requested (some r) d = with_requested w r requested d

-- `open_pull_request`
unfoldable pub open_pull_request : World → String → Option String → Desk → Desk × Reply
open_pull_request w report requested d = with_report w requested (report_get report d.db.reports) d
