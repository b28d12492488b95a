-- ===== src/Tests/PullRequests.antt =====
-- A call of open-pr whose push fails.
use bugalizer.Prelude.{refl, true, none, some, [], ◌∷◌, get}
use bugalizer.Workflow.{fix_proposed}
use bugalizer.Store.{Proposal, proposed}
use bugalizer.PullRequests.{
  World, Desk, gave, code, branch_exists, create_failed, open_pull_request,
}
use bugalizer.PullRequests.Released.{Unowned, claim_let_go}
use bugalizer.PullRequests.Untouched.{Respects, table_when_claimed, foreign_branch_untouched}
use bugalizer.Tests.Data.{report, db}

abbrev draft : Proposal
draft = record {
  id = "f";
  bug_report_id = "a";
  analysis_id = none;
  branch_name = none;
  status = proposed;
  pr_url = none;
  pr_number = none;
  pushed_sha = none;
  pr_opened_at = none;
  trigger_ref = none;
  pr_state = none;
  pr_checked_at = none;
  pr_settled_at = none;
  pr_check_error = none;
  created_at = 4;
  updated_at = 4;
}

abbrev world : World
world = record {
  token = some "t";
  slug = λ p. some ("o", "r");
  has_clone = λ p. true;
  is_safe_branch = λ p. true;
  is_safe_id = λ s. true;
  new_token = "new";
  clock = λ m. 9;
  elsewhere = λ m db. db;
  cleanup = gave tt;
  find_pr = λ m. gave none;
  pr_commits = λ pr. gave [];
  remote_branch_tip = gave none;
  build_commit = gave "c9";
  push = code branch_exists;
  create_pr = create_failed;
}

abbrev desk : Desk
desk = record {
  db = record db { reports = report "a" fix_proposed none ∷ []; proposals = draft ∷ [] };
  active = [];
  remote = [];
}

claim_let_go_example : Unowned "new" "a" (open_pull_request world "a" none desk).0.db.reports
unfolding get
claim_let_go_example =
    claim_let_go world "a" none desk (record { keyed = λ m db k. k; unowned = λ m db u. u })
      (tt, tt) refl

foreign_branch_untouched_example :
    Respects world "a"
      (table_when_claimed world (report "a" fix_proposed none) desk)
      []
      (open_pull_request world "a" none desk).0.remote
unfolding get
foreign_branch_untouched_example =
    foreign_branch_untouched world (report "a" fix_proposed none) none desk refl
