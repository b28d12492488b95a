-- ===== src/PullRequests/Untouched.antt =====
-- git_ops/pull_request.py: what a call of open-pr writes to the remote.
use bugalizer.Prelude.{
  ◌≡◌, refl, sym, subst, ◌⊎◌, inl, inr, Bool, true, not, List, [], ◌∷◌, Option, none, some, String,
  ◌==◌, string_eq, IsIn, IsIn-first_where, IsIn-order_desc, IsIn-select_where, get, if_lem,
  first_where, select_where, eq_of_test,
}
use bugalizer.Workflow.{fix_proposed, fix_approved, status_eq, among}
use bugalizer.Store.{Project, project_key, Report, Proposal, Db, is_text}
use bugalizer.Store.Reports.{report_get}
use bugalizer.Store.Transactions.{
  Recording, recorded, foreign_proposal, claim_lost, record_pull_request, recorded_pull_request,
}
use bugalizer.Sync.Outcomes.{fix_proposals_for_report}
use bugalizer.PullRequests.{
  PrCode, branch_exists, differs, RemotePr, Commit, Step, gave, code, Created, created,
  already_exists, create_failed, Moment, at_cleanup, at_find, at_commits, at_tip, at_create,
  at_find_again, World, RemoteWrite, opened_pr, Desk, with_db, wrote, await_at, Reply, Call, Ran,
  fails, after_record, record_pr, pull_request_of, record_for, resolve_owner, with_commits,
  record_existing_pr, found_again, with_created, create_pr, with_pusher, with_tip, with_found,
  run_claimed, after_cleanup, let_claim_go, run_call, claim, claim_and_run, refuse_project,
  unless_refused, with_project, with_token, with_proposal, or_newest, open_pr_running,
  unless_recorded, on_requested, with_requested, with_report, open_pull_request,
  fix_proposal_of_report, lost_reply,
}

-- A call that resumes on a branch whose tip a proposal of the report, which stands in the table when the call holds
-- its claim, has recorded as pushed: it opens a pull request, and pushes nothing.
pub record Resumed (w : World) (report : String) (table : List Proposal)
    (old new : List RemoteWrite) : Type 0 where
  pub tip : String
  pub pusher : Proposal
  pub pr : RemotePr
  pub branch_tip : w.remote_branch_tip ≡ gave (some tip)
  pub in_table : IsIn pusher table
  pub of_report : pusher.bug_report_id ≡ report
  pub was_pushed : is_text pusher.pushed_sha (some tip) ≡ true
  pub opened : new ≡ opened_pr pr ∷ old

-- What a call may have done to the remote.
abbrev pub Respects : World → String → List Proposal → List RemoteWrite → List RemoteWrite → Type 0
Respects w report table old new =
    (new ≡ old) ⊎ (w.remote_branch_tip ≡ gave none) ⊎ Resumed w report table old new

-- The proposals that the call reads: those of the table after its claim and the clean-up that it awaits.
abbrev pub table_when_claimed : World → Report → Desk → List Proposal
table_when_claimed w r d =
    (w.elsewhere at_cleanup (record d.db { reports = (claim w r d).0 })).proposals

abbrev MayOpen : List RemoteWrite → Ran → Type 0
MayOpen old x = (x.0.remote ≡ old) ⊎ ((pr : RemotePr) × (x.0.remote ≡ opened_pr pr ∷ old))

module _ (w : World) (call : Call) where
  record-remote :
      (m : Moment) (proposal : String) (pr : RemotePr) (sha : Option String) (f : Proposal → Reply)
      (d : Desk)
      → (record_pr w m call proposal pr sha f d).0.remote ≡ d.remote
  unfolding record_pr
  record-remote m proposal pr sha f d = by_recording (
      record_pull_request (w.clock m) call.report_id proposal call.claim_token
        (pull_request_of call.report_id pr sha) d.db)
    where
      by_recording : (x : Db × Recording) → (after_record call proposal f d x).0.remote ≡ d.remote
      by_recording (db, recorded) = refl
      by_recording (db, claim_lost) = refl
      by_recording (db, foreign_proposal) = refl

  existing-remote :
      (pr : RemotePr) (d : Desk) → (record_existing_pr w call pr d).0.remote ≡ d.remote
  unfolding record_existing_pr
  existing-remote pr d = by_commits (w.pr_commits pr)
    where
      d' : Desk
      d' = await_at w at_commits d

      by_owner :
          (o requested : Option String) → (record_for w call pr o requested d').0.remote ≡ d.remote
      by_owner (some owner) requested = record-remote at_commits owner pr none _ d'
      by_owner none (some requested) = record-remote at_commits requested pr none _ d'
      by_owner none none = refl

      by_commits : (s : Step (List Commit)) → (with_commits w call pr s d').0.remote ≡ d.remote
      by_commits (code c) = refl
      by_commits (gave commits) = by_owner (resolve_owner call pr commits) call.requested_id

  create-MayOpen :
      (proposal : Proposal) (sha : String) (d : Desk)
      → MayOpen d.remote (create_pr w call proposal sha d)
  unfolding create_pr
  create-MayOpen proposal sha d = by_created w.create_pr
    where
      d' : Desk
      d' = await_at w at_create d

      by_found :
          (s : Step (Option RemotePr))
          → MayOpen d.remote (found_again w call s (await_at w at_find_again d'))
      by_found (code c) = inl refl
      by_found (gave none) = inl refl
      by_found (gave (some pr)) = inl (existing-remote pr (await_at w at_find_again d'))

      by_created : (c : Created) → MayOpen d.remote (with_created w call proposal sha c d')
      by_created (created pr) =
          inr (pr, record-remote at_create proposal.id pr (some sha) _ (wrote (opened_pr pr) d'))
      by_created already_exists = by_found (w.find_pr at_find_again)
      by_created create_failed = inl refl

  -- The proposals of the call are the report's.
  found-Respects :
      (table : List Proposal) (d : Desk)
      → ((p : Proposal) → IsIn p call.proposals → IsIn p table × (p.bug_report_id ≡ call.report_id))
      → Respects w call.report_id table d.remote
          (with_found w call (w.find_pr at_find) (await_at w at_find d)).0.remote
  found-Respects table d own = by_found (w.find_pr at_find)
    where
      d' : Desk
      d' = await_at w at_find d

      at_tip' : Desk
      at_tip' = await_at w at_tip d'

      by_pusher :
          (tip : String)
          → w.remote_branch_tip ≡ gave (some tip)
          → (o : Option Proposal)
          → first_where (λ p. is_text p.pushed_sha (some tip)) call.proposals ≡ o
          → Respects w call.report_id table d.remote (with_pusher w call tip o at_tip').0.remote
      by_pusher tip e none found = inl refl
      by_pusher tip e (some p) found =
          if_lem (λ (x : Ran). Respects w call.report_id table d.remote x.0.remote)
            (differs call.requested_id p.id) (fails branch_exists at_tip')
            (create_pr w call p tip at_tip') (λ _. inl refl)
            (λ _. elim (create-MayOpen p tip at_tip') [
              | inl same ↦ inl same
              | inr (pr, opened) ↦
                  let (m, was_pushed) =
                    IsIn-first_where (λ p. is_text p.pushed_sha (some tip)) p call.proposals
                      found in
                  inr (
                    inr (record {
                      tip = tip;
                      pusher = p;
                      pr = pr;
                      branch_tip = e;
                      in_table = (own p m).0;
                      of_report = (own p m).1;
                      was_pushed = was_pushed;
                      opened = opened;
                    }))
            ])

      by_tip :
          (s : Step (Option String))
          → w.remote_branch_tip ≡ s
          → Respects w call.report_id table d.remote (with_tip w call s at_tip').0.remote
      by_tip (code c) e = inl refl
      by_tip (gave none) e = inr (inl e)
      by_tip (gave (some tip)) e =
          by_pusher tip e (first_where (λ p. is_text p.pushed_sha (some tip)) call.proposals) refl

      by_found :
          (s : Step (Option RemotePr))
          → Respects w call.report_id table d.remote (with_found w call s d').0.remote
      by_found (code c) = inl refl
      by_found (gave (some pr)) = inl (existing-remote pr d')
      by_found (gave none) = by_tip w.remote_branch_tip refl

run_call-Respects :
    (w : World) (call : Call) (d : Desk)
    → Respects w call.report_id
        (await_at w at_cleanup d).db.proposals
        d.remote
        (run_call w call d).0.remote
unfolding run_call run_claimed
run_call-Respects w call d = by_cleanup w.cleanup
  where
    d' : Desk
    d' = await_at w at_cleanup d

    mine : Proposal → Bool
    mine p = p.bug_report_id == call.report_id

    by_cleanup :
        (s : Step Unit)
        → Respects w call.report_id d'.db.proposals d.remote
            (let_claim_go w call (after_cleanup w call s d')).0.remote
    by_cleanup (code c) = inl refl
    by_cleanup (gave u) =
        found-Respects w
          (record call { proposals = fix_proposals_for_report call.report_id d'.db.proposals })
          d'.db.proposals d'
          (λ p m.
            let (n, e) =
              IsIn-select_where mine p d'.db.proposals
                (IsIn-order_desc (λ p. p.created_at) p (select_where mine d'.db.proposals) m) in
            (n, eq_of_test p.bug_report_id call.report_id e))

module _ (w : World) (r : Report) (d : Desk) where
  abbrev Kind : Desk × Reply → Type 0
  Kind x = Respects w r.id (table_when_claimed w r d) d.remote x.0.remote

  claim-Respects :
      (requested : Option String) (p : Proposal) → Kind (claim_and_run w r requested p d)
  claim-Respects requested p =
      let (rs, won) = claim w r d in
      let d' : Desk = with_db (record d.db { reports = rs }) d in
      let d'' : Desk = record d' { active = (r.id, w.new_token) ∷ d.active } in
      let call : Call = record {
        report_id = r.id;
        claim_token = w.new_token;
        requested_id = requested;
        proposal = p;
        proposals = [];
      } in
      if_lem Kind won (run_call w call d'') (d', lost_reply (report_get r.id rs))
        (λ _. run_call-Respects w call d'') (λ _. inl refl)

  project-Respects :
      (requested : Option String) (p : Proposal) (o : Option Project)
      → Kind (with_project w r requested p o d)
  project-Respects requested p none = inl refl
  project-Respects requested p (some project) = by_refusal (refuse_project w r project)
    where
      by_refusal : (o : Option PrCode) → Kind (unless_refused w r requested p o d)
      by_refusal (some c) = inl refl
      by_refusal none = claim-Respects requested p

  proposal-Respects :
      (requested : Option String) (o : Option Proposal) → Kind (with_proposal w r requested o d)
  proposal-Respects requested none = inl refl
  proposal-Respects requested (some p) =
      if_lem Kind (open_pr_running r.id d) _ _ (λ _. inl refl)
        (λ _.
          if_lem Kind (not (among r.status (fix_proposed ∷ fix_approved ∷ []))) _ _ (λ _. inl refl)
            (λ _. by_token w.token))
    where
      by_token : (o : Option String) → Kind (with_token w r requested p o d)
      by_token none = inl refl
      by_token (some token) =
          project-Respects requested p (get project_key r.project_id d.db.projects)

  recorded-Respects :
      (requested : Option String) (chosen o : Option Proposal)
      → Kind (unless_recorded w r requested chosen o d)
  recorded-Respects requested chosen (some p) = inl refl
  recorded-Respects requested chosen none =
      proposal-Respects requested (or_newest chosen (fix_proposals_for_report r.id d.db.proposals))

  requested-Respects : (requested : Option String) → Kind (with_requested w r requested d)
  requested-Respects none = recorded-Respects none none (recorded_pull_request r.id d.db.proposals)
  requested-Respects (some id) = by_proposal (fix_proposal_of_report r.id id d.db.proposals)
    where
      by_proposal : (o : Option Proposal) → Kind (on_requested w r id o d)
      by_proposal none = inl refl
      by_proposal (some p) =
          recorded-Respects (some id) (some p) (recorded_pull_request r.id d.db.proposals)

-- A call of open-pr writes to the remote only where the report's branch is not there yet, or where its tip is a
-- commit that a proposal of this report, which stands in the table once the call holds its claim, has recorded as
-- pushed; and then it only opens a pull request.
pub foreign_branch_untouched :
    (w : World) (r : Report) (requested : Option String) (d : Desk)
    → report_get r.id d.db.reports ≡ some r
    → Respects w r.id
        (table_when_claimed w r d)
        d.remote
        (open_pull_request w r.id requested d).0.remote
unfolding open_pull_request
foreign_branch_untouched w r requested d found =
    subst
      (λ o.
        Respects w r.id (table_when_claimed w r d) d.remote (with_report w requested o d).0.remote)
      (sym found) (requested-Respects w r d requested)
