-- ===== src/PullRequests/Released.antt =====
-- git_ops/pull_request.py: what a call of open-pr leaves of its claim.
use mathlib.Core.Bool.{false≢true}
use bugalizer.Prelude.{
  ℕ, ◌≡◌, refl, ap, sym, ◌∙◌, subst, inl, inr, Bool, true, false, not, ◌&&◌, List, [], ◌∷◌, Option,
  none, some, String, ◌==◌, string_eq, Bool-cases, Option-cases, IsKeyed, get, get-key, KeepsKey,
  cas, cas_lost, cas-IsKeyed, get-cas_won, cas-won, cas_won_row, holds, if_lem, first_where,
}
use bugalizer.Workflow.{fix_proposed, fix_approved, fix_committed, status_eq, among}
use bugalizer.Store.{Project, project_key, Report, Proposal, Db, is_text}
use bugalizer.Store.Reports.{
  report_key, report_get, owned_by, let_go, release_claim, record_pr_report, try_claim_report,
  adopt_claim, claimed, adopted,
}
use bugalizer.Store.Transactions.{
  PullRequest, Recording, recorded, foreign_proposal, claim_lost, record_pull_request,
  record_pr_proposal, commit_pr, recorded_pull_request,
}
use bugalizer.Sync.Outcomes.{fix_proposals_for_report}
use bugalizer.PullRequests.{
  PrCode, github_error, branch_exists, pr_unattributed, differs, RemotePr, Commit, Step, gave, code,
  Created, created, already_exists, create_failed, Moment, at_cleanup, at_find, at_commits, at_tip,
  at_build, at_push, at_create, at_find_again, at_end, World, pushed, opened_pr, Desk, with_db,
  wrote, await_at, Reply, Call, Ran, fails, after_record, record_pr, pull_request_of, record_for,
  resolve_owner, with_commits, record_existing_pr, found_again, with_created, create_pr, after_push,
  intend_push, after_build, with_pusher, with_tip, with_found, run_claimed, after_cleanup,
  let_claim_go, run_call, claim, claim_and_run, refuse_project, unless_refused, with_project,
  with_token, with_proposal, or_newest, open_pr_running, unless_recorded, on_requested, lost_reply,
  with_requested, with_report, open_pull_request, fix_proposal_of_report,
}

-- The report is not held by a claim with this token.
abbrev pub Unowned : String → String → List Report → Type 0
Unowned token report rs = holds (owned_by token) (report_get report rs) ≡ false

-- What the other requests do during a call: they keep the primary key, and never write the call's own token.
pub record Spares (w : World) (report token : String) : Type 0 where
  pub keyed :
      (m : Moment) (db : Db)
      → IsKeyed report_key db.reports
      → IsKeyed report_key (w.elsewhere m db).reports
  pub unowned :
      (m : Moment) (db : Db)
      → Unowned token report db.reports
      → Unowned token report (w.elsewhere m db).reports

-- After a release, whatever the row was, the token is gone.
release-Unowned :
    (now : ℕ) (report token : String) (rs : List Report)
    → IsKeyed report_key rs
    → Unowned token report (release_claim now report token rs).0
unfolding release_claim
release-Unowned now report token rs keyed =
    elim (Bool-cases (holds (owned_by token) (report_get report rs))) [
      | inr e ↦
          subst (λ x. Unowned token report x.0)
            (sym (cas_lost report_key report (owned_by token) (let_go now fix_proposed) rs keyed e))
            e
      | inl e ↦ elim (Option-cases (report_get report rs)) [
        | inl g ↦ absurd (false≢true (sym (ap (holds (owned_by token)) g) ∙ e))
        | inr (r, g) ↦
            let owned : owned_by token r ≡ true = sym (ap (holds (owned_by token)) g) ∙ e in
            ap (holds (owned_by token)) (
              get-cas_won report_key report (owned_by token) (let_go now fix_proposed) rs r
                (λ _. refl) g owned)
      ]
    ]

-- A step keeps the key, and a finalized one has let the claim go.
abbrev Ends : Call → Ran → Type 0
Ends call (d, finalized, reply) =
    IsKeyed report_key d.db.reports
    × (finalized ≡ true → Unowned call.claim_token call.report_id d.db.reports)

-- A recorded pull request has taken the token off the report.
record-Ends :
    (now : ℕ) (report proposal token : String) (pr : PullRequest) (db : Db)
    → IsKeyed report_key db.reports
    → IsKeyed report_key (record_pull_request now report proposal token pr db).0.reports
      × ((record_pull_request now report proposal token pr db).1 ≡ recorded
          → Unowned token report (record_pull_request now report proposal token pr db).0.reports)
unfolding record_pull_request record_pr_report
record-Ends now report proposal token pr db keyed =
    split (record_pr_proposal now report proposal pr db.proposals)
      (cas report_key report (owned_by token) f db.reports)
      (cas-IsKeyed report_key report (owned_by token) f db.reports (λ _. refl) keyed) won
  where
    f : Report → Report
    f = let_go now fix_committed

    won :
        (cas report_key report (owned_by token) f db.reports).1 ≡ true
        → Unowned token report (cas report_key report (owned_by token) f db.reports).0
    won e =
        let (r, found, owned) =
          cas_won_row report_key report (owned_by token) f db.reports keyed e in
        ap (holds (owned_by token))
          (get-cas_won report_key report (owned_by token) f db.reports r (λ _. refl) found owned)

    split :
        (x : List Proposal × Bool) (y : List Report × Bool)
        → IsKeyed report_key y.0
        → (y.1 ≡ true → Unowned token report y.0)
        → IsKeyed report_key (commit_pr db x y).0.reports
          × ((commit_pr db x y).1 ≡ recorded → Unowned token report (commit_pr db x y).0.reports)
    split (ps, false) y k u = (keyed, λ e. cc)
    split (ps, true) (rs, false) k u = (keyed, λ e. cc)
    split (ps, true) (rs, true) k u = (k, λ e. u refl)

module _ (w : World) (call : Call) (spares : Spares w call.report_id call.claim_token) where
  abbrev Keyed : Desk → Type 0
  Keyed d = IsKeyed report_key d.db.reports

  fails-Ends : (c : PrCode) (d : Desk) → Keyed d → Ends call (fails c d)
  fails-Ends c d keyed = (keyed, λ e. absurd (false≢true e))

  record_pr-Ends :
      (m : Moment) (proposal : String) (pr : RemotePr) (sha : Option String) (f : Proposal → Reply)
      (d : Desk)
      → Keyed d
      → Ends call (record_pr w m call proposal pr sha f d)
  unfolding record_pr
  record_pr-Ends m proposal pr sha f d keyed =
      by_recording
        (record_pull_request (w.clock m) call.report_id proposal call.claim_token
          (pull_request_of call.report_id pr sha) d.db)
        (record-Ends (w.clock m) call.report_id proposal call.claim_token
          (pull_request_of call.report_id pr sha) d.db keyed)
    where
      by_recording :
          (x : Db × Recording)
          → IsKeyed report_key x.0.reports
            × (x.1 ≡ recorded → Unowned call.claim_token call.report_id x.0.reports)
          → Ends call (after_record call proposal f d x)
      by_recording (db, recorded) h = (h.0, λ _. h.1 refl)
      by_recording (db, claim_lost) h = (h.0, λ e. absurd (false≢true e))
      by_recording (db, foreign_proposal) h = (h.0, λ e. absurd (false≢true e))

  await-Keyed : (m : Moment) (d : Desk) → Keyed d → Keyed (await_at w m d)
  await-Keyed m d keyed = spares.keyed m d.db keyed

  existing-Ends : (pr : RemotePr) (d : Desk) → Keyed d → Ends call (record_existing_pr w call pr d)
  unfolding record_existing_pr
  existing-Ends pr d keyed = by_commits (w.pr_commits pr)
    where
      d' : Desk
      d' = await_at w at_commits d

      k : Keyed d'
      k = await-Keyed at_commits d keyed

      by_owner : (o requested : Option String) → Ends call (record_for w call pr o requested d')
      by_owner (some owner) requested = record_pr-Ends at_commits owner pr none _ d' k
      by_owner none (some requested) = record_pr-Ends at_commits requested pr none _ d' k
      by_owner none none = fails-Ends pr_unattributed d' k

      by_commits : (s : Step (List Commit)) → Ends call (with_commits w call pr s d')
      by_commits (code c) = fails-Ends c d' k
      by_commits (gave commits) = by_owner (resolve_owner call pr commits) call.requested_id

  create-Ends :
      (proposal : Proposal) (sha : String) (d : Desk)
      → Keyed d
      → Ends call (create_pr w call proposal sha d)
  unfolding create_pr
  create-Ends proposal sha d keyed = by_created w.create_pr
    where
      d' : Desk
      d' = await_at w at_create d

      k : Keyed d'
      k = await-Keyed at_create d keyed

      again : Desk
      again = await_at w at_find_again d'

      by_found : (s : Step (Option RemotePr)) → Ends call (found_again w call s again)
      by_found (code c) = fails-Ends c again (await-Keyed at_find_again d' k)
      by_found (gave none) = fails-Ends github_error again (await-Keyed at_find_again d' k)
      by_found (gave (some pr)) = existing-Ends pr again (await-Keyed at_find_again d' k)

      by_created : (c : Created) → Ends call (with_created w call proposal sha c d')
      by_created (created pr) =
          record_pr-Ends at_create proposal.id pr (some sha) _ (wrote (opened_pr pr) d') k
      by_created already_exists = by_found (w.find_pr at_find_again)
      by_created create_failed = fails-Ends github_error d' k

  built-Ends :
      (d : Desk) → Keyed d → Ends call (after_build w call w.build_commit (await_at w at_build d))
  built-Ends d keyed = by_build w.build_commit
    where
      d' : Desk
      d' = await_at w at_build d

      k : Keyed d'
      k = await-Keyed at_build d keyed

      after : String → Desk
      after sha = await_at w at_push (intend_push w call sha d')

      kept : (sha : String) → Keyed (after sha)
      kept sha = await-Keyed at_push (intend_push w call sha d') k

      by_push : (sha : String) (s : Step Unit) → Ends call (after_push w call sha s (after sha))
      by_push sha (code c) = fails-Ends c (after sha) (kept sha)
      by_push sha (gave u) =
          create-Ends call.proposal sha (wrote (pushed sha) (after sha)) (kept sha)

      by_build : (s : Step String) → Ends call (after_build w call s d')
      by_build (code c) = fails-Ends c d' k
      by_build (gave sha) = by_push sha w.push

  found-Ends :
      (d : Desk)
      → Keyed d
      → Ends call (with_found w call (w.find_pr at_find) (await_at w at_find d))
  found-Ends d keyed = by_found (w.find_pr at_find)
    where
      d' : Desk
      d' = await_at w at_find d

      k : Keyed d'
      k = await-Keyed at_find d keyed

      at_tip' : Desk
      at_tip' = await_at w at_tip d'

      by_pusher :
          (tip : String) (o : Option Proposal) → Ends call (with_pusher w call tip o at_tip')
      by_pusher tip none = fails-Ends branch_exists at_tip' (await-Keyed at_tip d' k)
      by_pusher tip (some p) =
          if_lem (Ends call) (differs call.requested_id p.id) _ _
            (λ _. fails-Ends branch_exists at_tip' (await-Keyed at_tip d' k))
            (λ _. create-Ends p tip at_tip' (await-Keyed at_tip d' k))

      by_tip : (s : Step (Option String)) → Ends call (with_tip w call s at_tip')
      by_tip (code c) = fails-Ends c at_tip' (await-Keyed at_tip d' k)
      by_tip (gave none) = built-Ends at_tip' (await-Keyed at_tip d' k)
      by_tip (gave (some tip)) =
          by_pusher tip (first_where (λ p. is_text p.pushed_sha (some tip)) call.proposals)

      by_found : (s : Step (Option RemotePr)) → Ends call (with_found w call s d')
      by_found (code c) = fails-Ends c d' k
      by_found (gave (some pr)) = existing-Ends pr d' k
      by_found (gave none) = by_tip w.remote_branch_tip

claimed-Ends :
    (w : World) (call : Call) (d : Desk)
    → Spares w call.report_id call.claim_token
    → IsKeyed report_key d.db.reports
    → Ends call (after_cleanup w call w.cleanup (await_at w at_cleanup d))
unfolding run_claimed
claimed-Ends w call d spares keyed = by_cleanup w.cleanup
  where
    d' : Desk
    d' = await_at w at_cleanup d

    by_cleanup : (s : Step Unit) → Ends call (after_cleanup w call s d')
    by_cleanup (code c) = fails-Ends w call spares c d' (spares.keyed at_cleanup d.db keyed)
    by_cleanup (gave u) =
        found-Ends w
          (record call { proposals = fix_proposals_for_report call.report_id d'.db.proposals })
          spares d' (spares.keyed at_cleanup d.db keyed)

-- A claimed call has let its claim go when it ends.
run_call-Unowned :
    (w : World) (call : Call) (d : Desk)
    → Spares w call.report_id call.claim_token
    → IsKeyed report_key d.db.reports
    → Unowned call.claim_token call.report_id (run_call w call d).0.db.reports
unfolding run_call
run_call-Unowned w call d spares keyed =
    by_ran (after_cleanup w call w.cleanup (await_at w at_cleanup d))
      (claimed-Ends w call d spares keyed)
  where
    by_ran :
        (x : Ran)
        → Ends call x
        → Unowned call.claim_token call.report_id (let_claim_go w call x).0.db.reports
    by_ran (d', true, reply) h = spares.unowned at_end d'.db (h.1 refl)
    by_ran (d', false, reply) h =
        release-Unowned (w.clock at_end) call.report_id call.claim_token
          (w.elsewhere at_end d'.db).reports (spares.keyed at_end d'.db h.0)

-- The compare-and-set of a claim keeps the key, and a lost one writes nothing.
claim-Kept :
    (w : World) (r : Report) (d : Desk)
    → IsKeyed report_key d.db.reports
    → IsKeyed report_key (claim w r d).0
      × ((claim w r d).1 ≡ false → (claim w r d).0 ≡ d.db.reports)
unfolding try_claim_report adopt_claim
claim-Kept w r d keyed =
    let P : List Report × Bool → Type 0 =
      λ x. IsKeyed report_key x.0 × (x.1 ≡ false → x.0 ≡ d.db.reports) in
    if_lem P (r.status == fix_approved) _ _
      (λ _.
        kept (λ r'. r'.status == fix_approved && is_text r'.claim_token r.claim_token)
          (adopted (w.clock at_cleanup) w.new_token) (λ _. refl))
      (λ _.
        kept (λ r'. r'.status == fix_proposed)
          (claimed (w.clock at_cleanup) fix_approved (some w.new_token)) (λ _. refl))
  where
    kept :
        (p : Report → Bool) (f : Report → Report)
        → KeepsKey report_key f
        → IsKeyed report_key (cas report_key r.id p f d.db.reports).0
          × ((cas report_key r.id p f d.db.reports).1 ≡ false
              → (cas report_key r.id p f d.db.reports).0 ≡ d.db.reports)
    kept p f keep = (
      cas-IsKeyed report_key r.id p f d.db.reports keep keyed,
      λ lost.
          ap (λ x. x.0)
            (cas_lost report_key r.id p f d.db.reports keyed
              (sym (cas-won report_key r.id p f d.db.reports keyed) ∙ lost)),
    )

module _ (w : World) (r : Report) (d : Desk) (spares : Spares w r.id w.new_token)
    (keyed : IsKeyed report_key d.db.reports) (free : Unowned w.new_token r.id d.db.reports) where
  abbrev Free : Desk × Reply → Type 0
  Free x = Unowned w.new_token r.id x.0.db.reports

  claim-Free : (requested : Option String) (p : Proposal) → Free (claim_and_run w r requested p d)
  claim-Free requested p =
      let (rs, won) = claim w r d in
      let kept = claim-Kept w r d keyed in
      let d' : Desk = with_db (record d.db { reports = rs }) d in
      let call : Call = record {
        report_id = r.id;
        claim_token = w.new_token;
        requested_id = requested;
        proposal = p;
        proposals = [];
      } in
      if_lem Free won (run_call w call (record d' { active = (r.id, w.new_token) ∷ d.active }))
        (d', lost_reply (report_get r.id rs))
        (λ _.
          run_call-Unowned w call (record d' { active = (r.id, w.new_token) ∷ d.active }) spares
            kept.0)
        (λ lost. subst (Unowned w.new_token r.id) (sym (kept.1 lost)) free)

  project-Free :
      (requested : Option String) (p : Proposal) (o : Option Project)
      → Free (with_project w r requested p o d)
  project-Free requested p none = free
  project-Free requested p (some project) = by_refusal (refuse_project w r project)
    where
      by_refusal : (o : Option PrCode) → Free (unless_refused w r requested p o d)
      by_refusal (some c) = free
      by_refusal none = claim-Free requested p

  proposal-Free :
      (requested : Option String) (o : Option Proposal) → Free (with_proposal w r requested o d)
  proposal-Free requested none = free
  proposal-Free requested (some p) =
      if_lem Free (open_pr_running r.id d) _ _ (λ _. free)
        (λ _.
          if_lem Free (not (among r.status (fix_proposed ∷ fix_approved ∷ []))) _ _ (λ _. free)
            (λ _. by_token w.token))
    where
      by_token : (o : Option String) → Free (with_token w r requested p o d)
      by_token none = free
      by_token (some token) = project-Free requested p (get project_key r.project_id d.db.projects)

  recorded-Free :
      (requested : Option String) (chosen o : Option Proposal)
      → Free (unless_recorded w r requested chosen o d)
  recorded-Free requested chosen (some p) = free
  recorded-Free requested chosen none =
      proposal-Free requested (or_newest chosen (fix_proposals_for_report r.id d.db.proposals))

  requested-Free : (requested : Option String) → Free (with_requested w r requested d)
  requested-Free none = recorded-Free none none (recorded_pull_request r.id d.db.proposals)
  requested-Free (some id) = by_proposal (fix_proposal_of_report r.id id d.db.proposals)
    where
      by_proposal : (o : Option Proposal) → Free (on_requested w r id o d)
      by_proposal none = free
      by_proposal (some p) =
          recorded-Free (some id) (some p) (recorded_pull_request r.id d.db.proposals)

-- However a call of open-pr ends, with a pull request, an error of a git command or of GitHub, or another failure,
-- its claim is gone from the report, if the token is new and no other request writes it.
pub claim_let_go :
    (w : World) (report : String) (requested : Option String) (d : Desk)
    → Spares w report w.new_token
    → IsKeyed report_key d.db.reports
    → Unowned w.new_token report d.db.reports
    → Unowned w.new_token report (open_pull_request w report requested d).0.db.reports
unfolding open_pull_request
claim_let_go w report requested d spares keyed free =
    by_report (report_get report d.db.reports) refl
  where
    by_report :
        (o : Option Report)
        → report_get report d.db.reports ≡ o
        → Unowned w.new_token report (with_report w requested o d).0.db.reports
    by_report none e = free
    by_report (some r) e =
        let own : r.id ≡ report = get-key report_key report d.db.reports r e in
        subst (λ k. Unowned w.new_token k (with_report w requested (some r) d).0.db.reports) own
          (requested-Free w r d (subst (λ k. Spares w k w.new_token) (sym own) spares) keyed
            (subst (λ k. Unowned w.new_token k d.db.reports) (sym own) free) requested)
