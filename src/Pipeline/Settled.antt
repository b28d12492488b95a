-- ===== src/Pipeline/Settled.antt =====
-- pipeline/fix_proposer.py: where a run of the fix stage leaves its report.
use bugalizer.Prelude.{
  ◌≡◌, refl, ap, sym, ◌∙◌, subst, zero, suc, Bool, true, not, List, [], ◌∷◌, Option, none, some,
  String, ◌==◌, string_eq, if◌then◌else◌, if_lem, IsKeyed, get, get-key, first_where, cas, cas-won,
  holds, get-cas_won, cas-IsKeyed,
}
use bugalizer.Workflow as W
use bugalizer.Workflow.{BugStatus, status_eq}
use bugalizer.Store.{Text, Project, project_key, Report, Analysis, Proposal, Db, is_text}
use bugalizer.Store.Reports.{
  report_key, report_get, report_update_status, try_claim_report, claimed, moved, if_given,
}
use bugalizer.Schedule.{latest_localization, truthy}
use bugalizer.Sync.Outcomes.{
  FixOutcome, was_proposed, fix_failed, already_proposed, put_off, fix_not_claimed,
  fix_proposals_for_report,
}
use bugalizer.Pipeline.{
  Saving, saved, cut, rows_written, persist_on, Reply, valid, error, Reading, contents, unreadable,
  on_reading, Moment, at_read, at_call, World, cap_bundle, give_back, failed_attempt, fail,
  proposal_rows, persist, to_proposed, defer, on_reply, on_bundle, on_candidates, is_stale,
  on_project, on_prior, on_localization, on_report, propose_fix, with_reports,
}

-- The status that an outcome leaves a claimed report in. A run that claimed it has another outcome than the last.
abbrev pub status_after : FixOutcome → BugStatus
status_after (was_proposed id) = W.fix_proposed
status_after (already_proposed id) = W.fix_proposed
status_after (fix_failed text) = W.triaged
status_after (put_off why) = W.triaged
status_after fix_not_claimed = W.triaged

abbrev pub HasStatus : String → BugStatus → Db → Type 0
HasStatus report s db = (r : Report) × (report_get report db.reports ≡ some r) × (r.status ≡ s)

-- A report in the stage's claim, in a table with its key.
abbrev pub IsClaimed : String → Db → Type 0
IsClaimed report db = IsKeyed report_key db.reports × HasStatus report W.fix_proposing db

abbrev Ends : String → Db × FixOutcome → Type 0
Ends report x = HasStatus report (status_after x.1) x.0

module _ (w : World) (report : String)
    (quiet : (m : Moment) (db : Db)
      → IsClaimed report db
      → IsClaimed report (w.meanwhile m db)) where
  give_back-HasStatus :
      (db : Db) → IsClaimed report db → HasStatus report W.triaged (give_back w report db)
  unfolding give_back try_claim_report
  give_back-HasStatus db (keyed, (r, found, held)) =
      let p : Report → Bool = λ r. r.status == W.fix_proposing in
      let passes : p r ≡ true = rw held refl in
      (
        claimed w.now W.triaged none r,
        get-cas_won report_key report p (claimed w.now W.triaged none) db.reports r (λ _. refl)
            found passes,
        refl,
      )

  proposed-HasStatus :
      (db : Db) → IsClaimed report db → HasStatus report W.fix_proposed (to_proposed w report db)
  unfolding report_update_status
  proposed-HasStatus db (keyed, (r, found, held)) = (
    moved w.now W.fix_proposed none r,
    get-cas_won report_key report (λ r. if_given none (λ s. r.status == s))
        (moved w.now W.fix_proposed none) db.reports r (λ _. refl) found refl,
    refl,
  )

  fail-Ends :
      (permanent : Bool) (message : String) (db : Db)
      → IsClaimed report db
      → Ends report (fail w report permanent message db)
  unfolding fail
  fail-Ends permanent message db h =
      give_back-HasStatus (failed_attempt w report permanent message db) h

  saving-Ends :
      (analysis : String) (x : Saving) (db : Db)
      → IsClaimed report db
      → Ends report (persist_on w report analysis x db)
  saving-Ends analysis saved db h = proposed-HasStatus (proposal_rows w report analysis db) h
  saving-Ends analysis (cut zero permanent message) db h = fail-Ends permanent message db h
  saving-Ends analysis (cut (suc zero) permanent message) db h =
      fail-Ends permanent message (rows_written w report analysis 1 db) h
  saving-Ends analysis (cut (suc (suc n)) permanent message) db h =
      fail-Ends permanent message (proposal_rows w report analysis db) h

  reply-Ends :
      (loc : Analysis) (x : Reply) (db : Db)
      → IsClaimed report db
      → Ends report (on_reply w report loc x db)
  unfolding persist
  reply-Ends loc valid db h = saving-Ends loc.id w.save db h
  reply-Ends loc (error permanent message) db h = fail-Ends permanent message db h

  candidates-Ends :
      (loc : Analysis) (cs : List String) (db : Db)
      → IsClaimed report db
      → Ends report (on_candidates w report loc cs db)
  candidates-Ends loc [] db h = give_back-HasStatus db h
  candidates-Ends loc (c ∷ cs) db h = by_reading (w.read_files (c ∷ cs))
    where
      db' : Db
      db' = w.meanwhile at_read db

      k : IsClaimed report db'
      k = quiet at_read db h

      by_bundle : (fs : List (String × Text)) → Ends report (on_bundle w report loc fs db')
      by_bundle [] = give_back-HasStatus db' k
      by_bundle (f ∷ fs) =
          reply-Ends loc (w.complete (f ∷ fs)) (w.meanwhile at_call db') (quiet at_call db' k)

      by_reading : (x : Reading) → Ends report (on_reading w report loc x db')
      by_reading (contents files) = by_bundle (cap_bundle w.max_bundle files)
      by_reading (unreadable permanent message) = fail-Ends permanent message db' k

  project-Ends :
      (loc : Analysis) (o : Option Project) (db : Db)
      → IsClaimed report db
      → Ends report (on_project w report loc o db)
  project-Ends loc none db h = give_back-HasStatus db h
  project-Ends loc (some p) db h =
      if_lem (Ends report) (not (truthy p.repo_path)) _ _ (λ _. give_back-HasStatus db h)
        (λ _.
          if_lem (Ends report) (is_stale p loc) _ _ (λ _. give_back-HasStatus db h)
            (λ _. candidates-Ends loc (w.candidates loc) db h))

claimed-Ends :
    (w : World) (report : String) (r : Report) (db : Db)
    → ((m : Moment) (db : Db) → IsClaimed report db → IsClaimed report (w.meanwhile m db))
    → r.id ≡ report
    → IsClaimed report db
    → Ends report (on_report w (some r) db)
claimed-Ends w report r db quiet own h = by_localization (latest_localization db r)
  where
    quiet' : (m : Moment) (db : Db) → IsClaimed r.id db → IsClaimed r.id (w.meanwhile m db)
    quiet' =
        subst (λ k. (m : Moment) (db : Db) → IsClaimed k db → IsClaimed k (w.meanwhile m db))
          (sym own) quiet

    k : IsClaimed r.id db
    k = subst (λ i. IsClaimed i db) (sym own) h

    to_report : (x : Db × FixOutcome) → Ends r.id x → Ends report x
    to_report x e = subst (λ i. Ends i x) own e

    by_prior : (loc : Analysis) (o : Option Proposal) → Ends report (on_prior w r loc o db)
    by_prior loc (some prior) =
        to_report (to_proposed w r.id db, already_proposed prior.id)
          (proposed-HasStatus w r.id quiet' db k)
    by_prior loc none =
        let o = get project_key r.project_id db.projects in
        to_report (on_project w r.id loc o db) (project-Ends w r.id quiet' loc o db k)

    by_localization : (o : Option Analysis) → Ends report (on_localization w r o db)
    by_localization none =
        to_report (defer w r.id "No completed localization analysis to work from" db)
          (give_back-HasStatus w r.id quiet' db k)
    by_localization (some loc) = by_prior loc (
        first_where (λ p. is_text p.analysis_id (some loc.id))
          (fix_proposals_for_report r.id db.proposals))

-- A run of the fix stage on a triaged report leaves it proposed when it made a proposal or found one, and triaged
-- again when it failed or deferred, whatever the error and also where only some of a proposal's rows were written:
-- never in the stage's claim. The condition: while the report is claimed, no other request takes it out of the claim.
pub fix_run_settles :
    (w : World) (report : String) (db : Db) (r : Report)
    → ((m : Moment) (db : Db) → IsClaimed report db → IsClaimed report (w.meanwhile m db))
    → IsKeyed report_key db.reports
    → report_get report db.reports ≡ some r
    → r.status ≡ W.triaged
    → HasStatus report (status_after (propose_fix w report db).1) (propose_fix w report db).0
unfolding propose_fix try_claim_report
fix_run_settles w report db r quiet keyed found idle =
    let p : Report → Bool = λ r. r.status == W.triaged in
    let f = claimed w.now W.fix_proposing none in
    let passes : p r ≡ true = rw idle refl in
    let won : (cas report_key report p f db.reports).1 ≡ true =
      cas-won report_key report p f db.reports keyed ∙ ap (holds p) found ∙ passes in
    let there = get-cas_won report_key report p f db.reports r (λ _. refl) found passes in
    let db' = with_reports (cas report_key report p f db.reports).0 db in
    let ran =
      subst (λ o. Ends report (on_report w o db')) (sym there)
        (claimed-Ends w report (f r) db' quiet (get-key report_key report db.reports r found)
          (cas-IsKeyed report_key report p f db.reports (λ _. refl) keyed, (f r, there, refl))) in
    subst
      (λ b.
        Ends report
          (if b then on_report w (report_get report db'.reports) db' else (db', fix_not_claimed)))
      (sym won) ran
