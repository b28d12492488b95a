-- ===== src/Pipeline/Local/Manual.antt =====
-- pipeline/orchestrator.py: a manual local analysis, which runs the triage where there is none and then localizes.
use mathlib.Core.Bool.{false≢true}
use bugalizer.Prelude.{
  ◌≡◌, refl, ap, sym, ◌∙◌, subst, ◌⊎◌, inl, inr, Bool, true, false, List, none, some, String, ◌==◌,
  string_eq, if◌then◌else◌, if_lem, any, IsKeyed, get-key, cas_lost, holds, ==-self,
}
use bugalizer.Workflow as W
use bugalizer.Workflow.{BugStatus, status_eq}
use bugalizer.Store.{Report, triage, Db}
use bugalizer.Store.Reports.{report_key, report_get, try_claim_report, claimed}
use bugalizer.Schedule.{analyses_for_report, is_completed}
use bugalizer.Sync.Outcomes.{LocalOutcome, not_claimed, triage_only}
use bugalizer.Pipeline.{with_reports}
use bugalizer.Pipeline.Local.{
  Verdict, Try, gave, raised, at_lock, LocalWorld, set_status, claim, localize_found,
  process_triaged, process_localization, push_asked, push_on, then_localize, analysis_on,
  analysis_found, run_local_analysis,
}
use bugalizer.Pipeline.Local.Freed.{IsHeld, IsQuiet, set-IsHeld, claimed-IsHeld, localization_frees}
use bugalizer.Pipeline.Local.Analysed.{status_of_triage, triage_frees}

-- The triage model's reply, on the report's row, asked for a clarification.
pub record AskedBack (w : LocalWorld) (id : String) : Type 0 where
  pub row : Report
  pub verdict : Verdict
  pub of_report : row.id ≡ id
  pub reply : w.triage row ≡ gave verdict
  pub asked : verdict.needs_clarification ≡ true

-- What an analysis leaves: the report triaged, or waiting for a clarification after a triage that asked for one.
abbrev pub IsDone : LocalWorld → String → Db × LocalOutcome → Type 0
IsDone w id x =
    IsHeld id W.triaged x.0
    ⊎ (IsHeld id W.clarification_needed x.0 × (x.1 ≡ triage_only) × AskedBack w id)

-- What a triage leaves for the localization after it.
abbrev IsReady : LocalWorld → String → Db × Bool → Type 0
IsReady w id x =
    IsHeld id W.triaged x.0 ⊎ (IsHeld id W.clarification_needed x.0 × (x.1 ≡ true) × AskedBack w id)

-- A report that waits for a clarification is not localized.
localization-Clarified :
    (w : LocalWorld) (id : String) (db : Db)
    → IsHeld id W.clarification_needed db
    → process_localization w id db ≡ (db, not_claimed)
unfolding process_localization try_claim_report
localization-Clarified w id db (keyed, (r, found, held)) =
    let p : Report → Bool = λ r. r.status == W.triaged in
    let misses : p r ≡ false = ap (λ s. s == W.triaged) held in
    let lost =
      cas_lost report_key id p (claimed w.now W.analyzing none) db.reports keyed
        (ap (holds p) found ∙ misses) in
    subst
      (λ (x : List Report × Bool).
        (if x.1
          then localize_found w (report_get id x.0) (with_reports x.0 db)
          else (with_reports x.0 db, not_claimed))
        ≡ (db, not_claimed))
      (sym lost) refl

asked-IsHeld :
    (w : LocalWorld) (id : String) (db : Db)
    → IsHeld id W.clarification_needed db
    → IsHeld id W.triaged (push_asked w id db)
asked-IsHeld w id db (keyed, (r, found, held)) =
    let (won, there, h) =
      claimed-IsHeld w id W.clarification_needed W.analyzing db r keyed found held in
    let db' = (claim w id W.clarification_needed W.analyzing db).0 in
    subst (λ b. IsHeld id W.triaged (if b then set_status w id W.triaged none db' else db'))
      (sym won) (set-IsHeld w id W.triaged W.analyzing none db' h)

module _ (w : LocalWorld) (id : String) (calm : (s : BugStatus) → IsQuiet w id s) where
  triage-IsReady : (db : Db) → IsHeld id W.triaged db → IsReady w id (process_triaged w id db)
  triage-IsReady db (keyed, (r, found, held)) =
      by_reply (w.triage (claimed w.now W.analyzing none r)) refl ran.0
    where
      ran :
          IsHeld id
            (status_of_triage (w.triage (claimed w.now W.analyzing none r)))
            (process_triaged w id db).0
          × ((process_triaged w id db).1 ≡ true)
      ran = triage_frees w id db r (calm W.analyzing) keyed found held

      by_reply :
          (x : Try Verdict)
          → w.triage (claimed w.now W.analyzing none r) ≡ x
          → IsHeld id (status_of_triage x) (process_triaged w id db).0
          → IsReady w id (process_triaged w id db)
      by_reply (raised e) reply h = inl h
      by_reply (gave v) reply h =
          if_lem
            (λ s. IsHeld id s (process_triaged w id db).0 → IsReady w id (process_triaged w id db))
            v.needs_clarification W.clarification_needed W.triaged
            (λ asked h. inr (
              h,
              ran.1,
              record {
                row = claimed w.now W.analyzing none r;
                verdict = v;
                of_report = get-key report_key id db.reports r found;
                reply = reply;
                asked = asked;
              },
            ))
            (λ _ h. inl h) h

  then-IsDone : (x : Db × Bool) → IsReady w id x → IsDone w id (then_localize w id x)
  then-IsDone (db, ran) (inl h) = by_report (calm W.triaged at_lock db h)
    where
      by_report :
          IsHeld id W.triaged (w.meanwhile at_lock db) → IsDone w id (then_localize w id (db, ran))
      by_report (keyed, (r, found, held)) =
          inl
            (localization_frees w id (w.meanwhile at_lock db) r (calm W.analyzing) keyed found held)
  then-IsDone (db, ran) (inr (h, triaged_now, asked)) =
      let k = calm W.clarification_needed at_lock db h in
      let same = localization-Clarified w id (w.meanwhile at_lock db) k in
      rw (same, triaged_now) (inr (k, refl, asked))

  analysis-IsDone :
      (r : Report) (db : Db) → r.id ≡ id → IsHeld id W.triaged db → IsDone w id (analysis_on w r db)
  analysis-IsDone r db own h =
      subst
        (λ i. IsDone w id (
          then_localize w i
            (if triaged_before then (db, false) else process_triaged w i (w.meanwhile at_lock db))))
        (sym own)
        (then-IsDone
          (if triaged_before then (db, false) else process_triaged w id (w.meanwhile at_lock db))
          (if_lem (IsReady w id) triaged_before (db, false)
            (process_triaged w id (w.meanwhile at_lock db)) (λ _. inl h)
            (λ _. triage-IsReady (w.meanwhile at_lock db) (calm W.triaged at_lock db h))))
    where
      triaged_before : Bool
      triaged_before = any is_completed (analyses_for_report r.id triage db.analyses)

  push-IsHeld :
      (r : Report) (db : Db)
      → IsKeyed report_key db.reports
      → report_get id db.reports ≡ some r
      → (r.status ≡ W.triaged) ⊎ (r.status ≡ W.clarification_needed)
      → IsHeld id W.triaged (push_on w r db)
  push-IsHeld r db keyed found (inl idle) =
      if_lem (IsHeld id W.triaged) (r.status == W.clarification_needed)
        (push_asked w r.id (w.meanwhile at_lock db)) db
        (λ asked. absurd (false≢true (sym (ap (λ s. s == W.clarification_needed) idle) ∙ asked)))
        (λ _. (keyed, (r, found, idle)))
  push-IsHeld r db keyed found (inr asked) =
      let own : r.id ≡ id = get-key report_key id db.reports r found in
      let db' = w.meanwhile at_lock db in
      if_lem (IsHeld id W.triaged) (r.status == W.clarification_needed) (push_asked w r.id db') db
        (λ _.
          subst (λ i. IsHeld id W.triaged (push_asked w i db')) (sym own)
            (asked-IsHeld w id db'
              (calm W.clarification_needed at_lock db (keyed, (r, found, asked)))))
        (λ unasked. absurd (
          false≢true (
            sym unasked
            ∙ ap (λ s. s == W.clarification_needed) asked
            ∙ ==-self W.clarification_needed)))

-- A manual local analysis of a report that is triaged, or waits for a clarification, leaves it triaged, or waiting for
-- a clarification where the triage model's reply asked for one, in which case the outcome says that only the triage ran: never
-- in a stage's claim, whatever the models, the clone and the map do. The conditions: no two reports have one id, and while
-- it runs, no other request changes the report's status.
pub analysis_frees :
    (w : LocalWorld) (id : String) (db : Db) (r : Report)
    → ((s : BugStatus) → IsQuiet w id s)
    → IsKeyed report_key db.reports
    → report_get id db.reports ≡ some r
    → (r.status ≡ W.triaged) ⊎ (r.status ≡ W.clarification_needed)
    → IsDone w id (run_local_analysis w id db)
unfolding run_local_analysis
analysis_frees w id db r calm keyed found allowed =
    subst (λ o. IsDone w id (analysis_found w o db)) (sym found)
      (analysis-IsDone w id calm r (push_on w r db) (get-key report_key id db.reports r found)
        (push-IsHeld w id calm r db keyed found allowed))
