-- ===== src/Pipeline/Local/Freed.antt =====
-- pipeline/orchestrator.py: where a validation and a localization leave their report.
use bugalizer.Prelude.{
  ◌≡◌, refl, ap, sym, ◌∙◌, subst, Bool, true, false, not, [], ◌∷◌, Option, none, some, String, ◌==◌,
  string_eq, if◌then◌else◌, if_lem, any, IsKeyed, get, get-key, cas-won, holds, get-cas_won,
  cas-IsKeyed, ==-self,
}
use bugalizer.Workflow as W
use bugalizer.Workflow.{BugStatus, status_eq}
use bugalizer.Store.{Project, project_key, Report, validation, localization, completed, failed, Db}
use bugalizer.Store.Reports.{
  report_key, report_get, report_update_status, try_claim_report, claimed, moved, if_given,
}
use bugalizer.Schedule.{truthy, analyses_for_report}
use bugalizer.Sync.Outcomes.{LocalOutcome, text, not_claimed}
use bugalizer.Pipeline.{no_error, failure}
use bugalizer.Pipeline.Settled.{HasStatus}
use bugalizer.Pipeline.Local.{
  Try, gave, raised, LocalMoment, at_lock, at_head, at_map, at_localize, LocalWorld, set_status,
  end_triaged, claim, add_analysis, stage_row, analysis_update, started, localized, with_map,
  is_fresh, set_head, with_head, with_project, localize_found, process_localization, validated,
  validate_found, process_submitted,
}

-- A report in a stage's claim, in a table with its key.
abbrev pub IsHeld : String → BugStatus → Db → Type 0
IsHeld id s db = IsKeyed report_key db.reports × HasStatus id s db

-- What other requests do keeps a report in a status.
abbrev pub IsQuiet : LocalWorld → String → BugStatus → Type 0
IsQuiet w id s = (m : LocalMoment) (db : Db) → IsHeld id s db → IsHeld id s (w.meanwhile m db)

pub set-IsHeld :
    (w : LocalWorld) (id : String) (s held : BugStatus) (reason : Option String) (db : Db)
    → IsHeld id held db
    → IsHeld id s (set_status w id s reason db)
unfolding report_update_status
set-IsHeld w id s held reason db (keyed, (r, found, e)) =
    let p : Report → Bool = λ r. if_given none (λ s. r.status == s) in
    let f = moved w.now s reason in
    (
      cas-IsKeyed report_key id p f db.reports (λ _. refl) keyed,
      (f r, get-cas_won report_key id p f db.reports r (λ _. refl) found refl, refl),
    )

-- The claim of a report in the status that the stage starts from.
pub claimed-IsHeld :
    (w : LocalWorld) (id : String) (from to : BugStatus) (db : Db) (r : Report)
    → IsKeyed report_key db.reports
    → report_get id db.reports ≡ some r
    → r.status ≡ from
    → ((claim w id from to db).1 ≡ true)
      × (report_get id (claim w id from to db).0.reports ≡ some (claimed w.now to none r))
      × IsHeld id to (claim w id from to db).0
unfolding try_claim_report
claimed-IsHeld w id from to db r keyed found idle =
    let p : Report → Bool = λ r. r.status == from in
    let f = claimed w.now to none in
    let passes : p r ≡ true = ap (λ s. s == from) idle ∙ ==-self from in
    let there = get-cas_won report_key id p f db.reports r (λ _. refl) found passes in
    (
      cas-won report_key id p f db.reports keyed ∙ ap (holds p) found ∙ passes,
      there,
      (cas-IsKeyed report_key id p f db.reports (λ _. refl) keyed, (f r, there, refl)),
    )

module _ (w : LocalWorld) (r : Report) (quiet : IsQuiet w r.id W.analyzing) where
  abbrev Freed : Db × LocalOutcome → Type 0
  Freed x = IsHeld r.id W.triaged x.0

  end-IsHeld :
      (db : Db) → IsHeld r.id W.analyzing db → IsHeld r.id W.triaged (end_triaged w r.id db)
  end-IsHeld db h =
      set-IsHeld w r.id W.triaged W.analyzing none (w.meanwhile at_lock db) (quiet at_lock db h)

  map-Freed :
      (sha : String) (o : Try Unit) (db : Db)
      → IsHeld r.id W.analyzing db
      → Freed (with_map w r sha o db)
  unfolding analysis_update
  map-Freed sha (raised e) db h = end-IsHeld db h
  map-Freed sha (gave u) db h = by_reply (w.localize r sha)
    where
      db' : Db
      db' = w.meanwhile at_localize (started w r db)

      k : IsHeld r.id W.analyzing db'
      k = quiet at_localize (started w r db) (quiet at_lock db h)

      by_reply : (x : Try Unit) → Freed (localized w r.id sha x db')
      by_reply (gave u) =
          end-IsHeld
            (analysis_update (w.new_id localization) completed
              (record no_error { repo_sha = some sha }) w.now db')
            k
      by_reply (raised e) =
          end-IsHeld (analysis_update (w.new_id localization) failed (failure false e) w.now db') k

  project-Freed :
      (o : Option Project) (db : Db) → IsHeld r.id W.analyzing db → Freed (with_project w r o db)
  unfolding set_head
  project-Freed none db h = end-IsHeld db h
  project-Freed (some p) db h =
      if_lem Freed (not (truthy p.repo_path)) _ _ (λ _. end-IsHeld db h)
        (λ _. by_head (w.head_sha p))
    where
      db' : Db
      db' = w.meanwhile at_head db

      k : IsHeld r.id W.analyzing db'
      k = quiet at_head db h

      by_head : (x : Try String) → Freed (with_head w r p x db')
      by_head (raised e) = end-IsHeld db' k
      by_head (gave sha) =
          let db'' = set_head p.id sha db' in
          if_lem Freed (any (is_fresh sha) (analyses_for_report r.id localization db''.analyses)) _
            _ (λ _. end-IsHeld db'' k)
            (λ _. map-Freed sha (w.repo_map p) (w.meanwhile at_map db'') (quiet at_map db'' k))

-- A localization of a triaged report ends with the report triaged again, whether it wrote a localization, found the
-- clone missing or the localization current, or failed at any step. The condition: while the report is claimed, no
-- other request takes it out of the claim.
pub localization_frees :
    (w : LocalWorld) (id : String) (db : Db) (r : Report)
    → IsQuiet w id W.analyzing
    → IsKeyed report_key db.reports
    → report_get id db.reports ≡ some r
    → r.status ≡ W.triaged
    → IsHeld id W.triaged (process_localization w id db).0
unfolding process_localization
localization_frees w id db r quiet keyed found idle =
    let (won, there, h) = claimed-IsHeld w id W.triaged W.analyzing db r keyed found idle in
    let c = claimed w.now W.analyzing none r in
    let db' = (claim w id W.triaged W.analyzing db).0 in
    let own : r.id ≡ id = get-key report_key id db.reports r found in
    let ran : IsHeld id W.triaged (localize_found w (some c) db').0 =
      subst (λ k. IsHeld k W.triaged (localize_found w (some c) db').0) own
        (project-Freed w c (subst (λ k. IsQuiet w k W.analyzing) (sym own) quiet)
          (get project_key c.project_id db'.projects) db'
          (subst (λ k. IsHeld k W.analyzing db') (sym own) h)) in
    subst
      (λ b.
        IsHeld id W.triaged
          (if b then localize_found w (report_get id db'.reports) db' else (db', not_claimed)).0)
      (sym won) (subst (λ o. IsHeld id W.triaged (localize_found w o db').0) (sym there) ran)

-- Where a validation leaves its report.
abbrev pub status_of : Try (Option String) → BugStatus
status_of (raised e) = W.submitted
status_of (gave (some other)) = W.duplicate
status_of (gave none) = W.triaged

validated-IsHeld :
    (w : LocalWorld) (id : String) (x : Try (Option String)) (db : Db)
    → IsHeld id W.validating db
    → IsHeld id (status_of x) (validated w id x db)
validated-IsHeld w id (raised e) db (keyed, (r, found, held)) =
    (claimed-IsHeld w id W.validating W.submitted db r keyed found held).2
validated-IsHeld w id (gave (some other)) db h =
    set-IsHeld w id W.duplicate W.validating (some (text ("duplicate_of:" ∷ other ∷ [])))
      (add_analysis (stage_row w id validation completed (some no_error) (some w.now) none) db) h
validated-IsHeld w id (gave none) db h =
    set-IsHeld w id W.triaged W.validating none
      (add_analysis (stage_row w id validation completed (some no_error) (some w.now) none) db) h

-- The validation of a submitted report leaves it submitted again where it raised, a duplicate where it found the
-- report repeated, and triaged otherwise: never in the stage's claim.
-- The condition: while the report is claimed, no other request takes it out of the claim.
pub validation_settles :
    (w : LocalWorld) (id : String) (db : Db) (r : Report)
    → IsQuiet w id W.validating
    → IsKeyed report_key db.reports
    → report_get id db.reports ≡ some r
    → r.status ≡ W.submitted
    → IsHeld id
        (status_of (
          w.validate
            (claimed w.now W.validating none r)
            (claim w id W.submitted W.validating db).0))
        (process_submitted w id db)
unfolding process_submitted
validation_settles w id db r quiet keyed found idle =
    let (won, there, h) = claimed-IsHeld w id W.submitted W.validating db r keyed found idle in
    let c = claimed w.now W.validating none r in
    let db' = (claim w id W.submitted W.validating db).0 in
    let s = status_of (w.validate c db') in
    let own : r.id ≡ id = get-key report_key id db.reports r found in
    let ran : IsHeld id s (validate_found w (some c) db') =
      subst (λ i. IsHeld id s (validated w i (w.validate c db') (w.meanwhile at_lock db')))
        (sym own)
        (validated-IsHeld w id (w.validate c db') (w.meanwhile at_lock db')
          (quiet at_lock db' h)) in
    subst (λ b. IsHeld id s (if b then validate_found w (report_get id db'.reports) db' else db'))
      (sym won) (subst (λ o. IsHeld id s (validate_found w o db')) (sym there) ran)
