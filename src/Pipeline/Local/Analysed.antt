-- ===== src/Pipeline/Local/Analysed.antt =====
-- pipeline/triage.py and pipeline/orchestrator.py: where a triage leaves its report.
use mathlib.Core.Option
use bugalizer.Prelude.{
  ◌≡◌, refl, ap, sym, ◌∙◌, subst, Bool, true, false, none, some, String, ◌==◌, string_eq,
  if◌then◌else◌, if_lem, IsKeyed, IsKeyed-update_where, get-key, get-update_where, touch,
}
use bugalizer.Workflow as W
use bugalizer.Workflow.{BugStatus}
use bugalizer.Store.{Report, triage, running, completed, failed, Db}
use bugalizer.Store.Reports.{report_key, report_get, claimed}
use bugalizer.Pipeline.{no_error, failure}
use bugalizer.Pipeline.Local.{
  Verdict, Try, gave, raised, at_lock, at_triage, LocalWorld, add_analysis, stage_row, claim,
  analysis_update, set_verdict, or_same, or_same_area, triaged_by, triage_found, process_triaged,
}
use bugalizer.Pipeline.Local.Freed.{IsHeld, IsQuiet, set-IsHeld, claimed-IsHeld}

-- Where a triage leaves its report.
abbrev pub status_of_triage : Try Verdict → BugStatus
status_of_triage (raised e) = W.triaged
status_of_triage (gave v) = if v.needs_clarification then W.clarification_needed else W.triaged

verdict-IsHeld :
    (w : LocalWorld) (id : String) (v : Verdict) (s : BugStatus) (db : Db)
    → IsHeld id s db
    → IsHeld id s (set_verdict w id v db)
unfolding set_verdict
verdict-IsHeld w id v s db (keyed, (r, found, held)) =
    let p : Report → Bool = λ r. r.id == id in
    let f : Report → Report = λ r. record r {
      severity = or_same v.severity r.severity;
      feature_area = or_same_area v.feature_area r.feature_area;
      updated_at = w.now;
    } in
    (
      IsKeyed-update_where report_key p f db.reports (λ _. refl) keyed,
      (
        touch p f r,
        get-update_where report_key id p f db.reports (λ _. refl)
            ∙ ap (Option.map (touch p f)) found,
        if_lem (λ (x : Report). x.status ≡ s) (p r) (f r) r (λ _. held) (λ _. held),
      ),
    )

triaged-IsHeld :
    (w : LocalWorld) (id : String) (x : Try Verdict) (db : Db)
    → IsHeld id W.analyzing db
    → IsHeld id (status_of_triage x) (triaged_by w id x db)
unfolding analysis_update
triaged-IsHeld w id (raised e) db h =
    set-IsHeld w id W.triaged W.analyzing none
      (analysis_update (w.new_id triage) failed (failure false e) w.now db) h
triaged-IsHeld w id (gave v) db h =
    let db' = analysis_update (w.new_id triage) completed no_error w.now db in
    set-IsHeld w id (status_of_triage (gave v)) W.analyzing none (set_verdict w id v db')
      (verdict-IsHeld w id v W.analyzing db' h)

-- A triage of a triaged report leaves it triaged, also where the model's call or its reply failed, or waiting for a
-- clarification where the model asked for one: never in the stage's claim; and it reports that it ran. The
-- condition: while the report is claimed, no other request takes it out of the claim.
pub triage_frees :
    (w : LocalWorld) (id : String) (db : Db) (r : Report)
    → IsQuiet w id W.analyzing
    → IsKeyed report_key db.reports
    → report_get id db.reports ≡ some r
    → r.status ≡ W.triaged
    → IsHeld id
        (status_of_triage (w.triage (claimed w.now W.analyzing none r)))
        (process_triaged w id db).0
      × ((process_triaged w id db).1 ≡ true)
unfolding process_triaged
triage_frees w id db r quiet keyed found idle =
    let (won, there, h) = claimed-IsHeld w id W.triaged W.analyzing db r keyed found idle in
    let c = claimed w.now W.analyzing none r in
    let db' = (claim w id W.triaged W.analyzing db).0 in
    let s = status_of_triage (w.triage c) in
    let Ran : Db × Bool → Type 0 = λ x. IsHeld id s x.0 × (x.1 ≡ true) in
    let own : r.id ≡ id = get-key report_key id db.reports r found in
    let begun =
      add_analysis (stage_row w id triage running none none w.trigger_ref)
        (w.meanwhile at_lock db') in
    let ran : Ran (triage_found w (some c) db') =
      subst
        (λ i. Ran (
          triaged_by w i (w.triage c) (
              w.meanwhile at_triage (
                add_analysis (stage_row w i triage running none none w.trigger_ref)
                  (w.meanwhile at_lock db'))),
          true,
        ))
        (sym own)
        (
          triaged-IsHeld w id (w.triage c) (w.meanwhile at_triage begun)
              (quiet at_triage begun (quiet at_lock db' h)),
          refl,
        ) in
    subst (λ b. Ran (if b then triage_found w (report_get id db'.reports) db' else (db', false)))
      (sym won) (subst (λ o. Ran (triage_found w o db')) (sym there) ran)
