-- ===== src/Schedule/Reset.antt =====
-- bugalizer/db.py: the budget that `reset_stage_retries` gives a report.
use bugalizer.Prelude.{
  ℕ, ◌≡◌, refl, ap, ◌∙◌, ◌≢◌, ◌⊎◌, inl, inr, Bool, true, false, ◌&&◌, List, [], ◌∷◌, Option, none,
  some, String, ◌==◌, string_eq, arith, eq_iff, row_count, select_where, order_desc,
  row_count-order_desc, row_count-select_where, row_count-delete_where, select_where-delete_where,
}
use bugalizer.Store.{
  Phase, validation, triage, localization, fix, phase_eq, run_eq, Report, Analysis, Db,
}
use bugalizer.Schedule.{
  Settings, created, analyses_for_report, is_failed, failed_attempts_after, retryable_failure,
  reset_stage_retries, localization_blocked, fix_blocked, open_failures, report_failure_info,
}
use bugalizer.Schedule.Budget.{no_rows_open}

abbrev own_failure : String → Phase → Analysis → Bool
own_failure id ph a = (a.bug_report_id == id && a.phase == ph) && is_failed a

abbrev IsLlm : Phase → Type 0
IsLlm ph = (ph ≡ triage) ⊎ (ph ≡ localization) ⊎ (ph ≡ fix)

caught :
    (id : String) (ph : Phase)
    → IsLlm ph
    → (a : Analysis) → own_failure id ph a ≡ true
    → retryable_failure id a ≡ true
caught id ph llm a h = ground arith

none_failed :
    (rows : List Analysis) (reference : Option ℕ)
    → row_count is_failed rows ≡ 0
    → failed_attempts_after rows reference ≡ []
unfolding failed_attempts_after select_where row_count
none_failed [] reference h = refl
none_failed (a ∷ rows) reference h = ground (arith, none_failed rows reference)

no_failures :
    (id : String) (ph : Phase) (rows : List Analysis) (reference : Option ℕ)
    → IsLlm ph
    → failed_attempts_after (analyses_for_report id ph (reset_stage_retries id rows).0) reference
      ≡ []
unfolding analyses_for_report reset_stage_retries
no_failures id ph rows reference llm = none_failed _ reference (
    row_count-order_desc created is_failed _
    ∙ row_count-select_where (λ a. a.bug_report_id == id && a.phase == ph) is_failed _
    ∙ row_count-delete_where (own_failure id ph) (retryable_failure id) rows (caught id ph llm))

-- After a reset of a report's retries, neither the localization nor the fix stage is blocked for it,
-- and it shows no failure.
pub reset_opens :
    (cfg : Settings) (now : ℕ) (db : Db) (r : Report) (loc : Analysis)
    → (localization_blocked cfg now
          (record db { analyses = (reset_stage_retries r.id db.analyses).0 })
          r
        ≡ false)
      × (fix_blocked cfg now
            (record db { analyses = (reset_stage_retries r.id db.analyses).0 })
            r
            loc
          ≡ false)
      × (report_failure_info r.id (reset_stage_retries r.id db.analyses).0 ≡ none)
unfolding localization_blocked fix_blocked report_failure_info open_failures
reset_opens cfg now db r loc = (
  rw (no_failures r.id localization db.analyses _ (inr (inl refl))) (no_rows_open _ _ _),
  rw (no_failures r.id fix db.analyses (some loc.created_at) (inr (inr refl))) (no_rows_open _ _ _),
  rw
      (
        no_failures r.id triage db.analyses _ (inl refl),
        no_failures r.id localization db.analyses _ (inr (inl refl)),
        no_failures r.id fix db.analyses _ (inr (inr refl)),
      )
      refl,
)

missed :
    (id j : String) (ph : Phase)
    → (j ≢ id) ⊎ (ph ≡ validation)
    → (a : Analysis) → (a.bug_report_id == j && a.phase == ph) ≡ true
    → retryable_failure id a ≡ false
missed id j ph (inl ne) a h =
    ground (arith, eq_iff a.bug_report_id j, eq_iff a.bug_report_id id, eq_iff j id)
missed id j ph (inr e) a h = ground (arith, e, h)

-- A reset leaves the rows of every other report alone, in every phase, and the report's own
-- validation rows.
pub reset_spares :
    (id j : String) (ph : Phase) (rows : List Analysis)
    → (j ≢ id) ⊎ (ph ≡ validation)
    → analyses_for_report j ph (reset_stage_retries id rows).0 ≡ analyses_for_report j ph rows
unfolding analyses_for_report reset_stage_retries
reset_spares id j ph rows apart = ap (order_desc created) (
    select_where-delete_where (λ a. a.bug_report_id == j && a.phase == ph) (retryable_failure id)
      rows (missed id j ph apart))
