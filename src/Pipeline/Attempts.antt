-- ===== src/Pipeline/Attempts.antt =====
-- pipeline/fix_proposer.py: what a run of the fix stage leaves for the retry gate.
use bugalizer.Prelude.{
  ℕ, suc, ◌≡◌, ◌⊎◌, Bool, List, [], ◌∷◌, ◌++◌, Option, none, some, String, string_eq,
}
use bugalizer.Workflow as W
use bugalizer.Store.{Text, Analysis, completed, failed, Db}
use bugalizer.Sync.Outcomes.{
  FixOutcome, was_proposed, fix_failed, already_proposed, put_off, fix_not_claimed,
}
use bugalizer.Pipeline.{cut, error, unreadable, World, analysis_row, no_error, failure}

-- The error that a run met: the model's call on some files failed, the reading of some files raised, or a write of
-- the proposal did.
abbrev pub Met : World → Bool → String → Type 0
Met w permanent message =
    ((files : List (String × Text)) × (w.complete files ≡ error permanent message))
    ⊎ ((paths : List String) × (w.read_files paths ≡ unreadable permanent message))
    ⊎ ((n : ℕ) × (w.save ≡ cut n permanent message))

-- The rows before a failed attempt's own: those that were there, and the completed row where the failure is of a
-- later write of the proposal.
abbrev pub RowsBefore : World → String → List Analysis → List Analysis → Type 0
RowsBefore w report old before =
    (before ≡ old)
    ⊎ ((n : ℕ) × (permanent : Bool) × (message : String) × (w.save ≡ cut (suc n) permanent message)
        × (before ≡ old ++ analysis_row w report completed no_error none ∷ []))

-- A failed attempt: its row and its outcome have the sanitized text of the error that the run met.
pub record FailedWith (w : World) (report : String) (old : List Analysis) (db : Db)
    (text : Option String) : Type 0 where
  pub permanent : Bool
  pub message : String
  pub met : Met w permanent message
  pub answer : text ≡ some (w.safe_error_text message)
  pub before : List Analysis
  pub earlier : RowsBefore w report old before
  pub rows :
      db.analyses
      ≡ before
        ++ analysis_row w report failed (failure permanent (w.safe_error_text message)) (some w.now)
          ∷ []

-- The analyses after a run, by its outcome: an attempt that failed, or made a proposal, is one row more.
abbrev pub Recorded : World → String → List Analysis → Db × FixOutcome → Type 0
Recorded w report old (db, was_proposed id) =
    db.analyses ≡ old ++ analysis_row w report completed no_error none ∷ []
Recorded w report old (db, fix_failed text) = FailedWith w report old db text
Recorded w report old (db, already_proposed id) = db.analyses ≡ old
Recorded w report old (db, put_off why) = db.analyses ≡ old
Recorded w report old (db, fix_not_claimed) = db.analyses ≡ old
