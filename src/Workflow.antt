-- ===== src/Workflow.antt =====
-- bugalizer/models.py: the status workflow of a bug report.
pub mod Public
use bugalizer.Prelude.{
  ℕ, ◌≡◌, refl, Bool, true, false, ◌&&◌, ◌||◌, not, List, [], ◌∷◌, Comparable, ◌==◌, rank_eq,
  nat_beq, if◌then◌else◌,
}

pub data BugStatus : Type 0 where
  submitted validating triaged analyzing clarification_needed fix_proposing fix_proposed : BugStatus
  fix_approved fix_committed verified closed rejected duplicate deferred : BugStatus

abbrev pub rank : BugStatus → ℕ
rank submitted = 0
rank validating = 1
rank triaged = 2
rank analyzing = 3
rank clarification_needed = 4
rank fix_proposing = 5
rank fix_proposed = 6
rank fix_approved = 7
rank fix_committed = 8
rank verified = 9
rank closed = 10
rank rejected = 11
rank duplicate = 12
rank deferred = 13

pub unrank : ℕ → BugStatus
unrank n =
    if nat_beq n 0
    then submitted
    else if nat_beq n 1
    then validating
    else if nat_beq n 2
    then triaged
    else if nat_beq n 3
    then analyzing
    else if nat_beq n 4
    then clarification_needed
    else if nat_beq n 5
    then fix_proposing
    else if nat_beq n 6
    then fix_proposed
    else if nat_beq n 7
    then fix_approved
    else if nat_beq n 8
    then fix_committed
    else if nat_beq n 9
    then verified
    else if nat_beq n 10
    then closed
    else if nat_beq n 11
    then rejected
    else if nat_beq n 12
    then duplicate
    else deferred

pub unrank-rank : (s : BugStatus) → unrank (rank s) ≡ s
unfolding unrank
unrank-rank submitted = refl
unrank-rank _ = refl

instance abbrev pub status_eq : Comparable BugStatus
status_eq = rank_eq rank unrank unrank-rank

-- `x in xs` for a set literal of statuses.
abbrev pub among : BugStatus → List BugStatus → Bool
among s [] = false
among s (t ∷ ts) = s == t || among s ts

abbrev pub terminal_statuses : List BugStatus
terminal_statuses = closed ∷ rejected ∷ duplicate ∷ []

-- VALID_TRANSITIONS, a row for each source.
abbrev pub valid_transitions : BugStatus → List BugStatus
valid_transitions submitted = validating ∷ rejected ∷ triaged ∷ []
valid_transitions validating = triaged ∷ rejected ∷ []
valid_transitions triaged = analyzing ∷ fix_proposing ∷ deferred ∷ duplicate ∷ closed ∷ []
valid_transitions analyzing = clarification_needed ∷ fix_proposed ∷ triaged ∷ []
valid_transitions clarification_needed = analyzing ∷ closed ∷ []
valid_transitions fix_proposing = fix_proposed ∷ triaged ∷ []
valid_transitions fix_proposed = fix_approved ∷ triaged ∷ closed ∷ []
valid_transitions fix_approved = fix_committed ∷ fix_proposed ∷ []
valid_transitions fix_committed = verified ∷ triaged ∷ []
valid_transitions verified = closed ∷ []
valid_transitions deferred = triaged ∷ []
valid_transitions closed = []
valid_transitions rejected = []
valid_transitions duplicate = []

abbrev pub current_phase_targets : List BugStatus
current_phase_targets =
    validating ∷ triaged ∷ analyzing ∷ clarification_needed ∷ fix_proposing ∷ fix_proposed
    ∷ deferred ∷ duplicate ∷ closed ∷ rejected ∷ []

abbrev pub claim_statuses : List BugStatus
claim_statuses = fix_approved ∷ []

unfoldable pub validate_transition : BugStatus → BugStatus → Bool → Bool
validate_transition current target enforce_phase_gating =
    if not (among target (valid_transitions current))
    then false
    else if enforce_phase_gating
        && (not (among target current_phase_targets) || among current claim_statuses)
    then false
    else true
