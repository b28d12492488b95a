-- ===== src/Workflow/Public.antt =====
-- bugalizer/models.py: what a transition of the public route may and may not do, and which statuses
-- a chain of transitions reaches.
use bugalizer.Prelude.{◌≡◌, refl, ◌≢◌, Bool, true, false, arith}
use bugalizer.Workflow.{
  BugStatus, submitted, validating, triaged, analyzing, clarification_needed, fix_proposing,
  fix_proposed, fix_approved, fix_committed, verified, closed, rejected, duplicate, deferred, among,
  terminal_statuses, validate_transition,
}

-- What a gated transition leaves alone: it starts in no terminal status and no claim, and enters
-- none of the statuses of open-pr.
pub record IsPublic (s t : BugStatus) : Type 0 where
  pub from_open : among s terminal_statuses ≡ false
  pub from_unclaimed : s ≢ fix_approved
  pub to_unclaimed : t ≢ fix_approved
  pub to_uncommitted : t ≢ fix_committed
  pub to_unverified : t ≢ verified

-- A gated transition starts in no terminal status and not in fix_approved, and enters none of
-- fix_approved, fix_committed and verified.
pub gated_transition-IsPublic :
    (s t : BugStatus) → validate_transition s t true ≡ true → IsPublic s t
unfolding validate_transition
gated_transition-IsPublic submitted t h = ground arith
gated_transition-IsPublic _ t h = ground arith

-- Chains of transitions, gated or not.
pub data Chain (gated : Bool) : BugStatus → BugStatus → Type 0 where
  here : {s : BugStatus} → Chain gated s s
  step :
      {s t u : BugStatus} → validate_transition s t gated ≡ true → Chain gated t u → Chain gated s u

hop :
    (s t : BugStatus)
    → validate_transition s t true ≡ true
    → Chain true t closed
    → Chain true s closed
hop s t h c = step {s = s} {t = t} h c

-- From every status that is neither terminal nor fix_approved, a chain of gated transitions leads to
-- closed.
pub closes :
    (s : BugStatus) → among s terminal_statuses ≡ false → s ≢ fix_approved → Chain true s closed
unfolding validate_transition
closes submitted _ _ = hop submitted triaged refl (hop triaged closed refl here)
closes validating _ _ = hop validating triaged refl (hop triaged closed refl here)
closes triaged _ _ = hop triaged closed refl here
closes analyzing _ _ = hop analyzing triaged refl (hop triaged closed refl here)
closes clarification_needed _ _ = hop clarification_needed closed refl here
closes fix_proposing _ _ = hop fix_proposing triaged refl (hop triaged closed refl here)
closes fix_proposed _ _ = hop fix_proposed closed refl here
closes fix_approved _ h = absurd (h refl)
closes fix_committed _ _ = hop fix_committed triaged refl (hop triaged closed refl here)
closes verified _ _ = hop verified closed refl here
closes deferred _ _ = hop deferred triaged refl (hop triaged closed refl here)
closes closed h _ = cc
closes rejected h _ = cc
closes duplicate h _ = cc

-- Chains of transitions, the internal ones included, that never enter the open-pr claim.
pub data Unclaimed : BugStatus → BugStatus → Type 0 where
  here : {s : BugStatus} → Unclaimed s s
  step :
      {s t u : BugStatus}
      → validate_transition s t false ≡ true
      → t ≢ fix_approved
      → Unclaimed t u
      → Unclaimed s u

pub record IsUncommitted (s : BugStatus) : Type 0 where
  pub unapproved : s ≢ fix_approved
  pub uncommitted : s ≢ fix_committed
  pub unverified : s ≢ verified

transition-IsUncommitted :
    (s t : BugStatus)
    → validate_transition s t false ≡ true
    → t ≢ fix_approved
    → IsUncommitted s
    → IsUncommitted t
unfolding validate_transition
transition-IsUncommitted submitted t h a u = ground arith
transition-IsUncommitted _ t h a u = ground arith

-- From a status that is none of fix_approved, fix_committed and verified, a chain of transitions,
-- gated or not, that never enters fix_approved reaches neither fix_committed nor verified.
pub commit_needs_claim : {s t : BugStatus} → Unclaimed s t → IsUncommitted s → IsUncommitted t
commit_needs_claim here u = u
commit_needs_claim (step {s = s} {t = t} h a c) u =
    commit_needs_claim c (transition-IsUncommitted s t h a u)
