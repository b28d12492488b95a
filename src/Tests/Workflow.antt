-- ===== src/Tests/Workflow.antt =====
-- The workflow on concrete statuses.
use bugalizer.Prelude.{◌≡◌, refl, false, true}
use bugalizer.Workflow.{submitted, triaged, fix_proposed, fix_approved, validate_transition}
use bugalizer.Workflow.Public.{Unclaimed, here, step}

approve_by_hand : validate_transition fix_proposed fix_approved true ≡ false
unfolding validate_transition
approve_by_hand = refl

straight : Unclaimed submitted triaged
unfolding validate_transition
straight = step refl (λ e. cc) here
