-- ===== src/Startup/Released.antt =====
-- bugalizer/db.py: what `release_orphaned_claims` leaves.
use mathlib.Core.List.{append-nil}
use bugalizer.Prelude.{
  ℕ, ◌≡◌, refl, ap, sym, ◌∙◌, ◌⊎◌, inl, inr, Bool, false, ◌||◌, List, [], ◌∷◌, String, ◌==◌, arith,
  update_where, select_where, map, touch, IsIn, IsIn-update_where, IsIn-append, IsIn-select_where,
  Unmatched, update_where-Unmatched, row_count-Unmatched, Unmatched-of_IsIn, select_where-Unmatched,
}
use bugalizer.Workflow.{
  BugStatus, validating, submitted, analyzing, fix_proposing, triaged, status_eq,
}
use bugalizer.Store.{Report, Analysis, run_eq, Db}
use bugalizer.Startup.{
  is_running, interrupt, is_fixing, failed_fix, rolled_back, release_all, release_orphaned_claims,
  orphaned_claim_rollback,
}

-- The report sits in a claim that a stage holds while it runs.
abbrev pub is_orphaned : Report → Bool
is_orphaned r = r.status == validating || r.status == analyzing || r.status == fix_proposing

-- A report after the three updates.
abbrev pub rolled : ℕ → Report → Report
rolled now r =
    touch (λ r. r.status == fix_proposing) (rolled_back now triaged)
      (touch (λ r. r.status == analyzing) (rolled_back now triaged)
        (touch (λ r. r.status == validating) (rolled_back now submitted) r))

rolled-free : (now : ℕ) (r : Report) → is_orphaned (rolled now r) ≡ false
rolled-free now r = ground arith

three_steps :
    (f g h : Report → Report) (c b a r : Report) → h c ≡ b → g b ≡ a → f a ≡ r → f (g (h c)) ≡ r
three_steps f g h c b a r e₃ e₂ e₁ = ap (λ x. f (g x)) e₃ ∙ ap f e₂ ∙ e₁

pub reports_rolled :
    (now : ℕ) (new_id : String → String) (db : Db) (r : Report)
    → IsIn r (release_orphaned_claims now new_id db).0.reports
    → (s : Report) × IsIn s db.reports × (rolled now s ≡ r)
unfolding release_orphaned_claims release_all
reports_rolled now new_id db r m =
    let (a, m₁, e₁) =
      IsIn-update_where (λ r. r.status == fix_proposing) (rolled_back now triaged) r
        (update_where (λ r. r.status == analyzing) (rolled_back now triaged)
          (update_where (λ r. r.status == validating) (rolled_back now submitted) db.reports))
        m in
    let (b, m₂, e₂) =
      IsIn-update_where (λ r. r.status == analyzing) (rolled_back now triaged) a
        (update_where (λ r. r.status == validating) (rolled_back now submitted) db.reports) m₁ in
    let (c, m₃, e₃) =
      IsIn-update_where (λ r. r.status == validating) (rolled_back now submitted) b db.reports m₂ in
    (
      c,
      m₃,
      three_steps (touch (λ r. r.status == fix_proposing) (rolled_back now triaged))
          (touch (λ r. r.status == analyzing) (rolled_back now triaged))
          (touch (λ r. r.status == validating) (rolled_back now submitted)) c b a r e₃ e₂ e₁,
    )

IsIn-map :
    (f : Report → Analysis) (a : Analysis) (rs : List Report)
    → IsIn a (map f rs)
    → (r : Report) × IsIn r rs × (f r ≡ a)
IsIn-map f a [] m = absurd m
IsIn-map f a (r ∷ rs) (inl e) = (r, inl refl, e)
IsIn-map f a (r ∷ rs) (inr m) = let (s, n, e) = IsIn-map f a rs m in (s, inr n, e)

-- An analysis row of the result: an old one, or the row of a report that was in fix_proposing.
pub analyses_interrupted :
    (now : ℕ) (new_id : String → String) (db : Db) (a : Analysis)
    → IsIn a (release_orphaned_claims now new_id db).0.analyses
    → ((b : Analysis) × IsIn b db.analyses × (touch is_running (interrupt now) b ≡ a))
      ⊎ ((r : Report) × IsIn r db.reports × (failed_fix now new_id r ≡ a))
unfolding release_orphaned_claims release_all
analyses_interrupted now new_id db a m =
    elim (IsIn-append a (update_where is_running (interrupt now) db.analyses)
      (map (failed_fix now new_id) (select_where is_fixing db.reports)) m) [
        | inl m ↦ inl (IsIn-update_where is_running (interrupt now) a db.analyses m)
        | inr m ↦
            let (r, n, e) =
              IsIn-map (failed_fix now new_id) a (select_where is_fixing db.reports) m in
            inr (r, (IsIn-select_where is_fixing r db.reports n).0, e)
      ]

-- After the startup pass no report is in a claim of a stage, and no analysis row is running.
pub nothing_orphaned :
    (now : ℕ) (new_id : String → String) (db : Db)
    → ((r : Report)
        → IsIn r (release_orphaned_claims now new_id db).0.reports
        → is_orphaned r ≡ false)
      × ((a : Analysis)
          → IsIn a (release_orphaned_claims now new_id db).0.analyses
          → is_running a ≡ false)
nothing_orphaned now new_id db = (
  λ r m.
      let (s, _, e) = reports_rolled now new_id db r m in
      ap is_orphaned (sym e) ∙ rolled-free now s,
  λ a m. elim (analyses_interrupted now new_id db a m) [
    | inl (b, _, e) ↦ ap is_running (sym e) ∙ ground arith
    | inr (r, _, e) ↦ ap is_running (sym e)
  ],
)

-- A claim that no report is in.
release_all-Unmatched :
    (now : ℕ) (claimed rollback : BugStatus) (claims : List (BugStatus × BugStatus))
    (rs : List Report)
    → Unmatched (λ r. r.status == claimed) rs
    → release_all now ((claimed, rollback) ∷ claims) rs ≡ release_all now claims rs
unfolding release_all
release_all-Unmatched now claimed rollback claims rs h = rw (
  row_count-Unmatched (λ r. r.status == claimed) rs h,
  update_where-Unmatched (λ r. r.status == claimed) (rolled_back now rollback) rs h,
)

no_claims : (now : ℕ) (rs : List Report) → release_all now [] rs ≡ (rs, [])
unfolding release_all
no_claims now rs = refl

release_none :
    (now : ℕ) (rs : List Report)
    → ((r : Report) → IsIn r rs → is_orphaned r ≡ false)
    → release_all now orphaned_claim_rollback rs ≡ (rs, [])
release_none now rs free =
    let unmatched : (s : BugStatus)
        → ((r : Report) → is_orphaned r ≡ false → (r.status == s) ≡ false)
        → Unmatched (λ r. r.status == s) rs =
      λ s h. Unmatched-of_IsIn (λ r. r.status == s) rs (λ r m. h r (free r m)) in
    release_all-Unmatched now validating submitted
      ((analyzing, triaged) ∷ (fix_proposing, triaged) ∷ []) rs
      (unmatched validating (λ r h. ground (arith, h)))
    ∙ release_all-Unmatched now analyzing triaged ((fix_proposing, triaged) ∷ []) rs
        (unmatched analyzing (λ r h. ground (arith, h)))
    ∙ release_all-Unmatched now fix_proposing triaged [] rs
        (unmatched fix_proposing (λ r h. ground (arith, h)))
    ∙ no_claims now rs

-- A database with nothing to release is left as it is.
release-clean :
    (now : ℕ) (new_id : String → String) (db : Db)
    → ((r : Report) → IsIn r db.reports → is_orphaned r ≡ false)
    → ((a : Analysis) → IsIn a db.analyses → is_running a ≡ false)
    → release_orphaned_claims now new_id db ≡ (db, [])
unfolding release_orphaned_claims
release-clean now new_id db free idle =
    rw
      (
        release_none now db.reports free,
        update_where-Unmatched is_running (interrupt now) db.analyses
            (Unmatched-of_IsIn is_running db.analyses idle),
        select_where-Unmatched is_fixing db.reports
            (Unmatched-of_IsIn is_fixing db.reports (λ r m. ground (arith, free r m))),
      )
      (ap (λ rows. (record db { analyses = rows }, [])) (append-nil db.analyses))

-- A second startup pass records and releases nothing.
pub release_once :
    (now now' : ℕ) (new_id new_id' : String → String) (db : Db)
    → release_orphaned_claims now' new_id' (release_orphaned_claims now new_id db).0
      ≡ ((release_orphaned_claims now new_id db).0, [])
release_once now now' new_id new_id' db =
    let (free, idle) = nothing_orphaned now new_id db in
    release-clean now' new_id' (release_orphaned_claims now new_id db).0 free idle
