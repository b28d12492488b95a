-- ===== src/Store/Races.antt =====
-- bugalizer/db.py: requests that race for one report (`try_claim_report`, `adopt_claim`,
-- `release_claim`, `record_pull_request`, `report_delete`). The statements run one statement after
-- another; what each caller saw before is an argument.
use bugalizer.Prelude.{
  ℕ, ◌≡◌, refl, ◌≢◌, true, false, List, Option, none, some, String, ◌==◌, arith, string_eq, IsKeyed,
  eq_iff, ap, ◌∙◌, holds, ==-ne, ==-self, ◌⊎◌, Bool-cases, inl, inr,
}
use bugalizer.Workflow.{BugStatus, status_eq, fix_proposed, fix_committed}
use bugalizer.Store.{Report, is_text}
use bugalizer.Store.Reports.{
  report_key, report_get, claimed, adopted, deleted, let_go, still, report_delete, try_claim_report,
  adopt_claim, owned_by, release_claim, record_pr_report,
}
use bugalizer.Prelude.{cas-won, cas_lost, cas_twice, cas_won_row, get-cas_won, cas-IsKeyed}

-- Of two requests that claim a report out of one status, the second gets false and writes nothing.
pub second_claim_loses :
    (now now' : ℕ) (id : String) (expected new new' : BugStatus) (token token' : Option String)
    (rs : List Report)
    → IsKeyed report_key rs
    → new ≢ expected
    → (try_claim_report now id expected new token rs).1 ≡ true
    → try_claim_report now' id expected new' token'
        (try_claim_report now id expected new token rs).0
      ≡ ((try_claim_report now id expected new token rs).0, false)
unfolding try_claim_report
second_claim_loses now now' id expected new new' token token' rs keyed ne won =
    let (r, found, e) =
      cas_won_row report_key id (λ r. r.status == expected) (claimed now new token) rs keyed won in
    cas_twice report_key id (λ r. r.status == expected) (λ r. r.status == expected)
      (claimed now new token) (claimed now' new' token') rs r (λ _. refl) keyed found e
      (==-ne new expected ne)

fenced :
    (now : ℕ) (token new_token : String) (r : Report)
    → new_token ≢ token
    → owned_by token (adopted now new_token r) ≡ false
fenced now token new_token r ne = ground (arith, ==-ne new_token token ne)

owner :
    (now : ℕ) (token new_token : String) (r : Report)
    → owned_by token r ≡ true
    → owned_by new_token (adopted now new_token r) ≡ true
owner now token new_token r e = ground (arith, ==-self new_token)

-- After a request with another token adopts a claim, the former owner can neither release it nor
-- record a pull request under it: both get false and write nothing.
pub adopt_fences_owner :
    (now now' : ℕ) (id token new_token : String) (rs : List Report)
    → IsKeyed report_key rs
    → new_token ≢ token
    → (adopt_claim now id (some token) new_token rs).1 ≡ true
    → (release_claim now' id token (adopt_claim now id (some token) new_token rs).0
        ≡ ((adopt_claim now id (some token) new_token rs).0, false))
      × (record_pr_report now' id token (adopt_claim now id (some token) new_token rs).0
          ≡ ((adopt_claim now id (some token) new_token rs).0, false))
      × ((release_claim now' id new_token (adopt_claim now id (some token) new_token rs).0).1
          ≡ true)
unfolding adopt_claim release_claim record_pr_report
adopt_fences_owner now now' id token new_token rs keyed ne won =
    let (r, found, e) =
      cas_won_row report_key id (owned_by token) (adopted now new_token) rs keyed won in
    let rs' = (adopt_claim now id (some token) new_token rs).0 in
    (
      cas_twice report_key id (owned_by token) (owned_by token) (adopted now new_token)
          (let_go now' fix_proposed) rs r (λ _. refl) keyed found e
          (fenced now token new_token r ne),
      cas_twice report_key id (owned_by token) (owned_by token) (adopted now new_token)
          (let_go now' fix_committed) rs r (λ _. refl) keyed found e
          (fenced now token new_token r ne),
      cas-won report_key id (owned_by new_token) (let_go now' fix_proposed) rs' (
            cas-IsKeyed report_key id (owned_by token) (adopted now new_token) rs (λ _. refl) keyed)
          ∙ ap (holds (owned_by new_token)) (
              get-cas_won report_key id (owned_by token) (adopted now new_token) rs r (λ _. refl)
                found e)
          ∙ owner now token new_token r e,
    )

is_text_iff : (a b : Option String) → is_text a b ≡ true → a ≡ b
is_text_iff none none h = refl
is_text_iff none (some b) h = cc
is_text_iff (some a) none h = cc
is_text_iff (some a) (some b) h = ap some ((eq_iff a b).0 h)

changed_row :
    (r : Report) (s : BugStatus) (token : Option String)
    → (r.status ≢ s) ⊎ (r.claim_token ≢ token)
    → still (some s) (some token) r ≡ false
changed_row r s token (inl ne) = ground (arith, ==-ne r.status s ne)
changed_row r s token (inr ne) = elim (Bool-cases (is_text r.claim_token token)) [
  | inl e ↦ absurd (ne (is_text_iff r.claim_token token e))
  | inr e ↦ ground (arith, e)
]

-- A delete that was decided on a status and a token gets false and writes nothing if the row's
-- status or token has changed since.
pub delete_spares_claim :
    (now : ℕ) (id : String) (s : BugStatus) (token : Option String) (rs : List Report) (r : Report)
    → IsKeyed report_key rs
    → report_get id rs ≡ some r
    → (r.status ≢ s) ⊎ (r.claim_token ≢ token)
    → report_delete now id (some s) (some token) rs ≡ (rs, false)
unfolding report_delete
delete_spares_claim now id s token rs r keyed found changed =
    cas_lost report_key id (still (some s) (some token)) (deleted now) rs keyed
      (ap (holds (still (some s) (some token))) found ∙ changed_row r s token changed)
