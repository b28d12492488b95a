-- ===== src/Tests/Races.antt =====
-- Claims on a table of two reports.
use bugalizer.Prelude.{◌≡◌, refl, true, false, none, some, IsKeyed, row_count, arith, eq_iff}
use bugalizer.Workflow.{triaged, analyzing}
use bugalizer.Store.Reports.{
  report_key, try_claim_report, adopt_claim, release_claim, record_pr_report,
}
use bugalizer.Store.Races.{second_claim_loses, adopt_fences_owner}
use bugalizer.Tests.Data.{two_reports}

two_reports-IsKeyed : IsKeyed report_key two_reports
two_reports-IsKeyed = ((refl, tt), (tt, tt))

second_claim_loses_example :
    try_claim_report 8 "a" triaged analyzing none
      (try_claim_report 7 "a" triaged analyzing none two_reports).0
    ≡ ((try_claim_report 7 "a" triaged analyzing none two_reports).0, false)
unfolding try_claim_report row_count
second_claim_loses_example =
    second_claim_loses 7 8 "a" triaged analyzing analyzing none none two_reports two_reports-IsKeyed
      (λ e. cc) refl

adopt_fences_owner_example :
    (release_claim 9 "b" "t1" (adopt_claim 8 "b" (some "t1") "t2" two_reports).0
      ≡ ((adopt_claim 8 "b" (some "t1") "t2" two_reports).0, false))
    × (record_pr_report 9 "b" "t1" (adopt_claim 8 "b" (some "t1") "t2" two_reports).0
        ≡ ((adopt_claim 8 "b" (some "t1") "t2" two_reports).0, false))
    × ((release_claim 9 "b" "t2" (adopt_claim 8 "b" (some "t1") "t2" two_reports).0).1 ≡ true)
unfolding adopt_claim row_count
adopt_fences_owner_example =
    adopt_fences_owner 8 9 "b" "t1" "t2" two_reports two_reports-IsKeyed
      (ground (arith, eq_iff "t2" "t1")) refl
