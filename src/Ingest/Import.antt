-- ===== src/Ingest/Import.antt =====
-- bugalizer/db.py: the imports of `ingest_commit`, and the unique index.
use bugalizer.Prelude.{
  ℕ, ◌≤◌, ◌≡◌, refl, ap, sym, subst, inl, inr, Bool, true, false, List, [], ◌∷◌, ◌++◌, some, String,
  string_eq, ==-self, eq_iff, arith, Bool-cases, map, any, row_count, row_count-append, get,
}
use bugalizer.Store.{project_key, Report, Db}
use bugalizer.Ingest.{
  Imported, Updates, imported_row, is_external, import_report, import_reports, is_current,
  write_step, ingest_commit,
}

abbrev pub external : Imported → String
external r = r.external_id

-- The project has a report for each of the identifiers.
abbrev pub HasAll : String → List String → List Report → Type 0
HasAll project [] rs = Unit
HasAll project (e ∷ es) rs = (any (is_external project e) rs ≡ true) × HasAll project es rs

any-append :
    (p : Report → Bool) (rs : List Report) (r : Report)
    → any p rs ≡ true
    → any p (rs ++ r ∷ []) ≡ true
any-append p [] r h = cc
any-append p (s ∷ rs) r h = ground (arith, any-append p rs r)

any-last :
    (p : Report → Bool) (rs : List Report) (r : Report) → p r ≡ true → any p (rs ++ r ∷ []) ≡ true
any-last p [] r h = ground (arith, h)
any-last p (s ∷ rs) r h = ground (arith, any-last p rs r h)

-- An import takes no report away.
import_report-keeps :
    (now : ℕ) (project : String) (r : Imported) (p : Report → Bool) (rs : List Report)
    → any p rs ≡ true
    → any p (import_report now project r rs).0 ≡ true
unfolding import_report
import_report-keeps now project r p rs h =
    elim (Bool-cases (any (is_external project r.external_id) rs)) [
      | inl e ↦ rw e h
      | inr e ↦ rw e (any-append p rs (imported_row now project r) h)
    ]

pub import_reports-keeps :
    (now : ℕ) (project : String) (page : List Imported) (p : Report → Bool) (rs : List Report)
    → any p rs ≡ true
    → any p (import_reports now project page rs).0 ≡ true
unfolding import_reports
import_reports-keeps now project [] p rs h = h
import_reports-keeps now project (r ∷ page) p rs h =
    import_reports-keeps now project page p (import_report now project r rs).0
      (import_report-keeps now project r p rs h)

import_report-there :
    (now : ℕ) (project : String) (r : Imported) (rs : List Report)
    → any (is_external project r.external_id) (import_report now project r rs).0 ≡ true
unfolding import_report
import_report-there now project r rs =
    elim (Bool-cases (any (is_external project r.external_id) rs)) [
      | inl e ↦ rw e e
      | inr e ↦ rw e (
          any-last (is_external project r.external_id) rs (imported_row now project r)
            (ground (arith, ==-self project, ==-self r.external_id)))
    ]

pub import_reports-HasAll :
    (now : ℕ) (project : String) (page : List Imported) (rs : List Report)
    → HasAll project (map external page) (import_reports now project page rs).0
unfolding import_reports
import_reports-HasAll now project [] rs = tt
import_reports-HasAll now project (r ∷ page) rs = (
  import_reports-keeps now project page (is_external project r.external_id)
      (import_report now project r rs).0 (import_report-there now project r rs),
  import_reports-HasAll now project page (import_report now project r rs).0,
)

-- What is there is skipped.
pub import_reports-skip :
    (now : ℕ) (project : String) (page : List Imported) (rs : List Report)
    → HasAll project (map external page) rs
    → import_reports now project page rs ≡ (rs, 0)
unfolding import_reports import_report
import_reports-skip now project [] rs h = refl
import_reports-skip now project (r ∷ page) rs h =
    rw (h.0) (rw (import_reports-skip now project page rs h.1) refl)

-- The unique index holds.
abbrev pub IsUnique : List Report → Type 0
IsUnique rs = (project e : String) → row_count (is_external project e) rs ≤ 1

none_of_any : (p : Report → Bool) (rs : List Report) → any p rs ≡ false → row_count p rs ≡ 0
unfolding row_count
none_of_any p [] h = refl
none_of_any p (r ∷ rs) h = ground (arith, none_of_any p rs)

import_report-IsUnique :
    (now : ℕ) (project : String) (r : Imported) (rs : List Report)
    → IsUnique rs
    → IsUnique (import_report now project r rs).0
unfolding import_report
import_report-IsUnique now project r rs h q e =
    elim (Bool-cases (any (is_external project r.external_id) rs)) [
      | inl f ↦ rw f (h q e)
      | inr f ↦ rw f (fresh f)
    ]
  where
    fresh :
        any (is_external project r.external_id) rs ≡ false
        → row_count (is_external q e) (rs ++ imported_row now project r ∷ []) ≤ 1
    fresh f = elim (Bool-cases (is_external q e (imported_row now project r))) [
      | inl g ↦
          let same_project : project ≡ q = ground (arith, g, eq_iff project q) in
          let same_external : r.external_id ≡ e = ground (arith, g, eq_iff r.external_id e) in
          let missing : any (is_external q e) rs ≡ false = rw (← same_project, ← same_external) f in
          ground (
            arith,
            row_count-append (is_external q e) rs (imported_row now project r),
            none_of_any (is_external q e) rs missing,
            g,
          )
      | inr g ↦
          ground
            (arith, row_count-append (is_external q e) rs (imported_row now project r), h q e, g)
    ]

import_reports-IsUnique :
    (now : ℕ) (project : String) (page : List Imported) (rs : List Report)
    → IsUnique rs
    → IsUnique (import_reports now project page rs).0
unfolding import_reports
import_reports-IsUnique now project [] rs h = h
import_reports-IsUnique now project (r ∷ page) rs h =
    import_reports-IsUnique now project page (import_report now project r rs).0
      (import_report-IsUnique now project r rs h)

-- A commit never gives a project two reports of one external id.
pub ingest_commit-IsUnique :
    (now : ℕ) (project : String) (generation : ℕ) (page : List Imported) (u : Updates)
    (failed : Bool) (db : Db)
    → IsUnique db.reports
    → IsUnique (ingest_commit now project generation page u failed db).0.reports
unfolding ingest_commit write_step
ingest_commit-IsUnique now project generation page u failed db h =
    elim (Bool-cases (is_current generation (get project_key project db.projects))) [
      | inl e ↦ rw e (import_reports-IsUnique now project page db.reports h)
      | inr e ↦ rw e h
    ]

-- A page that was committed can be committed again, under new identifiers and with any updates: the
-- second commit inserts no report and leaves the reports as they are.
pub replay_inserts_nothing :
    (now now' : ℕ) (project : String) (generation : ℕ) (page page' : List Imported) (u u' : Updates)
    (failed failed' : Bool) (db : Db) (n : ℕ)
    → map external page' ≡ map external page
    → (ingest_commit now project generation page u failed db).1 ≡ some n
    → ((ingest_commit now' project generation page' u' failed'
          (ingest_commit now project generation page u failed db).0).1
        ≡ some 0)
      × ((ingest_commit now' project generation page' u' failed'
            (ingest_commit now project generation page u failed db).0).0.reports
          ≡ (ingest_commit now project generation page u failed db).0.reports)
unfolding ingest_commit write_step
replay_inserts_nothing now now' project generation page page' u u' failed failed' db n same won =
    elim (Bool-cases (is_current generation (get project_key project db.projects))) [
      | inr e ↦ absurd (ground (arith, won, e))
      | inl e ↦
          let again =
            import_reports-skip now' project page' (import_reports now project page db.reports).0 (
              subst (λ es. HasAll project es (import_reports now project page db.reports).0)
                (sym same) (import_reports-HasAll now project page db.reports)) in
          rw e (rw e (ap (λ x. some x.1) again, ap (λ x. x.0) again))
    ]
