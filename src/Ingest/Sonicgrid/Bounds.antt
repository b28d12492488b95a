-- ===== src/Ingest/Sonicgrid/Bounds.antt =====
-- ingest/sonicgrid.py: the texts of an import against the bounds of a report's fields.
use bugalizer.Prelude.{
  ℕ, suc, ◌+◌, ◌-◌, ◌≤◌, ◌≡◌, refl, subst, inl, inr, false, List, [], ◌∷◌, ◌++◌, Option, none, some,
  String, leb, ltb, arith, Bool-cases,
}
use mathlib.Core.Option.{some-injective}
use bugalizer.Store.{Text}
use bugalizer.Ingest.{Imported}
use bugalizer.Ingest.Texts.{
  chars, length, take, ends_line, split_at, is_empty, collapse, rstrip, strip, before_last_space,
  length-take, length-append, length-rstrip, length-before_last_space,
}
use bugalizer.Ingest.Sonicgrid.{
  PollReport, title_max, description_max, reporter_max, truncation_marker, raw_text, first_line,
  cut_title, title_of, derive_title, bound_description, description_of, or_default, reporter_of,
  map_report,
}

-- A text that is not empty and no longer than a bound.
abbrev pub Fits : ℕ → Text → Type 0
Fits n t = (1 ≤ length t) × (length t ≤ n)

nonempty : (t : Text) → is_empty t ≡ false → 1 ≤ length t
unfolding length
nonempty [] h = cc
nonempty (c ∷ t) h = omega arith

first_line-nonempty : (lines : List Text) (t : Text) → first_line lines ≡ some t → 1 ≤ length t
unfolding first_line
first_line-nonempty [] t h = cc
first_line-nonempty (line ∷ lines) t h = elim (Bool-cases (is_empty (collapse line))) [
  | inl e ↦ first_line-nonempty lines t (rw e at h)
  | inr e ↦
      subst (λ u. 1 ≤ length u) (some-injective (collapse line) t (rw e at h))
        (nonempty (collapse line) e)
]

ellipsis-Fits : (n : ℕ) (t : Text) → length t ≤ n → Fits (suc n) (rstrip t ++ 8230 ∷ [])
unfolding length
ellipsis-Fits n t le = (
  omega (arith, length-append (rstrip t) (8230 ∷ [])),
  omega (arith, length-append (rstrip t) (8230 ∷ []), length-rstrip t, le),
)

cut_title-Fits : (t : Text) → 1 ≤ length t → Fits (suc title_max) (cut_title t)
unfolding cut_title
cut_title-Fits t h =
    let cut = take title_max t in
    let le : length cut ≤ title_max = length-take title_max t in
    elim (Bool-cases (leb (length t) title_max)) [
      | inl e ↦ rw e (h, ground (arith, e))
      | inr e ↦ elim (Bool-cases (is_empty (before_last_space cut))) [
        | inl f ↦ rw (e, f) (ellipsis-Fits title_max cut le)
        | inr f ↦
            rw (e, f)
              (ellipsis-Fits title_max (before_last_space cut)
                (omega (arith, length-before_last_space cut, le)))
      ]
    ]

title_of-Fits :
    (t : Option Text) → ((u : Text) → t ≡ some u → 1 ≤ length u) → Fits (suc title_max) (title_of t)
unfolding length title_of
title_of-Fits none h = (omega arith, omega arith)
title_of-Fits (some u) h = cut_title-Fits u (h u refl)

derive_title-Fits : (t : Text) → Fits (suc title_max) (derive_title t)
unfolding derive_title
derive_title-Fits t =
    title_of-Fits (first_line (split_at ends_line t)) (first_line-nonempty (split_at ends_line t))

marker_length : length truncation_marker ≤ 60 × (1 ≤ length truncation_marker)
unfolding length truncation_marker
marker_length = (omega arith, omega arith)

empty_report-Fits : Fits description_max (bound_description [])
unfolding bound_description length
empty_report-Fits = (omega arith, omega arith)

short_or_cut : (t : Text) → is_empty t ≡ false → Fits description_max (bound_description t)
unfolding bound_description
short_or_cut t h = elim (Bool-cases (ltb description_max (length t))) [
  | inl e ↦
      rw (h, e)
        (
          omega (arith, kept, marker_length),
          omega (
            arith,
            kept,
            marker_length,
            length-take (description_max - length truncation_marker) t,
          ),
        )
  | inr e ↦ rw (h, e) (nonempty t h, ground (arith, e))
]
  where
    kept :
        length (take (description_max - length truncation_marker) t ++ truncation_marker)
        ≡ length (take (description_max - length truncation_marker) t) + length truncation_marker
    kept = length-append (take (description_max - length truncation_marker) t) truncation_marker

bound_description-Fits : (t : Text) → Fits description_max (bound_description t)
bound_description-Fits [] = empty_report-Fits
bound_description-Fits (c ∷ t) = short_or_cut (c ∷ t) refl

description_of-Fits : (raw : Option Text) → Fits description_max (description_of raw)
unfolding description_of
description_of-Fits raw = bound_description-Fits (strip (raw_text raw))

or_default-Fits :
    (n : ℕ) (t default : Text) → length t ≤ n → Fits n default → Fits n (or_default t default)
or_default-Fits n [] default le h = h
or_default-Fits n (c ∷ t) default le h = (nonempty (c ∷ t) refl, le)

reporter_of-Fits : (raw : Option Text) → Fits reporter_max (reporter_of raw)
unfolding reporter_of length
reporter_of-Fits raw =
    or_default-Fits reporter_max (take reporter_max (collapse (raw_text raw)))
      (chars "sonicgrid user") (length-take reporter_max (collapse (raw_text raw)))
      (omega arith, omega arith)

-- Whatever a report holds, its import has a title of 1 to 81 characters, a description of 1 to 50000
-- and a reporter of 1 to 200.
pub map_report-Fits :
    (r : Option PollReport) (source new_id : String) (row : Imported)
    → map_report r source new_id ≡ some row
    → Fits (suc title_max) row.title
      × Fits description_max row.description
      × Fits reporter_max row.reporter
unfolding map_report
map_report-Fits none source new_id row h = cc
map_report-Fits (some r) source new_id row h =
    subst (λ s. Fits 81 s.title × Fits description_max s.description × Fits reporter_max s.reporter)
      (some-injective _ row h)
      (
        derive_title-Fits (raw_text r.description),
        description_of-Fits r.description,
        reporter_of-Fits r.reporter_name,
      )
