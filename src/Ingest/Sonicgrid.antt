-- ===== src/Ingest/Sonicgrid.antt =====
-- ingest/sonicgrid.py: the row that a sonicgrid report becomes. `PollReport.model_validate` is
-- pydantic's: a report is what it gave, or nothing. Attachments, labels and the environment are left
-- out, since no modelled code reads them.
pub mod Bounds
use bugalizer.Prelude.{
  ℕ, suc, ◌+◌, ◌-◌, ◌≤◌, ◌<◌, ◌≡◌, refl, inl, inr, Bool, true, false, not, ◌&&◌, List, [], ◌∷◌,
  ◌++◌, Option, none, some, String, leb, ltb, if◌then◌else◌, arith, Bool-cases,
}
use bugalizer.Store.{Text}
use bugalizer.Ingest.{Imported}
use bugalizer.Ingest.Texts.{
  chars, length, take, ends_line, split_at, is_empty, collapse, rstrip, strip, before_last_space,
  length-take, length-append, length-rstrip, length-before_last_space,
}

pub record PollReport : Type 0 where
  pub id : String
  pub description : Option Text
  pub reporter_name : Option Text

-- DESCRIPTION_MAX and the other bounds
abbrev pub title_max : ℕ
title_max = 80

abbrev pub description_max : ℕ
description_max = 50000

abbrev pub reporter_max : ℕ
reporter_max = 200

unfoldable pub truncation_marker : Text
unfolding chars
truncation_marker = chars "\n\n[truncated by bugalizer ingest]"

abbrev pub raw_text : Option Text → Text
raw_text none = []
raw_text (some t) = t

-- The first line that holds a word.
unfoldable pub first_line : List Text → Option Text
first_line [] = none
first_line (line ∷ lines) =
    let text = collapse line in
    let rest = first_line lines in if is_empty text then rest else some text

-- A title that is too long ends at its last space, if a word stands before that, with an ellipsis.
unfoldable pub cut_title : Text → Text
cut_title text =
    let cut = take title_max text in
    let head = before_last_space cut in
    if leb (length text) title_max
    then text
    else rstrip (if is_empty head then cut else head) ++ 8230 ∷ []

unfoldable pub title_of : Option Text → Text
unfolding chars
title_of none = chars "(no description)"
title_of (some text) = cut_title text

unfoldable pub derive_title : Text → Text
derive_title description = title_of (first_line (split_at ends_line description))

unfoldable pub bound_description : Text → Text
unfolding chars
bound_description text =
    if is_empty text
    then chars "(empty report)"
    else if ltb description_max (length text)
    then take (description_max - length truncation_marker) text ++ truncation_marker
    else text

unfoldable pub description_of : Option Text → Text
description_of raw = bound_description (strip (raw_text raw))

abbrev pub or_default : Text → Text → Text
or_default text default = if is_empty text then default else text

unfoldable pub reporter_of : Option Text → Text
unfolding chars
reporter_of raw = or_default (take reporter_max (collapse (raw_text raw))) (chars "sonicgrid user")

-- `new_id` is the identifier that the import draws.
unfoldable pub map_report : Option PollReport → String → String → Option Imported
map_report none source new_id = none
map_report (some r) source new_id = some (record {
  id = new_id;
  title = derive_title (raw_text r.description);
  description = description_of r.description;
  reporter = reporter_of r.reporter_name;
  severity = "medium";
  ingest_source = source;
  external_id = r.id;
})
