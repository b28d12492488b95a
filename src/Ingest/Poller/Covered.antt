-- ===== src/Ingest/Poller/Covered.antt =====
-- ingest/poller.py: what the stored cursor promises of the pages before it.
use bugalizer.Prelude.{
  ℕ, ◌≡◌, refl, ap, sym, ◌∙◌, subst, inl, inr, Bool, true, not, List, [], ◌∷◌, Option, none, some,
  String, ◌==◌, string_eq, Bool-cases, any, map, get, nat_beq, ◌⊎◌, IsIn, IsIn-delete_where,
  IsIn-update_where, IsIn-append, ◌&&◌, delete_where, touch, eq_of_test, ==-self,
}
use bugalizer.Store.{Report, IngestState, Db}
use bugalizer.Ingest.{
  Imported, Updates, state_key, is_external, import_reports, new_state, ensure, checkpoint,
  write_state, write_step,
}
use bugalizer.Ledger.{or_old}
use bugalizer.Ingest.Import.{external, HasAll, import_reports-keeps}
use bugalizer.Ingest.Sonicgrid.{PollReport, map_report}
use bugalizer.Ingest.Source.{PollPage, page_of, fetched, World, Limits, Poll}
use bugalizer.Ingest.Poller.{map_page}

-- The reports of a page that have an identifier.
unfoldable pub ids : List (Option PollReport) → List String
ids [] = []
ids (none ∷ rs) = ids rs
ids (some r ∷ rs) = r.id ∷ ids rs

-- The project has every report that `before` has of it.
abbrev pub KeepsReports : String → List Report → List Report → Type 0
KeepsReports project rs rs' =
    (e : String) → any (is_external project e) rs ≡ true → any (is_external project e) rs' ≡ true

-- A cursor that the source gave, after pages from the beginning whose reports are all there.
pub data Passed (w : World) (project : String) (rs : List Report) : Option String → Type 0 where
  begin : Passed w project rs none
  pass :
      (k : ℕ) (c : Option String) (page : PollPage) (d : String)
      → Passed w project rs c
      → fetched (w.reply k c) ≡ page_of page
      → page.next_cursor ≡ some d
      → HasAll project (ids page.reports) rs
      → Passed w project rs (some d)

HasAll-keeps :
    (project : String) (es : List String) (rs rs' : List Report)
    → KeepsReports project rs rs'
    → HasAll project es rs
    → HasAll project es rs'
HasAll-keeps project [] rs rs' k h = tt
HasAll-keeps project (e ∷ es) rs rs' k h = (k e h.0, HasAll-keeps project es rs rs' k h.1)

pub Passed-keeps :
    (w : World) (project : String) (rs rs' : List Report) (c : Option String)
    → KeepsReports project rs rs'
    → Passed w project rs c
    → Passed w project rs' c
Passed-keeps w project rs rs' none k begin = begin
Passed-keeps w project rs rs' (some d) k (pass n c page _ before f e h) =
    pass n c page d (Passed-keeps w project rs rs' c k before) f e
      (HasAll-keeps project (ids page.reports) rs rs' k h)

-- A checkpoint of this generation is behind only imported pages.
abbrev pub Covered : World → Poll → Db → Type 0
Covered w p db =
    (s : IngestState)
    → IsIn s db.ingest_states
    → s.project_id ≡ p.project_id
    → s.generation ≡ p.generation
    → Passed w p.project_id db.reports s.cursor

-- What the rest of the process may do between two commits: it takes no imported report away (a
-- report's delete keeps its row), and a checkpoint of this generation that is there was there.
pub record IsCalm (project : String) (generation : ℕ) (db db' : Db) : Type 0 where
  pub reports : KeepsReports project db.reports db'.reports
  pub states :
      (s : IngestState)
      → IsIn s db'.ingest_states
      → s.project_id ≡ project
      → s.generation ≡ generation
      → IsIn s db.ingest_states

pub map_page-ids :
    (w : World) (cfg : Limits) (p : Poll) (step : ℕ) (rs : List (Option PollReport))
    → map external (map_page w cfg p step rs) ≡ ids rs
unfolding map_page ids map_report
map_page-ids w cfg p step [] = refl
map_page-ids w cfg p step (none ∷ rs) = map_page-ids w cfg p step rs
map_page-ids w cfg p step (some r ∷ rs) = ap (λ es. r.id ∷ es) (map_page-ids w cfg p step rs)

IsIn-checkpoint :
    (now : ℕ) (project : String) (generation : ℕ) (s : IngestState) (ss : List IngestState)
    → IsIn s (checkpoint now project generation ss)
    → IsIn s ss ⊎ (new_state now project generation ≡ s)
unfolding checkpoint
IsIn-checkpoint now project generation s ss = there (get state_key project kept)
  where
    kept : List IngestState
    kept = delete_where (λ s. s.project_id == project && not (nat_beq s.generation generation)) ss

    there :
        (o : Option IngestState)
        → IsIn s (ensure (new_state now project generation) o kept)
        → IsIn s ss ⊎ (new_state now project generation ≡ s)
    there (some _) m = inl (
        IsIn-delete_where (λ s. s.project_id == project && not (nat_beq s.generation generation)) s
          ss m)
    there none m = elim (IsIn-append s kept (new_state now project generation ∷ []) m) [
      | inl m ↦ inl (
          IsIn-delete_where (λ s. s.project_id == project && not (nat_beq s.generation generation))
            s ss m)
      | inr (inl e) ↦ inr e
      | inr (inr e) ↦ absurd e
    ]

-- What a commit does to the cursor: it writes one that was passed, or none.
abbrev pub CursorWrite : World → String → List Report → Option (Option String) → Type 0
CursorWrite w project rs none = Unit
CursorWrite w project rs (some c) = Passed w project rs c

written :
    (w : World) (project : String) (rs : List Report) (new : Option (Option String))
    (old : Option String)
    → CursorWrite w project rs new
    → Passed w project rs old
    → Passed w project rs (or_old new old)
written w project rs none old h before = before
written w project rs (some c) old h before = h

touched :
    (project : String) (u : Updates) (failed : Bool) (n : ℕ) (t s : IngestState)
    → touch (λ s. s.project_id == project) (write_state u failed n) t ≡ s
    → s.project_id ≡ project
    → (t.project_id ≡ project)
      × (t.generation ≡ s.generation)
      × (s.cursor ≡ or_old u.cursor t.cursor)
touched project u failed n t s e own =
    let p_eq : t.project_id ≡ project = elim (Bool-cases (t.project_id == project)) [
      | inl h ↦ eq_of_test t.project_id project h
      | inr h ↦ ap (λ r. r.project_id) (rw h at e) ∙ own
    ] in
    let hit : (t.project_id == project) ≡ true = rw (p_eq, ==-self project) in
    let written_row : write_state u failed n t ≡ s = rw hit at e in
    (p_eq, ap (λ r. r.generation) written_row, sym (ap (λ r. r.cursor) written_row))

pub write_step-Covered :
    (now : ℕ) (w : World) (p : Poll) (rows : List Imported) (u : Updates) (failed : Bool) (db : Db)
    → Covered w p db
    → CursorWrite w p.project_id (import_reports now p.project_id rows db.reports).0 u.cursor
    → Covered w p (write_step now p.project_id p.generation rows u failed db).0
unfolding write_step
write_step-Covered now w p rows u failed db covered new s m project gen =
    let rs = (import_reports now p.project_id rows db.reports).0 in
    let n = (import_reports now p.project_id rows db.reports).1 in
    let keeps : KeepsReports p.project_id db.reports rs =
      λ e. import_reports-keeps now p.project_id rows (is_external p.project_id e) db.reports in
    let (t, m', e) =
      IsIn-update_where (λ s. s.project_id == p.project_id) (write_state u failed n) s
        (checkpoint now p.project_id p.generation db.ingest_states) m in
    let (own, gen', moved) = touched p.project_id u failed n t s e project in
    let before : Passed w p.project_id db.reports t.cursor =
      elim (IsIn-checkpoint now p.project_id p.generation t db.ingest_states m') [
        | inl m ↦ covered t m own (gen' ∙ gen)
        | inr e ↦ subst (λ t. Passed w p.project_id db.reports t.cursor) e begin
      ] in
    subst (Passed w p.project_id rs) (sym moved) (
      written w p.project_id rs u.cursor t.cursor new
        (Passed-keeps w p.project_id db.reports rs t.cursor keeps before))
