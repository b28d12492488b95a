-- ===== src/Ingest/Fence.antt =====
-- bugalizer/db.py: a change of a project's ingest settings against a poll that is in flight.
use bugalizer.Prelude.{
  ℕ, ◌≤◌, ◌≡◌, refl, ap, sym, ◌∙◌, Bool, true, false, List, [], ◌∷◌, none, some, String, ◌==◌,
  string_eq, ==-self, arith, get, get-update_where, get-key, delete_where, if◌then◌else◌,
}
use bugalizer.Store.{Project, project_key, IngestState, Db}
use bugalizer.Ingest.{
  Imported, Updates, state_key, is_current, ingest_commit, ProjectFields, ingest_changed,
  with_fields, update_existing, project_update,
}

-- The project's row after the update.
updated_project :
    (id : String) (f : ProjectFields) (db : Db) (p : Project)
    → get project_key id db.projects ≡ some p
    → get project_key id (project_update id f db).projects
      ≡ some (with_fields f (ingest_changed f p) p)
unfolding project_update update_existing
updated_project id f db p found = rw found (
    get-update_where project_key id (λ q. q.id == id) (with_fields f (ingest_changed f p))
      db.projects (λ _. refl)
    ∙ ground (arith, found, get-key project_key id db.projects p found, ==-self id))

no_checkpoint :
    (id : String) (ss : List IngestState)
    → get state_key id (delete_where (λ s. s.project_id == id) ss) ≡ none
unfolding get delete_where
no_checkpoint id [] = refl
no_checkpoint id (s ∷ ss) = ground (arith, no_checkpoint id ss)

stale_commit :
    (now : ℕ) (id : String) (generation : ℕ) (page : List Imported) (u : Updates) (failed : Bool)
    (db : Db)
    → is_current generation (get project_key id db.projects) ≡ false
    → ingest_commit now id generation page u failed db ≡ (db, none)
unfolding ingest_commit
stale_commit now id generation page u failed db e = rw e

kept_states :
    (id : String) (f : ProjectFields) (db : Db) (p : Project)
    → get project_key id db.projects ≡ some p
    → (project_update id f db).ingest_states ≡ (
        if ingest_changed f p
        then delete_where (λ s. s.project_id == id) db.ingest_states
        else db.ingest_states)
unfolding project_update update_existing
kept_states id f db p found = rw found

-- A poll that started before a change of the source, its url or its credential writes nothing after
-- it, and the change leaves no checkpoint of the project.
pub change_fences_poll :
    (now : ℕ) (id : String) (f : ProjectFields) (generation : ℕ) (page : List Imported)
    (u : Updates) (failed : Bool) (db : Db) (p : Project)
    → get project_key id db.projects ≡ some p
    → ingest_changed f p ≡ true
    → generation ≤ p.ingest_generation
    → (ingest_commit now id generation page u failed (project_update id f db)
        ≡ (project_update id f db, none))
      × (get state_key id (project_update id f db).ingest_states ≡ none)
change_fences_poll now id f generation page u failed db p found changed le = (
  stale_commit now id generation page u failed (project_update id f db)
      (ap (is_current generation) (updated_project id f db p found) ∙ ground (arith, changed)),
  ap (get state_key id) (kept_states id f db p found ∙ rw changed)
      ∙ no_checkpoint id db.ingest_states,
)

-- An update that keeps the source, its url and its credential, whatever becomes of the credential of
-- the triage sync, keeps every checkpoint, and a poll in flight goes on: its commits are fenced as
-- before.
pub toggle_keeps_poll :
    (id : String) (f : ProjectFields) (generation : ℕ) (db : Db) (p : Project)
    → get project_key id db.projects ≡ some p
    → ingest_changed f p ≡ false
    → ((project_update id f db).ingest_states ≡ db.ingest_states)
      × (is_current generation (get project_key id (project_update id f db).projects)
          ≡ is_current generation (get project_key id db.projects))
toggle_keeps_poll id f generation db p found same = (
  kept_states id f db p found ∙ rw same,
  ap (is_current generation) (updated_project id f db p found)
      ∙ ground (arith, same)
      ∙ ap (is_current generation) (sym found),
)
