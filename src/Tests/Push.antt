-- ===== src/Tests/Push.antt =====
-- The payloads and their push.
use bugalizer.Prelude.{true, false, none, some, [], ◌∷◌}
use bugalizer.Workflow.{triaged}
use bugalizer.Store.{Report}
use bugalizer.Sync.Results.{
  text, missing, number, path_item, object_item, Content, Run, Core, build_payload,
}
use bugalizer.Sync.Results.Fits.{IsWithin, build_payload-IsWithin}
use bugalizer.Sync.Push.{Put, Pushes, push}
use bugalizer.Sync.Push.Issued.{Ordered}
use bugalizer.Sync.Push.Rounds.{fresh, pushed, revision_is_payload}
use bugalizer.Tests.Data.{report, project, located}

abbrev content : Content
content = record {
  summary = text (97 ∷ []);
  category = missing;
  confidence = number false 3 1;
  candidate_files =
      some (path_item (97 ∷ []) ∷ object_item missing (text (98 ∷ [])) missing missing ∷ []);
  root_cause_hypothesis = missing;
}

abbrev run : Run
run = record {
  row = located;
  content = some content;
  llm_provider = none;
  llm_model = some (109 ∷ []);
}

abbrev imported : Report
imported = record (report "a" triaged none) { external_id = some "e" }

build_payload-IsWithin_example : IsWithin [] (build_payload imported (run ∷ []) [] (some project))
build_payload-IsWithin_example = build_payload-IsWithin imported (run ∷ []) [] (some project)

abbrev core_of : Report → Core
core_of r = build_payload r (run ∷ []) [] (some project)

-- The first PUT times out, and the next one is answered.
abbrev lost : Put
lost r p = none

abbrev ok : Put
ok r p = some (record { status = 200; applied = some true; stored_revision = some p.revision })

abbrev empty : Pushes
empty = record { results = []; sent = [] }

abbrev once : Put → Pushes → Pushes
once put = push (λ n. "n") (λ c. "f") 5 "p" (λ r. 7) core_of (imported ∷ []) put

-- A payload whose answer was lost is sent again.
revision_is_payload_example : Ordered (once ok (once lost empty)).sent
revision_is_payload_example = revision_is_payload (once ok (once lost empty)) (
    pushed (λ n. "n") (λ c. "f") 5 "p" (λ r. 7) core_of (imported ∷ []) ok
      (pushed (λ n. "n") (λ c. "f") 5 "p" (λ r. 7) core_of (imported ∷ []) lost fresh (tt, tt))
      (tt, tt))
