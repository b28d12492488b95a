-- ===== src/Sync/Results.antt =====
-- sync/results.py: the payload that shows one report to sonicgrid, built from the report's rows, newest first. A
-- free text is a list of code points. The dictionaries that a row's JSON result may hold are records here.
pub mod Fits
use Prim.Native.Nat.{max}
use bugalizer.Prelude.{
  ℕ, zero, suc, ◌+◌, ◌*◌, Bool, true, false, not, ◌&&◌, ◌||◌, List, [], ◌∷◌, ◌++◌, map, Option,
  none, some, String, ◌==◌, string_eq, nat_beq, leb, ltb, if◌then◌else◌, first_where,
}
use bugalizer.Workflow.{BugStatus}
use bugalizer.Store.{
  AnalysisMode, Text, Phase, triage, localization, fix, phase_eq, PrState, Project, Report,
  Analysis, Proposal,
}
use bugalizer.Schedule.{is_completed}
use bugalizer.Ingest.Texts.{chars, length, take, is_empty}
use bugalizer.Sync.Stage.{Lane, Detail, stage_of}

-- A value of a JSON object, as far as the payload tells it apart: a number is a fraction with its sign and a
-- denominator one less than the true one.
pub data Value : Type 0 where
  missing not_a_number something : Value
  flag : Bool → Value
  text : Text → Value
  number : Bool → ℕ → ℕ → Value

pub record Fraction : Type 0 where
  pub numerator : ℕ
  pub denominator : ℕ

-- An entry of `pass1.candidate_files`.
pub data Item : Type 0 where
  path_item : Text → Item
  object_item : Value → Value → Value → Value → Item
  other_item : Item

-- What the payload reads of a row's `result`: each key is `missing` where its object is none.
pub record Content : Type 0 where
  pub summary : Value
  pub category : Value
  pub confidence : Value
  pub candidate_files : Option (List Item)
  pub root_cause_hypothesis : Value

-- An analysis row with its content and the columns llm_provider and llm_model.
pub record Run : Type 0 where
  pub row : Analysis
  pub content : Option Content
  pub llm_provider : Option Text
  pub llm_model : Option Text

-- A proposal row with its text columns.
pub record Draft : Type 0 where
  pub row : Proposal
  pub root_cause : Value
  pub explanation : Value
  pub diff : Value
  pub confidence : Value

abbrev pub summary_max : ℕ
summary_max = 2000

abbrev pub category_max : ℕ
category_max = 50

abbrev pub long_text_max : ℕ
long_text_max = 20000

abbrev pub candidates_max : ℕ
candidates_max = 50

abbrev pub path_max : ℕ
path_max = 500

abbrev pub reason_max : ℕ
reason_max = 2000

abbrev pub diff_max_bytes : ℕ
diff_max_bytes = 256 * 1024

abbrev pub pr_url_max : ℕ
pr_url_max = 500

abbrev pub branch_max : ℕ
branch_max = 255

abbrev pub model_max : ℕ
model_max = 120

-- `_text`
unfoldable pub text_within : Value → ℕ → Option Text
text_within (text t) limit = if is_empty t then none else some (take limit t)
text_within _ limit = none

-- `_unit`: the number is below 0, or above 1
unfoldable pub unit : Value → Option Fraction
unit (number below n d) =
    if below && ltb 0 n
    then none
    else if ltb (suc d) n
    then none
    else some (record { numerator = n; denominator = suc d })
unit _ = none

-- `_latest_completed`
unfoldable pub latest_completed : Phase → List Run → Option Run
latest_completed phase = first_where (λ a. a.row.phase == phase && is_completed a.row)

unfoldable pub starts : Text → Text → Bool
starts [] t = true
starts (c ∷ s) [] = false
starts (c ∷ s) (d ∷ t) = nat_beq c d && starts s t

-- The provider goes before a model that does not name it yet.
abbrev pub with_provider : Option Text → Text → Text
with_provider none model = model
with_provider (some provider) model =
    let prefix = provider ++ 47 ∷ [] in
    if not (is_empty provider) && not (starts prefix model) then prefix ++ model else model

abbrev pub label : Option Text → Option Text → Option Text
label provider none = none
label provider (some model) =
    if is_empty model then none else some (take model_max (with_provider provider model))

-- `_model_label`
unfoldable pub model_label : Option Run → Option Text
model_label none = none
model_label (some a) = label a.llm_provider a.llm_model

-- `_fix_analysis`
unfoldable pub fix_analysis : List Run → Option Draft → Option Run
fix_analysis runs none = none
fix_analysis runs (some p) =
    first_where
      (λ a. a.row.phase == fix && is_completed a.row && leb a.row.created_at p.row.created_at) runs

pub record Candidate : Type 0 where
  pub path : Text
  pub relevance : Option Fraction
  pub reason : Option Text

-- `item.get("path") or item.get("file")`
abbrev pub is_truthy : Value → Bool
is_truthy missing = false
is_truthy not_a_number = true
is_truthy something = true
is_truthy (flag b) = b
is_truthy (text t) = not (is_empty t)
is_truthy (number below n d) = ltb 0 n

abbrev pub candidate_at : Option Text → Value → Value → Option Candidate
candidate_at none relevance reason = none
candidate_at (some path) relevance reason =
    some
      (record { path = path; relevance = unit relevance; reason = text_within reason reason_max })

unfoldable pub candidate : Item → Option Candidate
candidate (path_item t) = candidate_at (text_within (text t) path_max) missing missing
candidate (object_item path file relevance reason) =
    candidate_at (text_within (if is_truthy path then path else file) path_max) relevance reason
candidate other_item = none

-- The loop of `_candidates`, with the room that is left.
abbrev pub add_candidate : Option Candidate → List Candidate → List Candidate → List Candidate
add_candidate none kept skipped = skipped
add_candidate (some c) kept skipped = c ∷ kept

unfoldable pub candidates_from : ℕ → List Item → List Candidate
candidates_from zero items = []
candidates_from (suc room) [] = []
candidates_from (suc room) (item ∷ items) =
    let kept = candidates_from room items in
    let skipped = candidates_from (suc room) items in add_candidate (candidate item) kept skipped

abbrev pub content_of : Option Run → Option Content
content_of none = none
content_of (some a) = a.content

-- `_candidates`
abbrev pub candidates_in : Option (List Item) → Option (List Candidate)
candidates_in none = none
candidates_in (some items) = some (candidates_from candidates_max items)

abbrev pub items_of : Option Content → Option (List Item)
items_of none = none
items_of (some c) = c.candidate_files

unfoldable pub candidates : Option Run → Option (List Candidate)
candidates localized = candidates_in (items_of (content_of localized))

abbrev pub field_of : (Content → Value) → Option Content → Value
field_of f none = missing
field_of f (some c) = f c

abbrev pub draft_of : (Draft → Value) → Option Draft → Value
draft_of f none = missing
draft_of f (some p) = f p

-- `_hypothesis`
unfoldable pub hypothesis : Option Run → Option Text
hypothesis localized =
    text_within (field_of (λ c. c.root_cause_hypothesis) (content_of localized)) long_text_max

-- The length of a text in UTF-8.
abbrev pub bytes_of : ℕ → ℕ
bytes_of c = if ltb c 128 then 1 else if ltb c 2048 then 2 else if ltb c 65536 then 3 else 4

unfoldable pub utf8_length : Text → ℕ
utf8_length [] = 0
utf8_length (c ∷ t) = bytes_of c + utf8_length t

-- `_diff`
unfoldable pub diff_within : Value → Option Text
diff_within (text t) =
    if is_empty t then none else if leb (utf8_length t) diff_max_bytes then some t else none
diff_within _ = none

-- `_pr_url`
unfoldable pub pr_url_within : Option String → Option Text
pr_url_within none = none
pr_url_within (some url) =
    let t = chars url in
    if starts (chars "https://") t && leb (length t) pr_url_max then some t else none

pub record PrRef : Type 0 where
  pub number : ℕ
  pub branch : Text

abbrev pub has_pr_url : Draft → Bool
has_pr_url p = elim p.row.pr_url [ none ↦ false | some url ↦ not (url == "") ]

abbrev pub branch_ref : ℕ → Option String → Option PrRef
branch_ref n none = none
branch_ref n (some name) =
    let branch = take branch_max (chars name) in
    if is_empty branch then none else some (record { number = n; branch = branch })

abbrev pub pr_number_ref : Option ℕ → Option String → Option PrRef
pr_number_ref none branch = none
pr_number_ref (some n) branch = if ltb 0 n then branch_ref n branch else none

unfoldable pub pr_ref : Option Draft → Option PrRef
pr_ref none = none
pr_ref (some p) = pr_number_ref p.row.pr_number p.row.branch_name

abbrev pub known_severity : String → Option String
known_severity s =
    if s == "critical"
    then some s
    else if s == "high"
    then some s
    else if s == "medium"
    then some s
    else if s == "low"
    then some s
    else none

pub record Public : Type 0 where
  pub pipeline_status : BugStatus
  pub summary : Option Text
  pub severity : Option String
  pub pr_url : Option Text
  pub stage : Lane
  pub stage_detail : Detail
  pub pr_state : Option PrState

pub record Admin : Type 0 where
  pub analysis_mode : AnalysisMode
  pub localized : Bool
  pub category : Option Text
  pub triage_confidence : Option Fraction
  pub root_cause : Option Text
  pub root_cause_hypothesis : Option Text
  pub explanation : Option Text
  pub candidate_files : Option (List Candidate)
  pub diff : Option Text
  pub fix_confidence : Option Fraction
  pub pr : Option PrRef
  pub triage_model : Option Text
  pub localization_model : Option Text
  pub fix_model : Option Text

pub record Core : Type 0 where
  pub updated_at : ℕ  -- bugalizerUpdatedAt
  pub shown : Public
  pub admin : Admin

-- The newest stamp of the rows; an empty stamp is 0.
abbrev pub or_zero : Option ℕ → ℕ
or_zero none = 0
or_zero (some t) = t

unfoldable pub run_stamps : List Run → ℕ
run_stamps [] = 0
run_stamps (a ∷ runs) = max (max (or_zero a.row.completed_at) a.row.created_at) (run_stamps runs)

unfoldable pub draft_stamps : List Draft → ℕ
draft_stamps [] = 0
draft_stamps (p ∷ drafts) = max p.row.updated_at (draft_stamps drafts)

abbrev pub head_draft : List Draft → Option Draft
head_draft [] = none
head_draft (p ∷ ps) = some p

abbrev pub is_some {ℓ} : {A : Type ℓ} → Option A → Bool
is_some none = false
is_some (some a) = true

abbrev pub pr_state_of : Option Draft → Option PrState
pr_state_of none = none
pr_state_of (some p) = p.row.pr_state

abbrev pub pr_url_of : Option Draft → Option String
pr_url_of none = none
pr_url_of (some p) = p.row.pr_url

-- `build_payload`
unfoldable pub build_payload : Report → List Run → List Draft → Option Project → Core
build_payload r runs drafts project =
    let triaged = latest_completed triage runs in
    let localized = latest_completed localization runs in
    let draft = head_draft drafts in
    let recorded = first_where has_pr_url drafts in
    let (stage, detail) = stage_of r (map (λ a. a.row) runs) (map (λ p. p.row) drafts) project in
    record {
      updated_at = max r.updated_at (max (run_stamps runs) (draft_stamps drafts));
      shown = record {
        pipeline_status = r.status;
        summary = text_within (field_of (λ c. c.summary) (content_of triaged)) summary_max;
        severity = known_severity r.severity;
        pr_url = pr_url_within (pr_url_of recorded);
        stage = stage;
        stage_detail = detail;
        pr_state = pr_state_of recorded;
      };
      admin = record {
        analysis_mode = r.analysis_mode;
        localized = is_some localized;
        category = text_within (field_of (λ c. c.category) (content_of triaged)) category_max;
        triage_confidence = unit (field_of (λ c. c.confidence) (content_of triaged));
        root_cause = text_within (draft_of (λ p. p.root_cause) draft) long_text_max;
        root_cause_hypothesis = hypothesis localized;
        explanation = text_within (draft_of (λ p. p.explanation) draft) long_text_max;
        candidate_files = candidates localized;
        diff = diff_within (draft_of (λ p. p.diff) draft);
        fix_confidence = unit (draft_of (λ p. p.confidence) draft);
        pr = pr_ref recorded;
        triage_model = model_label triaged;
        localization_model = model_label localized;
        fix_model = model_label (fix_analysis runs draft);
      };
    }
