-- ===== src/Sync/Results/Fits.antt =====
-- sync/results.py: the sizes of a payload against the limits of sonicgrid's contract.
use bugalizer.Prelude.{
  ℕ, zero, suc, ◌≤◌, ◌<◌, ◌≡◌, refl, if◌then◌else◌, false, ◌&&◌, List, [], ◌∷◌, Option, none, some,
  String, arith, if_lem, leb, ltb,
}
use bugalizer.Store.{Text, Project, Report}
use bugalizer.Ingest.Texts.{chars, length, take, is_empty, length-take}
use bugalizer.Sync.Results.{
  Value, text, Fraction, Item, path_item, object_item, other_item, Run, Draft, Candidate, PrRef,
  Core, summary_max, category_max, long_text_max, candidates_max, path_max, reason_max,
  diff_max_bytes, pr_url_max, branch_max, model_max, text_within, unit, candidate, candidates_from,
  candidates, hypothesis, utf8_length, diff_within, pr_url_within, pr_ref, model_label, label,
  build_payload, missing, not_a_number, something, flag, number, candidate_at, add_candidate,
  candidates_in, pr_number_ref, branch_ref, starts, with_provider,
}

-- A text that is null, or within a limit.
abbrev pub Within : ℕ → Option Text → Type 0
Within limit none = Unit
Within limit (some t) = length t ≤ limit

-- A confidence that is null, or in 0..1.
abbrev pub IsUnit : Option Fraction → Type 0
IsUnit none = Unit
IsUnit (some f) = (f.numerator ≤ f.denominator) × (0 < f.denominator)

pub record IsCandidate (c : Candidate) : Type 0 where
  pub path : length c.path ≤ path_max
  pub relevance : IsUnit c.relevance
  pub reason : Within reason_max c.reason

abbrev pub AreCandidates : List Candidate → Type 0
AreCandidates [] = Unit
AreCandidates (c ∷ cs) = IsCandidate c × AreCandidates cs

abbrev pub FitCandidates : Option (List Candidate) → Type 0
FitCandidates none = Unit
FitCandidates (some cs) = (length cs ≤ candidates_max) × AreCandidates cs

-- A diff that is null, or the whole text of its value, within its bytes.
abbrev pub FitsDiff : Value → Option Text → Type 0
FitsDiff v none = Unit
FitsDiff v (some t) = (v ≡ text t) × (utf8_length t ≤ diff_max_bytes)

-- The diff of the newest proposal, which the payload shows.
abbrev pub shown_diff : List Draft → Value
shown_diff [] = missing
shown_diff (draft ∷ drafts) = draft.diff

abbrev pub FitsPr : Option PrRef → Type 0
FitsPr none = Unit
FitsPr (some p) = (0 < p.number) × (1 ≤ length p.branch) × (length p.branch ≤ branch_max)

pub record IsWithin (drafts : List Draft) (c : Core) : Type 0 where
  pub summary : Within summary_max c.shown.summary
  pub pr_url : Within pr_url_max c.shown.pr_url
  pub category : Within category_max c.admin.category
  pub triage_confidence : IsUnit c.admin.triage_confidence
  pub root_cause : Within long_text_max c.admin.root_cause
  pub root_cause_hypothesis : Within long_text_max c.admin.root_cause_hypothesis
  pub explanation : Within long_text_max c.admin.explanation
  pub candidate_files : FitCandidates c.admin.candidate_files
  pub diff : FitsDiff (shown_diff drafts) c.admin.diff
  pub fix_confidence : IsUnit c.admin.fix_confidence
  pub pr : FitsPr c.admin.pr
  pub triage_model : Within model_max c.admin.triage_model
  pub localization_model : Within model_max c.admin.localization_model
  pub fix_model : Within model_max c.admin.fix_model

text_within-Within : (v : Value) (limit : ℕ) → Within limit (text_within v limit)
unfolding text_within
text_within-Within (text t) limit =
    if_lem (Within limit) (is_empty t) none (some (take limit t)) (λ _. tt)
      (λ _. length-take limit t)
text_within-Within missing limit = tt
text_within-Within not_a_number limit = tt
text_within-Within something limit = tt
text_within-Within (flag b) limit = tt
text_within-Within (number below n d) limit = tt

unit-IsUnit : (v : Value) → IsUnit (unit v)
unfolding unit
unit-IsUnit (number below n d) =
    if_lem IsUnit (below && ltb 0 n) _ _ (λ _. tt)
      (λ _. if_lem IsUnit (ltb (suc d) n) _ _ (λ _. tt) (λ e. (ground (arith, e), omega arith)))
unit-IsUnit (text t) = tt
unit-IsUnit missing = tt
unit-IsUnit not_a_number = tt
unit-IsUnit something = tt
unit-IsUnit (flag b) = tt

abbrev MaybeCandidate : Option Candidate → Type 0
MaybeCandidate none = Unit
MaybeCandidate (some c) = IsCandidate c

candidate_at-IsCandidate :
    (o : Option Text) (relevance reason : Value)
    → Within path_max o
    → MaybeCandidate (candidate_at o relevance reason)
candidate_at-IsCandidate none relevance reason h = tt
candidate_at-IsCandidate (some t) relevance reason h = record {
  path = h;
  relevance = unit-IsUnit relevance;
  reason = text_within-Within reason reason_max;
}

candidate-IsCandidate : (item : Item) → MaybeCandidate (candidate item)
unfolding candidate
candidate-IsCandidate (path_item t) =
    candidate_at-IsCandidate _ missing missing (text_within-Within (text t) path_max)
candidate-IsCandidate (object_item path file relevance reason) =
    candidate_at-IsCandidate _ relevance reason (text_within-Within _ path_max)
candidate-IsCandidate other_item = tt

-- The loop stops at the room that it has.
candidates_from-Fit :
    (room : ℕ) (items : List Item)
    → (length (candidates_from room items) ≤ room) × AreCandidates (candidates_from room items)
unfolding candidates_from length
candidates_from-Fit zero items = (omega arith, tt)
candidates_from-Fit (suc room) [] = (omega arith, tt)
candidates_from-Fit (suc room) (item ∷ items) =
    with_item (candidate item) (candidate-IsCandidate item) (candidates_from-Fit room items)
      (candidates_from-Fit (suc room) items)
  where
    with_item :
        (o : Option Candidate)
        → MaybeCandidate o
        → (length (candidates_from room items) ≤ room) × AreCandidates (candidates_from room items)
        → (length (candidates_from (suc room) items) ≤ suc room)
          × AreCandidates (candidates_from (suc room) items)
        → (length (add_candidate o (candidates_from room items) (candidates_from (suc room) items))
            ≤ suc room)
          × AreCandidates
              (add_candidate o (candidates_from room items) (candidates_from (suc room) items))
    with_item none h kept skipped = skipped
    with_item (some c) h kept skipped = (omega (arith, kept.0), (h, kept.1))

candidates-Fit : (o : Option (List Item)) → FitCandidates (candidates_in o)
candidates-Fit none = tt
candidates-Fit (some items) = candidates_from-Fit candidates_max items

diff_within-FitsDiff : (v : Value) → FitsDiff v (diff_within v)
unfolding diff_within
diff_within-FitsDiff (text t) =
    if_lem (FitsDiff (text t)) (is_empty t) none
      (if leb (utf8_length t) diff_max_bytes then some t else none) (λ _. tt)
      (λ _.
        if_lem (FitsDiff (text t)) (leb (utf8_length t) diff_max_bytes) (some t) none
          (λ e. (refl, ground (arith, e))) (λ _. tt))
diff_within-FitsDiff missing = tt
diff_within-FitsDiff not_a_number = tt
diff_within-FitsDiff something = tt
diff_within-FitsDiff (flag b) = tt
diff_within-FitsDiff (number below n d) = tt

diff-FitsDiff :
    (r : Report) (runs : List Run) (drafts : List Draft) (project : Option Project)
    → FitsDiff (shown_diff drafts) (build_payload r runs drafts project).admin.diff
unfolding build_payload diff_within
diff-FitsDiff r runs [] project = tt
diff-FitsDiff r runs (draft ∷ drafts) project = diff_within-FitsDiff draft.diff

pr_url-Within : (o : Option String) → Within pr_url_max (pr_url_within o)
unfolding pr_url_within
pr_url-Within none = tt
pr_url-Within (some url) =
    if_lem (Within pr_url_max)
      (starts (chars "https://") (chars url) && leb (length (chars url)) pr_url_max) _ _
      (λ e. ground (arith, e)) (λ _. tt)

branch-FitsPr : (n : ℕ) (o : Option String) → 0 < n → FitsPr (branch_ref n o)
unfolding length
branch-FitsPr n none h = tt
branch-FitsPr n (some name) h =
    if_lem FitsPr (is_empty (take branch_max (chars name))) _ _ (λ _. tt)
      (λ e. (h, one_at_least (take branch_max (chars name)) e, length-take branch_max (chars name)))
  where
    one_at_least : (t : Text) → is_empty t ≡ false → 1 ≤ length t
    one_at_least [] e = cc
    one_at_least (c ∷ t) e = omega arith

number-FitsPr : (n : Option ℕ) (o : Option String) → FitsPr (pr_number_ref n o)
number-FitsPr none o = tt
number-FitsPr (some n) o =
    if_lem FitsPr (ltb 0 n) _ _ (λ e. branch-FitsPr n o (ground (arith, e))) (λ _. tt)

pr_ref-FitsPr : (o : Option Draft) → FitsPr (pr_ref o)
unfolding pr_ref
pr_ref-FitsPr none = tt
pr_ref-FitsPr (some p) = number-FitsPr p.row.pr_number p.row.branch_name

label-Within : (provider model : Option Text) → Within model_max (label provider model)
label-Within provider none = tt
label-Within provider (some model) =
    if_lem (Within model_max) (is_empty model) none
      (some (take model_max (with_provider provider model))) (λ _. tt)
      (λ _. length-take model_max (with_provider provider model))

model_label-Within : (o : Option Run) → Within model_max (model_label o)
unfolding model_label
model_label-Within none = tt
model_label-Within (some a) = label-Within a.llm_provider a.llm_model

-- Whatever the rows of a report hold, every text of its payload is within the contract's limit, every confidence is
-- in 0..1, the candidate files are no more than fifty, the diff is null or the whole diff of the newest proposal and
-- within its bytes, and a pull request has a positive number and a branch.
pub build_payload-IsWithin :
    (r : Report) (runs : List Run) (drafts : List Draft) (project : Option Project)
    → IsWithin drafts (build_payload r runs drafts project)
unfolding build_payload candidates hypothesis
build_payload-IsWithin r runs drafts project = record {
  summary = text_within-Within _ summary_max;
  pr_url = pr_url-Within _;
  category = text_within-Within _ category_max;
  triage_confidence = unit-IsUnit _;
  root_cause = text_within-Within _ long_text_max;
  root_cause_hypothesis = text_within-Within _ long_text_max;
  explanation = text_within-Within _ long_text_max;
  candidate_files = candidates-Fit _;
  diff = diff-FitsDiff r runs drafts project;
  fix_confidence = unit-IsUnit _;
  pr = pr_ref-FitsPr _;
  triage_model = model_label-Within _;
  localization_model = model_label-Within _;
  fix_model = model_label-Within _;
}
