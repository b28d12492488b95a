-- ===== src/Sync/Outcomes/Evidence.antt =====
-- sync/actions.py: what counts as evidence of an action's outcome after a crash.
use mathlib.Core.Option.{some-injective}
use bugalizer.Prelude.{
  ◌≡◌, refl, ap, sym, ◌∙◌, subst, ◌⊎◌, inl, inr, Bool, true, false, not, ◌&&◌, List, [], ◌∷◌, some,
  String, ◌==◌, string_eq, arith, Bool-cases, IsIn, IsIn-select_where, IsIn-order_desc, any,
  select_where, if◌then◌else◌,
}
use bugalizer.Store as S
use bugalizer.Store.{Analysis, Proposal, Db, is_text, phase_eq}
use bugalizer.Schedule.{created, is_completed, is_failed}
use bugalizer.Ledger.{
  Kind, analyze_local, analyze_cloud, fix_and_open_pr, open_pr, set_mode, close, reopen, other,
  Action, done, failed, checkpoint,
}
use bugalizer.Sync.Actions.{is_compound}
use bugalizer.Sync.Expiry.{ActionResult}
use bugalizer.Sync.Outcomes.{
  analyses_by_trigger, fix_proposals_by_trigger, finished_rows, was_interrupted, evidence_local,
  evidence_fix, evidence_kind, evidence, proposed_result, step_result,
}

-- A stage row of the action that passes a test, and was not cut off by a restart.
pub record OwnRun (id : String) (db : Db) (p : Analysis → Bool) : Type 0 where
  pub run : Analysis
  pub stored : IsIn run db.analyses
  pub own : is_text run.trigger_ref (some id) ≡ true
  pub uninterrupted : was_interrupted run.result ≡ false
  pub passes : p run ≡ true

abbrev pub wrote_localization : Analysis → Bool
wrote_localization a = a.phase == S.localization && is_completed a

abbrev pub failed_fix : Analysis → Bool
failed_fix a = a.phase == S.fix && is_failed a

-- A proposal of the action that the outcome names.
pub record NamesProposal (id : String) (db : Db) (kind : Kind) (r : ActionResult) : Type 0 where
  pub row : Proposal
  pub stored : IsIn row db.proposals
  pub own : is_text row.trigger_ref (some id) ≡ true
  pub named : r.proposal_id ≡ some row.id
  pub outcome : r.outcome ≡ (if is_compound kind then checkpoint else done)

abbrev pub BackedLocal : String → Db → ActionResult → Type 0
BackedLocal id db r =
    ((r.outcome ≡ done) × OwnRun id db wrote_localization)
    ⊎ ((r.outcome ≡ failed)
        × OwnRun id db is_failed
        × (any wrote_localization (finished_rows id db.analyses) ≡ false))

abbrev pub BackedFix : Kind → String → Db → ActionResult → Type 0
BackedFix kind id db r =
    NamesProposal id db kind r
    ⊎ ((r.outcome ≡ failed)
        × OwnRun id db failed_fix
        × (fix_proposals_by_trigger id db.proposals ≡ []))

-- The rows behind an outcome. Only the kinds that run a stage have one.
abbrev pub Backed : Kind → String → Db → ActionResult → Type 0
Backed analyze_local id db r = BackedLocal id db r
Backed analyze_cloud id db r = BackedFix analyze_cloud id db r
Backed fix_and_open_pr id db r = BackedFix fix_and_open_pr id db r
Backed open_pr id db r = ⊥
Backed set_mode id db r = ⊥
Backed close id db r = ⊥
Backed reopen id db r = ⊥
Backed (other name) id db r = ⊥

any_row :
    (p : Analysis → Bool) (rs : List Analysis)
    → any p rs ≡ true
    → (a : Analysis) × IsIn a rs × (p a ≡ true)
any_row p [] h = cc
any_row p (a ∷ rs) h = elim (Bool-cases (p a)) [
  | inl e ↦ (a, inl refl, e)
  | inr e ↦ let (b, m, g) = any_row p rs (rw e at h) in (b, inr m, g)
]

-- A row that an evidence test found is one of the action's.
found_run :
    (id : String) (db : Db) (p : Analysis → Bool)
    → any p (finished_rows id db.analyses) ≡ true
    → OwnRun id db p
unfolding finished_rows analyses_by_trigger
found_run id db p h =
    let tagged : Analysis → Bool = λ a. is_text a.trigger_ref (some id) in
    let (a, m, e) = any_row p _ h in
    let (n, kept) =
      IsIn-select_where (λ a. not (was_interrupted a.result)) a (analyses_by_trigger id db.analyses)
        m in
    let (k, own) =
      IsIn-select_where tagged a db.analyses
        (IsIn-order_desc created a (select_where tagged db.analyses) n) in
    record { run = a; stored = k; own = own; uninterrupted = ground (arith, kept); passes = e }

proposed-NamesProposal :
    (id : String) (db : Db) (kind : Kind) (p : Proposal) (ps : List Proposal)
    → fix_proposals_by_trigger id db.proposals ≡ p ∷ ps
    → NamesProposal id db kind (proposed_result kind p.id)
unfolding fix_proposals_by_trigger proposed_result
proposed-NamesProposal id db kind p ps e =
    let tagged : Proposal → Bool = λ q. is_text q.trigger_ref (some id) in
    let m : IsIn p (fix_proposals_by_trigger id db.proposals) = subst (IsIn p) (sym e) (inl refl) in
    let (k, own) =
      IsIn-select_where tagged p db.proposals
        (IsIn-order_desc (λ p. p.created_at) p (select_where tagged db.proposals) m) in
    record {
      row = p;
      stored = k;
      own = own;
      named = elim (Bool-cases (is_compound kind)) [ inl g ↦ rw g refl | inr g ↦ rw g refl ];
      outcome = elim (Bool-cases (is_compound kind)) [ inl g ↦ rw g refl | inr g ↦ rw g refl ];
    }

failed_step : (kind : Kind) (message : String) → (step_result kind failed message).outcome ≡ failed
unfolding step_result
failed_step kind message = elim (Bool-cases (is_compound kind)) [
  | inl g ↦ rw g refl
  | inr g ↦ rw g refl
]

fix-BackedFix :
    (id : String) (db : Db) (kind : Kind) (r : ActionResult)
    → evidence_fix kind (finished_rows id db.analyses) (fix_proposals_by_trigger id db.proposals)
      ≡ some r
    → BackedFix kind id db r
fix-BackedFix id db kind r = by_proposals (fix_proposals_by_trigger id db.proposals) refl
  where
    by_proposals :
        (ps : List Proposal)
        → fix_proposals_by_trigger id db.proposals ≡ ps
        → evidence_fix kind (finished_rows id db.analyses) ps ≡ some r
        → BackedFix kind id db r
    by_proposals (p ∷ ps) e h =
        subst (BackedFix kind id db) (some-injective (proposed_result kind p.id) r h)
          (inl (proposed-NamesProposal id db kind p ps e))
    by_proposals [] e h = elim (Bool-cases (any failed_fix (finished_rows id db.analyses))) [
      | inl g ↦
          let message : String = "The fix proposal failed; see Bugalizer for the error" in
          let same : step_result kind failed message ≡ r =
            some-injective (step_result kind failed message) r (rw g at h) in
          inr (
            sym (ap (λ x. x.outcome) same) ∙ failed_step kind message,
            found_run id db failed_fix g,
            e,
          )
      | inr g ↦ absurd (ground (arith, h, g))
    ]

local-BackedLocal :
    (id : String) (db : Db) (r : ActionResult)
    → evidence_local (finished_rows id db.analyses) ≡ some r
    → BackedLocal id db r
local-BackedLocal id db r h =
    let rows = finished_rows id db.analyses in
    elim (Bool-cases (any wrote_localization rows)) [
      | inl e ↦
          let same = some-injective _ r (rw e at h) in
          inl (sym (ap (λ x. x.outcome) same), found_run id db wrote_localization e)
      | inr e ↦ elim (Bool-cases (any is_failed rows)) [
        | inl g ↦
            let same = some-injective _ r (rw (e, g) at h) in
            inr (sym (ap (λ x. x.outcome) same), found_run id db is_failed g, e)
        | inr g ↦ absurd (ground (arith, h, e, g))
      ]
    ]

-- An outcome that recovery reads off the tables agrees with rows of the action that no restart cut off. A local
-- analysis is done where one of its localizations completed, and failed where none did and one of its stages failed.
-- A fix is done, or at the checkpoint of a compound action, where the action made the proposal that the outcome
-- names, and failed where it made none and one of its fix stages failed. No other kind has an outcome to read.
pub evidence-Backed :
    (db : Db) (row : Action) (r : ActionResult)
    → evidence db row ≡ some r
    → Backed row.kind row.action_id db r
unfolding evidence
evidence-Backed db row r = by_kind row.kind
  where
    by_kind : (k : Kind) → evidence_kind k row.action_id db ≡ some r → Backed k row.action_id db r
    by_kind analyze_local h = local-BackedLocal row.action_id db r h
    by_kind analyze_cloud h = fix-BackedFix row.action_id db analyze_cloud r h
    by_kind fix_and_open_pr h = fix-BackedFix row.action_id db fix_and_open_pr r h
    by_kind open_pr h = cc
    by_kind set_mode h = cc
    by_kind close h = cc
    by_kind reopen h = cc
    by_kind (other name) h = cc
