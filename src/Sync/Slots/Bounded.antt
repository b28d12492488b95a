-- ===== src/Sync/Slots/Bounded.antt =====
-- sync/triage_sync.py: what the slots guarantee, whatever the order of the calls.
use bugalizer.Prelude.{
  ℕ, ◌≤◌, ◌≡◌, refl, inl, inr, Bool, false, ◌&&◌, ◌||◌, List, [], ◌∷◌, ◌++◌, String, ◌==◌,
  string_eq, eq_of_test, arith, Bool-cases, any, row_count, leb, row_count-append, update_where,
  delete_where,
}
use bugalizer.Sync.Slots.{
  Task, Hold, is_llm, of_action, of_report, new_hold, llm_cap, try_hold, release, set_task,
  with_task, has_stopped,
}

-- A call that changes the slots.
pub data SlotStep (limit : ℕ) (hs : List Hold) : List Hold → Type 0 where
  took : (id report : String) (llm : Bool) → SlotStep limit hs (try_hold limit id report llm hs).0
  released : (own : Bool) (id : String) → SlotStep limit hs (release own id hs)
  task_set : (id : String) (t : Task) → SlotStep limit hs (set_task id t hs)
  cleared : SlotStep limit hs []  -- `stop_triage_sync`

pub data Slots (limit : ℕ) : List Hold → Type 0 where
  empty : Slots limit []
  after : {hs hs' : List Hold} → Slots limit hs → SlotStep limit hs hs' → Slots limit hs'

-- One hold for a report, and no more LLM holds than the bound.
pub record IsBounded (limit : ℕ) (hs : List Hold) : Type 0 where
  pub one_per_report : (report : String) → row_count (of_report report) hs ≤ 1
  pub llm_bound : row_count is_llm hs ≤ llm_cap limit

row_count-shrinks :
    (p q : Hold → Bool) (hs : List Hold) → row_count q (delete_where p hs) ≤ row_count q hs
unfolding row_count delete_where
row_count-shrinks p q [] = omega arith
row_count-shrinks p q (h ∷ hs) = ground (arith, row_count-shrinks p q hs)

row_count-set_task :
    (id : String) (t : Task) (q : Hold → Bool) (hs : List Hold)
    → ((h : Hold) → q (with_task t h) ≡ q h)
    → row_count q (set_task id t hs) ≡ row_count q hs
unfolding row_count set_task update_where
row_count-set_task id t q [] keep = refl
row_count-set_task id t q (h ∷ hs) keep = ground (arith, keep h, row_count-set_task id t q hs keep)

none_held : (p : Hold → Bool) (hs : List Hold) → any p hs ≡ false → row_count p hs ≡ 0
unfolding row_count
none_held p [] h = refl
none_held p (s ∷ hs) h = ground (arith, none_held p hs)

took-IsBounded :
    (limit : ℕ) (id report : String) (llm : Bool) (hs : List Hold)
    → any (of_report report) hs ≡ false
    → (llm && leb (llm_cap limit) (row_count is_llm hs)) ≡ false
    → IsBounded limit hs
    → IsBounded limit (hs ++ new_hold id report llm ∷ [])
took-IsBounded limit id report llm hs free room b = record {
  one_per_report = λ r. one r;
  llm_bound =
      ground (arith, row_count-append is_llm hs (new_hold id report llm), room, b.llm_bound);
}
  where
    one : (r : String) → row_count (of_report r) (hs ++ new_hold id report llm ∷ []) ≤ 1
    one r = elim (Bool-cases (report == r)) [
      | inl e ↦
          let none_yet : row_count (of_report r) hs ≡ 0 =
            none_held (of_report r) hs (rw (← eq_of_test report r e) free) in
          ground (arith, row_count-append (of_report r) hs (new_hold id report llm), none_yet, e)
      | inr e ↦
          ground (
            arith,
            row_count-append (of_report r) hs (new_hold id report llm),
            b.one_per_report r,
            e,
          )
    ]

try_hold-IsBounded :
    (limit : ℕ) (id report : String) (llm : Bool) (hs : List Hold)
    → IsBounded limit hs
    → IsBounded limit (try_hold limit id report llm hs).0
unfolding try_hold
try_hold-IsBounded limit id report llm hs b = elim (Bool-cases (any (of_action id) hs)) [
  | inl e ↦ rw e b
  | inr e ↦ elim (Bool-cases (any (of_report report) hs)) [
    | inl f ↦ rw (e, f) b
    | inr f ↦ elim (Bool-cases (llm && leb (llm_cap limit) (row_count is_llm hs))) [
      | inl g ↦ rw (e, f, g) b
      | inr g ↦ rw (e, f, g) (took-IsBounded limit id report llm hs f g b)
    ]
  ]
]

-- In whatever order holds are taken, given up or cleared and their tasks set, no report has two, and the LLM
-- actions that hold one are never more than the bound.
pub Slots-IsBounded : (limit : ℕ) (hs : List Hold) → Slots limit hs → IsBounded limit hs
unfolding release row_count
Slots-IsBounded limit hs empty = record {
  one_per_report = λ r. omega arith;
  llm_bound = omega arith;
}
Slots-IsBounded limit hs (after {hs = before} s (took id report llm)) =
    try_hold-IsBounded limit id report llm before (Slots-IsBounded limit before s)
Slots-IsBounded limit hs (after {hs = before} s (released own id)) =
    let b = Slots-IsBounded limit before s in
    let p : Hold → Bool = λ h. of_action id h && (has_stopped h.task || own) in
    record {
      one_per_report =
          λ r. omega (arith, row_count-shrinks p (of_report r) before, b.one_per_report r);
      llm_bound = omega (arith, row_count-shrinks p is_llm before, b.llm_bound);
    }
Slots-IsBounded limit hs (after {hs = before} s (task_set id t)) =
    let b = Slots-IsBounded limit before s in
    record {
      one_per_report =
          λ r. rw (row_count-set_task id t (of_report r) before (λ h. refl)) (b.one_per_report r);
      llm_bound = rw (row_count-set_task id t is_llm before (λ h. refl)) b.llm_bound;
    }
Slots-IsBounded limit hs (after {hs = before} s cleared) = record {
  one_per_report = λ r. omega arith;
  llm_bound = omega arith;
}
