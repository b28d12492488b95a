-- ===== src/Tests/Executor.antt =====
-- The executor's slots and its time bound.
use bugalizer.Prelude.{
  ◌≡◌, refl, inl, true, false, none, some, [], ◌∷◌, update_where, select_where, row_count,
}
use bugalizer.Ledger.{
  Action, analyze_cloud, new_action, intent, finish_row, done, triage_action_finish,
  triage_action_update, triage_actions_open, set_fields,
}
use bugalizer.Sync.Slots.{try_hold}
use bugalizer.Sync.Slots.Bounded.{Slots, empty, after, took, IsBounded, Slots-IsBounded}
use bugalizer.Sync.Expiry.{expire_overdue, expire_rows, finish, timed_out, timeout_result}
use bugalizer.Sync.Expiry.Overdue.{nothing_overdue}

-- Two LLM actions ask for the one slot.
two_ask : Slots 1 (try_hold 1 "y" "b" true (try_hold 1 "x" "a" true []).0).0
two_ask = after (after empty (took "x" "a" true)) (took "y" "b" true)

Slots-IsBounded_example : IsBounded 1 (try_hold 1 "y" "b" true (try_hold 1 "x" "a" true []).0).0
Slots-IsBounded_example = Slots-IsBounded 1 _ two_ask

abbrev slow : Action
slow = record (new_action "x" "p" "a" analyze_cloud none none) {
  phase = intent;
  intent_at = some 5;
}

abbrev recent : Action
recent = record (new_action "y" "p" "b" analyze_cloud none none) {
  phase = intent;
  intent_at = some 95;
}

-- The pass finishes the first and leaves the second open.
nothing_overdue_example : timed_out 60 100 recent ≡ false
unfolding expire_overdue expire_rows finish triage_action_finish triage_action_update set_fields
    triage_actions_open update_where select_where row_count timeout_result
nothing_overdue_example =
    nothing_overdue 60 100 "timed out" (some "p") (slow ∷ recent ∷ []) recent (inl refl)

abbrev ended : Action
ended = finish_row 7 done (some "ok") none (record slow { action_id = "z" })
