-- ===== src/Schedule/Budget.antt =====
-- bugalizer/db.py: the retry gate. What blocks a stage, when it opens again, and how often the paid
-- stage can run between two resets.
use bugalizer.Prelude.{
  ℕ, suc, ◌+◌, ◌*◌, ◌-◌, ◌≤◌, ◌<◌, ◌≡◌, refl, ◌∙◌, ◌↔◌, inl, inr, Bool, true, false, ◌&&◌, List, [],
  ◌∷◌, ◌++◌, some, String, ◌==◌, ==-self, string_eq, arith, Bool-cases, Option-cases, any, leb,
  row_count, select_where, row_count-order_desc, row_count-select_where, select_where-append,
  order_desc-append_newest, AllOlder, AllOlder-select_where, AllOlder-order_desc,
  length-select_where,
}
use bugalizer.Store.{Phase, localization, fix, phase_eq, completed, run_eq, Report, Analysis, Db}
use bugalizer.Schedule.{
  Settings, created, analyses_for_report, is_failed, is_permanent, all_rows, newer,
  latest_completed_created_at, failed_attempts_after, retry_blocked, localization_blocked,
}

-- Why a stage is skipped, for its failed attempts, newest first.
pub data Blocks (max_retries retry_delay now : ℕ) : List Analysis → Type 0 where
  permanent :
      {rows : List Analysis}
      → any is_permanent rows ≡ true
      → Blocks max_retries retry_delay now rows
  exhausted :
      {latest : Analysis} {rows : List Analysis}
      → max_retries ≤ suc (row_count all_rows rows)
      → Blocks max_retries retry_delay now (latest ∷ rows)
  too_soon :
      {latest : Analysis} {rows : List Analysis} {c : ℕ}
      → latest.completed_at ≡ some c
      → now - c < retry_delay * 1000000
      → Blocks max_retries retry_delay now (latest ∷ rows)

blocked-Blocks :
    (rows : List Analysis) (max_retries retry_delay now : ℕ)
    → retry_blocked rows max_retries retry_delay now ≡ true
    → Blocks max_retries retry_delay now rows
unfolding retry_blocked row_count
blocked-Blocks [] m d now h = cc
blocked-Blocks (latest ∷ rows) m d now h = elim (Bool-cases (any is_permanent (latest ∷ rows))) [
  | inl e ↦ permanent e
  | inr e ↦ elim (Bool-cases (leb m (suc (row_count all_rows rows)))) [
    | inl f ↦ exhausted (ground (arith, f))
    | inr f ↦ elim (Option-cases latest.completed_at) [
      | inl g ↦ absurd (ground (arith, h, e, f, g))
      | inr (c, g) ↦ too_soon g (ground (arith, h, e, f, g))
    ]
  ]
]

Blocks-blocked :
    (rows : List Analysis) (max_retries retry_delay now : ℕ)
    → Blocks max_retries retry_delay now rows
    → retry_blocked rows max_retries retry_delay now ≡ true
unfolding retry_blocked row_count
Blocks-blocked [] m d now (permanent h) = cc
Blocks-blocked (latest ∷ rows) m d now (permanent h) = ground arith
Blocks-blocked (latest ∷ rows) m d now (exhausted h) = ground arith
Blocks-blocked (latest ∷ rows) m d now (too_soon e h) = ground arith

-- A stage is skipped exactly if one of its failed attempts is permanent, or there is one and they
-- are as many as the cap, or the newest ended less than the retry delay ago.
pub retry_blocked_iff :
    (rows : List Analysis) (max_retries retry_delay now : ℕ)
    → (retry_blocked rows max_retries retry_delay now ≡ true)
      ↔ Blocks max_retries retry_delay now rows
retry_blocked_iff rows m d now = (blocked-Blocks rows m d now, Blocks-blocked rows m d now)

-- A report that a stage is not skipped for now is not skipped for it later, while its rows stay.
pub retry_open_mono :
    (rows : List Analysis) (max_retries retry_delay now later : ℕ)
    → now ≤ later
    → retry_blocked rows max_retries retry_delay now ≡ false
    → retry_blocked rows max_retries retry_delay later ≡ false
unfolding retry_blocked
retry_open_mono [] m d now later le h = refl
retry_open_mono (latest ∷ rows) m d now later le h = ground arith

-- Below the cap and with no permanent failure, the gate is open from the end of the retry delay on.
pub retry_opens :
    (latest : Analysis) (rows : List Analysis) (max_retries retry_delay now c : ℕ)
    → any is_permanent (latest ∷ rows) ≡ false
    → row_count all_rows (latest ∷ rows) < max_retries
    → latest.completed_at ≡ some c
    → c + retry_delay * 1000000 ≤ now
    → retry_blocked (latest ∷ rows) max_retries retry_delay now ≡ false
unfolding retry_blocked
retry_opens latest rows m d now c p lt e le = ground arith

pub no_rows_open : (m d now : ℕ) → retry_blocked [] m d now ≡ false
unfolding retry_blocked
no_rows_open m d now = refl

newest_row :
    (id : String) (ph : Phase) (a : Analysis) (rows : List Analysis)
    → a.bug_report_id ≡ id
    → a.phase ≡ ph
    → AllOlder created a.created_at rows
    → analyses_for_report id ph (rows ++ a ∷ []) ≡ a ∷ analyses_for_report id ph rows
unfolding analyses_for_report select_where
newest_row id ph a rows own same newest =
    let p : Analysis → Bool = λ b. b.bug_report_id == id && b.phase == ph in
    let hit : p a ≡ true = ground (arith, own, same, ==-self id, ==-self ph) in
    rw (select_where-append p rows a, hit)
      (order_desc-append_newest created (select_where p rows) a
        (AllOlder-select_where created a.created_at p rows newest))

older_rows :
    (id : String) (ph : Phase) (n : ℕ) (rows : List Analysis)
    → AllOlder created n rows
    → AllOlder created n (analyses_for_report id ph rows)
unfolding analyses_for_report
older_rows id ph n rows h =
    AllOlder-order_desc created n (select_where (λ a. a.bug_report_id == id && a.phase == ph) rows)
      (AllOlder-select_where created n (λ a. a.bug_report_id == id && a.phase == ph) rows h)

latest_is_newest :
    (a : Analysis) (rows : List Analysis)
    → a.status ≡ completed
    → latest_completed_created_at (a ∷ rows) ≡ some a.created_at
unfolding latest_completed_created_at
latest_is_newest a rows done = ground (arith, done)

no_newer :
    (n : ℕ) (rows : List Analysis)
    → AllOlder created n rows
    → failed_attempts_after rows (some n) ≡ []
unfolding failed_attempts_after select_where
no_newer n [] h = refl
no_newer n (b ∷ rows) h = ground (arith, no_newer n rows h.1)

no_failure_after :
    (a : Analysis) (rows : List Analysis)
    → a.status ≡ completed
    → AllOlder created a.created_at rows
    → failed_attempts_after (a ∷ rows) (some a.created_at) ≡ []
unfolding failed_attempts_after select_where
no_failure_after a rows done h = ground (arith, done, no_newer a.created_at rows h)

-- A completed localization that is newer than the report's other rows opens the localization gate,
-- whatever failed before.
pub success_reopens :
    (cfg : Settings) (now : ℕ) (db : Db) (r : Report) (a : Analysis)
    → a.bug_report_id ≡ r.id
    → a.phase ≡ localization
    → a.status ≡ completed
    → AllOlder created a.created_at db.analyses
    → localization_blocked cfg now (record db { analyses = db.analyses ++ a ∷ [] }) r ≡ false
unfolding localization_blocked
success_reopens cfg now db r a own ph done newest =
    rw (newest_row r.id localization a db.analyses own ph newest) (
      rw (latest_is_newest a (analyses_for_report r.id localization db.analyses) done) (
        rw
          (no_failure_after a (analyses_for_report r.id localization db.analyses) done
            (older_rows r.id localization a.created_at db.analyses newest))
          nothing_blocks))
  where
    nothing_blocks : retry_blocked [] cfg.max_localize_retries cfg.retry_delay_seconds now ≡ false
    nothing_blocks = no_rows_open cfg.max_localize_retries cfg.retry_delay_seconds now

-- The failed fix attempts that count against the cap.
abbrev pub counted : Report → Analysis → Analysis → Bool
counted r loc a =
    (a.bug_report_id == r.id && a.phase == fix) && (is_failed a && newer (some loc.created_at) a)

pub failures-count :
    (db : Db) (r : Report) (loc : Analysis)
    → row_count all_rows
        (failed_attempts_after (analyses_for_report r.id fix db.analyses) (some loc.created_at))
      ≡ row_count (counted r loc) db.analyses
unfolding failed_attempts_after analyses_for_report
failures-count db r loc =
    length-select_where (λ a. is_failed a && newer (some loc.created_at) a) _
    ∙ row_count-order_desc created (λ a. is_failed a && newer (some loc.created_at) a) _
    ∙ row_count-select_where (λ a. a.bug_report_id == r.id && a.phase == fix)
        (λ a. is_failed a && newer (some loc.created_at) a) db.analyses
