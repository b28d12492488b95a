-- ===== src/Schedule/Paid.antt =====
-- bugalizer/db.py: how often the worker calls the paid stage for one localization.
use bugalizer.Prelude.{
  ℕ, zero, suc, ◌+◌, ◌-◌, ◌≤◌, ◌<◌, ◌≡◌, true, false, List, [], ◌∷◌, ◌++◌, some, string_eq, arith,
  row_count, row_count-append,
}
use Prim.Native.Nat.{max}
use bugalizer.Store.{fix, phase_eq, run_eq, Report, Analysis, Db}
use bugalizer.Schedule.{
  Settings, analyses_for_report, latest_localization, fix_eligible, fix_ready, fix_blocked,
  retry_blocked, failed_attempts_after, all_rows,
}
use bugalizer.Schedule.Budget.{counted, failures-count}

-- A run of the worker that fails each time: the report is listed for a fix on the localization
-- `loc`, and the attempt leaves one failed row that is newer than it.
pub data Attempts (cfg : Settings) (r : Report) (loc : Analysis) (db : Db) : ℕ → Db → Type 0 where
  start : Attempts cfg r loc db zero db
  attempt :
      {n : ℕ} {db' : Db} (now : ℕ) (a : Analysis)
      → Attempts cfg r loc db n db'
      → fix_eligible cfg now db' r ≡ true
      → latest_localization db' r ≡ some loc
      → counted r loc a ≡ true
      → Attempts cfg r loc db (suc n) (record db' { analyses = db'.analyses ++ a ∷ [] })

below_cap :
    (rows : List Analysis) (m d now : ℕ)
    → retry_blocked rows m d now ≡ false
    → row_count all_rows rows < max m 1
unfolding retry_blocked row_count
below_cap [] m d now h = omega arith
below_cap (latest ∷ rows) m d now h =
    let lt : suc (row_count all_rows rows) < m = ground arith in omega arith

eligible-below :
    (cfg : Settings) (now : ℕ) (db : Db) (r : Report) (loc : Analysis)
    → fix_eligible cfg now db r ≡ true
    → latest_localization db r ≡ some loc
    → row_count (counted r loc) db.analyses < max cfg.max_fix_retries 1
unfolding fix_eligible fix_ready fix_blocked
eligible-below cfg now db r loc e latest =
    let rows =
      failed_attempts_after (analyses_for_report r.id fix db.analyses) (some loc.created_at) in
    let open_gate : retry_blocked rows cfg.max_fix_retries cfg.retry_delay_seconds now ≡ false =
      ground (arith, e, latest) in
    omega (
      arith,
      failures-count db r loc,
      below_cap rows cfg.max_fix_retries cfg.retry_delay_seconds now open_gate,
    )

Attempts-count :
    (cfg : Settings) (r : Report) (loc : Analysis) (db : Db) {n : ℕ} {db' : Db}
    → Attempts cfg r loc db n db'
    → row_count (counted r loc) db'.analyses ≡ row_count (counted r loc) db.analyses + n
Attempts-count cfg r loc db start = omega arith
Attempts-count cfg r loc db (attempt {n} {db'} now a before e l c) =
    ground (
      arith,
      row_count-append (counted r loc) db'.analyses a,
      c,
      Attempts-count cfg r loc db before,
    )

-- Between two localizations and two resets, the worker's failing attempts at a fix, with those on
-- record before, are at most max_fix_retries (at most one where that setting is 0).
pub paid_calls_bounded :
    (cfg : Settings) (r : Report) (loc : Analysis) (db : Db) (n : ℕ) (db' : Db)
    → Attempts cfg r loc db n db'
    → n ≤ max cfg.max_fix_retries 1 - row_count (counted r loc) db.analyses
paid_calls_bounded cfg r loc db n db' start = omega arith
paid_calls_bounded cfg r loc db n db' (attempt {n = m} {db' = before_db} now a before e l c) =
    omega (arith, eligible-below cfg now before_db r loc e l, Attempts-count cfg r loc db before)
