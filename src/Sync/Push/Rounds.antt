-- ===== src/Sync/Push/Rounds.antt =====
-- sync/triage_sync.py: a push handles each report once, on the row that it read for it.
use Prim.Native.Nat.{max}
use bugalizer.Prelude.{
  ℕ, zero, suc, ◌≡◌, refl, ap, sym, ◌∙◌, subst, inl, inr, false, List, [], ◌∷◌, Option, none, some,
  String, ◌==◌, string_eq, arith, Bool-cases, IsIn, IsIn-order_asc, Fresh, Fresh-IsIn, IsKeyed, get,
  eq_iff, if_lem, IsKeyed-order_asc, IsKeyed-select_where, order_asc, select_where,
}
use bugalizer.Store.{Report}
use bugalizer.Store.Reports.{report_key}
use bugalizer.Ingest.Texts.{take}
use bugalizer.Sync.Results.{Core}
use bugalizer.Sync.Push.{
  Payload, TriageResult, result_key, triage_result_stage, Todo, todo_stamp, todo_of, add_todo,
  todos, is_stored, is_settled, is_imported, report_created, sync_reports, PutAnswer, payload_of,
  next_revision, answer_fields, Pushes, Put, after_put, resend, push_on, push_one, push_all, push,
}
use bugalizer.Sync.Push.Issued.{IsIssued, push_one-IsIssued, get-update_ne, get-stage_ne, Ordered}

abbrev todo_key : Todo → String
todo_key t = t.report.id

-- Each item carries the row that the table has for its report.
abbrev Matched : List TriageResult → List Todo → Type 0
Matched rs ts = (t : Todo) → IsIn t ts → t.stored ≡ get result_key t.report.id rs

-- A round leaves the rows of other reports alone.
push_one_ne :
    (number : ℕ → String) (project : String) (now : ℕ) (t : Todo) (put : Put) (p : Pushes)
    (j : String)
    → (t.report.id == j) ≡ false
    → get result_key j (push_one number project now t put p).0.results ≡ get result_key j p.results
unfolding push_one
push_one_ne number project now t put p j ne = by_core t.core
  where
    k : String
    k = t.report.id

    sent_ne :
        (payload : Payload) (rs : List TriageResult) (o : Option PutAnswer)
        → get result_key j (after_put number now t payload o rs p).0.results ≡ get result_key j rs
    sent_ne payload rs none = refl
    sent_ne payload rs (some answer) =
        get-update_ne k rs j (answer_fields number now t.fp payload.revision answer) ne

    again :
        (o : Option Payload)
        → get result_key j (resend number now t o put p).0.results ≡ get result_key j p.results
    again none = refl
    again (some payload) = sent_ne payload p.results (put t.report payload)

    by_core :
        (o : Option Core)
        → get result_key j (push_on number project now t o put p).0.results
          ≡ get result_key j p.results
    by_core none = again (payload_of t.stored)
    by_core (some core) =
        let payload : Payload = record { revision = next_revision t.stored now; core = core } in
        sent_ne payload (triage_result_stage k project t.fp payload p.results)
          (put t.report payload)
        ∙ get-stage_ne k p.results j project t.fp payload ne

push_all-IsIssued :
    (number : ℕ → String) (project : String) (clock : Report → ℕ) (ts : List Todo) (put : Put)
    (p : Pushes)
    → IsKeyed todo_key ts
    → Matched p.results ts
    → IsIssued p
    → IsIssued (push_all number project clock ts put p)
unfolding push_all
push_all-IsIssued number project clock [] put p keyed matched h = h
push_all-IsIssued number project clock (t ∷ ts) put p keyed matched h =
    let (p', goes_on) = push_one number project (clock t.report) t put p in
    let issued : IsIssued p' =
      push_one-IsIssued number project (clock t.report) t put p (matched t (inl refl)) h in
    if_lem IsIssued goes_on (push_all number project clock ts put p') p'
      (λ _.
        push_all-IsIssued number project clock ts put p' keyed.1
          (λ u m.
            let apart : (t.report.id == u.report.id) ≡ false = ground (
              arith,
              Fresh-IsIn todo_key t.report.id u ts keyed.0 m,
              eq_iff t.report.id u.report.id,
              eq_iff u.report.id t.report.id,
            ) in
            matched u (inr m)
            ∙ sym (push_one_ne number project (clock t.report) t put p u.report.id apart))
          issued)
      (λ _. issued)

IsIn-take : (n : ℕ) (t : Todo) (ts : List Todo) → IsIn t (take n ts) → IsIn t ts
unfolding take
IsIn-take zero t ts h = absurd h
IsIn-take (suc n) t [] h = absurd h
IsIn-take (suc n) t (u ∷ ts) (inl e) = inl e
IsIn-take (suc n) t (u ∷ ts) (inr m) = inr (IsIn-take n t ts m)

Fresh-take :
    (n : ℕ) (k : String) (ts : List Todo) → Fresh todo_key k ts → Fresh todo_key k (take n ts)
unfolding take
Fresh-take zero k ts h = tt
Fresh-take (suc n) k [] h = tt
Fresh-take (suc n) k (t ∷ ts) h = (h.0, Fresh-take n k ts h.1)

IsKeyed-take : (n : ℕ) (ts : List Todo) → IsKeyed todo_key ts → IsKeyed todo_key (take n ts)
unfolding take
IsKeyed-take zero ts h = tt
IsKeyed-take (suc n) [] h = tt
IsKeyed-take (suc n) (t ∷ ts) h = (Fresh-take n t.report.id ts h.0, IsKeyed-take n ts h.1)

-- What an item keeps of the report that it was made for.
abbrev MadeFor : Report → Option TriageResult → Option Todo → Type 0
MadeFor r stored none = Unit
MadeFor r stored (some t) = (t.report ≡ r) × (t.stored ≡ stored)

todo_of-MadeFor :
    (fp : String) (r : Report) (core : Core) (stored : Option TriageResult)
    → MadeFor r stored (todo_of fp r core stored)
unfolding todo_of
todo_of-MadeFor fp r core stored = elim (Bool-cases (is_stored fp stored)) [
  | inr e ↦ rw e (refl, refl)
  | inl e ↦ elim (Bool-cases (is_settled fp stored)) [
    | inl g ↦ rw (e, g) tt
    | inr g ↦ rw (e, g) (refl, refl)
  ]
]

module _ (fingerprint : Core → String) (core_of : Report → Core) (rs : List TriageResult) where
  todos-Matched : (reports : List Report) → Matched rs (todos fingerprint core_of rs reports)
  unfolding todos
  todos-Matched [] t m = absurd m
  todos-Matched (r ∷ reports) t m =
      with_todo (todo_of (fingerprint (core_of r)) r (core_of r) (get result_key r.id rs))
        (todo_of-MadeFor (fingerprint (core_of r)) r (core_of r) (get result_key r.id rs))
        (todos-Matched reports t) m
    where
      with_todo :
          (o : Option Todo)
          → MadeFor r (get result_key r.id rs) o
          → (IsIn t (todos fingerprint core_of rs reports)
              → t.stored ≡ get result_key t.report.id rs)
          → IsIn t (add_todo o (todos fingerprint core_of rs reports))
          → t.stored ≡ get result_key t.report.id rs
      with_todo none made rest m = rest m
      with_todo (some u) made rest (inr m) = rest m
      with_todo (some u) made rest (inl e) =
          subst (λ v. v.stored ≡ get result_key v.report.id rs) e
            (made.1 ∙ ap (λ x. get result_key x.id rs) (sym made.0))

  Fresh-todos :
      (k : String) (reports : List Report)
      → Fresh report_key k reports
      → Fresh todo_key k (todos fingerprint core_of rs reports)
  unfolding todos
  Fresh-todos k [] h = tt
  Fresh-todos k (r ∷ reports) h =
      with_todo (todo_of (fingerprint (core_of r)) r (core_of r) (get result_key r.id rs))
        (todo_of-MadeFor (fingerprint (core_of r)) r (core_of r) (get result_key r.id rs))
        (Fresh-todos k reports h.1)
    where
      with_todo :
          (o : Option Todo)
          → MadeFor r (get result_key r.id rs) o
          → Fresh todo_key k (todos fingerprint core_of rs reports)
          → Fresh todo_key k (add_todo o (todos fingerprint core_of rs reports))
      with_todo none made rest = rest
      with_todo (some u) made rest = (subst (λ x. (x.id == k) ≡ false) (sym made.0) h.0, rest)

  todos-IsKeyed :
      (reports : List Report)
      → IsKeyed report_key reports
      → IsKeyed todo_key (todos fingerprint core_of rs reports)
  unfolding todos
  todos-IsKeyed [] h = tt
  todos-IsKeyed (r ∷ reports) h =
      with_todo (todo_of (fingerprint (core_of r)) r (core_of r) (get result_key r.id rs))
        (todo_of-MadeFor (fingerprint (core_of r)) r (core_of r) (get result_key r.id rs))
        (todos-IsKeyed reports h.1)
    where
      with_todo :
          (o : Option Todo)
          → MadeFor r (get result_key r.id rs) o
          → IsKeyed todo_key (todos fingerprint core_of rs reports)
          → IsKeyed todo_key (add_todo o (todos fingerprint core_of rs reports))
      with_todo none made rest = rest
      with_todo (some u) made rest = (
        subst (λ x. Fresh todo_key x.id (todos fingerprint core_of rs reports)) (sym made.0)
            (Fresh-todos r.id reports h.0),
        rest,
      )

push-IsIssued :
    (number : ℕ → String) (fingerprint : Core → String) (per_tick : ℕ) (project : String)
    (clock : Report → ℕ) (core_of : Report → Core) (reports : List Report) (put : Put) (p : Pushes)
    → IsKeyed report_key reports
    → IsIssued p
    → IsIssued (push number fingerprint per_tick project clock core_of reports put p)
unfolding push sync_reports
push-IsIssued number fingerprint per_tick project clock core_of reports put p keyed h =
    let listed = order_asc report_created (select_where (is_imported project) reports) in
    let found = todos fingerprint core_of p.results listed in
    let chosen = take (max 1 per_tick) (order_asc todo_stamp found) in
    push_all-IsIssued number project clock chosen put p
      (IsKeyed-take (max 1 per_tick) (order_asc todo_stamp found) (
        IsKeyed-order_asc todo_key todo_stamp found (
          todos-IsKeyed fingerprint core_of p.results listed (
            IsKeyed-order_asc report_key report_created (select_where (is_imported project) reports)
              (IsKeyed-select_where report_key (is_imported project) reports keyed)))))
      (λ t m. todos-Matched fingerprint core_of p.results listed t (
        IsIn-order_asc todo_stamp t found
          (IsIn-take (max 1 per_tick) t (order_asc todo_stamp found) m)))
      h

-- The pushes that a database has seen, from its first on: each of any project, on whatever the rows are then, with
-- any settings, clock, payloads and answers.
pub data PushRun : Pushes → Type 0 where
  fresh : PushRun (record { results = []; sent = [] })
  pushed :
      {p : Pushes} (number : ℕ → String) (fingerprint : Core → String) (per_tick : ℕ)
      (project : String) (clock : Report → ℕ) (core_of : Report → Core) (reports : List Report)
      (put : Put)
      → PushRun p
      → IsKeyed report_key reports
      → PushRun (push number fingerprint per_tick project clock core_of reports put p)

PushRun-IsIssued : {p : Pushes} → PushRun p → IsIssued p
unfolding get
PushRun-IsIssued fresh = record { ordered = tt; sound = λ k q m. absurd m }
PushRun-IsIssued
      (pushed {p} number fingerprint per_tick project clock core_of reports put run keyed) =
    push-IsIssued number fingerprint per_tick project clock core_of reports put p keyed
      (PushRun-IsIssued run)

-- However the pushes of a database follow each other, to their ends or ended by a PUT that failed, of two PUTs of one
-- report the later carries a greater revision, or the same payload again: one revision is one payload, also where a
-- PUT reached sonicgrid and its answer was lost. The condition: no two reports of a push have one id.
pub revision_is_payload : (p : Pushes) → PushRun p → Ordered p.sent
revision_is_payload p run = (PushRun-IsIssued run).ordered
