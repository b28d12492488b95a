-- ===== src/Sync/Push/Issued.antt =====
-- sync/triage_sync.py: the revisions that the pushes of a report carry.
use bugalizer.Prelude.{
  ℕ, ◌≤◌, ◌<◌, ◌≡◌, refl, ap, sym, ◌∙◌, subst, ◌⊎◌, inl, inr, Bool, true, false, List, [], ◌∷◌,
  Option, none, some, String, ◌==◌, string_eq, ==-self, arith, Bool-cases, Option-cases, eq_of_test,
  IsIn, get, get-update_where, get-append, get-append_some, get-key, KeepsKey, eq_iff, ◌++◌,
  update_where, nat_beq,
}
use bugalizer.Sync.Results.{Core}
use bugalizer.Sync.Push.{
  Payload, TriageResult, result_key, staged, new_result, triage_result_stage, ResultFields,
  or_revision, set_result, triage_result_update, Todo, PutAnswer, next_revision, payload_of,
  overtaken, is_refused_put, answer_fields, Pushes, Put, after_put, send, resend, push_on, push_one,
}

-- A payload that was issued before another one, or is the same.
abbrev pub Before : Payload → Payload → Type 0
Before q p = (q.revision < p.revision) ⊎ (q ≡ p)

-- Of two PUTs of one report, the later has a greater revision or sends the same payload.
abbrev pub Ordered : List (String × Payload) → Type 0
Ordered [] = Unit
Ordered ((k, p) ∷ sent) = ((q : Payload) → IsIn (k, q) sent → Before q p) × Ordered sent

-- A row holds the newest payload of its report, and its revision is not below it.
pub record Holds (k : String) (row : TriageResult) (sent : List (String × Payload)) : Type 0 where
  pub payload : Payload
  pub stored : row.payload ≡ some payload
  pub below : payload.revision ≤ row.revision
  pub newest : (q : Payload) → IsIn (k, q) sent → Before q payload

abbrev pub IsSound : String → Option TriageResult → List (String × Payload) → Type 0
IsSound k none sent = (q : Payload) → IsIn (k, q) sent → 1 ≤ 0
IsSound k (some row) sent = Holds k row sent

pub record IsIssued (p : Pushes) : Type 0 where
  pub ordered : Ordered p.sent
  pub sound : (k : String) → IsSound k (get result_key k p.results) p.sent

module _ (k : String) (rs : List TriageResult) where
  get-own :
      (f : TriageResult → TriageResult) (row : TriageResult)
      → KeepsKey result_key f
      → get result_key k rs ≡ some row
      → get result_key k (update_where (λ r. r.report_id == k) f rs) ≡ some (f row)
  get-own f row keep found =
      get-update_where result_key k (λ r. r.report_id == k) f rs keep
      ∙ ground (arith, found, get-key result_key k rs row found, ==-self k)

  get-other :
      (j : String) (f : TriageResult → TriageResult)
      → KeepsKey result_key f
      → (k == j) ≡ false
      → get result_key j (update_where (λ r. r.report_id == k) f rs) ≡ get result_key j rs
  get-other j f keep ne = elim (Option-cases (get result_key j rs)) [
    | inl e ↦ get-update_where result_key j (λ r. r.report_id == k) f rs keep ∙ rw e
    | inr (row, e) ↦
        get-update_where result_key j (λ r. r.report_id == k) f rs keep
        ∙ ground (arith, e, ne, get-key result_key j rs row e, eq_iff row.report_id k, eq_iff k j)
  ]

  get-update :
      (f : ResultFields) (row : TriageResult)
      → get result_key k rs ≡ some row
      → get result_key k (triage_result_update k f rs) ≡ some (set_result f row)
  unfolding triage_result_update
  get-update f row found = get-own (set_result f) row (λ _. refl) found

  pub get-update_ne :
      (j : String) (f : ResultFields)
      → (k == j) ≡ false
      → get result_key j (triage_result_update k f rs) ≡ get result_key j rs
  unfolding triage_result_update
  get-update_ne j f ne = get-other j (set_result f) (λ _. refl) ne

  get-stage :
      (project fp : String) (payload : Payload)
      → (row : TriageResult) × (get result_key k (triage_result_stage k project fp payload rs)
          ≡ some row)
        × (row.payload ≡ some payload)
        × (row.revision ≡ payload.revision)
  unfolding triage_result_stage
  get-stage project fp payload = elim (Option-cases (get result_key k rs)) [
    | inl e ↦
        let new = new_result k project fp payload in
        (new, rw e (get-append result_key k rs new e ∙ ground (arith, ==-self k)), refl, refl)
    | inr (row, e) ↦
        (staged fp payload row, rw e (get-own (staged fp payload) row (λ _. refl) e), refl, refl)
  ]

  pub get-stage_ne :
      (j project fp : String) (payload : Payload)
      → (k == j) ≡ false
      → get result_key j (triage_result_stage k project fp payload rs) ≡ get result_key j rs
  unfolding triage_result_stage
  get-stage_ne j project fp payload ne = elim (Option-cases (get result_key k rs)) [
    | inr (row, e) ↦ rw e (get-other j (staged fp payload) (λ _. refl) ne)
    | inl e ↦ rw e (appended (Option-cases (get result_key j rs)))
  ]
    where
      new : TriageResult
      new = new_result k project fp payload

      appended :
          (get result_key j rs ≡ none) ⊎ ((r : TriageResult) × (get result_key j rs ≡ some r))
          → get result_key j (rs ++ new ∷ []) ≡ get result_key j rs
      appended (inl g) = get-append result_key j rs new g ∙ ground (arith, ne, g)
      appended (inr (r, g)) = get-append_some result_key j rs new r g ∙ sym g

-- An answer never takes the revision of a row below the payload that was sent.
answer_revision :
    (number : ℕ → String) (now : ℕ) (fp : String) (revision : ℕ) (answer : PutAnswer) (old : ℕ)
    → revision ≤ old
    → revision ≤ or_revision (answer_fields number now fp revision answer).revision old
unfolding answer_fields
answer_revision number now fp revision answer old le =
    elim (Bool-cases (nat_beq answer.status 200)) [
      | inl e ↦ rw e (by_answer answer.applied answer.stored_revision)
      | inr e ↦ elim (Bool-cases (is_refused_put answer.status)) [
        | inl g ↦ rw (e, g) le
        | inr g ↦ rw (e, g) le
      ]
    ]
  where
    by_answer :
        (applied : Option Bool) (stored : Option ℕ)
        → revision ≤ or_revision (overtaken revision applied stored) old
    by_answer none stored = le
    by_answer (some true) stored = le
    by_answer (some false) none = le
    by_answer (some false) (some n) = ground (arith, le)

earlier :
    (k j : String) (p q : Payload) (sent : List (String × Payload))
    → (k == j) ≡ false
    → IsIn (j, q) ((k, p) ∷ sent)
    → IsIn (j, q) sent
earlier k j p q sent ne (inl e) =
    let same : k ≡ j = ap (λ x. x.0) e in absurd (ground (arith, ne, eq_iff k j, same))
earlier k j p q sent ne (inr m) = m

IsSound-put :
    (k j : String) (payload : Payload) (o : Option TriageResult) (sent : List (String × Payload))
    → (k == j) ≡ false
    → IsSound j o sent
    → IsSound j o ((k, payload) ∷ sent)
IsSound-put k j payload none sent ne h = λ q m. h q (earlier k j payload q sent ne m)
IsSound-put k j payload (some row) sent ne h = record {
  payload = h.payload;
  stored = h.stored;
  below = h.below;
  newest = λ q m. h.newest q (earlier k j payload q sent ne m);
}

-- A PUT of the newest payload of a row, with what its answer writes.
answered-IsIssued :
    (number : ℕ → String) (now : ℕ) (t : Todo) (payload : Payload) (answer : PutAnswer)
    (rs : List TriageResult) (p : Pushes) (row : TriageResult)
    → Ordered p.sent
    → ((j : String) → (t.report.id == j) ≡ false → IsSound j (get result_key j rs) p.sent)
    → get result_key t.report.id rs ≡ some row
    → row.payload ≡ some payload
    → payload.revision ≤ row.revision
    → ((q : Payload) → IsIn (t.report.id, q) p.sent → Before q payload)
    → IsIssued (after_put number now t payload (some answer) rs p).0
answered-IsIssued number now t payload answer rs p row ordered others found stored below newest =
    record { ordered = (newest, ordered); sound = λ j. by_key j (Bool-cases (t.report.id == j)) }
  where
    k : String
    k = t.report.id

    sent' : List (String × Payload)
    sent' = (k, payload) ∷ p.sent

    f : ResultFields
    f = answer_fields number now t.fp payload.revision answer

    holds_own : Holds k (set_result f row) sent'
    holds_own = record {
      payload = payload;
      stored = stored;
      below = answer_revision number now t.fp payload.revision answer row.revision below;
      newest = latest;
    }
      where
        latest : (q : Payload) → IsIn (k, q) sent' → Before q payload
        latest q (inl e) = inr (sym (ap (λ x. x.1) e))
        latest q (inr m) = newest q m

    by_key :
        (j : String)
        → ((k == j) ≡ true) ⊎ ((k == j) ≡ false)
        → IsSound j (get result_key j (triage_result_update k f rs)) sent'
    by_key j (inr ne) =
        subst (λ o. IsSound j o sent') (sym (get-update_ne k rs j f ne))
          (IsSound-put k j payload (get result_key j rs) p.sent ne (others j ne))
    by_key j (inl own) =
        subst (λ i. IsSound i (get result_key i (triage_result_update k f rs)) sent')
          (eq_of_test k j own)
          (subst (λ o. IsSound k o sent') (sym (get-update k rs f row found)) holds_own)

-- A PUT that ends the push.
aborted-IsIssued :
    (number : ℕ → String) (now : ℕ) (t : Todo) (payload : Payload) (rs : List TriageResult)
    (p : Pushes) (row : TriageResult)
    → Ordered p.sent
    → ((j : String) → (t.report.id == j) ≡ false → IsSound j (get result_key j rs) p.sent)
    → get result_key t.report.id rs ≡ some row
    → row.payload ≡ some payload
    → payload.revision ≤ row.revision
    → ((q : Payload) → IsIn (t.report.id, q) p.sent → Before q payload)
    → IsIssued (after_put number now t payload none rs p).0
aborted-IsIssued number now t payload rs p row ordered others found stored below newest = record {
  ordered = (newest, ordered);
  sound = λ j. by_key j (Bool-cases (t.report.id == j));
}
  where
    k : String
    k = t.report.id

    sent' : List (String × Payload)
    sent' = (k, payload) ∷ p.sent

    latest : (q : Payload) → IsIn (k, q) sent' → Before q payload
    latest q (inl e) = inr (sym (ap (λ x. x.1) e))
    latest q (inr m) = newest q m

    holds_own : Holds k row sent'
    holds_own = record { payload = payload; stored = stored; below = below; newest = latest }

    by_key :
        (j : String)
        → ((k == j) ≡ true) ⊎ ((k == j) ≡ false)
        → IsSound j (get result_key j rs) sent'
    by_key j (inr ne) = IsSound-put k j payload (get result_key j rs) p.sent ne (others j ne)
    by_key j (inl own) =
        subst (λ i. IsSound i (get result_key i rs) sent') (eq_of_test k j own)
          (subst (λ o. IsSound k o sent') (sym found) holds_own)

send-IsIssued :
    (number : ℕ → String) (now : ℕ) (t : Todo) (payload : Payload) (put : Put)
    (rs : List TriageResult) (p : Pushes) (row : TriageResult)
    → Ordered p.sent
    → ((j : String) → (t.report.id == j) ≡ false → IsSound j (get result_key j rs) p.sent)
    → get result_key t.report.id rs ≡ some row
    → row.payload ≡ some payload
    → payload.revision ≤ row.revision
    → ((q : Payload) → IsIn (t.report.id, q) p.sent → Before q payload)
    → IsIssued (send number now t payload put rs p).0
send-IsIssued number now t payload put rs p row ordered others found stored below newest =
    by_answer (put t.report payload)
  where
    by_answer : (o : Option PutAnswer) → IsIssued (after_put number now t payload o rs p).0
    by_answer none =
        aborted-IsIssued number now t payload rs p row ordered others found stored below newest
    by_answer (some answer) =
        answered-IsIssued number now t payload answer rs p row ordered others found stored below
          newest

-- A new payload is issued above all that were sent.
issued_above :
    (k : String) (o : Option TriageResult) (now : ℕ) (q : Payload) (sent : List (String × Payload))
    → IsSound k o sent
    → IsIn (k, q) sent
    → q.revision < next_revision o now
issued_above k none now q sent h m = absurd (ground (arith, h q m))
issued_above k (some row) now q sent h m = elim (h.newest q m) [
  | inl lt ↦ ground (arith, lt, h.below)
  | inr e ↦ ground (arith, ap (λ x. x.revision) e, h.below)
]

-- A round of the push, on the row that the table holds, keeps that.
pub push_one-IsIssued :
    (number : ℕ → String) (project : String) (now : ℕ) (t : Todo) (put : Put) (p : Pushes)
    → t.stored ≡ get result_key t.report.id p.results
    → IsIssued p
    → IsIssued (push_one number project now t put p).0
unfolding push_one
push_one-IsIssued number project now t put p stored h = by_core t.core
  where
    k : String
    k = t.report.id

    sound : IsSound k t.stored p.sent
    sound = subst (λ o. IsSound k o p.sent) (sym stored) (h.sound k)

    again :
        (o : Option TriageResult)
        → get result_key k p.results ≡ o
        → IsSound k o p.sent
        → IsIssued (resend number now t (payload_of o) put p).0
    again none found s = h
    again (some row) found s =
        subst (λ x. IsIssued (resend number now t x put p).0) (sym s.stored)
          (send-IsIssued number now t s.payload put p.results p row h.ordered (λ j ne. h.sound j)
            found s.stored s.below s.newest)

    by_core : (o : Option Core) → IsIssued (push_on number project now t o put p).0
    by_core none = again t.stored (sym stored) sound
    by_core (some core) =
        let payload : Payload = record { revision = next_revision t.stored now; core = core } in
        let rs = triage_result_stage k project t.fp payload p.results in
        let (row, found, kept, revision) = get-stage k p.results project t.fp payload in
        send-IsIssued number now t payload put rs p row h.ordered
          (λ j ne.
            subst (λ o. IsSound j o p.sent)
              (sym (get-stage_ne k p.results j project t.fp payload ne)) (h.sound j))
          found kept (rw revision (omega arith))
          (λ q m. inl (issued_above k t.stored now q p.sent sound m))
