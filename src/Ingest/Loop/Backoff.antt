-- ===== src/Ingest/Loop/Backoff.antt =====
-- ingest/poller.py: how long the background loop leaves a project alone.
use bugalizer.Prelude.{
  ℕ, zero, suc, ◌+◌, ◌≤◌, ◌≡◌, refl, ap, sym, ◌∙◌, subst, inl, inr, false, List, [], ◌∷◌, String,
  ◌==◌, string_eq, ==-self, eq_iff, arith, Bool-cases, IsIn, append-IsIn, IsKeyed, Fresh,
  Fresh-IsIn, eq_of_test,
}
use bugalizer.Store.{Project, project_key, Db}
use bugalizer.Ingest.Source.{PollOutcome}
use bugalizer.Ingest.Loop.{Loop, backoff, max_backoff_ticks, tick_project, run_tick}

backoff-bounded : (o : PollOutcome) → backoff o ≤ max_backoff_ticks
unfolding backoff
backoff-bounded o = ground arith

module _ (poll : String → Db → Db × PollOutcome) where
  -- A turn for another project.
  tick_other :
      (id j : String) (loop : Loop)
      → (j == id) ≡ false
      → (tick_project poll id loop).0.skip j ≡ loop.skip j
  unfolding tick_project
  tick_other id j loop ne = ground (arith, ne)

  run_tick-Fresh :
      (j : String) (qs : List Project) (loop : Loop)
      → Fresh project_key j qs
      → (run_tick poll qs loop).0.skip j ≡ loop.skip j
  unfolding run_tick
  run_tick-Fresh j [] loop h = refl
  run_tick-Fresh j (q ∷ qs) loop h =
      run_tick-Fresh j qs (tick_project poll q.id loop).0 h.1
      ∙ tick_other q.id j loop (ground (arith, h.0, eq_iff q.id j, eq_iff j q.id))

  tick_waits :
      (id : String) (loop : Loop) (m : ℕ)
      → loop.skip id ≡ suc m
      → (tick_project poll id loop).0.skip id ≡ m
  unfolding tick_project
  tick_waits id loop m e = ground (arith, e, ==-self id)

  tick_polls :
      (id : String) (loop : Loop) → loop.skip id ≡ 0 → (tick_project poll id loop).1 ≡ id ∷ []
  unfolding tick_project
  tick_polls id loop e = ground (arith, e)

  -- A tick counts a project that it leaves alone down by one.
  run_tick-waits :
      (q : Project) (qs : List Project) (loop : Loop) (m : ℕ)
      → IsKeyed project_key qs
      → IsIn q qs
      → loop.skip q.id ≡ suc m
      → (run_tick poll qs loop).0.skip q.id ≡ m
  unfolding run_tick
  run_tick-waits q [] loop m k h e = absurd h
  run_tick-waits q (r ∷ qs) loop m k (inl same) e =
      let id_same : q.id ≡ r.id = sym (ap project_key same) in
      rw id_same (
        run_tick-Fresh r.id qs (tick_project poll r.id loop).0 k.0
        ∙ tick_waits r.id loop m (rw id_same at e))
  run_tick-waits q (r ∷ qs) loop m k (inr h) e =
      run_tick-waits q qs (tick_project poll r.id loop).0 m k.1 h
        (tick_other r.id q.id loop (Fresh-IsIn project_key r.id q qs k.0 h) ∙ e)

  run_tick-polls :
      (q : Project) (qs : List Project) (loop : Loop)
      → IsKeyed project_key qs
      → IsIn q qs
      → loop.skip q.id ≡ 0
      → IsIn q.id (run_tick poll qs loop).1
  unfolding run_tick
  run_tick-polls q [] loop k h e = absurd h
  run_tick-polls q (r ∷ qs) loop k (inl same) e =
      let id_same : q.id ≡ r.id = sym (ap project_key same) in
      let polled : (tick_project poll r.id loop).1 ≡ r.id ∷ [] =
        tick_polls r.id loop (rw id_same at e) in
      append-IsIn q.id (tick_project poll r.id loop).1
        (run_tick poll qs (tick_project poll r.id loop).0).1 (inl (rw polled (inl (sym id_same))))
  run_tick-polls q (r ∷ qs) loop k (inr h) e =
      append-IsIn q.id (tick_project poll r.id loop).1
        (run_tick poll qs (tick_project poll r.id loop).0).1
        (inr (
          run_tick-polls q qs (tick_project poll r.id loop).0 k.1 h
            (tick_other r.id q.id loop (Fresh-IsIn project_key r.id q qs k.0 h) ∙ e)))

  tick_self-bounded :
      (id : String) (loop : Loop)
      → loop.skip id ≤ max_backoff_ticks
      → (tick_project poll id loop).0.skip id ≤ max_backoff_ticks
  unfolding tick_project
  tick_self-bounded id loop le = ground (arith, le, ==-self id, backoff-bounded (poll id loop.db).1)

  tick-bounded :
      (id j : String) (loop : Loop)
      → loop.skip j ≤ max_backoff_ticks
      → (tick_project poll id loop).0.skip j ≤ max_backoff_ticks
  tick-bounded id j loop le = elim (Bool-cases (j == id)) [
    | inl e ↦ rw (← eq_of_test j id e) (tick_self-bounded j loop le)
    | inr e ↦ rw (tick_other id j loop e) le
  ]

  run_tick-bounded :
      (j : String) (qs : List Project) (loop : Loop)
      → loop.skip j ≤ max_backoff_ticks
      → (run_tick poll qs loop).0.skip j ≤ max_backoff_ticks
  unfolding run_tick
  run_tick-bounded j [] loop le = le
  run_tick-bounded j (q ∷ qs) loop le =
      run_tick-bounded j qs (tick_project poll q.id loop).0 (tick-bounded q.id j loop le)

-- The polls and the projects of one tick.
pub record Tick : Type 0 where
  pub poll : String → Db → Db × PollOutcome
  pub projects : List Project

-- The loop after a number of ticks, and the projects that the tick after those polls.
unfoldable pub loop_at : (ℕ → Tick) → ℕ → Loop → Loop
loop_at ticks zero loop = loop
loop_at ticks (suc n) loop =
    let before = loop_at ticks n loop in (run_tick (ticks n).poll (ticks n).projects before).0

abbrev pub polled_at : (ℕ → Tick) → ℕ → Loop → List String
polled_at ticks n loop = (run_tick (ticks n).poll (ticks n).projects (loop_at ticks n loop)).1

abbrev pub Listed : String → List Project → Type 0
Listed id qs = (q : Project) × IsIn q qs × (q.id ≡ id)

waits_at :
    (ticks : ℕ → Tick) (id : String) (loop : Loop) (n m : ℕ)
    → ((k : ℕ) → IsKeyed project_key (ticks k).projects)
    → ((k : ℕ) → Listed id (ticks k).projects)
    → (loop_at ticks n loop).skip id ≡ m
    → IsIn id (polled_at ticks (m + n) loop)
unfolding loop_at
waits_at ticks id loop n zero keyed listed e =
    let (q, h, same) = listed n in
    subst (λ i. IsIn i (polled_at ticks (0 + n) loop)) same
      (rw zero_left (
        run_tick-polls (ticks n).poll q (ticks n).projects (loop_at ticks n loop) (keyed n) h
          (ap (loop_at ticks n loop).skip same ∙ e)))
  where
    zero_left : 0 + n ≡ n
    zero_left = omega arith
waits_at ticks id loop n (suc m) keyed listed e =
    let (q, h, same) = listed n in
    let next : (loop_at ticks (suc n) loop).skip id ≡ m =
      ap (loop_at ticks (suc n) loop).skip (sym same)
      ∙ run_tick-waits (ticks n).poll q (ticks n).projects (loop_at ticks n loop) m (keyed n) h
          (ap (loop_at ticks n loop).skip same ∙ e) in
    subst (λ k. IsIn id (polled_at ticks k loop)) (omega arith)
      (waits_at ticks id loop (suc n) m keyed listed next)

bounded_at :
    (ticks : ℕ → Tick) (id : String) (loop : Loop) (n : ℕ)
    → loop.skip id ≤ max_backoff_ticks
    → (loop_at ticks n loop).skip id ≤ max_backoff_ticks
unfolding loop_at
bounded_at ticks id loop zero le = le
bounded_at ticks id loop (suc n) le =
    run_tick-bounded (ticks n).poll id (ticks n).projects (loop_at ticks n loop)
      (bounded_at ticks id loop n le)

-- However often its polls fail, a project that each tick lists is polled again after at most 32
-- further ticks, from any moment of the loop on.
pub polled_within :
    (ticks : ℕ → Tick) (id : String) (loop : Loop) (n : ℕ)
    → ((k : ℕ) → IsKeyed project_key (ticks k).projects)
    → ((k : ℕ) → Listed id (ticks k).projects)
    → loop.skip id ≡ 0
    → (m : ℕ) × (m ≤ max_backoff_ticks) × IsIn id (polled_at ticks (m + n) loop)
polled_within ticks id loop n keyed listed fresh = (
  (loop_at ticks n loop).skip id,
  bounded_at ticks id loop n (rw fresh (omega arith)),
  waits_at ticks id loop n ((loop_at ticks n loop).skip id) keyed listed refl,
)
