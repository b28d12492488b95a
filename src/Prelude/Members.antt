-- ===== src/Prelude/Members.antt =====
-- The rows of a table, and what a SELECT, an ORDER BY and an UPDATE do to them.
use Prim.Native.Nat.{ℕ}
use mathlib.Core.Path.{◌≡◌, refl, subst, ap, sym, ◌∙◌}
use mathlib.Core.Logic.{◌⊎◌, inl, inr}
use mathlib.Core.Bool.{Bool, true, false}
use mathlib.Core.List.{List, [], ◌∷◌, ◌++◌}
use mathlib.Core.Option.{some, some-injective}
use Prim.Native.String.{String}
use text.Mathlib.TextEquality.{eq_iff}
use text.Mathlib.TextPositions.{eq_refl}
use native.Mathlib.Omega.{arith}
use bugalizer.Prelude.Tests.{leb, Bool-cases}
use bugalizer.Prelude.Tables.{
  touch, select_where, update_where, first_where, any, Unmatched, delete_where,
}
use bugalizer.Prelude.Keys.{get, has_key, Fresh, IsKeyed}
use bugalizer.Prelude.Order.{insert_asc, order_asc, insert_desc, order_desc}

module _ {A : Type 0} where
  abbrev pub IsIn : A → List A → Type 0
  IsIn r [] = ⊥
  IsIn r (s ∷ rs) = (s ≡ r) ⊎ IsIn r rs

  -- A SELECT gives the rows that pass its test.
  pub IsIn-select_where :
      (p : A → Bool) (r : A) (rs : List A) → IsIn r (select_where p rs) → IsIn r rs × (p r ≡ true)
  unfolding select_where
  IsIn-select_where p r [] h = absurd h
  IsIn-select_where p r (s ∷ rs) h = elim (Bool-cases (p s)) [
    | inl e ↦ kept e (IsIn-select_where p r rs) (rw e at h)
    | inr e ↦ let (m, q) = IsIn-select_where p r rs (rw e at h) in (inr m, q)
  ]
    where
      kept :
          p s ≡ true
          → (IsIn r (select_where p rs) → IsIn r rs × (p r ≡ true))
          → (s ≡ r) ⊎ IsIn r (select_where p rs)
          → (IsIn r (s ∷ rs)) × (p r ≡ true)
      kept e ih (inl k) = (inl k, subst (λ t. p t ≡ true) k e)
      kept e ih (inr k) = let (m, q) = ih k in (inr m, q)

  IsIn-insert_asc :
      (column : A → ℕ) (r s : A) (rs : List A)
      → IsIn r (insert_asc column s rs)
      → (s ≡ r) ⊎ IsIn r rs
  unfolding insert_asc
  IsIn-insert_asc column r s [] h = h
  IsIn-insert_asc column r s (t ∷ rs) h = elim (Bool-cases (leb (column s) (column t))) [
    | inl e ↦ rw e at h
    | inr e ↦ later (IsIn-insert_asc column r s rs) (rw e at h)
  ]
    where
      later :
          (IsIn r (insert_asc column s rs) → (s ≡ r) ⊎ IsIn r rs)
          → (t ≡ r) ⊎ IsIn r (insert_asc column s rs)
          → (s ≡ r) ⊎ IsIn r (t ∷ rs)
      later ih (inl k) = inr (inl k)
      later ih (inr k) = elim (ih k) [ inl a ↦ inl a | inr b ↦ inr (inr b) ]

  pub IsIn-order_asc :
      (column : A → ℕ) (r : A) (rs : List A) → IsIn r (order_asc column rs) → IsIn r rs
  unfolding order_asc
  IsIn-order_asc column r [] h = h
  IsIn-order_asc column r (s ∷ rs) h = elim (IsIn-insert_asc column r s (order_asc column rs) h) [
    | inl e ↦ inl e
    | inr k ↦ inr (IsIn-order_asc column r rs k)
  ]

  pub select_where-IsIn :
      (p : A → Bool) (r : A) (rs : List A) → IsIn r rs → p r ≡ true → IsIn r (select_where p rs)
  unfolding select_where
  select_where-IsIn p r [] h e = absurd h
  select_where-IsIn p r (s ∷ rs) (inl k) e =
      let hit : p s ≡ true = ap p k ∙ e in rw (hit, select_where) (inl k)
  select_where-IsIn p r (s ∷ rs) (inr m) e = elim (Bool-cases (p s)) [
    | inl f ↦ rw f (inr (select_where-IsIn p r rs m e))
    | inr f ↦ rw f (select_where-IsIn p r rs m e)
  ]

  insert_asc-IsIn :
      (column : A → ℕ) (r s : A) (rs : List A)
      → (s ≡ r) ⊎ IsIn r rs
      → IsIn r (insert_asc column s rs)
  unfolding insert_asc
  insert_asc-IsIn column r s [] h = h
  insert_asc-IsIn column r s (t ∷ rs) h = elim (Bool-cases (leb (column s) (column t))) [
    | inl e ↦ rw e h
    | inr e ↦ rw e (later (insert_asc-IsIn column r s rs) h)
  ]
    where
      later :
          ((s ≡ r) ⊎ IsIn r rs → IsIn r (insert_asc column s rs))
          → (s ≡ r) ⊎ IsIn r (t ∷ rs)
          → (t ≡ r) ⊎ IsIn r (insert_asc column s rs)
      later ih (inl k) = inr (ih (inl k))
      later ih (inr (inl k)) = inl k
      later ih (inr (inr m)) = inr (ih (inr m))

  pub order_asc-IsIn :
      (column : A → ℕ) (r : A) (rs : List A) → IsIn r rs → IsIn r (order_asc column rs)
  unfolding order_asc
  order_asc-IsIn column r [] h = h
  order_asc-IsIn column r (s ∷ rs) (inl e) =
      insert_asc-IsIn column r s (order_asc column rs) (inl e)
  order_asc-IsIn column r (s ∷ rs) (inr m) =
      insert_asc-IsIn column r s (order_asc column rs) (inr (order_asc-IsIn column r rs m))

  insert_desc-IsIn :
      (column : A → ℕ) (r s : A) (rs : List A)
      → (s ≡ r) ⊎ IsIn r rs
      → IsIn r (insert_desc column s rs)
  unfolding insert_desc
  insert_desc-IsIn column r s [] h = h
  insert_desc-IsIn column r s (t ∷ rs) h = elim (Bool-cases (leb (column t) (column s))) [
    | inl e ↦ rw e h
    | inr e ↦ rw e (later (insert_desc-IsIn column r s rs) h)
  ]
    where
      later :
          ((s ≡ r) ⊎ IsIn r rs → IsIn r (insert_desc column s rs))
          → (s ≡ r) ⊎ IsIn r (t ∷ rs)
          → (t ≡ r) ⊎ IsIn r (insert_desc column s rs)
      later ih (inl k) = inr (ih (inl k))
      later ih (inr (inl k)) = inl k
      later ih (inr (inr m)) = inr (ih (inr m))

  pub order_desc-IsIn :
      (column : A → ℕ) (r : A) (rs : List A) → IsIn r rs → IsIn r (order_desc column rs)
  unfolding order_desc
  order_desc-IsIn column r [] h = h
  order_desc-IsIn column r (s ∷ rs) (inl e) =
      insert_desc-IsIn column r s (order_desc column rs) (inl e)
  order_desc-IsIn column r (s ∷ rs) (inr m) =
      insert_desc-IsIn column r s (order_desc column rs) (inr (order_desc-IsIn column r rs m))

  IsIn-insert_desc :
      (column : A → ℕ) (r s : A) (rs : List A)
      → IsIn r (insert_desc column s rs)
      → (s ≡ r) ⊎ IsIn r rs
  unfolding insert_desc
  IsIn-insert_desc column r s [] h = h
  IsIn-insert_desc column r s (t ∷ rs) h = elim (Bool-cases (leb (column t) (column s))) [
    | inl e ↦ rw e at h
    | inr e ↦ later (IsIn-insert_desc column r s rs) (rw e at h)
  ]
    where
      later :
          (IsIn r (insert_desc column s rs) → (s ≡ r) ⊎ IsIn r rs)
          → (t ≡ r) ⊎ IsIn r (insert_desc column s rs)
          → (s ≡ r) ⊎ IsIn r (t ∷ rs)
      later ih (inl k) = inr (inl k)
      later ih (inr m) = elim (ih m) [ inl a ↦ inl a | inr b ↦ inr (inr b) ]

  pub IsIn-order_desc :
      (column : A → ℕ) (r : A) (rs : List A) → IsIn r (order_desc column rs) → IsIn r rs
  unfolding order_desc
  IsIn-order_desc column r [] h = h
  IsIn-order_desc column r (s ∷ rs) h =
      elim (IsIn-insert_desc column r s (order_desc column rs) h) [
        | inl e ↦ inl e
        | inr m ↦ inr (IsIn-order_desc column r rs m)
      ]

  pub IsIn-first_where :
      (p : A → Bool) (r : A) (rs : List A) → first_where p rs ≡ some r → IsIn r rs × (p r ≡ true)
  unfolding first_where
  IsIn-first_where p r [] h = cc
  IsIn-first_where p r (s ∷ rs) h = elim (Bool-cases (p s)) [
    | inl e ↦
        let k : s ≡ r = some-injective s r (sym (rw e refl) ∙ h) in
        (inl k, subst (λ t. p t ≡ true) k e)
    | inr e ↦ let (m, q) = IsIn-first_where p r rs (rw e at h) in (inr m, q)
  ]

  pub append-IsIn : (r : A) (xs ys : List A) → IsIn r xs ⊎ IsIn r ys → IsIn r (xs ++ ys)
  append-IsIn r [] ys (inl h) = absurd h
  append-IsIn r [] ys (inr m) = m
  append-IsIn r (x ∷ xs) ys (inl (inl e)) = inl e
  append-IsIn r (x ∷ xs) ys (inl (inr m)) = inr (append-IsIn r xs ys (inl m))
  append-IsIn r (x ∷ xs) ys (inr m) = inr (append-IsIn r xs ys (inr m))

  pub IsIn-append : (r : A) (xs ys : List A) → IsIn r (xs ++ ys) → IsIn r xs ⊎ IsIn r ys
  IsIn-append r [] ys m = inr m
  IsIn-append r (x ∷ xs) ys (inl e) = inl (inl e)
  IsIn-append r (x ∷ xs) ys (inr m) = elim (IsIn-append r xs ys m) [
    | inl a ↦ inl (inr a)
    | inr b ↦ inr b
  ]

  pub any-IsIn : (p : A → Bool) (r : A) (rs : List A) → IsIn r rs → p r ≡ true → any p rs ≡ true
  any-IsIn p r [] h e = absurd h
  any-IsIn p r (s ∷ rs) (inl k) e = let hit : p s ≡ true = ap p k ∙ e in ground (arith, hit)
  any-IsIn p r (s ∷ rs) (inr m) e = ground (arith, any-IsIn p r rs m e)

  -- No row matches a test that each row fails.
  pub Unmatched-of_IsIn :
      (p : A → Bool) (rs : List A) → ((r : A) → IsIn r rs → p r ≡ false) → Unmatched p rs
  Unmatched-of_IsIn p [] h = tt
  Unmatched-of_IsIn p (r ∷ rs) h = (h r (inl refl), Unmatched-of_IsIn p rs (λ s m. h s (inr m)))

  pub IsIn-delete_where :
      (p : A → Bool) (r : A) (rs : List A) → IsIn r (delete_where p rs) → IsIn r rs
  unfolding delete_where
  IsIn-delete_where p r [] h = h
  IsIn-delete_where p r (s ∷ rs) h = elim (Bool-cases (p s)) [
    | inl e ↦ inr (IsIn-delete_where p r rs (rw e at h))
    | inr e ↦ kept (IsIn-delete_where p r rs) (rw e at h)
  ]
    where
      kept :
          (IsIn r (delete_where p rs) → IsIn r rs)
          → (s ≡ r) ⊎ IsIn r (delete_where p rs)
          → (s ≡ r) ⊎ IsIn r rs
      kept ih (inl e) = inl e
      kept ih (inr m) = inr (ih m)

  pub IsIn-update_where :
      (p : A → Bool) (f : A → A) (r : A) (rs : List A)
      → IsIn r (update_where p f rs)
      → (s : A) × IsIn s rs × (touch p f s ≡ r)
  unfolding update_where
  IsIn-update_where p f r [] h = absurd h
  IsIn-update_where p f r (s ∷ rs) (inl e) = (s, inl refl, e)
  IsIn-update_where p f r (s ∷ rs) (inr h) =
      let (t, m, e) = IsIn-update_where p f r rs h in (t, inr m, e)

module _ {A : Type 0} (key : A → String) where
  pub Fresh-IsIn :
      (k : String) (r : A) (rs : List A) → Fresh key k rs → IsIn r rs → has_key key k r ≡ false
  Fresh-IsIn k r [] h m = absurd m
  Fresh-IsIn k r (s ∷ rs) h (inl e) = subst (λ t. has_key key k t ≡ false) e h.0
  Fresh-IsIn k r (s ∷ rs) h (inr m) = Fresh-IsIn k r rs h.1 m

  pub IsIn-get : (k : String) (r : A) (rs : List A) → get key k rs ≡ some r → IsIn r rs
  unfolding get
  IsIn-get k r [] h = cc
  IsIn-get k r (s ∷ rs) h = elim (Bool-cases (has_key key k s)) [
    | inl e ↦ inl (some-injective s r (sym (rw e refl) ∙ h))
    | inr e ↦ inr (IsIn-get k r rs (rw e at h))
  ]

  -- The row of a primary key is the only one that it has.
  pub get_of_IsIn : (r : A) (rs : List A) → IsKeyed key rs → IsIn r rs → get key (key r) rs ≡ some r
  unfolding get
  get_of_IsIn r [] h m = absurd m
  get_of_IsIn r (s ∷ rs) h (inl e) =
      subst (λ t. get key (key t) (s ∷ rs) ≡ some t) e (ground (arith, eq_refl (key s)))
  get_of_IsIn r (s ∷ rs) h (inr m) = ground (
    arith,
    get_of_IsIn r rs h.1 m,
    Fresh-IsIn (key s) r rs h.0 m,
    eq_iff (key s) (key r),
    eq_iff (key r) (key s),
  )
