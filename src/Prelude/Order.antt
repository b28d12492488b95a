-- ===== src/Prelude/Order.antt =====
-- `ORDER BY` a column, as an insertion sort.
use Prim.Native.Nat.{ℕ, ◌≤◌, ◌<◌}
use mathlib.Core.Path.{◌≡◌, refl, ◌∙◌, sym}
use mathlib.Core.Logic.{inl, inr}
use mathlib.Core.Bool.{Bool, true, false}
use mathlib.Core.List.{List, [], ◌∷◌, ◌++◌}
use native.Mathlib.Omega.{arith}
use bugalizer.Prelude.Tests.{leb, Bool-cases, if◌then◌else◌}
use bugalizer.Prelude.Tables.{row_count, select_where}

module _ {A : Type 0} (column : A → ℕ) where
  unfoldable pub insert_asc : A → List A → List A
  insert_asc r [] = r ∷ []
  insert_asc r (s ∷ rs) =
      let rest = insert_asc r rs in if leb (column r) (column s) then r ∷ s ∷ rs else s ∷ rest

  -- ORDER BY column ASC
  unfoldable pub order_asc : List A → List A
  unfolding insert_asc
  order_asc [] = []
  order_asc (r ∷ rs) = insert_asc r (order_asc rs)

  unfoldable pub insert_desc : A → List A → List A
  insert_desc r [] = r ∷ []
  insert_desc r (s ∷ rs) =
      let rest = insert_desc r rs in if leb (column s) (column r) then r ∷ s ∷ rs else s ∷ rest

  -- ORDER BY column DESC
  unfoldable pub order_desc : List A → List A
  unfolding insert_desc
  order_desc [] = []
  order_desc (r ∷ rs) = insert_desc r (order_desc rs)

  -- Each row is no newer than the ones before it.
  abbrev pub AllBefore : ℕ → List A → Type 0
  AllBefore n [] = Unit
  AllBefore n (r ∷ rs) = (column r ≤ n) × AllBefore n rs

  abbrev pub IsNewestFirst : List A → Type 0
  IsNewestFirst [] = Unit
  IsNewestFirst (r ∷ rs) = AllBefore (column r) rs × IsNewestFirst rs

  AllBefore-le : {m n : ℕ} (rs : List A) → m ≤ n → AllBefore m rs → AllBefore n rs
  AllBefore-le [] le h = tt
  AllBefore-le (r ∷ rs) le h = (omega arith, AllBefore-le rs le h.1)

  AllBefore-insert_desc :
      (n : ℕ) (r : A) (rs : List A) → column r ≤ n → AllBefore n rs → AllBefore n (insert_desc r rs)
  unfolding insert_desc
  AllBefore-insert_desc n r [] le h = (le, tt)
  AllBefore-insert_desc n r (s ∷ rs) le h = ground (arith, AllBefore-insert_desc n r rs le h.1)

  insert_desc-IsNewestFirst :
      (r : A) (rs : List A) → IsNewestFirst rs → IsNewestFirst (insert_desc r rs)
  unfolding insert_desc
  insert_desc-IsNewestFirst r [] h = (tt, tt)
  insert_desc-IsNewestFirst r (s ∷ rs) h = elim (Bool-cases (leb (column s) (column r))) [
    | inl e ↦ rw e ((ground (arith, e), AllBefore-le rs (ground (arith, e)) h.0), h)
    | inr e ↦ rw e (
      AllBefore-insert_desc (column s) r rs (ground (arith, e)) h.0,
      insert_desc-IsNewestFirst r rs h.1,
    )
  ]

  pub order_desc-IsNewestFirst : (rs : List A) → IsNewestFirst (order_desc rs)
  unfolding order_desc
  order_desc-IsNewestFirst [] = tt
  order_desc-IsNewestFirst (r ∷ rs) =
      insert_desc-IsNewestFirst r (order_desc rs) (order_desc-IsNewestFirst rs)

  row_count-insert_desc :
      (p : A → Bool) (r : A) (rs : List A) → row_count p (insert_desc r rs) ≡ row_count p (r ∷ rs)
  unfolding insert_desc row_count
  row_count-insert_desc p r [] = refl
  row_count-insert_desc p r (s ∷ rs) = ground (arith, row_count-insert_desc p r rs)

  pub row_count-order_desc :
      (p : A → Bool) (rs : List A) → row_count p (order_desc rs) ≡ row_count p rs
  unfolding order_desc row_count
  row_count-order_desc p [] = refl
  row_count-order_desc p (r ∷ rs) =
      row_count-insert_desc p r (order_desc rs) ∙ ground (arith, row_count-order_desc p rs)

  insert_desc-first : (r : A) (rs : List A) → AllBefore (column r) rs → insert_desc r rs ≡ r ∷ rs
  unfolding insert_desc
  insert_desc-first r [] h = refl
  insert_desc-first r (s ∷ rs) h = ground (arith, h.0)

  AllBefore-select_where :
      (n : ℕ) (p : A → Bool) (rs : List A) → AllBefore n rs → AllBefore n (select_where p rs)
  unfolding select_where
  AllBefore-select_where n p [] h = tt
  AllBefore-select_where n p (r ∷ rs) h = ground (arith, AllBefore-select_where n p rs h.1)

  select_where-insert_hit :
      (p : A → Bool) (r : A) (rs : List A)
      → p r ≡ true
      → IsNewestFirst rs
      → select_where p (insert_desc r rs) ≡ insert_desc r (select_where p rs)
  unfolding insert_desc select_where
  select_where-insert_hit p r [] e h = ground (arith, e)
  select_where-insert_hit p r (s ∷ rs) e h = elim (Bool-cases (leb (column s) (column r))) [
    | inl f ↦ elim (Bool-cases (p s)) [
      | inl g ↦ ground (arith, e, f, g)
      | inr g ↦
          rw (f, select_where, e, g)
            (sym (
              insert_desc-first r (select_where p rs)
                (AllBefore-select_where (column r) p rs (AllBefore-le rs (ground (arith, f)) h.0))))
    ]
    | inr f ↦ ground (arith, e, f, select_where-insert_hit p r rs e h.1)
  ]

  select_where-insert_miss :
      (p : A → Bool) (r : A) (rs : List A)
      → p r ≡ false
      → select_where p (insert_desc r rs) ≡ select_where p rs
  unfolding insert_desc select_where
  select_where-insert_miss p r [] e = ground (arith, e)
  select_where-insert_miss p r (s ∷ rs) e = ground (arith, e, select_where-insert_miss p r rs e)

  -- A SELECT gives the same rows before an ORDER BY and after it.
  pub select_where-order_desc :
      (p : A → Bool) (rs : List A) → select_where p (order_desc rs) ≡ order_desc (select_where p rs)
  unfolding order_desc select_where
  select_where-order_desc p [] = refl
  select_where-order_desc p (r ∷ rs) = elim (Bool-cases (p r)) [
    | inl e ↦
        select_where-insert_hit p r (order_desc rs) e (order_desc-IsNewestFirst rs)
        ∙ ground (arith, e, select_where-order_desc p rs)
    | inr e ↦
        select_where-insert_miss p r (order_desc rs) e
        ∙ ground (arith, e, select_where-order_desc p rs)
  ]

  abbrev pub AllOlder : ℕ → List A → Type 0
  AllOlder n [] = Unit
  AllOlder n (r ∷ rs) = (column r < n) × AllOlder n rs

  -- A row that is newer than all the others comes first, wherever it was inserted.
  pub order_desc-append_newest :
      (rs : List A) (r : A) → AllOlder (column r) rs → order_desc (rs ++ r ∷ []) ≡ r ∷ order_desc rs
  unfolding order_desc
  order_desc-append_newest [] r h = refl
  order_desc-append_newest (s ∷ rs) r h = rw (order_desc-append_newest rs r h.1) (ground arith)

  pub AllOlder-select_where :
      (n : ℕ) (p : A → Bool) (rs : List A) → AllOlder n rs → AllOlder n (select_where p rs)
  unfolding select_where
  AllOlder-select_where n p [] h = tt
  AllOlder-select_where n p (r ∷ rs) h = ground (arith, AllOlder-select_where n p rs h.1)

  AllOlder-insert_desc :
      (n : ℕ) (r : A) (rs : List A) → column r < n → AllOlder n rs → AllOlder n (insert_desc r rs)
  unfolding insert_desc
  AllOlder-insert_desc n r [] lt h = (lt, tt)
  AllOlder-insert_desc n r (s ∷ rs) lt h = ground (arith, AllOlder-insert_desc n r rs lt h.1)

  pub AllOlder-order_desc : (n : ℕ) (rs : List A) → AllOlder n rs → AllOlder n (order_desc rs)
  unfolding order_desc
  AllOlder-order_desc n [] h = tt
  AllOlder-order_desc n (r ∷ rs) h =
      AllOlder-insert_desc n r (order_desc rs) h.0 (AllOlder-order_desc n rs h.1)
