-- ===== src/Prelude/Tables.antt =====
-- A table is the list of its rows; an UPDATE, a DELETE and a SELECT go by a test on the row.
use Prim.Native.Nat.{ℕ, suc, ◌+◌}
use mathlib.Core.Path.{◌≡◌, refl}
use mathlib.Core.Logic.{inl, inr}
use mathlib.Core.Bool.{Bool, true, false, ◌&&◌}
use mathlib.Core.Option.{Option, none, some}
use mathlib.Core.List.{List, [], ◌∷◌, ◌++◌}
use native.Mathlib.Omega.{arith}
use bugalizer.Prelude.Tests.{string_eq, if◌then◌else◌, Bool-cases}

module _ {A : Type 0} where
  abbrev pub touch : (A → Bool) → (A → A) → A → A
  touch p f r = if p r then f r else r

  -- UPDATE … SET f WHERE p
  unfoldable pub update_where : (A → Bool) → (A → A) → List A → List A
  update_where p f [] = []
  update_where p f (r ∷ rs) = touch p f r ∷ update_where p f rs

  -- The rows that a statement matches: `cursor.rowcount`.
  unfoldable pub row_count : (A → Bool) → List A → ℕ
  row_count p [] = 0
  row_count p (r ∷ rs) = if p r then suc (row_count p rs) else row_count p rs

  -- DELETE … WHERE p
  unfoldable pub delete_where : (A → Bool) → List A → List A
  delete_where p [] = []
  delete_where p (r ∷ rs) = let rest = delete_where p rs in if p r then rest else r ∷ rest

  -- SELECT … WHERE p
  unfoldable pub select_where : (A → Bool) → List A → List A
  select_where p [] = []
  select_where p (r ∷ rs) = let rest = select_where p rs in if p r then r ∷ rest else rest

  -- SELECT … WHERE p, then `fetchone`
  unfoldable pub first_where : (A → Bool) → List A → Option A
  first_where p [] = none
  first_where p (r ∷ rs) = if p r then some r else first_where p rs

  abbrev pub any : (A → Bool) → List A → Bool
  any p [] = false
  any p (r ∷ rs) = if p r then true else any p rs

  -- No row matches.
  abbrev pub Unmatched : (A → Bool) → List A → Type 0
  Unmatched p [] = Unit
  Unmatched p (r ∷ rs) = (p r ≡ false) × Unmatched p rs

  pub row_count-Unmatched : (p : A → Bool) (rs : List A) → Unmatched p rs → row_count p rs ≡ 0
  unfolding row_count
  row_count-Unmatched p [] h = refl
  row_count-Unmatched p (r ∷ rs) h = ground (arith, row_count-Unmatched p rs h.1)

  pub Unmatched-of_row_count : (p : A → Bool) (rs : List A) → row_count p rs ≡ 0 → Unmatched p rs
  unfolding row_count
  Unmatched-of_row_count p [] h = tt
  Unmatched-of_row_count p (r ∷ rs) h = elim (Bool-cases (p r)) [
    | inl e ↦ absurd (ground arith)
    | inr e ↦ (e, Unmatched-of_row_count p rs (ground arith))
  ]

  pub update_where-Unmatched :
      (p : A → Bool) (f : A → A) (rs : List A) → Unmatched p rs → update_where p f rs ≡ rs
  unfolding update_where
  update_where-Unmatched p f [] h = refl
  update_where-Unmatched p f (r ∷ rs) h = rw (h.0, update_where-Unmatched p f rs h.1)

  pub select_where-Unmatched :
      (p : A → Bool) (rs : List A) → Unmatched p rs → select_where p rs ≡ []
  unfolding select_where
  select_where-Unmatched p [] h = refl
  select_where-Unmatched p (r ∷ rs) h = ground (arith, h.0, select_where-Unmatched p rs h.1)

  pub first_where-select_where :
      (p q : A → Bool) (rs : List A)
      → first_where q (select_where p rs) ≡ first_where (λ r. p r && q r) rs
  unfolding first_where select_where
  first_where-select_where p q [] = refl
  first_where-select_where p q (r ∷ rs) = ground (arith, first_where-select_where p q rs)

  pub select_where-select_where :
      (p q : A → Bool) (rs : List A)
      → select_where q (select_where p rs) ≡ select_where (λ r. p r && q r) rs
  unfolding select_where
  select_where-select_where p q [] = refl
  select_where-select_where p q (r ∷ rs) = ground (arith, select_where-select_where p q rs)

  -- The row that the update leaves does not match `q`: no row does after it.
  pub row_count-update_where :
      (q p : A → Bool) (f : A → A)
      → ((r : A) → q (touch p f r) ≡ false)
      → (rs : List A) → row_count q (update_where p f rs) ≡ 0
  unfolding row_count update_where
  row_count-update_where q p f h [] = refl
  row_count-update_where q p f h (r ∷ rs) = ground (arith, h r, row_count-update_where q p f h rs)

abbrev pub holds {ℓ} : {A : Type ℓ} → (A → Bool) → Option A → Bool
holds q none = false
holds q (some r) = q r

abbrev pub one_if : Bool → ℕ
one_if true = 1
one_if false = 0

abbrev pub unless {ℓ} : {A : Type ℓ} → (A → Bool) → Option A → Option A
unless p none = none
unless p (some r) = if p r then none else some r

module _ {A : Type 0} where
  pub select_where-append :
      (p : A → Bool) (rs : List A) (r : A)
      → select_where p (rs ++ r ∷ []) ≡ select_where p rs ++ select_where p (r ∷ [])
  unfolding select_where
  select_where-append p [] r = refl
  select_where-append p (s ∷ rs) r = ground (arith, select_where-append p rs r)

  pub row_count-select_where :
      (p q : A → Bool) (rs : List A)
      → row_count q (select_where p rs) ≡ row_count (λ r. p r && q r) rs
  unfolding select_where row_count
  row_count-select_where p q [] = refl
  row_count-select_where p q (r ∷ rs) = ground (arith, row_count-select_where p q rs)

  -- A DELETE takes every row that passes a narrower test, and none that passes a test apart.
  pub row_count-delete_where :
      (p q : A → Bool) (rs : List A)
      → ((r : A) → p r ≡ true → q r ≡ true)
      → row_count p (delete_where q rs) ≡ 0
  unfolding delete_where row_count
  row_count-delete_where p q [] h = refl
  row_count-delete_where p q (r ∷ rs) h = elim (Bool-cases (p r)) [
    | inl e ↦ ground (arith, h r e, row_count-delete_where p q rs h)
    | inr e ↦ ground (arith, e, row_count-delete_where p q rs h)
  ]

  pub select_where-delete_where :
      (p q : A → Bool) (rs : List A)
      → ((r : A) → p r ≡ true → q r ≡ false)
      → select_where p (delete_where q rs) ≡ select_where p rs
  unfolding delete_where select_where
  select_where-delete_where p q [] h = refl
  select_where-delete_where p q (r ∷ rs) h = elim (Bool-cases (p r)) [
    | inl e ↦ ground (arith, h r e, e, select_where-delete_where p q rs h)
    | inr e ↦ ground (arith, e, select_where-delete_where p q rs h)
  ]

  pub length-select_where :
      (q : A → Bool) (rs : List A) → row_count (λ _. true) (select_where q rs) ≡ row_count q rs
  unfolding select_where row_count
  length-select_where q [] = refl
  length-select_where q (r ∷ rs) = ground (arith, length-select_where q rs)

  pub row_count-append :
      (p : A → Bool) (rs : List A) (r : A)
      → row_count p (rs ++ r ∷ []) ≡ row_count p rs + (if p r then 1 else 0)
  unfolding row_count
  row_count-append p [] r = ground arith
  row_count-append p (s ∷ rs) r = ground (arith, row_count-append p rs r)

  pub update_where_cong :
      (p q : A → Bool) (f : A → A) (rs : List A)
      → ((r : A) → p r ≡ q r)
      → update_where p f rs ≡ update_where q f rs
  unfolding update_where
  update_where_cong p q f [] h = refl
  update_where_cong p q f (r ∷ rs) h = rw (h r, update_where_cong p q f rs h) refl
