-- ===== src/Prelude/Sorted.antt =====
-- Tables with a primary key, as a SELECT and an ORDER BY leave them.
use Prim.Native.String.{String}
use Prim.Native.Nat.{ℕ}
use mathlib.Core.Path.{◌≡◌}
use mathlib.Core.Logic.{inl, inr}
use mathlib.Core.Bool.{Bool, false}
use mathlib.Core.List.{List, [], ◌∷◌}
use native.Mathlib.Omega.{arith}
use text.Mathlib.TextEquality.{eq_iff}
use bugalizer.Prelude.Tests.{string_eq, Bool-cases, leb}
use bugalizer.Prelude.Tables.{select_where}
use bugalizer.Prelude.Keys.{has_key, Fresh, IsKeyed}
use bugalizer.Prelude.Order.{insert_asc, order_asc}

module _ {A : Type 0} (key : A → String) where
  Fresh-select_where :
      (k : String) (p : A → Bool) (rs : List A) → Fresh key k rs → Fresh key k (select_where p rs)
  unfolding select_where
  Fresh-select_where k p [] h = tt
  Fresh-select_where k p (r ∷ rs) h = ground (arith, h.0, Fresh-select_where k p rs h.1)

  pub IsKeyed-select_where :
      (p : A → Bool) (rs : List A) → IsKeyed key rs → IsKeyed key (select_where p rs)
  unfolding select_where
  IsKeyed-select_where p [] h = tt
  IsKeyed-select_where p (r ∷ rs) h =
      ground (arith, Fresh-select_where (key r) p rs h.0, IsKeyed-select_where p rs h.1)

  Fresh-insert_asc :
      (column : A → ℕ) (k : String) (r : A) (rs : List A)
      → has_key key k r ≡ false
      → Fresh key k rs
      → Fresh key k (insert_asc column r rs)
  unfolding insert_asc
  Fresh-insert_asc column k r [] e h = (e, tt)
  Fresh-insert_asc column k r (s ∷ rs) e h = elim (Bool-cases (leb (column r) (column s))) [
    | inl g ↦ rw g (e, h)
    | inr g ↦ rw g (h.0, Fresh-insert_asc column k r rs e h.1)
  ]

  IsKeyed-insert_asc :
      (column : A → ℕ) (r : A) (rs : List A)
      → Fresh key (key r) rs
      → IsKeyed key rs
      → IsKeyed key (insert_asc column r rs)
  unfolding insert_asc
  IsKeyed-insert_asc column r [] e h = (tt, tt)
  IsKeyed-insert_asc column r (s ∷ rs) e h = elim (Bool-cases (leb (column r) (column s))) [
    | inl g ↦ rw g (e, h)
    | inr g ↦
        let apart : has_key key (key s) r ≡ false =
          ground (arith, e.0, eq_iff (key s) (key r), eq_iff (key r) (key s)) in
        rw g
          (Fresh-insert_asc column (key s) r rs apart h.0, IsKeyed-insert_asc column r rs e.1 h.1)
  ]

  Fresh-order_asc :
      (column : A → ℕ) (k : String) (rs : List A)
      → Fresh key k rs
      → Fresh key k (order_asc column rs)
  unfolding order_asc
  Fresh-order_asc column k [] h = tt
  Fresh-order_asc column k (r ∷ rs) h =
      Fresh-insert_asc column k r (order_asc column rs) h.0 (Fresh-order_asc column k rs h.1)

  pub IsKeyed-order_asc :
      (column : A → ℕ) (rs : List A) → IsKeyed key rs → IsKeyed key (order_asc column rs)
  unfolding order_asc
  IsKeyed-order_asc column [] h = tt
  IsKeyed-order_asc column (r ∷ rs) h =
      IsKeyed-insert_asc column r (order_asc column rs) (Fresh-order_asc column (key r) rs h.0)
        (IsKeyed-order_asc column rs h.1)
