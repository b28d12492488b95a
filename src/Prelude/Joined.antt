-- ===== src/Prelude/Joined.antt =====
-- Tables with a primary key, one after another.
use Prim.Native.String.{String}
use mathlib.Core.Path.{◌≡◌, refl, sym, ◌∙◌, ap}
use mathlib.Core.Logic.{◌⊎◌, inl, inr}
use mathlib.Core.Bool.{false}
use mathlib.Core.List.{List, [], ◌∷◌, ◌++◌}
use native.Mathlib.Omega.{arith}
use text.Mathlib.TextEquality.{eq_iff}
use bugalizer.Prelude.Tests.{string_eq}
use bugalizer.Prelude.Keys.{has_key, Fresh, IsKeyed}
use bugalizer.Prelude.Members.{IsIn, Fresh-IsIn}

module _ {A : Type 0} (key : A → String) where
  pub Fresh-of_apart :
      (k : String) (rs : List A) → ((r : A) → IsIn r rs → has_key key k r ≡ false) → Fresh key k rs
  Fresh-of_apart k [] h = tt
  Fresh-of_apart k (r ∷ rs) h = (h r (inl refl), Fresh-of_apart k rs (λ s m. h s (inr m)))

  -- Two rows of a table with one key are one row.
  pub same_row :
      (r s : A) (rs : List A) → IsKeyed key rs → IsIn r rs → IsIn s rs → key r ≡ key s → r ≡ s
  same_row r s [] h m n e = absurd m
  same_row r s (t ∷ rs) h (inl a) (inl b) e = sym a ∙ b
  same_row r s (t ∷ rs) h (inl a) (inr n) e =
      absurd
        (ground (arith, Fresh-IsIn key (key t) s rs h.0 n, ap key a, e, eq_iff (key s) (key t)))
  same_row r s (t ∷ rs) h (inr m) (inl b) e =
      absurd
        (ground (arith, Fresh-IsIn key (key t) r rs h.0 m, ap key b, e, eq_iff (key r) (key t)))
  same_row r s (t ∷ rs) h (inr m) (inr n) e = same_row r s rs h.1 m n e

  pub Fresh-++ :
      (k : String) (rs ss : List A) → Fresh key k rs → Fresh key k ss → Fresh key k (rs ++ ss)
  Fresh-++ k [] ss h g = g
  Fresh-++ k (r ∷ rs) ss h g = (h.0, Fresh-++ k rs ss h.1 g)

  pub IsKeyed-++ :
      (rs ss : List A)
      → IsKeyed key rs
      → IsKeyed key ss
      → ((r : A) → IsIn r rs → Fresh key (key r) ss)
      → IsKeyed key (rs ++ ss)
  IsKeyed-++ [] ss h g apart = g
  IsKeyed-++ (r ∷ rs) ss h g apart = (
    Fresh-++ (key r) rs ss h.0 (apart r (inl refl)),
    IsKeyed-++ rs ss h.1 g (λ s m. apart s (inr m)),
  )

pub IsIn-++ : {A : Type 0} (r : A) (rs ss : List A) → IsIn r (rs ++ ss) → IsIn r rs ⊎ IsIn r ss
IsIn-++ r [] ss m = inr m
IsIn-++ r (s ∷ rs) ss (inl e) = inl (inl e)
IsIn-++ r (s ∷ rs) ss (inr m) = elim (IsIn-++ r rs ss m) [ inl a ↦ inl (inr a) | inr b ↦ inr b ]
