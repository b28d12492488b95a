-- ===== src/Prelude/Keys.antt =====
-- Tables with a text for their primary key: lookups, and what a statement keeps of them.
use Prim.Native.String.{String}
use mathlib.Core.Path.{◌≡◌, refl, subst}
use mathlib.Core.Logic.{inl, inr}
use mathlib.Core.Bool.{Bool, false, ◌&&◌}
use mathlib.Core.Option
use mathlib.Core.Option.{Option, none, some}
use mathlib.Core.List.{List, [], ◌∷◌, ◌++◌}
use native.Mathlib.Omega.{arith}
use text.Mathlib.TextEquality.{eq_iff}
use bugalizer.Prelude.Tests.{◌==◌, string_eq, if◌then◌else◌, Bool-cases}
use bugalizer.Prelude.Tables.{delete_where, holds, one_if, row_count, touch, unless, update_where}

module _ {A : Type 0} (key : A → String) where
  abbrev pub has_key : String → A → Bool
  has_key k r = key r == k

  unfoldable pub get : String → List A → Option A
  get k [] = none
  get k (r ∷ rs) = if has_key k r then some r else get k rs

  abbrev pub Fresh : String → List A → Type 0
  Fresh k [] = Unit
  Fresh k (r ∷ rs) = (has_key k r ≡ false) × Fresh k rs

  -- PRIMARY KEY
  abbrev pub IsKeyed : List A → Type 0
  IsKeyed [] = Unit
  IsKeyed (r ∷ rs) = Fresh (key r) rs × IsKeyed rs

  abbrev pub KeepsKey : (A → A) → Type 0
  KeepsKey f = (r : A) → key (f r) ≡ key r

  -- An UPDATE of other columns changes each row in its place.
  pub get-update_where :
      (k : String) (p : A → Bool) (f : A → A) (rs : List A)
      → KeepsKey f
      → get k (update_where p f rs) ≡ Option.map (touch p f) (get k rs)
  unfolding get update_where
  get-update_where k p f [] keep = refl
  get-update_where k p f (r ∷ rs) keep = ground (arith, keep r, get-update_where k p f rs keep)

  touch-key : (p : A → Bool) (f : A → A) → KeepsKey f → (r : A) → key (touch p f r) ≡ key r
  touch-key p f keep r = ground (arith, keep r)

  Fresh-update_where :
      (k : String) (p : A → Bool) (f : A → A) (rs : List A)
      → KeepsKey f
      → Fresh k rs
      → Fresh k (update_where p f rs)
  unfolding update_where
  Fresh-update_where k p f [] keep h = tt
  Fresh-update_where k p f (r ∷ rs) keep h =
      (ground (arith, keep r), Fresh-update_where k p f rs keep h.1)

  pub IsKeyed-update_where :
      (p : A → Bool) (f : A → A) (rs : List A)
      → KeepsKey f
      → IsKeyed rs
      → IsKeyed (update_where p f rs)
  unfolding update_where
  IsKeyed-update_where p f [] keep h = tt
  IsKeyed-update_where p f (r ∷ rs) keep h = (
    rw (touch-key p f keep r) (Fresh-update_where (key r) p f rs keep h.0),
    IsKeyed-update_where p f rs keep h.1,
  )

  pub get-key : (k : String) (rs : List A) (r : A) → get k rs ≡ some r → key r ≡ k
  unfolding get
  get-key k [] r h = cc
  get-key k (r' ∷ rs) r h = ground (arith, eq_iff (key r') k, get-key k rs r)

  row_count-Fresh :
      (k : String) (q : A → Bool) (rs : List A)
      → Fresh k rs
      → row_count (λ r. has_key k r && q r) rs ≡ 0
  unfolding row_count
  row_count-Fresh k q [] h = refl
  row_count-Fresh k q (r ∷ rs) h = ground (arith, row_count-Fresh k q rs h.1)

  -- A statement on a primary key matches the row of that key, if it passes the other test.
  pub row_count-get :
      (k : String) (q : A → Bool) (rs : List A)
      → IsKeyed rs
      → row_count (λ r. has_key k r && q r) rs ≡ one_if (holds q (get k rs))
  unfolding row_count get
  row_count-get k q [] h = refl
  row_count-get k q (r ∷ rs) h = elim (Bool-cases (has_key k r)) [
    | inl e ↦
        let fresh : Fresh k rs = subst (λ j. Fresh j rs) ((eq_iff (key r) k).0 e) h.0 in
        ground (arith, row_count-Fresh k q rs fresh)
    | inr e ↦ ground (arith, row_count-get k q rs h.1)
  ]

  get-Fresh : (k : String) (rs : List A) → Fresh k rs → get k rs ≡ none
  unfolding get
  get-Fresh k [] h = refl
  get-Fresh k (r ∷ rs) h = ground (arith, get-Fresh k rs h.1)

  Fresh-delete_where :
      (k : String) (p : A → Bool) (rs : List A) → Fresh k rs → Fresh k (delete_where p rs)
  unfolding delete_where
  Fresh-delete_where k p [] h = tt
  Fresh-delete_where k p (r ∷ rs) h = ground (arith, Fresh-delete_where k p rs h.1)

  pub get-delete_where :
      (k : String) (p : A → Bool) (rs : List A)
      → IsKeyed rs
      → get k (delete_where p rs) ≡ unless p (get k rs)
  unfolding get delete_where
  get-delete_where k p [] h = refl
  get-delete_where k p (r ∷ rs) h = elim (Bool-cases (has_key k r)) [
    | inl e ↦
        let fresh : Fresh k rs = subst (λ j. Fresh j rs) ((eq_iff (key r) k).0 e) h.0 in
        ground (arith, get-delete_where k p rs h.1, get-Fresh k rs fresh)
    | inr e ↦ ground (arith, get-delete_where k p rs h.1)
  ]

  pub IsKeyed-delete_where : (p : A → Bool) (rs : List A) → IsKeyed rs → IsKeyed (delete_where p rs)
  unfolding delete_where
  IsKeyed-delete_where p [] h = tt
  IsKeyed-delete_where p (r ∷ rs) h =
      ground (arith, IsKeyed-delete_where p rs h.1, Fresh-delete_where (key r) p rs h.0)

  -- INSERT
  pub get-append :
      (k : String) (rs : List A) (r : A)
      → get k rs ≡ none
      → get k (rs ++ r ∷ []) ≡ (if has_key k r then some r else none)
  unfolding get
  get-append k [] r h = refl
  get-append k (s ∷ rs) r h = ground (arith, get-append k rs r)

  pub get-append_some :
      (k : String) (rs : List A) (r s : A) → get k rs ≡ some s → get k (rs ++ r ∷ []) ≡ some s
  unfolding get
  get-append_some k [] r s h = cc
  get-append_some k (t ∷ rs) r s h = ground (arith, get-append_some k rs r s)

  Fresh-append :
      (k : String) (rs : List A) (r : A) → Fresh k rs → has_key k r ≡ false → Fresh k (rs ++ r ∷ [])
  Fresh-append k [] r h e = (e, tt)
  Fresh-append k (s ∷ rs) r h e = (h.0, Fresh-append k rs r h.1 e)

  pub IsKeyed-append :
      (rs : List A) (r : A) → get (key r) rs ≡ none → IsKeyed rs → IsKeyed (rs ++ r ∷ [])
  unfolding get
  IsKeyed-append [] r h k = (tt, tt)
  IsKeyed-append (s ∷ rs) r h k = elim (Bool-cases (has_key (key r) s)) [
    | inl e ↦ absurd (ground (arith, e, h))
    | inr e ↦ (
      Fresh-append (key s) rs r k.0
          (ground (arith, e, eq_iff (key s) (key r), eq_iff (key r) (key s))),
      IsKeyed-append rs r (ground (arith, h, e)) k.1,
    )
  ]
