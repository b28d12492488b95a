-- ===== src/Prelude/Tests.antt =====
-- Boolean tests, the conditional, and equality as an interface with its law.
use Prim.Native.Nat.{ℕ, compare, Ordering}
use Prim.Native.String.{String}
use mathlib.Core.Path.{◌≡◌, refl, sym, ap, ◌∙◌}
use mathlib.Core.Logic.{◌↔◌, ◌≢◌, ◌⊎◌, inl, inr}
use mathlib.Core.Bool.{Bool, true, false, ◌&&◌, not}
use mathlib.Core.Option.{Option, none, some}
use native.Mathlib.Omega.{arith}
use text.Mathlib.Text.{◌==◌ as str_eq}
use text.Mathlib.TextEquality.{eq_iff}

abbrev pub ltb : ℕ → ℕ → Bool
ltb a b = elim (compare a b) [ Ordering.lt ↦ true | _ ↦ false ]

abbrev pub leb : ℕ → ℕ → Bool
leb a b = elim (compare a b) [ Ordering.gt ↦ false | _ ↦ true ]

abbrev pub nat_beq : ℕ → ℕ → Bool
nat_beq a b = elim (compare a b) [ Ordering.eq ↦ true | _ ↦ false ]

infix 1 if◌then◌else◌
abbrev pub if◌then◌else◌ {ℓ} : {A : Type ℓ} → Bool → A → A → A
if true then x else y = x
if false then x else y = y

pub nat_beq_iff : (a b : ℕ) → (nat_beq a b ≡ true) ↔ (a ≡ b)
nat_beq_iff a b = ground arith

-- Python's `==` on the values of one type: a test that is exact.
pub record Comparable {ℓ} (T : Type ℓ) : Type ℓ where
  pub test : T → T → Bool
  pub exact : (x y : T) → (test x y ≡ true) ↔ (x ≡ y)

-- Texts go by their code points.
instance abbrev pub string_eq : Comparable String
string_eq = record { test = λ s t. str_eq s t; exact = λ s t. eq_iff s t }

module _ {ℓ} {T : Type ℓ} ⦃c : Comparable T⦄ where
  infix 50 ◌==◌
  abbrev pub ◌==◌ : T → T → Bool
  x == y = c.test x y

  pub eq_of_test : (x y : T) → (x == y) ≡ true → x ≡ y
  eq_of_test x y h = (c.exact x y).0 h

-- Members of an enumeration are compared by their position in it.
module _ {A : Type 0} (rank : A → ℕ) (unrank : ℕ → A)
    (inverse : (a : A) → unrank (rank a) ≡ a) where
  pub rank_iff : (a b : A) → (nat_beq (rank a) (rank b) ≡ true) ↔ (a ≡ b)
  rank_iff a b = (
    λ h. sym (inverse a) ∙ ap unrank ((nat_beq_iff (rank a) (rank b)).0 h) ∙ inverse b,
    λ h. (nat_beq_iff (rank a) (rank b)).1 (ap rank h),
  )

  abbrev pub rank_eq : Comparable A
  rank_eq = record { test = λ a b. nat_beq (rank a) (rank b); exact = rank_iff }

-- To split on a computed value and keep the equation.
pub Bool-cases : (b : Bool) → (b ≡ true) ⊎ (b ≡ false)
Bool-cases true = inl refl
Bool-cases false = inr refl

pub Option-cases {ℓ} : {A : Type ℓ} (o : Option A) → (o ≡ none) ⊎ ((a : A) × (o ≡ some a))
Option-cases none = inl refl
Option-cases (some a) = inr (a, refl)

module _ {ℓ} {A : Type ℓ} ⦃e : Comparable A⦄ where
  pub ==-ne : (a b : A) → a ≢ b → (a == b) ≡ false
  ==-ne a b h = elim (Bool-cases (a == b)) [ inl t ↦ absurd (h ((e.exact a b).0 t)) | inr f ↦ f ]

  pub ==-self : (a : A) → (a == a) ≡ true
  ==-self a = (e.exact a a).1 refl

-- The conjuncts of a test that passed, and the test against its negation.
pub and_true : (a b : Bool) → (a && b) ≡ true → (a ≡ true) × (b ≡ true)
and_true true b h = (refl, h)
and_true false b h = cc

pub false_of_not : (b : Bool) → not b ≡ true → b ≡ false
false_of_not true h = cc
false_of_not false h = refl

-- What holds of both branches holds of a conditional.
pub if_lem {ℓ ℓ'} :
    {A : Type ℓ} (P : A → Type ℓ') (b : Bool) (x y : A)
    → (b ≡ true → P x)
    → (b ≡ false → P y)
    → P (if b then x else y)
if_lem P true x y h k = h refl
if_lem P false x y h k = k refl
