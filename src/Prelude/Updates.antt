-- ===== src/Prelude/Updates.antt =====
-- A compare-and-set on the row of a primary key: who wins it, and what it leaves alone.
use mathlib.Core.Option
use mathlib.Core.Bool.{false≢true}
use Prim.Native.String.{String}
use mathlib.Core.Path.{◌≡◌, sym, ap, ◌∙◌}
use mathlib.Core.Logic.{◌≢◌, inl, inr}
use mathlib.Core.Bool.{Bool, true, false, ◌&&◌}
use mathlib.Core.Option.{Option, none, some}
use mathlib.Core.List.{List}
use native.Mathlib.Omega.{arith}
use text.Mathlib.TextEquality.{eq_iff}
use text.Mathlib.TextPositions.{eq_refl}
use bugalizer.Prelude.Tests.{nat_beq, Bool-cases, Option-cases}
use bugalizer.Prelude.Tables.{
  update_where, row_count, touch, holds, one_if, Unmatched-of_row_count, update_where-Unmatched,
}
use bugalizer.Prelude.Keys.{
  get, has_key, IsKeyed, KeepsKey, get-key, row_count-get, get-update_where, IsKeyed-update_where,
}

module _ {A : Type 0} (key : A → String) where
  abbrev pub when_key : String → (A → Bool) → A → Bool
  when_key id p r = has_key key id r && p r

  -- `UPDATE … WHERE id = ? AND …`, and whether it changed one row.
  abbrev pub cas : String → (A → Bool) → (A → A) → List A → List A × Bool
  cas id p f rs = (update_where (when_key id p) f rs, nat_beq (row_count (when_key id p) rs) 1)

  module _ (id : String) (p : A → Bool) (f : A → A) (rs : List A) where
    -- On a table with a primary key, an update wins exactly if the row of that key passes the test.
    pub cas-won : IsKeyed key rs → (cas id p f rs).1 ≡ holds p (get key id rs)
    cas-won h = elim (Bool-cases (holds p (get key id rs))) [
      | inl e ↦ rw (row_count-get key id p rs h) (rw e)
      | inr e ↦ rw (row_count-get key id p rs h) (rw e)
    ]

    -- The table of an update that lost is the old one.
    pub cas_lost : IsKeyed key rs → holds p (get key id rs) ≡ false → cas id p f rs ≡ (rs, false)
    cas_lost h e =
        let none_hit : row_count (when_key id p) rs ≡ 0 =
          row_count-get key id p rs h ∙ ap one_if e in
        rw (none_hit, update_where-Unmatched _ f rs (Unmatched-of_row_count _ rs none_hit))

    pub get-cas :
        (j : String)
        → KeepsKey key f
        → get key j (cas id p f rs).0 ≡ Option.map (touch (when_key id p) f) (get key j rs)
    get-cas j keep = get-update_where key j (when_key id p) f rs keep

    pub cas-IsKeyed : KeepsKey key f → IsKeyed key rs → IsKeyed key (cas id p f rs).0
    cas-IsKeyed keep h = IsKeyed-update_where key (when_key id p) f rs keep h

    -- The row that a winning update leaves under its key.
    pub get-cas_won :
        (r : A)
        → KeepsKey key f
        → get key id rs ≡ some r
        → p r ≡ true
        → get key id (cas id p f rs).0 ≡ some (f r)
    get-cas_won r keep found e =
        get-cas id keep ∙ ground (arith, found, e, get-key key id rs r found, eq_refl id)

    -- An update leaves the rows of other keys alone.
    pub get-cas_ne :
        (j : String) → KeepsKey key f → j ≢ id → get key j (cas id p f rs).0 ≡ get key j rs
    get-cas_ne j keep ne = elim (Option-cases (get key j rs)) [
      | inl e ↦ get-cas j keep ∙ rw e
      | inr (r, e) ↦
          get-cas j keep ∙ ground (arith, e, get-key key j rs r e, eq_iff (key r) id, eq_iff j id)
    ]

  -- After an update whose row no longer passes a second test, the second update loses and changes
  -- nothing.
  pub cas_twice :
      (id : String) (p q : A → Bool) (f g : A → A) (rs : List A) (r : A)
      → KeepsKey key f
      → IsKeyed key rs
      → get key id rs ≡ some r
      → p r ≡ true
      → q (f r) ≡ false
      → cas id q g (cas id p f rs).0 ≡ ((cas id p f rs).0, false)
  cas_twice id p q f g rs r keep keyed found e miss =
      cas_lost id q g (cas id p f rs).0 (cas-IsKeyed id p f rs keep keyed)
        (ap (holds q) (get-cas_won id p f rs r keep found e) ∙ miss)

  -- A won update had a row to change.
  pub cas_won_row :
      (id : String) (p : A → Bool) (f : A → A) (rs : List A)
      → IsKeyed key rs
      → (cas id p f rs).1 ≡ true
      → (r : A) × (get key id rs ≡ some r) × (p r ≡ true)
  cas_won_row id p f rs keyed won = elim (Option-cases (get key id rs)) [
    | inl e ↦ absurd (false≢true (sym (ap (holds p) e) ∙ sym (cas-won id p f rs keyed) ∙ won))
    | inr (r, e) ↦ (r, e, sym (ap (holds p) e) ∙ sym (cas-won id p f rs keyed) ∙ won)
  ]
