-- ===== src/Prelude.antt =====
-- The names that the other modules share.
mod Tests
mod Tables
mod Keys
mod Updates
mod Order
mod Members
mod Sorted
mod Joined
pub use Tests.*
unfoldable pub use Tables.*
unfoldable pub use Keys.*
unfoldable pub use Updates.*
unfoldable pub use Order.*
pub use Members.*
pub use Sorted.*
pub use Joined.*
pub use Prim.Native.Nat.{ℕ, zero, suc, ◌+◌, ◌-◌, ◌*◌, ◌/◌, ◌^◌, ◌≤◌, ◌<◌}
pub use Prim.Native.String.{String}
pub use mathlib.Core.Path.{◌≡◌, refl, sym, ap, ◌∙◌, subst}
pub use mathlib.Core.Logic.{◌≢◌, ◌↔◌, ◌⊎◌, inl, inr}
pub use mathlib.Core.Bool.{Bool, true, false, ◌&&◌, ◌||◌, not}
pub use mathlib.Core.Option.{Option, none, some}
pub use mathlib.Core.List.{List, [], ◌∷◌, ◌++◌, map}
pub use native.Mathlib.Omega.{arith}
pub use text.Mathlib.TextEquality.{eq_iff}
pub use text.Mathlib.TextPositions.{eq_refl}
