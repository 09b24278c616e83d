-- ===== src/Prelude.antt =====
-- The names that every part shares: the library's, passed on, and the helpers of the modules below.
mod Tests
mod Lists
mod Results
pub mod Dict
pub mod Text
pub mod Utf8
pub mod Json
mod Int
mod Membership
mod Forall
pub use Tests.*
pub use Lists.*
pub use Results.*
pub use Int.*
unfoldable pub use Membership.*
pub use Forall.*
pub use Prim.Native.Nat.{ℕ, zero, suc, ◌+◌, ◌-◌, ◌*◌, ◌/◌, ◌%◌, ◌≤◌, ◌<◌}
pub use Prim.Native.String.{String}
pub use mathlib.Core.Path.{◌≡◌, refl, sym, ap, ◌∙◌}
pub use mathlib.Core.Logic.{◌≢◌, ◌↔◌, ◌⊎◌, inl, inr}
pub use mathlib.Core.Bool.{Bool, true, false, not, ◌&&◌, ◌||◌}
pub use mathlib.Core.Option.{Option, none, some}
pub use mathlib.Core.List.{List, [], ◌∷◌, ◌++◌, map}
pub use native.Mathlib.Omega.{arith}
pub use text.Mathlib.Text.{◌==◌}
pub use text.Mathlib.TextEquality.{eq_iff}
pub use text.Mathlib.TextPositions.{eq_refl}
