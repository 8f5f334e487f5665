-- ===== src/Prelude.antt =====
-- The names that the other modules share: those of the libraries, passed on, and of seven children.
mod Tests
mod Lists
mod Results
mod Filters
mod Int
mod Texts
mod Strings
pub use Tests.*
pub use Lists.*
pub use Results.*
pub use Filters.*
pub use Int.*
pub use Texts.*
pub use Strings.*
pub use Prim.Native.Nat.{ℕ, zero, suc, ◌+◌, ◌-◌, ◌*◌, ◌/◌, ◌%◌, ◌^◌, ◌≤◌, ◌<◌, min, max}
pub use mathlib.Core.Path.{◌≡◌, refl, sym, ap, ◌∙◌, subst}
pub use mathlib.Core.Logic.{◌≢◌, ◌↔◌, ◌⊎◌, inl, inr}
pub use mathlib.Core.Bool.{Bool, true, false, not, ◌&&◌, ◌||◌}
pub use mathlib.Core.Option.{Option, none, some}
pub use mathlib.Core.List.{List, [], ◌∷◌, ◌++◌, map}
pub use native.Mathlib.Omega.{arith}
