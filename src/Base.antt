-- ===== src/Base.antt =====
-- The names that every component shares: the libraries', passed on, and those of the modules
-- below. It models no file of the program.
mod Tests
mod Lists
mod Keys
pub mod Int
pub mod Dict
pub mod Sorting
pub mod Text
pub mod Grouping
pub mod Sums
pub use Tests.*
pub use Lists.*
unfoldable pub use Text.{str, prefix, suffix, upper, lower, strip, lstrip, rstrip}
pub use Keys.*
pub use Prim.Native.Nat.{ℕ, zero, suc, ◌+◌, ◌-◌, ◌*◌, ◌/◌, ◌%◌, ◌≤◌, ◌<◌}
pub use Prim.Native.String.{String, ◌++◌ as str_append}
pub use mathlib.Core.Path.{◌≡◌, refl, sym, ap, ◌∙◌}
pub use mathlib.Core.Logic.{◌≢◌, ◌↔◌, ◌⊎◌, inl, inr}
pub use mathlib.Core.Bool.{Bool, true, false, not, ◌&&◌, ◌||◌}
pub use mathlib.Core.Option.{Option, none, some}
pub use mathlib.Core.List.{List, [], ◌∷◌, ◌++◌, map}
pub use native.Mathlib.Omega.{arith}
pub use text.Mathlib.Text.{◌==◌ as str_eq}
pub use text.Mathlib.TextEquality.{eq_iff}
