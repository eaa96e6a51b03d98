-- ===== src/Base.antt =====
-- The names that the components share: the libraries', passed on, and those of six children.
-- It models no code of its own beyond Python's built-in lists, dictionaries and texts.
mod Tests
mod Lists
mod Rows
mod Keys
mod Dicts
mod Text
pub use Tests.*
unfoldable pub use Lists.*
unfoldable pub use Rows.*
unfoldable pub use Keys.*
unfoldable pub use Dicts.*
unfoldable pub use Text.*
pub use Prim.Native.Nat.{ℕ, zero, suc, ◌+◌, ◌-◌, ◌*◌, ◌/◌, ◌%◌, ◌^◌, ◌≤◌, ◌<◌}
pub use Prim.Native.String.{String}
pub use mathlib.Core.Path.{◌≡◌, refl, sym, ap, ◌∙◌}
pub use mathlib.Core.Logic.{◌≢◌, ◌↔◌, ◌⊎◌, inl, inr}
pub use mathlib.Core.Bool.{Bool, true, false, not, ◌&&◌, ◌||◌}
pub use mathlib.Core.Option.{Option, none, some}
pub use mathlib.Core.List.{List, [], ◌∷◌, ◌++◌}
pub use native.Mathlib.Omega.{arith}
pub use text.Mathlib.TextEquality.{eq_iff}
