-- ===== src/Common.antt =====
-- Shared names: the libraries', passed on, and those of the children, which hold the Boolean tests,
-- the list helpers and the JavaScript text operations that several parts of the suite use.
mod Tests
mod Lists
mod Text
pub use Tests.*
pub use Lists.*
pub use Text.{is_space, is_empty, truthy, ends_with, without_first, is_char}
unfoldable pub use Text.{trim, utf16_length, without_prefix, before_char, without_last}
pub use Prim.Native.Nat.{ℕ, zero, suc, ◌+◌, ◌-◌, ◌*◌, ◌/◌, ◌%◌, ◌^◌, ◌≤◌, ◌<◌}
pub use Prim.Native.String.{String}
pub use mathlib.Core.Path.{◌≡◌, refl, sym, ap, subst, ◌∙◌}
pub use mathlib.Core.Logic.{◌≢◌, ◌↔◌, ◌⊎◌, inl, inr}
pub use mathlib.Core.Bool.{Bool, true, false, not, ◌&&◌, ◌||◌}
pub use mathlib.Core.Option.{Option, none, some}
pub use mathlib.Core.List.{List, [], ◌∷◌, ◌++◌, map}
pub use native.Mathlib.Omega.{arith}
pub use text.Mathlib.Text.{◌==◌}
pub use text.Mathlib.TextEquality.{eq_iff}
