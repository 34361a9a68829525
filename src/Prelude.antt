-- ===== src/Prelude.antt =====
-- The names that every part shares: the libraries', passed on, and those of the child modules.
mod Tests
mod Lists
pub mod Dict
mod Errors
mod Texts
pub use Tests.*
pub use Lists.*
pub use Errors.*
unfoldable pub use Texts.{same_text, atoi}
pub use Texts.{
  same_text_refl, lit, lower_rune, to_lower, upper_rune, to_upper, one_of, is_space, is_positive,
}
pub use Prim.Native.Nat.{ℕ, zero, suc, ◌+◌, ◌-◌, ◌*◌, ◌/◌, ◌%◌, ◌^◌, ◌≤◌, ◌<◌}
pub use Prim.Native.String.{String}
pub use mathlib.Core.Path.{◌≡◌, refl, sym, ap, ◌∙◌, subst}
pub use mathlib.Core.Logic.{◌≢◌, ◌↔◌, ◌⊎◌, inl, inr}
pub use mathlib.Core.Bool.{Bool, true, false, not, ◌&&◌, ◌||◌}
pub use mathlib.Core.Option.{Option, none, some}
pub use mathlib.Core.List.{List, [], ◌∷◌, ◌++◌, map}
pub use native.Mathlib.Omega.{arith}
pub use text.Mathlib.Text.{◌==◌ as str_eq}
pub use text.Mathlib.TextEquality.{eq_iff}
