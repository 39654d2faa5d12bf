-- ===== src/Common.antt =====
-- The names that the other modules share: the libraries', passed on, and those of the children.
mod Tests
mod Lists
mod Maps
mod Results
pub mod Int
mod Values
mod Texts
pub use Tests.*
pub use Lists.*
pub use Maps.{Map, lookup-insert, lookup-erase, Unique, insert-Unique, erase-Unique, All-of_lookup}
unfoldable pub use Maps.{lookup, insert, erase}
pub use Results.*
pub use Int.{
  ℤ, pos, negsuc, ltb_ℤ, ◌≤ℤ◌, ≤ℤ_refl, ◌+ℤ◌, int_limit, ≤ℤ_trans, ltb_ℤ-true, ltb_ℤ-false,
}
unfoldable pub use Int.{wrap64}
pub use Values.{Any, Items, Fields, as_string, as_map}
unfoldable pub use Values.{same_value}
pub use Texts.{
  codes, same_codes, ends, starts_iff, ends_sound, ends_complete, occurs_sound, occurs_complete,
}
unfoldable pub use Texts.{starts, occurs}
pub use Prim.Native.Nat.{ℕ, zero, suc, ◌+◌, ◌-◌, ◌*◌, ◌%◌, ◌≤◌, ◌<◌, min}
pub use Prim.Native.String.{String}
pub use mathlib.Core.Path.{◌≡◌, refl, sym, ap, ◌∙◌, subst}
pub use mathlib.Core.Logic.{◌≢◌, ◌↔◌, ◌⊎◌, inl, inr}
pub use mathlib.Core.Bool.{Bool, true, false, not, ◌&&◌, ◌||◌}
pub use mathlib.Core.Option.{Option, none, some}
pub use mathlib.Core.List.{List, [], ◌∷◌, ◌++◌, map}
pub use native.Mathlib.Omega.{arith}
pub use text.Mathlib.Text.{◌==◌}
pub use text.Mathlib.TextEquality.{eq_iff}
pub use text.Mathlib.TextPositions.{eq_refl}
