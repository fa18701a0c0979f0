-- ===== src/Common.antt =====
-- Shared names: the libraries', passed on, and those of the children.
mod Tests
mod Lists
mod Errors
mod Assoc
pub use Tests.*
pub use Lists.*
pub use Errors.*
pub use Assoc.{
  lookup-insert, lookup-erase, lookup-index_by, lookup-index_by_sound, lookup-index_by_absent,
  lookup-index_onto_absent,
}
unfoldable pub use Assoc.{Dict, lookup, insert, erase, values, index_onto, index_by}
pub use Prim.Native.Nat.{ℕ, zero, suc, ◌+◌, ◌-◌, ◌*◌, ◌≤◌, ◌<◌, max}
pub use Prim.Native.String.{String}
pub use mathlib.Core.Path.{◌≡◌, refl, sym, ap, ◌∙◌, subst}
pub use mathlib.Core.Logic.{◌≢◌, ◌⊎◌, inl, inr, ◌↔◌}
pub use mathlib.Core.Bool.{Bool, true, false, ◌&&◌, ◌||◌, not}
pub use mathlib.Core.Option.{Option, none, some}
pub use mathlib.Core.List.{List, [], ◌∷◌, ◌++◌, map, Memᴰ}
pub use native.Mathlib.Omega.{arith}
pub use text.Mathlib.Text.{◌==◌}
pub use text.Mathlib.TextEquality.{eq_iff}
