-- ===== src/Prelude.antt =====
-- The names that the other modules share: the libraries', passed on, and those of the children.
mod Steps
mod Tests
mod Lists
mod Assoc
mod Results
pub use Tests.*
pub use Lists.*
unfoldable pub use Assoc.{lookup, insert, delete}
pub use Assoc.{
  lookup-insert, lookup-insert_self, lookup-insert_ne, lookup-delete, str_eq_refl, str_ne, IsFresh,
  HasDistinctKeys, lookup-IsFresh, insert-IsFresh, insert-HasDistinctKeys, delete-IsFresh,
  delete-HasDistinctKeys, length-insert_new, length-insert_old, delete_absent, length-delete,
}
pub use Steps.*
pub use Results.*
pub use Prim.Native.Nat.{ℕ, zero, suc, max, ◌+◌, ◌-◌, ◌*◌, ◌/◌, ◌%◌, ◌^◌, ◌≤◌, ◌<◌}
pub use Prim.Native.String.{String}
pub use mathlib.Core.Path.{◌≡◌, refl, sym, ap, subst, fun_ext, ◌∙◌}
pub use mathlib.Core.Logic.{◌≢◌, ◌↔◌, ◌⊎◌, inl, inr}
pub use mathlib.Core.Bool.{Bool, true, false, not, ◌&&◌, ◌||◌}
pub use mathlib.Core.Option.{Option, none, some}
pub use mathlib.Core.List.{List, [], ◌∷◌, ◌++◌, map}
pub use native.Mathlib.Omega.{arith}
pub use text.Mathlib.Text.{◌==◌ as str_eq}
pub use text.Mathlib.TextEquality.{eq_iff}
