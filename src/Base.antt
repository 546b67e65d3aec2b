-- ===== src/Base.antt =====
-- The names that the other modules share: the libraries', passed on, and those of the children.
mod Tests
mod Equality
mod Outcome
pub mod Str
pub mod Utf8
pub mod Number
pub mod Trim
pub mod Words
pub mod Dict
pub use Tests.*
pub use Equality.{
  Eq, ◌==◌, nat_eq, list_eq, pair_eq, bool_eq, beq_refl, beq→eq, beq→ne, list_beq_iff, nat_beq_iff,
  pair_beq_iff,
}
unfoldable pub use Equality.{contains, list_beq}
pub use Outcome.*
pub use Str.{Text, Bytes, ascii}
pub use Prim.Native.Nat.{ℕ, zero, suc, ◌+◌, ◌-◌, ◌*◌, ◌/◌, ◌%◌, ◌^◌, ◌≤◌, ◌<◌}
pub use mathlib.Core.Path.{◌≡◌, refl, sym, ap, subst, ◌∙◌}
pub use mathlib.Core.Logic.{◌≢◌, ◌↔◌, ◌⊎◌, inl, inr}
pub use mathlib.Core.Bool.{Bool, true, false, not, ◌&&◌, ◌||◌}
pub use mathlib.Core.Option.{Option, none, some}
pub use Prim.Native.String.{String}
pub use mathlib.Core.List.{List, [], ◌∷◌, ◌++◌, map, append_assoc, append-nil}
pub use native.Mathlib.Omega.{arith}
