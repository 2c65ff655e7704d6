-- ===== src/Base.antt =====
-- The names that the modules of this library share.
mod Tests
mod Lists
mod Words
mod Maps
pub mod Memory
pub mod Bits
pub use Tests.*
pub use Lists.*
unfoldable pub use Lists.{bytes_eq}
unfoldable pub use Maps.{update}
pub use Maps.{update_same, update_other}
unfoldable pub use Words.{size_add, size_sub}
pub use Words.{size_mod, size_add_lem, size_sub_lem}
pub use Prim.Native.Nat.{
  ℕ, zero, suc, ◌+◌, ◌-◌, ◌*◌, ◌/◌, ◌%◌, ◌^◌, ◌≤◌, ◌<◌, min, max, bit_and, bit_or,
}
pub use mathlib.Core.Path.{◌≡◌, refl, sym, ap, ap₂, subst, ◌∙◌}
pub use mathlib.Core.Logic.{◌≢◌, ◌↔◌, ◌⊎◌, inl, inr}
pub use mathlib.Core.Bool.{Bool, true, false, not, ◌&&◌, ◌||◌}
pub use mathlib.Core.Option.{Option, none, some}
pub use mathlib.Core.List.{List, [], ◌∷◌, ◌++◌, map, append-nil, append_assoc}
pub use native.Mathlib.Omega.{arith}
unfoldable pub use native.Mathlib.Decide.{dec_lt, ℕ_discrete}
