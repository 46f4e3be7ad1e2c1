-- ===== src/Prelude.antt =====
-- The names that the modules share: the libraries', passed on, and those of the children.
-- No code is modelled here.
mod Tests
mod Lists
mod Maps
mod Words
pub mod Int
pub mod Sums
pub mod Bits
pub use Tests.*
pub use Lists.*
pub use Maps.*
pub use Words.*
pub use Prim.Native.Nat.{ℕ, zero, suc, ◌+◌, ◌-◌, ◌*◌, ◌/◌, ◌%◌, ◌^◌, ◌≤◌, ◌<◌}
pub use mathlib.Core.Path.{◌≡◌, refl, sym, ap, ap₂, ◌∙◌, subst}
pub use mathlib.Core.Logic.{◌≢◌, ◌↔◌, ◌⊎◌, inl, inr}
pub use mathlib.Core.Bool.{Bool, true, false, not, ◌&&◌, ◌||◌}
pub use mathlib.Core.Option.{Option, none, some}
pub use mathlib.Core.List.{List, [], ◌∷◌, ◌++◌, map, append-nil, append_assoc, map-append}
pub use native.Mathlib.Omega.{arith}
pub use native.Mathlib.Nat.{le_trans, le_refl, add_comm, add_assoc, mul_comm}
unfoldable pub use native.Mathlib.Decide.{dec_lt, dec_le, ℕ_discrete}
