-- ===== src/Common.antt =====
-- What the other modules share: library names passed on, Boolean tests, lists measured by native
-- numbers, Python's exceptions as values, bytes, texts and integers.
mod Tests
mod Lists
mod Exceptions
mod Order
pub mod Bits
pub mod Count
pub mod Bytes
pub mod Text
pub mod Int
pub use Tests.*
pub use Lists.*
pub use Exceptions.*
unfoldable pub use Order.{lt_wf}
pub use Prim.Native.Nat.{
  ℕ, zero, suc, ◌+◌, ◌-◌, ◌*◌, ◌/◌, ◌%◌, ◌^◌, ◌≤◌, ◌<◌, min, bit_and, bit_or, bit_xor,
}
pub use mathlib.Core.Path.{◌≡◌, refl, sym, ap, ◌∙◌}
pub use mathlib.Core.Logic.{◌≢◌, ◌↔◌, ◌⊎◌, inl, inr}
pub use mathlib.Core.Bool.{Bool, true, false, not, ◌&&◌, ◌||◌}
pub use mathlib.Core.Option.{Option, none, some}
pub use mathlib.Core.List.{List, [], ◌∷◌, ◌++◌, map, append-nil, append_assoc}
pub use native.Mathlib.Omega.{arith}
