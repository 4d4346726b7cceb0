-- ===== src/Base.antt =====
-- The names that the other modules share: the libraries', passed on, and those of the children:
-- Boolean tests, lists with native indices, the bit operations of machine words, and `Run`, the
-- outcome of C code that may hit an ASSERT or an invalid address.
mod Tests
mod Lists
mod Bits
mod Outcome
mod Bytes
mod Splice
mod Slices
mod Reordering
mod Middle
pub use Tests.*
pub use Lists.*
unfoldable pub use Bits.*
pub use Outcome.*
unfoldable pub use Bytes.*
pub use Splice.*
pub use Slices.*
pub use Reordering.*
pub use Middle.*
pub use Prim.Native.Nat.{
  ℕ, zero, suc, ◌+◌, ◌-◌, ◌*◌, ◌/◌, ◌%◌, ◌^◌, ◌≤◌, ◌<◌, bit_and, bit_or, bit_xor,
}
pub use mathlib.Core.Path.{◌≡◌, refl, sym, ap, ◌∙◌, subst, fun_ext}
pub use mathlib.Core.Logic.{◌≢◌, ◌↔◌, ◌⊎◌, inl, inr}
pub use mathlib.Core.Bool.{Bool, true, false, not, ◌&&◌, ◌||◌}
pub use mathlib.Core.Option.{Option, none, some}
pub use mathlib.Core.List.{List, [], ◌∷◌, ◌++◌, map}
pub use native.Mathlib.Omega.{arith}
