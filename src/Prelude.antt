-- ===== src/Prelude.antt =====
-- The names that the other modules share: the libraries', passed on, with Boolean tests, list
-- operations over the native numbers, C integers, and the pointer arguments of the C functions.
mod Tests
mod Bytes
mod Lists
mod Lengths
mod Int
mod Pointer
pub use Tests.*
pub use Lists.*
pub use Lengths.{length_rules}
pub use Int.*
pub use Pointer.*
unfoldable pub use Bytes.{set_bit, clear_bit}
pub use Bytes.{
  has_bit, has_bit-set_bit, has_bit-clear_bit, set_bit-lt, clear_bit-lt, zero_from_bits,
  has_bit-zero, has_bit-full,
}
pub use Prim.Native.Nat.{ℕ, zero, suc, ◌+◌, ◌-◌, ◌*◌, ◌/◌, ◌%◌, ◌^◌, ◌≤◌, ◌<◌}
pub use mathlib.Core.Path.{◌≡◌, refl, sym, ap, ap₂, subst, ◌∙◌, ◌≡⟨◌⟩◌, ◌∎}
pub use mathlib.Core.Logic.{◌≢◌, ◌↔◌, ◌⊎◌, inl, inr}
pub use mathlib.Core.Bool.{Bool, true, false, true≢false, not, ◌&&◌, ◌||◌}
pub use mathlib.Core.Option.{Option, none, some}
pub use mathlib.Core.List.{List, [], ◌∷◌, ◌++◌, map, append-nil, append_assoc}
unfoldable pub use mathlib.Core.List.{flatten}
pub use native.Mathlib.Omega.{arith}
