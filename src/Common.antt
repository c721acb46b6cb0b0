-- ===== src/Common.antt =====
-- The names that the other modules share: the libraries' own, passed on, Boolean tests and lists
-- over the native numbers, fixed-width words, and the byte buffers that C code writes into.
mod Tests
mod Lists
mod Buffers
mod Bits
mod Outcome
mod CString
mod Memory
pub use Tests.*
pub use Lists.*
unfoldable pub use Buffers.*
unfoldable pub use Bits.*
pub use Outcome.*
pub use CString.*
unfoldable pub use Memory.*
pub use Prim.Native.Nat.{ℕ, zero, suc, ◌+◌, ◌-◌, ◌*◌, ◌/◌, ◌%◌, ◌^◌, ◌≤◌, ◌<◌, min, bit_and, bit_or}
pub use Prim.Native.String.{String}
pub use mathlib.Core.Path.{◌≡◌, refl, sym, ap, ap₂, ◌∙◌, subst, fun_ext}
pub use mathlib.Core.Logic.{◌≢◌, ◌↔◌, ◌⊎◌, inl, inr}
pub use mathlib.Core.Bool.{Bool, true, false, ◌&&◌, ◌||◌, not}
pub use mathlib.Core.Option.{Option, none, some}
pub use mathlib.Core.List.{List, [], ◌∷◌, ◌++◌, map, append_assoc, append-nil}
pub use native.Mathlib.Omega.{arith}
