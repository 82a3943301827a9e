-- ===== src/Common.antt =====
-- Names that every module shares: those of the libraries, passed on, and the helpers of the
-- children, over the native numbers.
mod Tests
mod Lists
mod Words
mod Faults
mod Text
pub use Tests.*
pub use Lists.*
pub use Words.*
pub use Faults.*
pub use Text.*
pub use Prim.Native.Nat.{
  ℕ, zero, suc, ◌+◌, ◌-◌, ◌*◌, ◌/◌, ◌%◌, ◌^◌, ◌≤◌, ◌<◌, max, min, bit_and, bit_or,
}
pub use Prim.Native.String.{String}
pub use mathlib.Core.Path.{◌≡◌, refl, sym, ap, ◌∙◌}
pub use mathlib.Core.Logic.{◌≢◌, ◌↔◌, ◌⊎◌, inl, inr}
pub use mathlib.Core.Bool.{Bool, true, false, not, ◌&&◌, ◌||◌}
pub use mathlib.Core.Option.{Option, none, some}
pub use mathlib.Core.List.{List, [], ◌∷◌, ◌++◌, foldl}
pub use native.Mathlib.Omega.{arith}
