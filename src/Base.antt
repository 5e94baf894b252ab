-- ===== src/Base.antt =====
-- What the other modules share: the libraries' names, passed on, tests on numbers and byte
-- strings, lists over native numbers, and 64-bit words. It models no code of its own.
mod Tests
mod Lists
mod Word
pub mod Digits
mod Errors
mod Integers
mod Assoc
pub mod Cuts
pub use Tests.{
  ltb, leb, ◌==◌, if◌then◌else◌, Bytes, codes, eqb_refl, eqb_iff, Bool-cases, Option-cases,
}
unfoldable pub use Tests.{eqb}
pub use Assoc.{lookup-erase}
unfoldable pub use Assoc.{lookup, erase}
pub use Lists.*
pub use Word.*
pub use Integers.{ℤ, pos, negsuc, is_zero, is_positive}
pub use Errors.{Result, ok, err, Result-cases}
unfoldable pub use Errors.{has_prefix, contains}
pub use Prim.Native.Nat.{ℕ, zero, suc, ◌+◌, ◌-◌, ◌*◌, ◌/◌, ◌%◌, ◌^◌, ◌≤◌, ◌<◌, min}
pub use mathlib.Core.Path.{◌≡◌, refl, sym, ap, ◌∙◌}
pub use mathlib.Core.Logic.{◌≢◌, ◌↔◌, ◌⊎◌, inl, inr}
pub use mathlib.Core.Bool.{Bool, true, false, ◌&&◌, ◌||◌, not}
pub use mathlib.Core.Option.{Option, none, some}
pub use mathlib.Core.List.{List, [], ◌∷◌, ◌++◌, map}
pub use native.Mathlib.Omega.{arith}
