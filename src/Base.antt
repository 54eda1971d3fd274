-- ===== src/Base.antt =====
-- Names that the other modules share: the libraries', passed on, and those of the children below
-- (tests on numbers, lists measured by native numbers, texts as bytes, hash maps, big-endian words).
mod Tests
mod Lists
mod Texts
pub mod Map
pub mod Words
pub mod Outcome
pub mod Utf8
pub use Tests.*
pub use Lists.*
unfoldable pub use Texts.*
pub use Prim.Native.Nat.{ℕ, zero, suc, ◌+◌, ◌-◌, ◌*◌, ◌/◌, ◌%◌, ◌^◌, ◌≤◌, ◌<◌, min}
pub use mathlib.Core.Path.{◌≡◌, refl, sym, ap, ◌∙◌}
pub use mathlib.Core.Logic.{◌≢◌, ◌↔◌, ◌⊎◌, inl, inr}
pub use mathlib.Core.Bool.{Bool, true, false, not, ◌&&◌, ◌||◌}
pub use mathlib.Core.Option.{Option, none, some}
pub use mathlib.Core.List.{List, [], ◌∷◌, ◌++◌, map}
pub use native.Mathlib.Omega.{arith}
