-- ===== src/Common.antt =====
-- The names that the components share: the libraries', passed on, and those of the children, which
-- hold Boolean tests, lists, texts, maps, 64-bit words and floating-point numbers.
mod Tests
mod Lists
mod Texts
mod Maps
mod Ordered
mod Nested
mod Words
mod Floats
pub use Tests.*
pub use Lists.*
unfoldable pub use Texts.*
pub use Ordered.*
pub use Nested.*
unfoldable pub use Maps.*
unfoldable pub use Words.*
pub use Floats.*
pub use Prim.Native.Nat.{ℕ, zero, suc, ◌+◌, ◌-◌, ◌*◌, ◌/◌, ◌%◌, ◌^◌, ◌≤◌, ◌<◌, min, max}
pub use mathlib.Core.Path.{◌≡◌, refl, sym, ap, ◌∙◌}
pub use mathlib.Core.Logic.{◌≢◌, ◌↔◌, ◌⊎◌, inl, inr}
pub use mathlib.Core.Bool.{Bool, true, false, ◌&&◌, ◌||◌, not}
pub use mathlib.Core.Option.{Option, none, some}
pub use mathlib.Core.List.{List, [], ◌∷◌, ◌++◌, map, append-nil, append_assoc}
pub use native.Mathlib.Omega.{arith}
