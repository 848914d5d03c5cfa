-- ===== src/Prelude.antt =====
-- Names that the other modules share: the libraries', passed on, and the project's own tests,
-- lists, texts and machine words.
mod Tests
mod Lists
mod Words
mod Bits
mod Text
mod Pigeonhole
pub use Tests.*
pub use Lists.*
pub use Words.*
pub use Bits.*
unfoldable pub use Text.*
pub use Pigeonhole.*
pub use Prim.Native.Nat.{ℕ, zero, suc, ◌+◌, ◌-◌, ◌*◌, ◌/◌, ◌%◌, ◌^◌, ◌≤◌, ◌<◌, min, max}
pub use mathlib.Core.Path.{◌≡◌, refl, sym, ap, ap₂, ◌∙◌, subst}
pub use mathlib.Core.Logic.{◌≢◌, ◌↔◌, ◌⊎◌, inl, inr}
pub use mathlib.Core.Bool.{Bool, true, false, not, ◌&&◌, ◌||◌}
pub use mathlib.Core.Option.{Option, none, some}
pub use mathlib.Core.List.{List, [], ◌∷◌, ◌++◌, map, append_assoc, append-nil}
pub use native.Mathlib.Omega.{arith}
