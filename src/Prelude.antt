-- ===== src/Prelude.antt =====
-- The names that the modules of the library share: the library's own, passed on, and those of the
-- children (Boolean tests, lists over the native numbers, bytes).
mod Tests
mod Lists
mod ByteStrings
mod Pigeonhole
mod Int
pub use Tests.*
pub use Lists.*
pub use ByteStrings.*
pub use Pigeonhole.*
pub use Int.*
pub use Prim.Native.Nat.{ℕ, zero, suc, ◌+◌, ◌-◌, ◌*◌, ◌/◌, ◌%◌, ◌^◌, ◌≤◌, ◌<◌, min, max}
pub use mathlib.Core.Path.{◌≡◌, refl, sym, ap, ◌∙◌}
pub use mathlib.Core.Logic.{◌≢◌, ◌↔◌, ◌⊎◌, inl, inr}
pub use mathlib.Core.Bool.{Bool, true, false, not, ◌&&◌, ◌||◌}
pub use mathlib.Core.Option.{Option, none, some}
pub use mathlib.Core.List.{List, [], ◌∷◌, ◌++◌, append_assoc, append-nil, map}
pub use native.Mathlib.Omega.{arith}
