-- ===== src/Common.antt =====
-- The names that all modules share: those of the libraries, passed on, and those of the children.
mod Tests
mod Lists
mod ByteStrings
mod Outcome
pub mod Assoc
pub mod Int
pub mod Sorting
pub use Tests.*
pub use Lists.*
pub use ByteStrings.{Bytes, text, bytes_eq_iff, bytes_eq_refl, bytes_less_asym}
unfoldable pub use ByteStrings.{bytes_eq, bytes_less}
pub use Outcome.*
pub use Prim.Native.Nat.{ℕ, zero, suc, ◌+◌, ◌-◌, ◌*◌, ◌/◌, ◌%◌, ◌^◌, ◌≤◌, ◌<◌, min}
pub use mathlib.Core.Path.{◌≡◌, refl, sym, ap, ◌∙◌}
pub use mathlib.Core.Logic.{◌≢◌, ◌↔◌, ◌⊎◌, inl, inr}
pub use mathlib.Core.Bool.{Bool, true, false, not, ◌&&◌, ◌||◌}
pub use mathlib.Core.Option.{Option, none, some}
pub use mathlib.Core.List.{List, [], ◌∷◌, ◌++◌, map, append_assoc, append-nil}
pub use native.Mathlib.Omega.{arith}
