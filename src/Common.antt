-- ===== src/Common.antt =====
-- What the other modules share: tests, lists, integers as bytes, readers, search and sorting.
pub mod Tests
pub mod Lists
pub mod Decimal
pub mod Division
pub mod Endian
pub mod Reader
pub mod Scanner
pub mod Search
pub mod Ascending
pub mod Signed
pub mod Sort
pub mod Texts
pub use Tests.*
pub use Lists.*
pub use Endian.{Bytes, IsByte}
pub use Prim.Native.Nat.{ℕ, zero, suc, ◌+◌, ◌-◌, ◌*◌, ◌/◌, ◌%◌, ◌^◌, ◌≤◌, ◌<◌}
pub use mathlib.Core.Path.{◌≡◌, refl, sym, ap, ◌∙◌, subst}
pub use mathlib.Core.Logic.{◌≢◌, ◌↔◌, ◌⊎◌, inl, inr}
pub use mathlib.Core.Bool.{Bool, true, false, not, ◌&&◌, ◌||◌}
pub use mathlib.Core.Option.{Option, none, some}
pub use mathlib.Core.List.{List, [], ◌∷◌, ◌++◌, map, append_assoc, append-nil}
pub use native.Mathlib.Omega.{arith}
