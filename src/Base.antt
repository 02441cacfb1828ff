-- ===== src/Base.antt =====
-- Names that every other module uses: the libraries', passed on, and those of the children below.
mod Tests
mod Lists
pub mod Words
pub mod Int
pub mod Utf8
pub mod Writes
pub mod Utf16
pub mod Decimal
pub mod Xor
pub mod Strings
unfoldable pub use Tests.*
unfoldable pub use Lists.*
pub use Words.{Bytes, IsByte}
pub use Strings.{Text, codes}
pub use Prim.Native.Nat.{ℕ, zero, suc, ◌+◌, ◌-◌, ◌*◌, ◌/◌, ◌%◌, ◌^◌, ◌≤◌, ◌<◌, min, max}
pub use mathlib.Core.Path.{◌≡◌, refl, sym, ap, ◌∙◌}
pub use mathlib.Core.Logic.{◌≢◌, ◌↔◌, ◌⊎◌, inl, inr}
pub use mathlib.Core.Bool.{Bool, true, false, not, ◌&&◌, ◌||◌}
pub use mathlib.Core.Option.{Option, none, some}
pub use mathlib.Core.List.{List, [], ◌∷◌, ◌++◌, map, append-nil, append_assoc}
pub use native.Mathlib.Omega.{arith}
