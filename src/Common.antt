-- ===== src/Common.antt =====
-- The names that the other modules share: those of the libraries and of the children below.
mod Tests
mod Lists
mod Bytes
mod Assoc
mod Strings
mod Sets
unfoldable pub use Strings.*
unfoldable pub use Sets.*
unfoldable pub use Assoc.*
pub use Tests.*
pub use Lists.*
unfoldable pub use Bytes.*
pub use Prim.Native.Nat.{ℕ, zero, suc, ◌+◌, ◌-◌, ◌*◌, ◌/◌, ◌%◌, ◌^◌, ◌≤◌, ◌<◌, min, max}
pub use mathlib.Core.Path.{◌≡◌, refl, sym, ap, ◌∙◌, subst}
pub use mathlib.Core.Logic.{◌≢◌, ◌↔◌, ◌⊎◌, inl, inr}
pub use mathlib.Core.Bool.{Bool, true, false, ◌&&◌, ◌||◌, not}
pub use mathlib.Core.Option.{Option, none, some}
pub use mathlib.Core.List.{List, [], ◌∷◌, ◌++◌, map, append-nil, append_assoc}
pub use native.Mathlib.Omega.{arith}
