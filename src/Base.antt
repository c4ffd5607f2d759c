-- ===== src/Base.antt =====
-- Names that the other modules share: the libraries', passed on, and those of its children. No
-- code of the repository is modelled here.
mod Tests
mod Lists
mod Results
mod Text
mod Names
mod Options
mod Int
mod Split
mod Digits
pub mod Numerals
pub use Tests.*
pub use Lists.*
pub use Names.*
pub use Options.*
unfoldable pub use Int.*
unfoldable pub use Split.*
unfoldable pub use Digits.*
pub use Results.*
unfoldable pub use Text.*
pub use Prim.Native.Nat.{ℕ, zero, suc, ◌+◌, ◌-◌, ◌*◌, ◌/◌, ◌%◌, ◌^◌, ◌≤◌, ◌<◌, min, max}
pub use Prim.Native.String.{String}
pub use mathlib.Core.Path.{◌≡◌, refl, sym, ap, ◌∙◌}
pub use mathlib.Core.Logic.{◌≢◌, ◌↔◌, ◌⊎◌, inl, inr}
pub use mathlib.Core.Bool.{Bool, true, false, not, ◌&&◌, ◌||◌}
pub use mathlib.Core.Option.{Option, none, some}
pub use mathlib.Core.List.{List, [], ◌∷◌, ◌++◌, map, append_assoc, append-nil, Memᴰ}
pub use native.Mathlib.Omega.{arith}
pub use text.Mathlib.Text.{◌==◌}
pub use text.Mathlib.TextEquality.{eq_iff}
pub use text.Mathlib.TextPositions.{eq_refl}
