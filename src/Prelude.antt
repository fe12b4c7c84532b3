-- ===== src/Prelude.antt =====
-- The names that the other modules share: the libraries', passed on, the integers, texts as
-- bytes, and results with the errors of the service.
mod Tests
mod Int
mod Bytes
mod Slices
mod Values
mod Results
pub use Tests.*
pub use Int.*
pub use Bytes.*
unfoldable pub use Int.{◌+ℤ◌, ◌-ℤ◌}
unfoldable pub use Bytes.{text_eq, trim_space, is_blank}
pub use Slices.*
pub use Values.*
pub use Results.*
pub use Prim.Native.Nat.{ℕ, zero, suc, ◌+◌, ◌-◌, ◌*◌, ◌/◌, ◌%◌, ◌^◌, ◌≤◌, ◌<◌}
pub use mathlib.Core.Path.{◌≡◌, refl, sym, ap, ◌∙◌, subst}
pub use mathlib.Core.Logic.{◌≢◌, ◌↔◌, ◌⊎◌, inl, inr}
pub use mathlib.Core.Bool.{Bool, true, false, not, ◌&&◌, ◌||◌}
pub use mathlib.Core.Option.{Option, none, some}
pub use mathlib.Core.List.{List, [], ◌∷◌, ◌++◌, map}
pub use native.Mathlib.Omega.{arith}
