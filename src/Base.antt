-- ===== src/Base.antt =====
-- The names that the other modules share: the libraries', passed on, and those of its children:
-- Boolean tests, lists with native lengths, the unsigned words of C++, maps from strings, and texts.
mod Tests
mod Sequences
mod Lists
mod Words
mod Names
mod Maps
mod Text
pub use Tests.*
pub use Sequences.*
pub use Lists.*
pub use Words.*
unfoldable pub use Names.*
unfoldable pub use Maps.*
pub use Text.*
pub use Prim.Native.Nat.{ℕ, zero, suc, ◌+◌, ◌-◌, ◌*◌, ◌/◌, ◌%◌, ◌^◌, ◌≤◌, ◌<◌}
pub use mathlib.Core.Path.{◌≡◌, refl, sym, ap, subst, ◌∙◌}
pub use mathlib.Core.Logic.{◌≢◌, ◌↔◌, ◌⊎◌, inl, inr}
pub use mathlib.Core.Bool.{Bool, true, false, not, ◌&&◌, ◌||◌}
pub use mathlib.Core.Option.{Option, none, some}
pub use mathlib.Core.List.{List, [], ◌∷◌, ◌++◌, append-nil, append_assoc}
pub use native.Mathlib.Omega.{arith}
