-- ===== src/Common.antt =====
-- The names that the other modules share: the libraries', passed on, the Boolean tests on the
-- native numbers, and the facts about tests and lists that several components use.
mod Tests
mod Indices
mod Int
mod Lists
mod Reflect
pub use Tests.*
unfoldable pub use Indices.*
pub use Int.*
pub use Lists.*
pub use Reflect.*
pub use Prim.Native.Nat.{ℕ, zero, suc, ◌+◌, ◌-◌, ◌*◌, ◌≤◌, ◌<◌, compare, Ordering}
pub use mathlib.Core.Path.{◌≡◌, refl, sym, ap, ◌∙◌, subst}
pub use mathlib.Core.Logic.{◌≢◌, ◌↔◌, ◌⊎◌, inl, inr}
pub use mathlib.Core.Bool.{Bool, true, false, not, ◌&&◌, ◌||◌}
pub use mathlib.Core.Option.{Option, none, some, some_inj}
pub use mathlib.Core.List.{List, [], ◌∷◌, ◌++◌, map, append-nil, append_assoc}
pub use native.Mathlib.Omega.{arith}
