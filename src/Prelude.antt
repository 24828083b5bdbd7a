-- ===== src/Prelude.antt =====
-- The names that all modules share: the libraries', passed on, and those of the children.
pub mod Tests
pub mod Int
pub mod Keys
pub mod Lists
pub mod Outcome
pub mod Sets
pub mod Sort
pub mod Tables
pub use Tests.*
pub use Int.*
pub use Keys.*
pub use Lists.*
pub use Sets.*
pub use Tables.*
unfoldable pub use Sort.{sort}
pub use Sort.{IsSorted, contains-sort, distinct-sort, sort-IsSorted, length-sort}
pub use Prim.Native.Nat.{ℕ, zero, suc, ◌+◌, ◌-◌, ◌*◌, ◌≤◌, ◌<◌}
pub use Prim.Native.String.{String}
pub use mathlib.Core.Path.{◌≡◌, refl, sym, ap, ◌∙◌, subst}
pub use mathlib.Core.Logic.{◌≢◌, ◌↔◌, ◌⊎◌, inl, inr}
pub use mathlib.Core.Bool.{Bool, true, false, ◌&&◌, ◌||◌, not, false≢true}
pub use mathlib.Core.Option.{Option, none, some}
pub use mathlib.Core.List.{List, [], ◌∷◌, ◌++◌, map}
pub use native.Mathlib.Omega.{arith}
