-- ===== src/Base.antt =====
-- The names that the other modules share: the libraries', passed on, and the Boolean tests, list
-- operations and stable sort that the TypeScript sources take from their language.
mod Tests
mod Lists
mod Sort
mod Maps
mod Orders
mod Int
mod Texts
pub use Tests.*
pub use Lists.*
pub use Orders.*
unfoldable pub use Texts.*
unfoldable pub use Int.*
unfoldable pub use Maps.*
unfoldable pub use Sort.*
pub use Prim.Native.Nat.{
  ℕ, zero, suc, ◌+◌, ◌-◌, ◌*◌, ◌/◌, ◌%◌, ◌≤◌, ◌<◌, min, Ordering, compare as compare_nat,
}
pub use Prim.Native.String.{String}
pub use mathlib.Core.Path.{◌≡◌, refl, sym, ap, ◌∙◌}
pub use mathlib.Core.Logic.{◌≢◌, ◌↔◌, ◌⊎◌, inl, inr}
pub use mathlib.Core.Bool.{Bool, true, false, not, ◌&&◌, ◌||◌}
pub use mathlib.Core.Option.{Option, none, some}
pub use mathlib.Core.List.{List, [], ◌∷◌, ◌++◌, map, Memᴰ, Permᴰ}
pub use Prim.Native.String.{◌++◌ as append_text}
pub use native.Mathlib.Omega.{arith}
