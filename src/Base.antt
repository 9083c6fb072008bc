-- ===== src/Base.antt =====
-- The names that all modules share: those of the libraries, passed on, and the tests, lists, words
-- and byte texts of the children.
mod Tests
mod Lists
mod Words
mod Text
mod Result
mod Maps
pub use Tests.*
pub use Lists.*
pub use Words.*
pub use Text.*
pub use Result.*
pub use Maps.*
pub use Prim.Native.Nat.{
  ℕ, zero, suc, ◌+◌, ◌-◌, ◌*◌, ◌/◌, ◌%◌, ◌^◌, ◌≤◌, ◌<◌, min, max, zero-le, suc-le-suc,
}
pub use mathlib.Core.Path.{◌≡◌, refl, sym, ap, subst, ◌∙◌, ◌≡⟨◌⟩◌, ◌∎}
pub use mathlib.Core.Logic.{◌≢◌, ◌↔◌, ◌⊎◌, inl, inr}
pub use mathlib.Core.Bool.{Bool, true, false, not, ◌&&◌, ◌||◌}
pub use mathlib.Core.Option.{Option, none, some}
pub use mathlib.Core.List.{
  List, [], ◌∷◌, ◌++◌, map, flatten, append-nil, append_assoc, map-append, Perm,
}
pub use native.Mathlib.Omega.{arith}
