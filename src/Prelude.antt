-- ===== src/Prelude.antt =====
-- Names, notation and lemmas that every component shares.
mod Tests
mod Lists
mod Tally
mod Words
pub mod Int
pub use Tests.*
pub use Lists.*
pub use Tally.*
unfoldable pub use Words.{add32, sub32}
pub use Words.{word, interlocked_increment, sub32_elapsed, sub32_self}
pub use Prim.Native.Nat.{ℕ, zero, suc, ◌+◌, ◌-◌, ◌*◌, ◌/◌, ◌%◌, ◌^◌, ◌≤◌, ◌<◌, max, min}
pub use mathlib.Core.Path.{◌≡◌, refl, sym, ap, ap₂, ◌∙◌, subst}
pub use mathlib.Core.Logic.{◌≢◌, ◌↔◌, ◌⊎◌, inl, inr}
pub use mathlib.Core.Bool.{Bool, true, false, ◌&&◌, ◌||◌, not}
pub use mathlib.Core.Option.{Option, none, some}
pub use mathlib.Core.List.{List, [], ◌∷◌, ◌++◌, map, reverse, reverse_aux, append-nil, append_assoc}
pub use mathlib.Core.List.{reverse-reverse, reverse-cons, reverse_aux-eq, reverse-append}
pub use native.Mathlib.Omega.{arith}
