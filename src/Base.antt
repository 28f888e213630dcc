-- ===== src/Base.antt =====
-- Names that every part of the development shares: the libraries' own, passed on, tests on the
-- native numbers, and lists and arrays measured by them.
mod Test
mod Lists
mod Array
pub use Test.*
pub use Lists.*
pub use Array.*
pub use Prim.Native.Nat.{ℕ, zero, suc, ◌+◌, ◌-◌, ◌*◌, ◌/◌, ◌%◌, ◌^◌, ◌≤◌, ◌<◌, min}
pub use mathlib.Core.Path.{◌≡◌, refl, sym, ap, ap₂, subst, fun_ext, ◌∙◌}
pub use mathlib.Core.Logic.{◌≢◌, ◌↔◌, ◌⊎◌, inl, inr}
pub use mathlib.Core.Bool.{Bool, true, false, not, ◌&&◌, ◌||◌}
pub use mathlib.Core.Option.{Option, none, some}
pub use mathlib.Core.List.{
  List, [], ◌∷◌, ◌++◌, map, reverse, append_assoc, append-nil, reverse_aux, reverse-reverse,
  reverse_aux-eq,
}
pub use native.Mathlib.Omega.{arith}
