-- ===== src/Prelude.antt =====
-- The names that the other modules share: library names passed on, Boolean tests, C arrays and
-- lists, the outcome of kernel code that may panic, and the machine words of the C sources.
mod Tests
mod Lists
mod Arrays
mod Panic
pub use Tests.*
pub use Lists.*
pub use Arrays.*
pub use Panic.*
pub use Prim.Native.Nat.{ℕ, zero, suc, ◌+◌, ◌-◌, ◌*◌, ◌/◌, ◌%◌, ◌^◌, ◌≤◌, ◌<◌, min, bit_and, bit_or}
pub use Prim.Native.String.{String}
pub use mathlib.Core.Path.{◌≡◌, refl, sym, ap, ap₂, ◌∙◌, subst, fun_ext}
pub use mathlib.Core.Logic.{◌≢◌, ◌↔◌, ◌⊎◌, inl, inr}
pub use mathlib.Core.Bool.{Bool, true, false, not, ◌&&◌, ◌||◌}
pub use mathlib.Core.Option.{Option, none, some}
pub use mathlib.Core.List.{List, [], ◌∷◌, ◌++◌, map, append-nil, append_assoc}
pub use native.Mathlib.Omega.{arith}
