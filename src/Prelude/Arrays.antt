-- ===== src/Prelude/Arrays.antt =====
-- A C array, a disk or a memory as a function of the index, and its update at one index.
use Prim.Native.Nat.{ℕ}
use mathlib.Core.Path.{◌≡◌}
use mathlib.Core.Logic.{◌≢◌}
use native.Mathlib.Omega.{arith}
use mit_xv.Prelude.Tests.{◌==◌, if◌then◌else◌}

module _ {ℓ} {A : Type ℓ} where
  abbrev pub update : (ℕ → A) → ℕ → A → ℕ → A
  update f i a j = if i == j then a else f j

  pub update_self : (f : ℕ → A) (i : ℕ) (a : A) → update f i a i ≡ a
  update_self f i a = ground arith

  pub update_ne : (f : ℕ → A) (i : ℕ) (a : A) (j : ℕ) → i ≢ j → update f i a j ≡ f j
  update_ne f i a j h = ground arith
