-- ===== src/Console/Typing.antt =====
-- One round of consoleintr of console.c, on the ring and on the line.
use mit_xv.Prelude.{ℕ, ◌≡◌, Bool, List}
use mit_xv.Console.{Input}
use mit_xv.Console.Ring.{Holds}

-- The input after a run, and whether it woke the readers, are those of the line.
pub record Follows (out : Input × Bool) (state : (List ℕ × List ℕ) × Bool) : Type 0 where
  pub holds : Holds out.0 state.0.0 state.0.1
  pub wakes : out.1 ≡ state.1
