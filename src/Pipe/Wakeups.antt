-- ===== src/Pipe/Wakeups.antt =====
-- Whom a run of `pipewrite` wakes.
use mit_xv.Prelude.{
  ℕ, ◌≡◌, refl, inl, inr, Bool, not, ◌||◌, Option, none, some, List, [], ◌∷◌, Bool-cases,
}
use mit_xv.Pipe.{
  Chan, Pipe, nread_chan, WriteEnd, written, write_failed, write_sleeps, is_full, push, pipewrite,
}

abbrev wakes : WriteEnd → Option Chan
wakes written = some nread_chan
wakes (write_sleeps _) = some nread_chan
wakes (write_failed _) = none

-- Every run of `pipewrite` wakes the readers, but for one that fails.
pub pipewrite-wakes :
    (killed : Bool) (p : Pipe) (cs : List ℕ)
    → (pipewrite killed p cs).2 ≡ wakes (pipewrite killed p cs).0
unfolding pipewrite
pipewrite-wakes killed p [] = refl
pipewrite-wakes killed p (c ∷ cs) = elim (Bool-cases (is_full p)) [
  | inl full ↦
      rw full
        (elim (Bool-cases (not p.readopen || killed)) [ inl e ↦ rw e refl | inr e ↦ rw e refl ])
  | inr free ↦ rw free (pipewrite-wakes killed (push p c) cs)
]
