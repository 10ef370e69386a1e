-- ===== src/Pipe/Write.antt =====
-- `pipewrite`: which bytes a run puts in the pipe, and how it ends.
use mit_xv.Prelude.{
  ℕ, zero, suc, ◌-◌, ◌<◌, ◌≡◌, refl, sym, ap, ◌∙◌, inl, inr, Bool, true, false, not, ◌||◌, Option,
  some, List, [], ◌∷◌, ◌++◌, append-nil, append_assoc, arith, if◌then◌else◌, Bool-cases, take, drop,
}
use mit_xv.Pipe.{
  Pipe, pipesize, Chan, nread_chan, WriteEnd, written, write_failed, write_sleeps, is_full, push,
  pipewrite,
}
use mit_xv.Pipe.Window.{
  IsValid, used, contents, is_full-used, not_full-used, push-IsValid, used-push, push-append,
}

-- The free slots.
abbrev pub room : Pipe → ℕ
room p = pipesize - used p

-- How a run ends that has the bytes `rest` left over.
abbrev pub write_end : Bool → Pipe → List ℕ → WriteEnd
write_end killed p [] = written
write_end killed p (c ∷ cs) =
    if not p.readopen || killed then write_failed (c ∷ cs) else write_sleeps (c ∷ cs)

-- What a run of `pipewrite` on `cs` does to `p`.
pub record Wrote (killed : Bool) (p : Pipe) (cs : List ℕ) (out : WriteEnd × Pipe × Option Chan)
    : Type 0 where
  pub valid : IsValid out.1
  pub bytes : contents out.1 ≡ contents p ++ take (room p) cs
  pub ends : out.0 ≡ write_end killed p (drop (room p) cs)
  pub same_reader : out.1.nread ≡ p.nread
  pub same_ends : (out.1.readopen ≡ p.readopen) × (out.1.writeopen ≡ p.writeopen)

take-nil : (n : ℕ) → take {A = ℕ} n [] ≡ []
take-nil zero = refl
take-nil (suc n) = refl

drop-nil : (n : ℕ) → drop {A = ℕ} n [] ≡ []
drop-nil zero = refl
drop-nil (suc n) = refl

module _ (killed : Bool) where
  written_all : (p : Pipe) → IsValid p → Wrote killed p [] (written, p, some nread_chan)
  written_all p v = record {
    valid = v;
    bytes = rw take-nil (sym (append-nil (contents p)));
    ends = rw drop-nil;
    same_reader = refl;
    same_ends = (refl, refl);
  }

  stuck_full :
      (p : Pipe) (c : ℕ) (cs : List ℕ)
      → IsValid p
      → is_full p ≡ true
      → Wrote killed p (c ∷ cs) (pipewrite killed p (c ∷ cs))
  unfolding pipewrite
  stuck_full p c cs v full =
      let e : room p ≡ 0 = omega (arith, is_full-used p v full) in
      rw full (record {
        valid = ground arith;
        bytes = rw e (ground (arith, append-nil (contents p)));
        ends = rw e (ground arith);
        same_reader = ground arith;
        same_ends = ground arith;
      })

  one_more :
      (p : Pipe) (c : ℕ) (cs : List ℕ) (out : WriteEnd × Pipe × Option Chan)
      → IsValid p
      → is_full p ≡ false
      → Wrote killed (push p c) cs out
      → Wrote killed p (c ∷ cs) out
  unfolding push
  one_more p c cs out v free w =
      let below : used p < pipesize = not_full-used p v free in
      let e : room p ≡ suc (room (push p c)) = omega (arith, used-push p c v below) in
      record {
        valid = w.valid;
        bytes = rw e (
            w.bytes
            ∙ ap (λ t. t ++ take (room (push p c)) cs) (push-append p c v below)
            ∙ append_assoc (contents p) (c ∷ []) (take (room (push p c)) cs));
        ends = rw e (w.ends ∙ same (drop (room (push p c)) cs));
        same_reader = w.same_reader;
        same_ends = w.same_ends;
      }
    where
      same : (rest : List ℕ) → write_end killed (push p c) rest ≡ write_end killed p rest
      same [] = refl
      same (x ∷ xs) = refl

  -- A run of `pipewrite` on a valid pipe keeps it valid and appends to its contents exactly the
  -- first bytes of `cs`, as many as there is room for, wrapping counters included. It returns if
  -- no byte is left over; else it fails if the read end is closed or the process was killed, and
  -- sleeps if neither, with exactly the bytes left over. It leaves `nread` and both ends alone.
  pub pipewrite-Wrote :
      (p : Pipe) (cs : List ℕ) → IsValid p → Wrote killed p cs (pipewrite killed p cs)
  unfolding pipewrite
  pipewrite-Wrote p [] v = written_all p v
  pipewrite-Wrote p (c ∷ cs) v = elim (Bool-cases (is_full p)) [
    | inl full ↦ stuck_full p c cs v full
    | inr free ↦ rw free (
        one_more p c cs (pipewrite killed (push p c) cs) v free
          (pipewrite-Wrote (push p c) cs (push-IsValid p c v (not_full-used p v free))))
  ]
