-- ===== src/Pipe/Read.antt =====
-- `piperead`: which bytes a run takes out of the pipe, and how it ends.
use mit_xv.Prelude.{
  ℕ, zero, suc, ◌%◌, ◌<◌, ◌≡◌, refl, ap, inl, inr, Bool, true, false, ◌&&◌, Option, none, some,
  List, [], ◌∷◌, arith, if◌then◌else◌, Bool-cases, take, drop,
}
use mit_xv.Pipe.{
  pipesize, Pipe, Chan, nwrite_chan, ReadEnd, got, read_failed, read_sleeps, is_empty, advance,
  piperead, copy_out,
}
use mit_xv.Pipe.Window.{
  IsValid, used, contents, window, is_empty-used, not_empty-used, advance-IsValid, advance-tail,
}

-- What `n` rounds of the copy loop do to `p`.
record Copied (n : ℕ) (p : Pipe) (out : List ℕ × Pipe) : Type 0 where
  valid : IsValid out.1
  bytes : out.0 ≡ take n (contents p)
  left : contents out.1 ≡ drop n (contents p)
  same_writer : out.1.nwrite ≡ p.nwrite
  same_ends : (out.1.readopen ≡ p.readopen) × (out.1.writeopen ≡ p.writeopen)

contents-empty : (p : Pipe) → IsValid p → is_empty p ≡ true → contents p ≡ []
unfolding window
contents-empty p v h = ap (λ t. window p.buf p.nread t) (is_empty-used p v h)

copy_out-Copied : (n : ℕ) (p : Pipe) → IsValid p → Copied n p (copy_out n p)
unfolding copy_out advance
copy_out-Copied zero p v = record {
  valid = v;
  bytes = refl;
  left = refl;
  same_writer = refl;
  same_ends = (refl, refl);
}
copy_out-Copied (suc n) p v = elim (Bool-cases (is_empty p)) [
  | inl stop ↦
      let e : contents p ≡ [] = contents-empty p v stop in
      rw stop (record {
        valid = v;
        bytes = rw e;
        left = rw e;
        same_writer = refl;
        same_ends = (refl, refl);
      })
  | inr more ↦
      let h : 0 < used p = not_empty-used p v more in
      let e = advance-tail p v h in
      let r = copy_out-Copied n (advance p) (advance-IsValid p v h) in
      rw more (record {
        valid = r.valid;
        bytes = rw e (ap (λ t. p.buf (p.nread % pipesize) ∷ t) r.bytes);
        left = rw e r.left;
        same_writer = r.same_writer;
        same_ends = r.same_ends;
      })
]

-- What a run of `piperead` of `n` bytes does to `p`.
pub record HasRead (killed : Bool) (p : Pipe) (n : ℕ) (out : ReadEnd × Pipe × Option Chan)
    : Type 0 where
  pub valid : IsValid out.1
  pub waits :
      is_empty p && p.writeopen ≡ true
      → (out.0 ≡ (if killed then read_failed else read_sleeps)) × (out.1 ≡ p) × (out.2 ≡ none)
  pub takes :
      is_empty p && p.writeopen ≡ false
      → (out.0 ≡ got (take n (contents p)))
        × (contents out.1 ≡ drop n (contents p))
        × (out.2 ≡ some nwrite_chan)
  pub same_writer : out.1.nwrite ≡ p.nwrite
  pub same_ends : (out.1.readopen ≡ p.readopen) × (out.1.writeopen ≡ p.writeopen)

-- A run of `piperead` on a valid pipe keeps it valid. On an empty pipe whose write end is open it
-- changes nothing and wakes no one, and fails if the process was killed, else sleeps. Otherwise it
-- returns the oldest bytes, as many as are there up to `n`, leaves exactly the others in order, and
-- wakes the writers. It leaves `nwrite` and both ends alone.
pub piperead-HasRead :
    (killed : Bool) (p : Pipe) (n : ℕ) → IsValid p → HasRead killed p n (piperead killed p n)
unfolding piperead
piperead-HasRead killed p n v = elim (Bool-cases (is_empty p && p.writeopen)) [
  | inl wait ↦ rw wait (record {
    valid = ground arith;
    waits = ground arith;
    takes = λ e. ground arith;
    same_writer = ground arith;
    same_ends = ground arith;
  })
  | inr go ↦
      let c = copy_out-Copied n p v in
      rw go (record {
        valid = c.valid;
        waits = λ e. cc;
        takes = λ e. (ap got c.bytes, c.left, refl);
        same_writer = c.same_writer;
        same_ends = c.same_ends;
      })
]
