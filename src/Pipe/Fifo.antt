-- ===== src/Pipe/Fifo.antt =====
-- Any number of writers and readers on one pipe, their runs interleaved in any order, with the
-- bytes taken from writers and handed to readers since the pipe was made.
use mit_xv.Prelude.{
  ℕ, ◌≤◌, ◌≡◌, refl, sym, ap, ◌∙◌, inl, inr, Bool, true, false, ◌&&◌, List, [], ◌++◌, append_assoc,
  arith, if◌then◌else◌, Bool-cases, take, take-append-drop,
}
use mit_xv.Pipe.{
  Pipe, pipesize, new_pipe, pipewrite, piperead, pipeclose, ReadEnd, got, read_failed, read_sleeps,
  is_empty,
}
use mit_xv.Pipe.Window.{IsValid, used, contents, new_pipe-IsValid}
use mit_xv.Pipe.Write.{room, pipewrite-Wrote}
use mit_xv.Pipe.Read.{piperead-HasRead}

pub record Traffic : Type 0 where
  pub pipe : Pipe
  pub sent : List ℕ
  pub received : List ℕ

-- The bytes that a run of `piperead` hands out.
abbrev pub bytes_of : ReadEnd → List ℕ
bytes_of (got cs) = cs
bytes_of read_failed = []
bytes_of read_sleeps = []

-- One run of `pipewrite`, of `piperead` or of `pipeclose`, by any process.
pub data Step (t : Traffic) : Traffic → Type 0 where
  write :
      (killed : Bool) (cs : List ℕ)
      → Step t (record {
        pipe = (pipewrite killed t.pipe cs).1;
        sent = t.sent ++ take (room t.pipe) cs;
        received = t.received;
      })
  read :
      (killed : Bool) (n : ℕ)
      → Step t (record {
        pipe = (piperead killed t.pipe n).1;
        sent = t.sent;
        received = t.received ++ bytes_of (piperead killed t.pipe n).0;
      })
  close : (writable : Bool) → Step t (record t { pipe = (pipeclose t.pipe writable).0 })

pub data Reach (junk : ℕ → ℕ) : Traffic → Type 0 where
  start : Reach junk (record { pipe = new_pipe junk; sent = []; received = [] })
  next : {t u : Traffic} → Reach junk t → Step t u → Reach junk u

-- Nothing is lost, doubled or reordered.
pub record InOrder (t : Traffic) : Type 0 where
  pub valid : IsValid t.pipe
  pub fifo : t.sent ≡ t.received ++ contents t.pipe

read_moves :
    (killed : Bool) (p : Pipe) (n : ℕ)
    → IsValid p
    → bytes_of (piperead killed p n).0 ++ contents (piperead killed p n).1 ≡ contents p
read_moves killed p n v =
    let r = piperead-HasRead killed p n v in
    elim (Bool-cases (is_empty p && p.writeopen)) [
      | inl wait ↦ let w = r.waits wait in rw (w.0, w.1) (idle killed)
      | inr go ↦ let w = r.takes go in rw (w.0, w.1) (take-append-drop n (contents p))
    ]
  where
    idle : (k : Bool) → bytes_of (if k then read_failed else read_sleeps) ++ contents p ≡ contents p
    idle true = refl
    idle false = refl

close-InOrder :
    (t : Traffic) (writable : Bool)
    → InOrder t
    → InOrder (record t { pipe = (pipeclose t.pipe writable).0 })
unfolding pipeclose
close-InOrder t true i = record { valid = omega (arith, i.valid); fifo = i.fifo }
close-InOrder t false i = record { valid = omega (arith, i.valid); fifo = i.fifo }

Step-InOrder : {t u : Traffic} → Step t u → InOrder t → InOrder u
Step-InOrder {t} (write killed cs) i =
    let w = pipewrite-Wrote killed t.pipe cs i.valid in
    record {
      valid = w.valid;
      fifo =
          rw (w.bytes, i.fifo) (append_assoc t.received (contents t.pipe) (take (room t.pipe) cs));
    }
Step-InOrder {t} (read killed n) i = record {
  valid = (piperead-HasRead killed t.pipe n i.valid).valid;
  fifo =
      i.fifo
      ∙ ap (λ b. t.received ++ b) (sym (read_moves killed t.pipe n i.valid))
      ∙ sym (
          append_assoc t.received (bytes_of (piperead killed t.pipe n).0)
            (contents (piperead killed t.pipe n).1));
}
Step-InOrder {t} (close writable) i = close-InOrder t writable i

-- However the runs of writers, readers and closers interleave, and however often the counters have
-- wrapped round, the bytes accepted so far are the bytes handed out followed by those in the pipe,
-- of which there are at most 512.
pub pipe_fifo :
    {junk : ℕ → ℕ} {t : Traffic}
    → Reach junk t
    → (t.sent ≡ t.received ++ contents t.pipe) × (used t.pipe ≤ pipesize)
pipe_fifo r = let i = inv r in (i.fifo, i.valid.fits)
  where
    inv : {junk : ℕ → ℕ} {t : Traffic} → Reach junk t → InOrder t
    inv {junk} start = let e = new_pipe-IsValid junk in record { valid = e.0; fifo = sym e.1 }
    inv (next r st) = Step-InOrder st (inv r)
