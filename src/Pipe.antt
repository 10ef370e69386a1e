-- ===== src/Pipe.antt =====
-- pipe.c: a bounded byte buffer between the two ends of a pipe. Everything between `acquire` and
-- the next `sleep` or `release` runs under `p->lock`, so one call of `pipewrite` or `piperead` is a
-- sequence of runs: each returns, or sleeps with what is left to do. The functions below are one
-- such run, started at the call or after a wakeup; `Pipe.Fifo` interleaves the runs.
pub mod Window
pub mod Write
pub mod Read
pub mod Fifo
pub mod Wakeups
mod Tests
use mit_xv.Prelude.{
  ℕ, zero, suc, ◌-◌, ◌%◌, Bool, true, false, not, ◌&&◌, ◌||◌, Option, none, some, List, [], ◌∷◌,
  ◌==◌, if◌then◌else◌, update, ◌>>=◌, ◌>>◌, add32,
}

abbrev pub pipesize : ℕ
pipesize = 512

-- `struct pipe`; `buf` is its array `data`, and the two counters are of type `uint`.
pub record Pipe : Type 0 where
  pub buf : ℕ → ℕ
  pub nread : ℕ
  pub nwrite : ℕ
  pub readopen : Bool
  pub writeopen : Bool

-- The channels that processes sleep on: `&p->nread` and `&p->nwrite`.
pub data Chan : Type 0 where
  nread_chan nwrite_chan : Chan

-- The fields that `pipealloc` sets.
pub new_pipe : (ℕ → ℕ) → Pipe
new_pipe junk = record { buf = junk; nread = 0; nwrite = 0; readopen = true; writeopen = true }

-- `pipeclose`: the pipe, the channel woken, and whether the page is freed.
pub pipeclose : Pipe → Bool → Pipe × Chan × Bool
pipeclose p true = (record p { writeopen = false }, nread_chan, not p.readopen)
pipeclose p false = (record p { readopen = false }, nwrite_chan, not p.writeopen)

-- How a run of `pipewrite` ends; the list is `addr[i..n)`, the bytes not yet in the pipe.
pub data WriteEnd : Type 0 where
  written : WriteEnd
  write_failed : List ℕ → WriteEnd
  write_sleeps : List ℕ → WriteEnd

pub is_full : Pipe → Bool
is_full p = p.nwrite == add32 p.nread pipesize

-- `p->data[p->nwrite++ % PIPESIZE] = c`
pub push : Pipe → ℕ → Pipe
push p c = record p { buf = update p.buf (p.nwrite % pipesize) c; nwrite = add32 p.nwrite 1 }

-- A run of `pipewrite` with `addr[i..n)` left to write: how it ends, the pipe, the channel woken.
pub pipewrite : Bool → Pipe → List ℕ → WriteEnd × Pipe × Option Chan
pipewrite killed p [] = (written, p, some nread_chan)
pipewrite killed p (c ∷ cs) =
    if is_full p
    then (if not p.readopen || killed
        then (write_failed (c ∷ cs), p, none)
        else (write_sleeps (c ∷ cs), p, some nread_chan))
    else pipewrite killed (push p c) cs

pub data ReadEnd : Type 0 where
  got : List ℕ → ReadEnd
  read_failed : ReadEnd
  read_sleeps : ReadEnd

pub is_empty : Pipe → Bool
is_empty p = p.nread == p.nwrite

-- `p->nread++`
pub advance : Pipe → Pipe
advance p = record p { nread = add32 p.nread 1 }

-- The loop at `piperead-copy`, with `n - i` rounds left: the bytes copied and the pipe.
pub copy_out : ℕ → Pipe → List ℕ × Pipe
copy_out zero p = ([], p)
copy_out (suc n) p =
    let rest = copy_out n (advance p) in
    if is_empty p then ([], p) else (p.buf (p.nread % pipesize) ∷ rest.0, rest.1)

-- A run of `piperead` of at most `n` bytes.
pub piperead : Bool → Pipe → ℕ → ReadEnd × Pipe × Option Chan
piperead killed p n =
    if is_empty p && p.writeopen
    then (if killed then (read_failed, p, none) else (read_sleeps, p, none))
    else (got (copy_out n p).0, (copy_out n p).1, some nwrite_chan)
