-- ===== src/File.antt =====
-- file.c: the table of open files, and their reads and writes. The calls of fs.c and pipe.c that
-- these make are arguments; a return value of -1 is `none`.
pub mod Write
mod Tests
use mit_xv.Prelude.{
  ℕ, zero, suc, ◌+◌, ◌-◌, ◌*◌, ◌/◌, min, Bool, not, Option, none, some, List, [], ◌∷◌, ltb, ◌==◌,
  if◌then◌else◌, Outcome, and_then, ◌>>=◌, ◌>>◌, ensure, ok, panic,
}

-- `struct file`; `kind` is its `type`.
pub data Kind : Type 0 where
  fd_none fd_pipe fd_inode : Kind

pub record File : Type 0 where
  pub kind : Kind
  pub ref : ℕ
  pub readable : Bool
  pub writable : Bool
  pub pipe : ℕ
  pub ip : ℕ
  pub off : ℕ

-- The loop of `filealloc` from index `i` on.
unfoldable pub filealloc_from : ℕ → List File → Option ℕ × List File
filealloc_from i [] = (none, [])
filealloc_from i (f ∷ fs) =
    let rest = filealloc_from (i + 1) fs in
    if f.ref == 0 then (some i, record f { ref = 1 } ∷ fs) else (rest.0, f ∷ rest.1)

pub filealloc : List File → Option ℕ × List File
filealloc fs = filealloc_from 0 fs

-- On the file that the argument points to.
unfoldable pub filedup : File → Outcome File
filedup f = do ensure (not (f.ref == 0)) "filedup"; ok (record f { ref = f.ref + 1 })

-- What `fileclose` goes on to do: nothing, `pipeclose` of a pipe, or `iput` of an inode in a
-- transaction.
pub data Closes : Type 0 where
  closes_nothing : Closes
  closes_pipe : ℕ → Bool → Closes
  puts_inode : ℕ → Closes

abbrev pub closes_kind : Kind → File → Closes
closes_kind fd_none f = closes_nothing
closes_kind fd_pipe f = closes_pipe f.pipe f.writable
closes_kind fd_inode f = puts_inode f.ip

unfoldable pub fileclose : File → Outcome (Closes × File)
fileclose f = do
  ensure (not (f.ref == 0)) "fileclose"
  ok (
      if ltb 0 (f.ref - 1)
      then (closes_nothing, record f { ref = f.ref - 1 })
      else (closes_kind f.kind f, record f { ref = 0; kind = fd_none }))

-- `((MAXOPBLOCKS-1-1-2) / 2) * 512`
abbrev pub max_write : ℕ
max_write = (10 - 1 - 1 - 2) / 2 * 512

-- The loop of `filewrite` of `n` bytes with `i` written, over the state `S` of the file system;
-- `writei` gets the index of the first byte, the offset in the file and the number of bytes, and
-- runs in a transaction of its own. Each round takes a unit of fuel.
unfoldable pub write_from {ℓ} :
    {S : Type ℓ} → (ℕ → ℕ → ℕ → S → Option ℕ × S) → ℕ → ℕ → ℕ → ℕ → S → Outcome (Option ℕ × ℕ × S)
write_from writei zero n i off s = panic "out of fuel"
write_from writei (suc k) n i off s =
    let n1 = min (n - i) max_write in
    let (r, s') = writei i off n1 s in
    if ltb i n
    then elim r [
      | none ↦ ok (none, off, s')
      | some w ↦
          and_then (λ (_ : Unit {0}). write_from writei k n (i + w) (off + w) s')
            (ensure (w == n1) "short filewrite")
    ]
    else ok (if i == n then some n else none, off, s)

-- `filewrite` of a file of each kind.
unfoldable pub write_kind {ℓ} :
    {S : Type ℓ}
    → (ℕ → ℕ → S → Option ℕ × S)
    → (ℕ → ℕ → ℕ → ℕ → S → Option ℕ × S)
    → Kind
    → File
    → ℕ
    → S
    → Outcome (Option ℕ × File × S)
write_kind pipewrite writei fd_none f n s = panic "filewrite"
write_kind pipewrite writei fd_pipe f n s = let (r, s') = pipewrite f.pipe n s in ok (r, f, s')
write_kind pipewrite writei fd_inode f n s =
    and_then (λ (t : Option ℕ × ℕ × _). ok (t.0, record f { off = t.1 }, t.2))
      (write_from (writei f.ip) (suc n) n 0 f.off s)

pub filewrite {ℓ} :
    {S : Type ℓ}
    → (ℕ → ℕ → S → Option ℕ × S)
    → (ℕ → ℕ → ℕ → ℕ → S → Option ℕ × S)
    → File
    → ℕ
    → S
    → Outcome (Option ℕ × File × S)
filewrite pipewrite writei f n s =
    if not f.writable then ok (none, f, s) else write_kind pipewrite writei f.kind f n s

-- `if((r = readi(f->ip, addr, f->off, n)) > 0) f->off += r;`
unfoldable pub read_on : Option ℕ → File → File
read_on none f = f
read_on (some r) f = if ltb 0 r then record f { off = f.off + r } else f

-- `fileread` of a file of each kind; `readi` gets the inode, the offset in the file and the number
-- of bytes, with `ilock` before it and `iunlock` after it.
unfoldable pub read_kind {ℓ} :
    {S : Type ℓ}
    → (ℕ → ℕ → S → Option ℕ × S)
    → (ℕ → ℕ → ℕ → S → Option ℕ × S)
    → Kind
    → File
    → ℕ
    → S
    → Outcome (Option ℕ × File × S)
read_kind piperead readi fd_none f n s = panic "fileread"
read_kind piperead readi fd_pipe f n s = let (r, s') = piperead f.pipe n s in ok (r, f, s')
read_kind piperead readi fd_inode f n s =
    let (r, s') = readi f.ip f.off n s in ok (r, read_on r f, s')

unfoldable pub fileread {ℓ} :
    {S : Type ℓ}
    → (ℕ → ℕ → S → Option ℕ × S)
    → (ℕ → ℕ → ℕ → S → Option ℕ × S)
    → File
    → ℕ
    → S
    → Outcome (Option ℕ × File × S)
fileread piperead readi f n s =
    if not f.readable then ok (none, f, s) else read_kind piperead readi f.kind f n s

-- `filestat`; `stati` is the call of that name with `ilock` before it and `iunlock` after it.
unfoldable pub stat_kind {ℓ κ} :
    {S : Type ℓ} {R : Type κ} → (ℕ → S → R × S) → Kind → File → S → Option R × S
stat_kind stati fd_none f s = (none, s)
stat_kind stati fd_pipe f s = (none, s)
stat_kind stati fd_inode f s = let (st, s') = stati f.ip s in (some st, s')

unfoldable pub filestat {ℓ κ} :
    {S : Type ℓ} {R : Type κ} → (ℕ → S → R × S) → File → S → Option R × S
filestat stati f s = stat_kind stati f.kind f s
