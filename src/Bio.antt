-- ===== src/Bio.antt =====
-- bio.c: the buffer cache, and iderw of memide.c, its disk. The circular list through `prev` and
-- `next` is the list of buffers from `head.next`, the most recently used, on; a buffer is named by
-- its index in `bcache.buf`. What runs under `bcache.lock` is one step. `bread` is the run in which
-- `acquiresleep` gets the buffer's lock.
pub mod Find
pub mod Consistent
pub mod Bget
pub mod Bread
pub mod Bwrite
pub mod Brelse
mod Tests
use mit_xv.Prelude.{
  ℕ, zero, suc, ◌+◌, ◌-◌, Bool, true, false, not, ◌&&◌, Option, none, some, List, [], ◌∷◌, ltb,
  ◌==◌, if◌then◌else◌, update, Outcome, ◌>>=◌, ◌>>◌, ensure, ok, panic,
}

abbrev pub nbuf : ℕ
nbuf = 30

abbrev pub Block : Type 0
Block = ℕ → ℕ

-- `struct buf`; `valid` and `dirty` are the bits B_VALID and B_DIRTY of `flags`.
pub record Buf : Type 0 where
  pub id : ℕ
  pub valid : Bool
  pub dirty : Bool
  pub dev : ℕ
  pub blockno : ℕ
  pub locked : Bool
  pub refcnt : ℕ
  pub bytes : Block

-- `bcache`, and the disk of memide.c with its size in blocks.
pub record Cache : Type 0 where
  pub bufs : List Buf
  pub disk : ℕ → Block
  pub disksize : ℕ

-- The buffers as the C loader leaves them.
abbrev pub zero_buf : ℕ → Buf
zero_buf i = record {
  id = i;
  valid = false;
  dirty = false;
  dev = 0;
  blockno = 0;
  locked = false;
  refcnt = 0;
  bytes = λ _. 0;
}

-- The loop of `binit`, from buffer `i` on: each is put in front of the list.
unfoldable pub binit_from : ℕ → ℕ → List Buf → List Buf
binit_from zero i bs = bs
binit_from (suc n) i bs = binit_from n (i + 1) (zero_buf i ∷ bs)

pub binit : List Buf
binit = binit_from nbuf 0 []

-- `b->dev == dev && b->blockno == blockno`
abbrev pub caches : ℕ → ℕ → Buf → Bool
caches dev blockno b = (b.dev == dev) && (b.blockno == blockno)

-- `b->refcnt == 0 && (b->flags & B_DIRTY) == 0`
abbrev pub unused : Buf → Bool
unused b = (b.refcnt == 0) && not b.dirty

-- The first loop of `bget`, along `next`.
unfoldable pub find_cached : ℕ → ℕ → List Buf → Option ℕ
find_cached dev blockno [] = none
find_cached dev blockno (b ∷ bs) =
    if caches dev blockno b then some b.id else find_cached dev blockno bs

-- The second loop of `bget`, along `prev`: the last of the list that is unused.
unfoldable pub find_unused : List Buf → Option ℕ
find_unused [] = none
find_unused (b ∷ bs) = elim (find_unused bs) [
  | some i ↦ some i
  | none ↦ if unused b then some b.id else none
]

-- A change of the fields of buffer `i`, which keeps its place in the list.
unfoldable pub modify : ℕ → (Buf → Buf) → List Buf → List Buf
modify i f [] = []
modify i f (b ∷ bs) = if b.id == i then f b ∷ bs else b ∷ modify i f bs

unfoldable pub lookup : ℕ → List Buf → Option Buf
lookup i [] = none
lookup i (b ∷ bs) = if b.id == i then some b else lookup i bs

abbrev pub hold : Buf → Buf
hold b = record b { refcnt = b.refcnt + 1 }

abbrev pub recycle : ℕ → ℕ → Buf → Buf
recycle dev blockno b = record b {
  valid = false;
  dirty = false;
  dev = dev;
  blockno = blockno;
  refcnt = 1;
}

-- `bget` up to the release of `bcache.lock`.
pub bget : ℕ → ℕ → List Buf → Outcome (ℕ × List Buf)
bget dev blockno bs = elim (find_cached dev blockno bs) [
  | some i ↦ ok (i, modify i hold bs)
  | none ↦ elim (find_unused bs) [
    | some i ↦ ok (i, modify i (recycle dev blockno) bs)
    | none ↦ panic "bget: no buffers"
  ]
]

-- `acquiresleep(&b->lock)`, when it returns.
abbrev pub take_lock : Buf → Buf
take_lock b = record b { locked = true }

-- `iderw` of memide.c: the buffer and the disk after it.
pub iderw : Buf → (ℕ → Block) → ℕ → Outcome (Buf × (ℕ → Block))
iderw b disk disksize = do
  ensure b.locked "iderw: buf not locked"
  ensure (not (b.valid && not b.dirty)) "iderw: nothing to do"
  ensure (b.dev == 1) "iderw: request not for disk 1"
  ensure (ltb b.blockno disksize) "iderw: block out of range"
  ok (
      if b.dirty
      then (record b { valid = true; dirty = false }, update disk b.blockno b.bytes)
      else (record b { valid = true; bytes = disk b.blockno }, disk))

-- `iderw` on buffer `i` of the cache, whose fields are those of `b`.
pub iderw_at : ℕ → Buf → Cache → Outcome Cache
iderw_at i b c = do
  (b', disk) ← iderw b c.disk c.disksize
  ok (record c { bufs = modify i (λ _. b') c.bufs; disk = disk })

-- The rest of `bread`, with the lock held.
pub fill : ℕ → Cache → Outcome (ℕ × Cache)
fill i c = elim (lookup i c.bufs) [
  | none ↦ panic "no such buffer"
  | some b ↦ if b.valid then ok (i, c) else (do c' ← iderw_at i b c; ok (i, c'))
]

pub bread : ℕ → ℕ → Cache → Outcome (ℕ × Cache)
bread dev blockno c = do
  (i, bs) ← bget dev blockno c.bufs
  fill i (record c { bufs = modify i take_lock bs })

-- `bwrite`
pub bwrite : ℕ → Cache → Outcome Cache
bwrite i c = elim (lookup i c.bufs) [
  | none ↦ panic "no such buffer"
  | some b ↦ (do ensure b.locked "bwrite"; iderw_at i (record b { dirty = true }) c)
]

-- The unlinking of buffer `i` from the list.
unfoldable pub unlink : ℕ → List Buf → List Buf
unlink i [] = []
unlink i (b ∷ bs) = if b.id == i then bs else b ∷ unlink i bs

-- `brelse`: the lock is released, and a buffer that is not in use goes to the front.
pub brelse : ℕ → List Buf → Outcome (List Buf)
brelse i bs = elim (lookup i bs) [
  | none ↦ panic "no such buffer"
  | some b ↦ (do
    ensure b.locked "brelse"
    let b' = record b { locked = false; refcnt = b.refcnt - 1 }
    ok (if b'.refcnt == 0 then b' ∷ unlink i bs else modify i (λ _. b') bs))
]
