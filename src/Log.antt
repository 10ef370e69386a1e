-- ===== src/Log.antt =====
-- log.c: the write-ahead log under the file system. A block is an array of 128 words, as which
-- `struct logheader` reads the header block: word 0 is `n`, word i + 1 is `block[i]`.
pub mod Shape
pub mod Commit
pub mod Atomic
pub mod Recovery
pub mod Restart
pub mod Space
pub mod Absorb
mod Tests
use mit_xv.Prelude.{
  ℕ, zero, suc, ◌+◌, ◌-◌, ◌*◌, ◌<◌, Bool, true, false, not, ◌||◌, List, [], ◌∷◌, ◌++◌, ltb, leb,
  ◌==◌, if◌then◌else◌, tests, length, set, update, Outcome, ◌>>=◌, ◌>>◌, ensure, ok,
}

abbrev pub maxopblocks : ℕ
maxopblocks = 10

abbrev pub logsize : ℕ
logsize = maxopblocks * 3

abbrev pub Block : Type 0
Block = ℕ → ℕ

-- The disk under the buffer cache. `view b` is what `bread` of block `b` returns: the cached data
-- if the block is cached, else the disk's. `writes` lists the blocks that `bwrite` has sent to the
-- disk, the oldest first; a block is written whole or not at all.
pub record Store : Type 0 where
  pub view : ℕ → Block
  pub disk : ℕ → Block
  pub writes : List (ℕ × Block)

-- `bwrite` of block `b` with the data `d`
pub bwrite : ℕ → Block → Store → Store
bwrite b d s = record {
  view = update s.view b d;
  disk = update s.disk b d;
  writes = s.writes ++ ((b, d) ∷ []);
}

-- `struct log`; `block` is the first `n` entries of `lh.block`, so `lh.n` is its length. `start` and
-- `size` are the log's place on the disk.
pub record Log : Type 0 where
  pub start : ℕ
  pub size : ℕ
  pub outstanding : ℕ
  pub committing : Bool
  pub block : List ℕ

-- The loop of `write_head`: words 1 .. n of the header block.
unfoldable pub put_blocks : ℕ → List ℕ → Block → Block
put_blocks i [] h = h
put_blocks i (b ∷ bs) h = put_blocks (i + 1) bs (update h (i + 1) b)

-- The header block after `write_head` has set `hb->n` and the block numbers.
unfoldable pub head_block : List ℕ → Block → Block
head_block bs h = put_blocks 0 bs (update h 0 (length bs))

pub write_head : ℕ → List ℕ → Store → Store
write_head start bs s = bwrite start (head_block bs (s.view start)) s

-- The loop of `read_head`, `n` rounds from entry `i` on.
unfoldable pub get_blocks : ℕ → ℕ → Block → List ℕ
get_blocks zero i h = []
get_blocks (suc n) i h = h (i + 1) ∷ get_blocks n (i + 1) h

pub read_head : ℕ → Store → List ℕ
read_head start s = get_blocks (s.view start 0) 0 (s.view start)

-- `install_trans` from entry `tail` on: log block `start + tail + 1` goes to its home.
pub install_trans : ℕ → ℕ → List ℕ → Store → Store
install_trans start tail [] s = s
install_trans start tail (b ∷ bs) s =
    install_trans start (tail + 1) bs (bwrite b (s.view (start + tail + 1)) s)

-- `write_log` from entry `tail` on: the cached block goes to the log.
pub write_log : ℕ → ℕ → List ℕ → Store → Store
write_log start tail [] s = s
write_log start tail (b ∷ bs) s =
    write_log start (tail + 1) bs (bwrite (start + tail + 1) (s.view b) s)

-- `recover_from_log`
pub recover_from_log : ℕ → Store → Store
recover_from_log start s = write_head start [] (install_trans start 0 (read_head start s) s)

-- `initlog` with the superblock's `logstart` and `nlog`; its check on `sizeof` is decided by the
-- compiler.
pub initlog : ℕ → ℕ → Store → Log × Store
initlog logstart nlog s = (
  record { start = logstart; size = nlog; outstanding = 0; committing = false; block = [] },
  recover_from_log logstart s,
)

-- `commit`; it also empties `log.lh`.
pub commit_blocks : ℕ → List ℕ → Store → Store
commit_blocks start [] s = s
commit_blocks start (b ∷ bs) s =
    write_head start []
      (install_trans start 0 (b ∷ bs) (write_head start (b ∷ bs) (write_log start 0 (b ∷ bs) s)))

pub commit : Log → Store → Log × Store
commit l s = (record l { block = [] }, commit_blocks l.start l.block s)

-- One round of the loop of `begin_op`, under `log.lock`: true if the operation has begun, false if
-- it sleeps and tests again after a wakeup.
pub begin_op : Log → Bool × Log
begin_op l =
    if l.committing
    then (false, l)
    else (if ltb logsize (length l.block + (l.outstanding + 1) * maxopblocks)
        then (false, l)
        else (true, record l { outstanding = l.outstanding + 1 }))

-- The first locked part of `end_op`: whether this call commits. It runs with `0 < outstanding`.
pub end_op_enter : Log → Outcome (Bool × Log)
end_op_enter l = do
  ensure (not l.committing) "log.committing"
  ok (
      if l.outstanding - 1 == 0
      then (true, record l { outstanding = l.outstanding - 1; committing = true })
      else (false, record l { outstanding = l.outstanding - 1 }))

-- The part of `end_op` that commits, and its second locked part.
pub end_op_commit : Log → Store → Log × Store
end_op_commit l s = let (l', s') = commit l s in (record l' { committing = false }, s')

-- The loop of `log_write`: `block[i] = blockno` at the first `i` with that number, or at the end.
unfoldable pub absorb : List ℕ → ℕ → List ℕ
absorb [] b = b ∷ []
absorb (c ∷ cs) b = if c == b then c ∷ cs else c ∷ absorb cs b

pub log_write : ℕ → Log → Outcome Log
log_write b l = do
  ensure (not (leb logsize (length l.block) || leb (l.size - 1) (length l.block)))
      "too big a transaction"
  ensure (leb 1 l.outstanding) "log_write outside of trans"
  ok (record l { block = absorb l.block b })
