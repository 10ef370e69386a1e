-- ===== src/Fs.antt =====
-- fs.c and fs.h: blocks on the disk. A block is its bytes; `bread` returns those of `blocks`, and
-- `logged` has the blocks passed to `log_write`, the last first.
pub mod Bitmap
pub mod Scan
pub mod Alloc
mod Tests
pub mod Path
pub mod Icache
pub mod Bmap
pub mod Content
pub mod Inode
pub mod Ilock
pub mod Dir
use mit_xv.Prelude.{
  ℕ, zero, suc, ◌+◌, ◌*◌, ◌/◌, ◌%◌, Bool, Option, none, some, List, ◌∷◌, ltb, ◌==◌, if◌then◌else◌,
  set, update, Outcome, ◌>>=◌, ◌>>◌, ensure, ok, panic,
}

abbrev pub bsize : ℕ
bsize = 512

-- `BPB`
abbrev pub bpb : ℕ
bpb = 4096

-- `struct superblock`
pub record Superblock : Type 0 where
  pub size : ℕ
  pub nblocks : ℕ
  pub ninodes : ℕ
  pub nlog : ℕ
  pub logstart : ℕ
  pub inodestart : ℕ
  pub bmapstart : ℕ

pub record Blocks : Type 0 where
  pub blocks : ℕ → ℕ → ℕ
  pub logged : List ℕ

-- A change of the data of block `q`, and its `log_write`.
abbrev pub write_block : ℕ → (ℕ → ℕ) → Blocks → Blocks
write_block q bytes d = record { blocks = update d.blocks q bytes; logged = q ∷ d.logged }

-- Bit `i` of a byte, and the byte with that bit set (`| 1 << i`) or clear (`& ~(1 << i)`).
unfoldable pub bit : ℕ → ℕ → Bool
bit zero x = x % 2 == 1
bit (suc i) x = bit i (x / 2)

unfoldable pub set_bit : ℕ → ℕ → ℕ
set_bit zero x = x / 2 * 2 + 1
set_bit (suc i) x = x % 2 + 2 * set_bit i (x / 2)

unfoldable pub clear_bit : ℕ → ℕ → ℕ
clear_bit zero x = x / 2 * 2
clear_bit (suc i) x = x % 2 + 2 * clear_bit i (x / 2)

-- `BBLOCK(b, sb)`
abbrev pub bblock : Superblock → ℕ → ℕ
bblock sb b = b / bpb + sb.bmapstart

-- `bzero`
pub bzero : ℕ → Blocks → Blocks
bzero bno d = write_block bno (λ _. 0) d

-- `bp->data[bi/8] & m`, in the bitmap block `q`
abbrev pub is_marked : Blocks → ℕ → ℕ → Bool
is_marked d q bi = bit (bi % 8) (d.blocks q (bi / 8))

-- The inner loop of `balloc` from `bi` on: the first bit that is clear.
unfoldable pub scan_bits : ℕ → Superblock → Blocks → ℕ → ℕ → Option ℕ
scan_bits zero sb d b bi = none
scan_bits (suc n) sb d b bi =
    let rest = scan_bits n sb d b (bi + 1) in
    if ltb (b + bi) sb.size then (if is_marked d (bblock sb b) bi then rest else some bi) else none

-- The outer loop from `b` on, with fuel for every bitmap block.
unfoldable pub scan_maps : ℕ → Superblock → Blocks → ℕ → Option ℕ
scan_maps zero sb d b = none
scan_maps (suc k) sb d b =
    let rest = scan_maps k sb d (b + bpb) in
    if ltb b sb.size
    then (elim (scan_bits bpb sb d b 0) [ some bi ↦ some (b + bi) | none ↦ rest ])
    else none

-- `bp->data[bi/8] |= m` and `&= ~m` for the bit of block `b`, with the `log_write`.
pub mark : Superblock → ℕ → Blocks → Blocks
mark sb b d =
    let q = bblock sb b in
    let bi = b % bpb in
    write_block q (update (d.blocks q) (bi / 8) (set_bit (bi % 8) (d.blocks q (bi / 8)))) d

pub unmark : Superblock → ℕ → Blocks → Blocks
unmark sb b d =
    let q = bblock sb b in
    let bi = b % bpb in
    write_block q (update (d.blocks q) (bi / 8) (clear_bit (bi % 8) (d.blocks q (bi / 8)))) d

pub balloc : Superblock → Blocks → Outcome (ℕ × Blocks)
balloc sb d = elim (scan_maps (sb.size / bpb + 1) sb d 0) [
  | some b ↦ ok (b, bzero b (mark sb b d))
  | none ↦ panic "balloc: out of blocks"
]

-- `bfree`, whose `readsb` reads the same superblock again.
pub bfree : Superblock → ℕ → Blocks → Outcome Blocks
bfree sb b d = do
  ensure (is_marked d (bblock sb b) (b % bpb)) "freeing free block"
  ok (unmark sb b d)
