-- ===== src/Fs/Bmap.antt =====
-- bmap of fs.c: the block of the disk that holds a block of a file. `addrs` of an inode has 13
-- numbers, of which the last is that of the indirect block, an array of 128 `uint`.
pub mod Words
use mit_xv.Prelude.{
  ℕ, ◌+◌, ◌-◌, ◌*◌, ◌/◌, ◌%◌, ltb, ◌==◌, if◌then◌else◌, get_or, set, update, Outcome, ◌>>=◌, ◌>>◌,
  ok, panic,
}
use mit_xv.Fs.{Superblock, Blocks, write_block, balloc}
use mit_xv.Fs.Icache.{Inode}

abbrev pub ndirect : ℕ
ndirect = 12

-- `BSIZE / sizeof(uint)`
abbrev pub nindirect : ℕ
nindirect = 128

-- `NDIRECT + NINDIRECT`
abbrev pub maxfile : ℕ
maxfile = ndirect + nindirect

-- `a[i]` of the bytes of a block read as an array of `uint`, and its assignment.
unfoldable pub get_word : (ℕ → ℕ) → ℕ → ℕ
get_word bytes i =
    bytes (i * 4)
    + bytes (i * 4 + 1) * 256
    + bytes (i * 4 + 2) * 65536
    + bytes (i * 4 + 3) * 16777216

unfoldable pub set_word : (ℕ → ℕ) → ℕ → ℕ → ℕ → ℕ
set_word bytes i v =
    update
      (update (update (update bytes (i * 4) (v % 256)) (i * 4 + 1) (v / 256 % 256)) (i * 4 + 2)
        (v / 65536 % 256))
      (i * 4 + 3) (v / 16777216 % 256)

-- `if((addr = ip->addrs[i]) == 0) ip->addrs[i] = addr = balloc(ip->dev);`
unfoldable pub slot_block : Superblock → Inode → ℕ → Blocks → Outcome (ℕ × Inode × Blocks)
slot_block sb ip i d =
    if get_or ip.addrs i 0 == 0
    then (do (a, d') ← balloc sb d; ok (a, record ip { addrs = set ip.addrs i a }, d'))
    else ok (get_or ip.addrs i 0, ip, d)

-- `if((addr = a[i]) == 0){ a[i] = addr = balloc(ip->dev); log_write(bp); }` in block `q`
unfoldable pub entry_block : Superblock → ℕ → ℕ → Blocks → Outcome (ℕ × Blocks)
entry_block sb q i d =
    if get_word (d.blocks q) i == 0
    then (do (a, d') ← balloc sb d; ok (a, write_block q (set_word (d'.blocks q) i a) d'))
    else ok (get_word (d.blocks q) i, d)

unfoldable pub bmap : Superblock → Inode → ℕ → Blocks → Outcome (ℕ × Inode × Blocks)
bmap sb ip bn d =
    if ltb bn ndirect
    then slot_block sb ip bn d
    else (if ltb (bn - ndirect) nindirect
        then (do
          (q, ip', d') ← slot_block sb ip ndirect d
          (a, d'') ← entry_block sb q (bn - ndirect) d'
          ok (a, ip', d''))
        else panic "bmap: out of range")
