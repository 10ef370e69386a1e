-- ===== src/Fs/Inode.antt =====
-- iupdate, readi and writei of fs.c on a locked inode; the disk inodes of fs.h. A short or an
-- unsigned number of the C sources is its bits as a number.
pub mod Copies
pub mod Read
pub mod Fill
pub mod Write
pub mod Tests
pub mod Chunk
use mit_xv.Prelude.{
  ℕ, zero, suc, ◌+◌, ◌-◌, ◌*◌, ◌/◌, ◌%◌, ◌<◌, min, not, ◌&&◌, ◌||◌, Option, none, some, List, [],
  ◌∷◌, ltb, leb, ◌==◌, if◌then◌else◌, update, Outcome, ◌>>=◌, ◌>>◌, add32, ok,
}
use mit_xv.Fs.{bsize, Superblock, Blocks, write_block}
use mit_xv.Fs.Icache.{Inode}
use mit_xv.Fs.Bmap.{maxfile, bmap}

-- `T_DEV` of stat.h and `NDEV` of param.h
abbrev pub t_dev : ℕ
t_dev = 3

abbrev pub ndev : ℕ
ndev = 10

-- `IPB` and `IBLOCK(i, sb)`
abbrev pub ipb : ℕ
ipb = 8

abbrev pub iblock : Superblock → ℕ → ℕ
iblock sb i = i / ipb + sb.inodestart

-- Stores of a short and of a word, low byte first, and of an array of words.
unfoldable pub put_short : (ℕ → ℕ) → ℕ → ℕ → ℕ → ℕ
put_short f o v = update (update f o (v % 256)) (o + 1) (v / 256 % 256)

unfoldable pub put_word : (ℕ → ℕ) → ℕ → ℕ → ℕ → ℕ
put_word f o v = put_short (put_short f o (v % 65536)) (o + 2) (v / 65536 % 65536)

unfoldable pub put_words : (ℕ → ℕ) → ℕ → List ℕ → ℕ → ℕ
put_words f o [] = f
put_words f o (v ∷ vs) = put_words (put_word f o v) (o + 4) vs

-- The fields of `struct dinode` at `o`, from those of `ip`.
unfoldable pub put_dinode : (ℕ → ℕ) → ℕ → Inode → ℕ → ℕ
put_dinode f o ip =
    put_words
      (put_word
        (put_short (put_short (put_short (put_short f o ip.type) (o + 2) ip.major) (o + 4) ip.minor)
          (o + 6) ip.nlink)
        (o + 8) ip.size)
      (o + 12) ip.addrs

unfoldable pub iupdate : Superblock → Inode → Blocks → Blocks
iupdate sb ip d =
    let q = iblock sb ip.inum in write_block q (put_dinode (d.blocks q) (ip.inum % ipb * 64) ip) d

-- `memmove` of `m` bytes to `to` at `t` from `from` at `o`, of another array.
unfoldable pub copy_bytes : (ℕ → ℕ) → ℕ → (ℕ → ℕ) → ℕ → ℕ → ℕ → ℕ
copy_bytes to t from o m j = if leb t j && ltb j (t + m) then from (o + (j - t)) else to j

-- What `readi` and `writei` change: the memory, the disk and the inode.
pub record Io : Type 0 where
  pub memory : ℕ → ℕ
  pub disk : Blocks
  pub inode : Inode

-- A function of `devsw`, with the address and the count. A device's own state is not kept here.
abbrev pub Device : Type 0
Device = ℕ → ℕ → Io → Outcome (Option ℕ × Io)

-- `ip->major < 0 || ip->major >= NDEV || !devsw[ip->major].read`, or else the call
unfoldable pub device_call : (ℕ → Option Device) → ℕ → ℕ → Io → Outcome (Option ℕ × Io)
device_call devsw p n s =
    if leb 32768 s.inode.major || leb ndev s.inode.major
    then ok (none, s)
    else (elim (devsw s.inode.major) [ some call ↦ call p n s | none ↦ ok (none, s) ])

-- `min(n - tot, BSIZE - off%BSIZE)`
abbrev pub chunk : ℕ → ℕ → ℕ → ℕ
chunk off n tot = min (n - tot) (bsize - off % bsize)

-- The copies of the two loops, for block `a`.
unfoldable pub copy_out : ℕ → ℕ → ℕ → ℕ → Io → Io
copy_out a dst off m s = record s {
  memory = copy_bytes s.memory dst (s.disk.blocks a) (off % bsize) m;
}

unfoldable pub copy_in : ℕ → ℕ → ℕ → ℕ → Io → Io
copy_in a src off m s = record s {
  disk = write_block a (copy_bytes (s.disk.blocks a) (off % bsize) s.memory src m) s.disk;
}

-- The loop of `readi`, on fuel.
unfoldable pub readi_loop : ℕ → Superblock → ℕ → ℕ → ℕ → ℕ → Io → Outcome Io
readi_loop zero sb dst off n tot s = ok s
readi_loop (suc k) sb dst off n tot s =
    if ltb tot n
    then (do
      (a, ip, d) ← bmap sb s.inode (off / bsize) s.disk
      readi_loop k sb (dst + chunk off n tot) (add32 off (chunk off n tot)) n
          (tot + chunk off n tot)
          (copy_out a dst off (chunk off n tot) (record s { disk = d; inode = ip })))
    else ok s

-- The loop of `writei`, which leaves `off` too.
unfoldable pub writei_loop : ℕ → Superblock → ℕ → ℕ → ℕ → ℕ → Io → Outcome (ℕ × Io)
writei_loop zero sb src off n tot s = ok (off, s)
writei_loop (suc k) sb src off n tot s =
    if ltb tot n
    then (do
      (a, ip, d) ← bmap sb s.inode (off / bsize) s.disk
      writei_loop k sb (src + chunk off n tot) (add32 off (chunk off n tot)) n
          (tot + chunk off n tot)
          (copy_in a src off (chunk off n tot) (record s { disk = d; inode = ip })))
    else ok (off, s)

-- A count of `n` bytes takes part of at most this many blocks.
abbrev pub block_fuel : ℕ → ℕ
block_fuel n = n / bsize + 2

-- The part of `readi` after its guards.
unfoldable pub read_blocks : Superblock → ℕ → ℕ → ℕ → Io → Outcome (Option ℕ × Io)
read_blocks sb dst off n s = do s' ← readi_loop (block_fuel n) sb dst off n 0 s; ok (some n, s')

-- `-1` is `none`.
unfoldable pub readi : (ℕ → Option Device) → Superblock → ℕ → ℕ → ℕ → Io → Outcome (Option ℕ × Io)
readi devsw sb dst off n s =
    if s.inode.type == t_dev
    then device_call devsw dst n s
    else (if ltb s.inode.size off || ltb (add32 off n) off
        then ok (none, s)
        else (if ltb s.inode.size (add32 off n)
            then read_blocks sb dst off (s.inode.size - off) s
            else read_blocks sb dst off n s))

-- `if(n > 0 && off > ip->size){ ip->size = off; iupdate(ip); }`
unfoldable pub grow : Superblock → ℕ → ℕ → Io → Io
grow sb n off s =
    if ltb 0 n && ltb s.inode.size off
    then (let ip = record s.inode { size = off } in
        record s { disk = iupdate sb ip s.disk; inode = ip })
    else s

unfoldable pub writei : (ℕ → Option Device) → Superblock → ℕ → ℕ → ℕ → Io → Outcome (Option ℕ × Io)
writei devsw sb src off n s =
    if s.inode.type == t_dev
    then device_call devsw src n s
    else (if ltb s.inode.size off || ltb (add32 off n) off
        then ok (none, s)
        else (if ltb (maxfile * bsize) (add32 off n) then ok (none, s) else (do
          (off', s') ← writei_loop (block_fuel n) sb src off n 0 s
          ok (some n, grow sb n off' s'))))
