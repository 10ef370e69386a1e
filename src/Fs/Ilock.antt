-- ===== src/Fs/Ilock.antt =====
-- ilock, iunlock, iput, iunlockput, itrunc, ialloc and stati of fs.c. `locked` of an inode says
-- that the running process holds its sleep lock: `acquiresleep` returns when the lock is free, and
-- what other processes do before that is in the state that the function gets.
pub mod Freed
pub mod Trunc
pub mod Dinode
pub mod Reload
pub mod Put
pub mod Ialloc
mod Tests
use mit_xv.Prelude.{
  ℕ, zero, suc, ◌+◌, ◌-◌, ◌*◌, ◌%◌, true, false, not, ◌&&◌, ◌||◌, Option, none, some, List, [], ◌∷◌,
  ltb, leb, ◌==◌, if◌then◌else◌, get_or, set, Outcome, ◌>>=◌, ◌>>◌, ensure, ok, panic,
}
use mit_xv.Fs.{Superblock, Blocks, write_block, bfree}
use mit_xv.Fs.Icache.{Inode, iget, change}
use mit_xv.Fs.Bmap.{ndirect, nindirect, get_word}
use mit_xv.Fs.Inode.{ipb, iblock, iupdate, put_short}

-- Loads of a short and of a word, low byte first, and of an array of words.
unfoldable pub load_short : (ℕ → ℕ) → ℕ → ℕ
load_short f o = f o + f (o + 1) * 256

unfoldable pub load_word : (ℕ → ℕ) → ℕ → ℕ
load_word f o = load_short f o + load_short f (o + 2) * 65536

unfoldable pub load_words : ℕ → (ℕ → ℕ) → ℕ → List ℕ
load_words zero f o = []
load_words (suc n) f o = load_word f o ∷ load_words n f (o + 4)

-- The fields of `ip` from the `struct dinode` at `o`.
unfoldable pub load_dinode : (ℕ → ℕ) → ℕ → Inode → Inode
load_dinode f o ip = record ip {
  type = load_short f o;
  major = load_short f (o + 2);
  minor = load_short f (o + 4);
  nlink = load_short f (o + 6);
  size = load_word f (o + 8);
  addrs = load_words 13 f (o + 12);
}

-- `acquiresleep(&ip->lock)` and `releasesleep(&ip->lock)`
abbrev pub lock : Inode → Inode
lock ip = record ip { locked = true }

abbrev pub unlock : Inode → Inode
unlock ip = record ip { locked = false }

-- The inode read from the disk, if it is not valid.
unfoldable pub fetch : Superblock → Blocks → Inode → Inode
fetch sb d ip = record (load_dinode (d.blocks (iblock sb ip.inum)) (ip.inum % ipb * 64) ip) {
  valid = true;
}

unfoldable pub ilock : Superblock → Blocks → Inode → Outcome Inode
ilock sb d ip =
    if ltb ip.ref 1
    then panic "ilock"
    else (if ip.valid then ok (lock ip) else (do
      ensure (not ((fetch sb d (lock ip)).type == 0)) "ilock: no type"
      ok (fetch sb d (lock ip))))

unfoldable pub iunlock : Inode → Outcome Inode
iunlock ip = if not ip.locked || ltb ip.ref 1 then panic "iunlock" else ok (unlock ip)

-- `if(a) bfree(ip->dev, a);`
unfoldable pub free_block : Superblock → ℕ → Blocks → Outcome Blocks
free_block sb a d = if a == 0 then ok d else bfree sb a d

-- `if(ip->addrs[i]){ bfree(ip->dev, ip->addrs[i]); ip->addrs[i] = 0; }`
unfoldable pub free_slot : Superblock → ℕ → Inode → Blocks → Outcome (Inode × Blocks)
free_slot sb i ip d =
    if get_or ip.addrs i 0 == 0
    then ok (ip, d)
    else (do d' ← bfree sb (get_or ip.addrs i 0) d; ok (record ip { addrs = set ip.addrs i 0 }, d'))

-- The first loop of `itrunc`, from `i` on for `k` slots.
unfoldable pub free_slots : ℕ → Superblock → ℕ → Inode → Blocks → Outcome (Inode × Blocks)
free_slots zero sb i ip d = ok (ip, d)
free_slots (suc k) sb i ip d = do (ip', d') ← free_slot sb i ip d; free_slots k sb (i + 1) ip' d'

-- The second loop, on the entries of block `q` from `j` on for `k` entries.
unfoldable pub free_entries : ℕ → Superblock → ℕ → ℕ → Blocks → Outcome Blocks
free_entries zero sb q j d = ok d
free_entries (suc k) sb q j d = do
  d' ← free_block sb (get_word (d.blocks q) j) d
  free_entries k sb q (j + 1) d'

-- `if(ip->addrs[NDIRECT]){ ... }`
unfoldable pub free_table : Superblock → Inode → Blocks → Outcome (Inode × Blocks)
free_table sb ip d = if get_or ip.addrs ndirect 0 == 0 then ok (ip, d) else (do
  d' ← free_entries nindirect sb (get_or ip.addrs ndirect 0) 0 d
  free_slot sb ndirect ip d')

unfoldable pub itrunc : Superblock → Inode → Blocks → Outcome (Inode × Blocks)
itrunc sb ip d = do
  (ip', d') ← free_slots ndirect sb 0 ip d
  (ip'', d'') ← free_table sb ip' d'
  ok (record ip'' { size = 0 }, iupdate sb (record ip'' { size = 0 }) d'')

-- The end of an inode without links and with one reference.
unfoldable pub discard : Superblock → Inode → Blocks → Outcome (Inode × Blocks)
discard sb ip d = do
  (ip', d') ← itrunc sb ip d
  ok (record ip' { type = 0; valid = false }, iupdate sb (record ip' { type = 0 }) d')

-- `ip->ref--` after `releasesleep`
abbrev pub drop_ref : Inode → Inode
drop_ref ip = record ip { ref = ip.ref - 1; locked = false }

unfoldable pub iput : Superblock → Inode → Blocks → Outcome (Inode × Blocks)
iput sb ip d =
    if ip.valid && ((ip.nlink == 0) && (ip.ref == 1))
    then (do (ip', d') ← discard sb (lock ip) d; ok (drop_ref ip', d'))
    else ok (drop_ref ip, d)

unfoldable pub iunlockput : Superblock → Inode → Blocks → Outcome (Inode × Blocks)
iunlockput sb ip d = do ip' ← iunlock ip; iput sb ip' d

-- `memset(dip, 0, sizeof(*dip)); dip->type = type;` at `o`
unfoldable pub new_dinode : (ℕ → ℕ) → ℕ → ℕ → ℕ → ℕ
new_dinode f o type = put_short (λ k. if leb o k && ltb k (o + 64) then 0 else f k) o type

-- The loop of `ialloc` from `inum` on, for `k` inodes: the first free one, and its block written.
unfoldable pub scan_dinodes : ℕ → Superblock → ℕ → ℕ → Blocks → Option (ℕ × Blocks)
scan_dinodes zero sb inum type d = none
scan_dinodes (suc k) sb inum type d =
    let q = iblock sb inum in
    let rest = scan_dinodes k sb (inum + 1) type d in
    if load_short (d.blocks q) (inum % ipb * 64) == 0
    then some (inum, write_block q (new_dinode (d.blocks q) (inum % ipb * 64) type) d)
    else rest

unfoldable pub ialloc : Superblock → ℕ → ℕ → Blocks → List Inode → Outcome (ℕ × Blocks × List Inode)
ialloc sb dev type d ips = elim (scan_dinodes (sb.ninodes - 1) sb 1 type d) [
  | none ↦ panic "ialloc: no inodes"
  | some (inum, d') ↦ (do (i, ips') ← iget dev inum ips; ok (i, d', ips'))
]

-- `struct stat`
pub record Stat : Type 0 where
  pub type : ℕ
  pub dev : ℕ
  pub ino : ℕ
  pub nlink : ℕ
  pub size : ℕ

pub stati : Inode → Stat
stati ip = record { type = ip.type; dev = ip.dev; ino = ip.inum; nlink = ip.nlink; size = ip.size }
