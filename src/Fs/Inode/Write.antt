-- ===== src/Fs/Inode/Write.antt =====
-- writei of fs.c on the bytes of a file.
use mit_xv.Prelude.{ℕ, ◌+◌, ◌*◌, ◌%◌, ◌≤◌, ◌<◌, ◌≡◌, ◌≢◌, ltb, if◌then◌else◌}
use mit_xv.Fs.{bsize, Superblock, Blocks}
use mit_xv.Fs.Icache.{Inode}
use mit_xv.Fs.Bmap.{maxfile}
use mit_xv.Fs.Content.{content, Foreign}
use mit_xv.Fs.Inode.{Io, ipb, iblock, put_dinode, copy_bytes}
use mit_xv.Fs.Inode.Chunk.{Filled}
use mit_xv.Fs.Inode.Read.{IsFile}

-- The inode is as before up to its size and its numbers of blocks.
abbrev pub SameFile : Inode → Inode → Type 0
SameFile ip ip' = ip' ≡ record ip { size = ip'.size; addrs = ip'.addrs }

-- `n` bytes of memory from `src` on are in the file from `off` on, and the file is no shorter.
pub record Stored (sb : Superblock) (s : Io) (src off n : ℕ) (s' : Io) : Type 0 where
  pub file : IsFile sb s'.disk s'.inode
  pub size : s'.inode.size ≡ (if ltb s.inode.size (off + n) then off + n else s.inode.size)
  pub bytes :
      (k : ℕ)
      → k < maxfile * bsize
      → content s'.disk s'.inode k ≡ copy_bytes (content s.disk s.inode) off s.memory src n k
  pub others :
      (q : ℕ)
      → Foreign sb s.disk s.inode q
      → Foreign sb s'.disk s'.inode q
        × (iblock sb s.inode.inum ≢ q → s'.disk.blocks q ≡ s.disk.blocks q)
  pub memory : s'.memory ≡ s.memory
  pub same : SameFile s.inode s'.inode

-- The size of an inode says nothing of its blocks.
module _ (sb : Superblock) (d : Blocks) (ip : Inode) (v : ℕ) where
  abbrev sized : Inode
  sized = record ip { size = v }

module _ (sb : Superblock) (s : Io) (src off n : ℕ) (s' : Io) (file : IsFile sb s.disk s.inode)
    (home : Foreign sb s.disk s.inode (iblock sb s.inode.inum)) (le : off ≤ s.inode.size)
    (f : Filled sb s src off n s') where
  -- The inode with its new size, and what `iupdate` writes.
  abbrev longer : Inode
  longer = record s'.inode { size = off + n }

  abbrev home_bytes : ℕ → ℕ
  home_bytes = put_dinode (s'.disk.blocks (iblock sb longer.inum)) (longer.inum % ipb * 64) longer
