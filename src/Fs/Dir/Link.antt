-- ===== src/Fs/Dir/Link.antt =====
-- The part of dirlink of fs.c that writes a new entry.
use mit_xv.Prelude.{ℕ, ◌+◌, ◌*◌, ◌%◌, ◌≤◌, ◌<◌, ◌≡◌, ◌≢◌, ◌⊎◌, Option, ltb, if◌then◌else◌}
use mit_xv.CString.Strings.{no_nul}
use mit_xv.Fs.{bsize, Superblock}
use mit_xv.Fs.Content.{content}
use mit_xv.Fs.Bmap.{maxfile}
use mit_xv.Fs.Inode.{Io, Device}
use mit_xv.Fs.Inode.Read.{IsFile}
use mit_xv.Fs.Dir.{dirsiz, dirent_size}
use mit_xv.Fs.Dir.Lookup.{entry_inum}

-- The bytes of the name at `name`, up to its 0, and then zeros.
abbrev pub name_byte : ℕ → (ℕ → ℕ) → ℕ → ℕ
name_byte name mem i = if no_nul i name mem then mem (name + i) else 0

-- The bytes of an entry.
pub record IsEntry (c : ℕ → ℕ) (e inum name : ℕ) (mem : ℕ → ℕ) : Type 0 where
  pub inum_bytes : c e + c (e + 1) * 256 ≡ inum % 65536
  pub name_bytes : (i : ℕ) → i < dirsiz → c (e + 2 + i) ≡ name_byte name mem i

-- The new entry is in the directory at `e`, the first place that was empty, or the end.
pub record Linked (sb : Superblock) (de name inum : ℕ) (s : Io) (e : ℕ) (s' : Io) : Type 0 where
  pub place : (e % dirent_size ≡ 0) × (e ≤ s.inode.size)
  pub was_empty : e < s.inode.size → entry_inum sb de s e ≡ 0
  pub in_use : (b : ℕ) → b < e → b % dirent_size ≡ 0 → entry_inum sb de s b ≢ 0
  pub entry : IsEntry (content s'.disk s'.inode) e inum name s.memory
  pub others :
      (k : ℕ)
      → k < maxfile * bsize
      → (k < e) ⊎ (e + dirent_size ≤ k)
      → content s'.disk s'.inode k ≡ content s.disk s.inode k
  pub file : IsFile sb s'.disk s'.inode
  pub size :
      s'.inode.size ≡ (if ltb s.inode.size (e + dirent_size) then e + dirent_size else s.inode.size)

module _ (devsw : ℕ → Option Device) (sb : Superblock) (de name inum : ℕ) (s : Io)
    (file : IsFile sb s.disk s.inode) (whole : s.inode.size % dirent_size ≡ 0) where
  -- Memory that has changed at the entry only.
  abbrev Outside : (ℕ → ℕ) → Type 0
  Outside m = (a : ℕ) → (a < de) ⊎ (de + dirent_size ≤ a) → m a ≡ s.memory a

  -- The loop ended at `e`.
  record Ended (off e : ℕ) (m : ℕ → ℕ) : Type 0 where
    place : (off ≤ e) × (e ≤ s.inode.size) × (e % dirent_size ≡ 0)
    was_empty : e < s.inode.size → entry_inum sb de s e ≡ 0
    in_use : (b : ℕ) → off ≤ b → b < e → b % dirent_size ≡ 0 → entry_inum sb de s b ≢ 0
    outside : Outside m
