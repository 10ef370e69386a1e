-- ===== src/Fs/Dir.antt =====
-- dirlookup and dirlink of fs.c. A directory is a file of entries of 16 bytes: the number of an
-- inode and 14 bytes of a name. `de` is the address of the entry on the stack of the function, and
-- `name` that of a name.
pub mod Lookup
pub mod Link
mod Tests
use mit_xv.Prelude.{
  ℕ, zero, suc, ◌+◌, ◌/◌, String, Bool, false, not, Option, none, some, List, ltb, ◌==◌,
  if◌then◌else◌, get_elem?, Outcome, ◌>>=◌, ◌>>◌, ensure, ok, panic,
}
use mit_xv.CString.{strncmp, strncpy}
use mit_xv.Fs.{Superblock, Blocks}
use mit_xv.Fs.Icache.{Inode, iget, change}
use mit_xv.Fs.Inode.{Io, Device, readi, writei, put_short}
use mit_xv.Fs.Ilock.{load_short, iput}

-- `T_DIR` of stat.h, `DIRSIZ` of fs.h and `sizeof(struct dirent)`
abbrev pub t_dir : ℕ
t_dir = 1

abbrev pub dirsiz : ℕ
dirsiz = 14

abbrev pub dirent_size : ℕ
dirent_size = 16

-- `namecmp(name, de.name) == 0`
abbrev pub is_named : ℕ → ℕ → (ℕ → ℕ) → Bool
is_named name de mem = strncmp name (de + 2) dirsiz mem == 0

-- `if(readi(dp, (char*)&de, off, sizeof(de)) != sizeof(de)) panic(message);`
unfoldable pub read_entry : (ℕ → Option Device) → Superblock → ℕ → ℕ → String → Io → Outcome Io
read_entry devsw sb de off message s = do
  (r, s') ← readi devsw sb de off dirent_size s
  ensure (elim r [ some n ↦ n == dirent_size | none ↦ false ]) message
  ok s'

-- The loop of `dirlookup` from `off` on, on fuel: the offset of the entry and its inode.
unfoldable pub find_entry :
    ℕ → (ℕ → Option Device) → Superblock → ℕ → ℕ → ℕ → Io → Outcome (Option (ℕ × ℕ) × Io)
find_entry zero devsw sb name de off s = ok (none, s)
find_entry (suc k) devsw sb name de off s =
    if ltb off s.inode.size
    then (do
      s' ← read_entry devsw sb de off "dirlookup read" s
      if load_short s'.memory de == 0
          then find_entry k devsw sb name de (off + dirent_size) s'
          else (if is_named name de s'.memory
              then ok (some (off, load_short s'.memory de), s')
              else find_entry k devsw sb name de (off + dirent_size) s'))
    else ok (none, s)

-- `dirlookup`: the entry of the inode in the cache and `*poff`.
unfoldable pub dirlookup :
    (ℕ → Option Device)
    → Superblock
    → ℕ
    → ℕ
    → Io
    → List Inode
    → Outcome (Option (ℕ × ℕ) × Io × List Inode)
dirlookup devsw sb name de s ips =
    if s.inode.type == t_dir
    then (do
      (r, s') ← find_entry (s.inode.size / dirent_size + 1) devsw sb name de 0 s
      elim r [
        | none ↦ ok (none, s', ips)
        | some (off, inum) ↦ (do
          (i, ips') ← iget s'.inode.dev inum ips
          ok (some (i, off), s', ips'))
      ])
    else panic "dirlookup not DIR"

-- The loop of `dirlink` for an empty entry, from `off` on, on fuel: where it ends.
unfoldable pub find_empty : ℕ → (ℕ → Option Device) → Superblock → ℕ → ℕ → Io → Outcome (ℕ × Io)
find_empty zero devsw sb de off s = ok (off, s)
find_empty (suc k) devsw sb de off s =
    if ltb off s.inode.size
    then (do
      s' ← read_entry devsw sb de off "dirlink read" s
      if load_short s'.memory de == 0
          then ok (off, s')
          else find_empty k devsw sb de (off + dirent_size) s')
    else ok (off, s)

-- `strncpy(de.name, name, DIRSIZ); de.inum = inum;`
unfoldable pub fill_entry : ℕ → ℕ → ℕ → (ℕ → ℕ) → ℕ → ℕ
fill_entry name de inum mem = put_short (strncpy (de + 2) name dirsiz mem) de inum

-- `dirlink` after its lookup; `some 0` is its result 0.
unfoldable pub add_entry :
    (ℕ → Option Device) → Superblock → ℕ → ℕ → ℕ → Io → Outcome (Option ℕ × Io)
add_entry devsw sb name de inum s = do
  (off, s') ← find_empty (s.inode.size / dirent_size + 1) devsw sb de 0 s
  (r, s'') ←
      writei devsw sb de off dirent_size (record s' { memory = fill_entry name de inum s'.memory })
  ensure (elim r [ some n ↦ n == dirent_size | none ↦ false ]) "dirlink"
  ok (some 0, s'')

-- `iput` of entry `i` of the cache
unfoldable pub iput_at : Superblock → ℕ → List Inode → Blocks → Outcome (List Inode × Blocks)
iput_at sb i ips d = elim (get_elem? ips i) [
  | none ↦ panic "no such entry"
  | some ip ↦ (do (ip', d') ← iput sb ip d; ok (change i (λ x. ip') ips, d'))
]

unfoldable pub dirlink :
    (ℕ → Option Device)
    → Superblock
    → ℕ
    → ℕ
    → ℕ
    → Io
    → List Inode
    → Outcome (Option ℕ × Io × List Inode)
dirlink devsw sb name de inum s ips = do
  (r, s', ips') ← dirlookup devsw sb name de s ips
  elim r [
    | some (i, off) ↦ (do
      (ips'', d) ← iput_at sb i ips' s'.disk
      ok (none, record s' { disk = d }, ips''))
    | none ↦ (do (r', s'') ← add_entry devsw sb name de inum s'; ok (r', s'', ips'))
  ]
