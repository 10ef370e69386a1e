-- ===== src/Fs/Icache.antt =====
-- iget and idup of fs.c: the cache of inodes in memory. What runs under `icache.lock` is one step;
-- an inode is named by its index in `icache.inode`.
pub mod Scan
pub mod Get
use mit_xv.Prelude.{
  ℕ, zero, suc, ◌+◌, Bool, false, ◌&&◌, Option, none, some, List, [], ◌∷◌, ltb, ◌==◌, if◌then◌else◌,
  Outcome, ok, panic,
}

-- `struct inode` of file.h, with the flag of its sleep lock.
pub record Inode : Type 0 where
  pub dev : ℕ
  pub inum : ℕ
  pub ref : ℕ
  pub locked : Bool
  pub valid : Bool
  pub type : ℕ
  pub major : ℕ
  pub minor : ℕ
  pub nlink : ℕ
  pub size : ℕ
  pub addrs : List ℕ

-- `ip->ref > 0 && ip->dev == dev && ip->inum == inum`
abbrev pub is_inode : ℕ → ℕ → Inode → Bool
is_inode dev inum ip = ltb 0 ip.ref && ((ip.dev == dev) && (ip.inum == inum))

-- The loop of `iget` from index `i` on, with `empty`: the inode that it finds, or else the slot.
unfoldable pub scan_inodes : ℕ → ℕ → ℕ → Option ℕ → List Inode → Option ℕ × Option ℕ
scan_inodes dev inum i empty [] = (none, empty)
scan_inodes dev inum i empty (ip ∷ ips) =
    let rest =
      scan_inodes dev inum (i + 1)
        (elim empty [ some e ↦ some e | none ↦ if ip.ref == 0 then some i else none ]) ips in
    if is_inode dev inum ip then (some i, empty) else rest

-- A change of inode `i`.
unfoldable pub change : ℕ → (Inode → Inode) → List Inode → List Inode
change i f [] = []
change zero f (ip ∷ ips) = f ip ∷ ips
change (suc i) f (ip ∷ ips) = ip ∷ change i f ips

-- `ip->ref++`
abbrev pub hold : Inode → Inode
hold ip = record ip { ref = ip.ref + 1 }

abbrev pub recycle : ℕ → ℕ → Inode → Inode
recycle dev inum ip = record ip { dev = dev; inum = inum; ref = 1; valid = false }

unfoldable pub iget : ℕ → ℕ → List Inode → Outcome (ℕ × List Inode)
iget dev inum ips = elim (scan_inodes dev inum 0 none ips).0 [
  | some i ↦ ok (i, change i hold ips)
  | none ↦ elim (scan_inodes dev inum 0 none ips).1 [
    | none ↦ panic "iget: no inodes"
    | some i ↦ ok (i, change i (recycle dev inum) ips)
  ]
]

pub idup : ℕ → List Inode → List Inode
idup i ips = change i hold ips
