-- ===== src/Fs/Ilock/Tests.antt =====
-- The file of the tests of readi is given up, and a new one made.
use mit_xv.Prelude.{
  ℕ, zero, suc, ◌-◌, ◌<◌, ◌≡◌, refl, ◌≢◌, ◌⊎◌, true, false, arith, replicate, All, u32_mod, ok,
  panic,
}
use mit_xv.Fs.{Blocks}
use mit_xv.Fs.Icache.{Inode}
use mit_xv.Fs.Content.{block_of, Sound, Foreign}
use mit_xv.Fs.Inode.Tests.{sb, disk, file, file-Sound, home-Foreign}
use mit_xv.Fs.Ilock.{iunlock, iput}
use mit_xv.Fs.Ilock.Dinode.{Fits}
use mit_xv.Fs.Ilock.Put.{Gone, iput_lem}

zeros-fit : (n : ℕ) → All (λ v. v < u32_mod) (replicate n 0)
zeros-fit zero = tt
zeros-fit (suc n) = (omega arith, zeros-fit n)

file-Fits : Fits file
file-Fits = record {
  type = omega arith;
  major = omega arith;
  minor = omega arith;
  nlink = omega arith;
  size = omega arith;
  count = refl;
  addrs = (omega arith, zeros-fit 12);
}

-- The cached inode 1, not read yet.
abbrev stale : Inode
stale = record file { valid = false; locked = false; size = 99 }

-- The file, once it has no links.
abbrev unlinked : Inode
unlinked = record file { nlink = 0 }

unlinked-Sound : Sound sb disk unlinked
unfolding block_of
unlinked-Sound =
    let s = file-Sound in
    record { disk = s.disk; shape = s.shape; live = s.live; distinct = s.distinct }

unlinked-Foreign : Foreign sb disk unlinked 2
unfolding block_of
unlinked-Foreign = let f = home-Foreign in record { live = f.live; not_owned = f.not_owned }

unlinked-Fits : Fits unlinked
unlinked-Fits =
    let f = file-Fits in
    record {
      type = f.type;
      major = f.major;
      minor = f.minor;
      nlink = omega arith;
      size = f.size;
      count = f.count;
      addrs = f.addrs;
    }

iput_lem_example :
    (unlinked.valid ≡ true
      → unlinked.nlink ≡ 0
      → unlinked.ref ≡ 1
      → (ip' : Inode) × (d' : Blocks) × (iput sb unlinked disk ≡ ok (ip', d'))
        × Gone sb disk unlinked ip' d')
    × ((unlinked.valid ≡ false) ⊎ ((unlinked.nlink ≢ 0) ⊎ (unlinked.ref ≢ 1))
        → iput sb unlinked disk ≡ ok (record unlinked { ref = 1 - 1; locked = false }, disk))
iput_lem_example = iput_lem sb disk unlinked unlinked-Sound unlinked-Fits unlinked-Foreign

iunlock_runs :
    (iunlock file ≡ ok (record file { locked = false })) × (iunlock stale ≡ panic "iunlock")
unfolding iunlock
iunlock_runs = (refl, refl)
