-- ===== src/Fs/Tests.antt =====
-- A disk of 20 blocks whose block 3 is the bitmap, with blocks 0 to 3 in use.
use mit_xv.Prelude.{
  ℕ, zero, suc, ◌<◌, ◌≡◌, refl, sym, ◌∙◌, subst, ◌⊎◌, true, false, ◌&&◌, some, List, [], ◌∷◌, map,
  arith, ◌==◌, if◌then◌else◌, length, get_elem?, take, ok, panic,
}
use mit_xv.Fs.{Superblock, Blocks, bblock, bit, set_bit, scan_bits, scan_maps, mark, bzero, balloc}
use mit_xv.Fs.Bitmap.{is_used}
use mit_xv.Fs.Path.{skip_slashes, span_elem, skipelem, names, elements, names_lem}
use mit_xv.Fs.Icache.{Inode, is_inode, scan_inodes, change, iget}
use mit_xv.Fs.Icache.Scan.{NoSlot, is_free}
use mit_xv.Fs.Icache.Get.{Unique, Got, iget_lem}
use mit_xv.Fs.Alloc.{OwnsBitmap, Allocated, balloc_lem}

abbrev sb : Superblock
sb = record {
  size = 20;
  nblocks = 16;
  ninodes = 8;
  nlog = 0;
  logstart = 2;
  inodestart = 2;
  bmapstart = 3;
}

abbrev disk : Blocks
disk = record { blocks = λ q i. if (q == 3) && (i == 0) then 15 else 9; logged = [] }

disk-OwnsBitmap : OwnsBitmap sb disk
unfolding bit
disk-OwnsBitmap c lt =
    let e : 3 ≡ bblock sb c = omega arith in subst (λ t. is_used sb disk t ≡ true) e refl

balloc_runs : balloc sb disk ≡ ok (4, bzero 4 (mark sb 4 disk))
unfolding balloc scan_maps scan_bits bit
balloc_runs = refl

mark_runs : (mark sb 4 disk).blocks 3 0 ≡ 31
unfolding mark set_bit
mark_runs = refl

balloc_lem_example :
    ((a : ℕ) × (after : Blocks) × (balloc sb disk ≡ ok (a, after)) × Allocated sb disk a after)
    ⊎ (balloc sb disk ≡ panic "balloc: out of blocks")
      × ((c : ℕ) → c < sb.size → is_used sb disk c ≡ true)
balloc_lem_example = balloc_lem sb disk disk-OwnsBitmap

-- "///a//bb"
abbrev path : List ℕ
path = 47 ∷ 47 ∷ 47 ∷ 97 ∷ 47 ∷ 47 ∷ 98 ∷ 98 ∷ []

skipelem_runs : skipelem path ≡ some (97 ∷ [], 98 ∷ 98 ∷ [])
unfolding skipelem skip_slashes span_elem
skipelem_runs = refl

names_lem_example : names (suc (length path)) path ≡ some (map (take 14) (elements path))
names_lem_example = names_lem path

-- Inode 5 of device 1 is cached and a second entry is free.
abbrev cached : Inode
cached = record {
  dev = 1;
  inum = 5;
  ref = 1;
  locked = false;
  valid = true;
  type = 2;
  major = 0;
  minor = 0;
  nlink = 1;
  size = 0;
  addrs = [];
}

abbrev icache : List Inode
icache = cached ∷ record cached { ref = 0 } ∷ []

iget_runs :
    (iget 1 5 icache ≡ ok (0, record cached { ref = 2 } ∷ record cached { ref = 0 } ∷ []))
    × (iget 1 6 icache ≡ ok (1, cached ∷ record cached { inum = 6; valid = false } ∷ []))
unfolding iget scan_inodes change
iget_runs = (refl, refl)

-- Only entry 0 is in use.
first_only :
    (d n k : ℕ) (ip : Inode) → get_elem? icache k ≡ some ip → is_inode d n ip ≡ true → 0 ≡ k
first_only d n zero ip l h = refl
first_only d n (suc zero) ip l h =
    let same : record cached { ref = 0 } ≡ ip = cc in
    let h' : is_inode d n (record cached { ref = 0 }) ≡ true =
      subst (λ t. is_inode d n t ≡ true) (sym same) h in
    cc
first_only d n (suc (suc k)) ip l h = cc

icache-Unique : Unique icache
icache-Unique d n j k (p, l, h) (q, l', h') =
    sym (first_only d n j p l h) ∙ first_only d n k q l' h'

iget_lem_example :
    ((i : ℕ) × (after : List Inode) × (iget 1 6 icache ≡ ok (i, after)) × Got 1 6 icache i after)
    ⊎ (iget 1 6 icache ≡ panic "iget: no inodes")
      × NoSlot (is_inode 1 6) icache
      × NoSlot is_free icache
iget_lem_example = iget_lem 1 6 icache icache-Unique
