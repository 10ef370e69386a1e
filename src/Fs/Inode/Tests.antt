-- ===== src/Fs/Inode/Tests.antt =====
-- A disk of 8 blocks, whose block 3 is the bitmap, with blocks 0 to 4 in use; block 4 is the first
-- of a file of 5 bytes, inode 1, which stands in block 2.
use mit_xv.Prelude.{
  ℕ, zero, suc, ◌+◌, ◌-◌, ◌≤◌, ◌<◌, min, ◌≡◌, refl, sym, ◌∙◌, subst, ◌≢◌, ◌⊎◌, inl, inr, true, ◌&&◌,
  Option, none, some, [], ◌∷◌, arith, ◌==◌, if◌then◌else◌, ==→eq, Bool-cases, get_or, replicate,
  u32_mod, ok, panic,
}
use mit_xv.Fs.{Superblock, Blocks, bblock, bit}
use mit_xv.Fs.Bitmap.{is_used}
use mit_xv.Fs.Icache.{Inode}
use mit_xv.Fs.Bmap.{maxfile, bmap, slot_block}
use mit_xv.Fs.Content.{block_of, Live, Usable, Sound, Foreign}
use mit_xv.Fs.Content.Places.{place-cases, block_of-direct, block_of-entry, block_of-table}
use mit_xv.Fs.Content.Step.{Maps, Crowded}
use mit_xv.Fs.Content.Map.{bmap_lem}
use mit_xv.Fs.Inode.{Io, Device, copy_bytes, copy_out, readi, readi_loop, read_blocks}
use mit_xv.Fs.Inode.Read.{IsFile, loaded, readi_lem}

abbrev pub sb : Superblock
sb = record {
  size = 8;
  nblocks = 4;
  ninodes = 8;
  nlog = 0;
  logstart = 2;
  inodestart = 2;
  bmapstart = 3;
}

abbrev pub disk : Blocks
disk = record {
  blocks = λ q i. if (q == 3) && (i == 0) then 31 else (if q == 4 then i + 65 else 0);
  logged = [];
}

abbrev pub file : Inode
file = record {
  dev = 1;
  inum = 1;
  ref = 1;
  locked = true;
  valid = true;
  type = 2;
  major = 0;
  minor = 0;
  nlink = 1;
  size = 5;
  addrs = 4 ∷ replicate 12 0;
}

abbrev pub state : Io
state = record { memory = λ a. a; disk = disk; inode = file }

abbrev devsw : ℕ → Option Device
devsw i = none

used_below : (c : ℕ) → c < 5 → is_used sb disk c ≡ true
unfolding bit
used_below zero lt = refl
used_below (suc zero) lt = refl
used_below (suc (suc zero)) lt = refl
used_below (suc (suc (suc zero))) lt = refl
used_below (suc (suc (suc (suc zero)))) lt = refl
used_below (suc (suc (suc (suc (suc c))))) lt = absurd (omega arith)

map_block : (c : ℕ) → c < 8 → 3 ≡ bblock sb c
map_block c lt = omega arith

pub Live-block : (q : ℕ) → q < 5 → 3 ≢ q → Live sb disk q
Live-block q lt ne = record {
  fits = omega arith;
  used = used_below q lt;
  no_map = λ c l e. ne (map_block c l ∙ e);
}

pub disk-Usable : Usable sb disk
disk-Usable = record {
  small = omega arith;
  boot = used_below 0 (omega arith);
  maps_fit = λ c lt. let e = map_block c lt in omega arith;
  owns =
      λ c lt. subst (λ t. is_used sb disk t ≡ true) (map_block c lt) (used_below 3 (omega arith));
}

get_or-zeros : (n i : ℕ) → ◌≡◌ {A = ℕ} (get_or (replicate n 0) i 0) 0
get_or-zeros zero i = refl
get_or-zeros (suc n) zero = refl
get_or-zeros (suc n) (suc i) = get_or-zeros n i

-- The file has a first block only.
pub block_of-file : (i : ℕ) → i ≤ maxfile → block_of disk file i ≡ (if i == 0 then 4 else 0)
block_of-file i le = elim (place-cases i le) [
  | inl lt ↦ block_of-direct disk file i lt ∙ direct i
  | inr (inl (lo, hi)) ↦ block_of-entry disk file i lo hi ∙ sym (later i (omega arith))
  | inr (inr e) ↦ subst (λ t. block_of disk file t ≡ (if t == 0 then 4 else 0)) (sym e) table
]
  where
    later : (i : ℕ) → 0 < i → ◌≡◌ {A = ℕ} (if i == 0 then 4 else 0) 0
    later i lt = ground arith

    direct : (i : ℕ) → get_or file.addrs i 0 ≡ (if i == 0 then 4 else 0)
    direct zero = refl
    direct (suc i) = get_or-zeros 12 i ∙ sym (later (suc i) (omega arith))

    table : block_of disk file maxfile ≡ 0
    table = block_of-table disk file

pub first_block : (i : ℕ) → i ≤ maxfile → block_of disk file i ≢ 0 → i ≡ 0
first_block i le ne = elim (Bool-cases (i == 0)) [
  | inl y ↦ ==→eq i 0 y
  | inr n ↦ absurd (ne (block_of-file i le ∙ rw n refl))
]

pub file-Sound : Sound sb disk file
file-Sound = record {
  disk = disk-Usable;
  shape = refl;
  live = λ i le ne.
      subst (λ t. Live sb disk (block_of disk file t)) (sym (first_block i le ne))
        (subst (λ t. Live sb disk t) (sym (block_of-file 0 (omega arith)))
          (Live-block 4 (omega arith) (λ e. omega arith)));
  distinct = λ i j le le' ne e. first_block i le ne ∙ sym (first_block j le' (λ z. ne (e ∙ z)));
}

pub file-IsFile : IsFile sb disk file
file-IsFile = record {
  sound = file-Sound;
  solid = λ i lt under z.
      let e : i ≡ 0 = omega arith in
      let f : block_of disk file 0 ≡ 0 = subst (λ t. block_of disk file t ≡ 0) e z in
      let g = block_of-file 0 (omega arith) in omega arith;
  short = omega arith;
  no_device = λ e. omega arith;
}

pub home-Foreign : Foreign sb disk file 2
home-Foreign = record {
  live = Live-block 2 (omega arith) (λ e. omega arith);
  not_owned = λ i le e.
      let f = block_of-file i le in
      elim (Bool-cases (i == 0)) [
        | inl y ↦ let g : 4 ≡ 2 = sym (f ∙ rw y refl) ∙ e in omega arith
        | inr n ↦ let g : 0 ≡ 2 = sym (f ∙ rw n refl) ∙ e in omega arith
      ];
}

bmap_lem_example : Maps sb disk file 139 (Crowded sb disk) (bmap sb file 139 disk)
bmap_lem_example = bmap_lem sb disk file 139 file-Sound (omega arith)

readi_lem_example :
    (3 ≤ 5
      → 3 + 9 < u32_mod
      → readi devsw sb 100 3 9 state
        ≡ ok (some (min 9 (5 - 3)), loaded sb state 100 3 (min 9 (5 - 3))))
    × ((5 < 3) ⊎ (u32_mod ≤ 3 + 9) → readi devsw sb 100 3 9 state ≡ ok (none, state))
readi_lem_example = readi_lem sb devsw 100 3 9 state file-IsFile (omega arith) (omega arith)

-- The last two bytes of the file are read, for nine wanted.
abbrev read_back : Option ℕ × (ℕ × ℕ)
read_back = elim (readi devsw sb 100 3 9 state) [
  | ok (r, s) ↦ (r, (s.memory 100, s.memory 101))
  | panic m ↦ (none, (0, 0))
]

readi_runs : read_back ≡ (some 2, (68, 69))
unfolding readi read_blocks readi_loop bmap slot_block copy_out copy_bytes
readi_runs = refl
