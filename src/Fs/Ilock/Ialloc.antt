-- ===== src/Fs/Ilock/Ialloc.antt =====
-- ialloc of fs.c: the search for a free disk inode.
use mit_xv.Prelude.{
  ℕ, zero, suc, ◌+◌, ◌*◌, ◌%◌, ◌≤◌, ◌<◌, ◌≡◌, refl, ap₂, ◌∙◌, ◌≢◌, inr, true, ◌&&◌, ◌∷◌, arith, ltb,
  leb, if◌then◌else◌, replicate,
}
use mit_xv.Fs.{Superblock, Blocks, write_block}
use mit_xv.Fs.Icache.{Inode}
use mit_xv.Fs.Inode.{ipb, iblock}
use mit_xv.Fs.Ilock.{load_short, load_word, load_words, new_dinode}
use mit_xv.Fs.Ilock.Dinode.{load_short-put_short, put_short-Beside}
use mit_xv.Fs.Ilock.Reload.{dinode}

-- The type of inode `i` on the disk.
abbrev pub disk_type : Superblock → Blocks → ℕ → ℕ
disk_type sb d i = load_short (d.blocks (iblock sb i)) (i % ipb * 64)

-- A fresh inode of the type.
abbrev pub fresh : ℕ → Inode → Inode
fresh type c = record c {
  type = type;
  major = 0;
  minor = 0;
  nlink = 0;
  size = 0;
  addrs = replicate 13 0;
}

-- Inode `i` is taken with the type, and `d'` is the disk after.
pub record Taken (sb : Superblock) (type : ℕ) (d : Blocks) (i : ℕ) (d' : Blocks) : Type 0 where
  pub range : (0 < i) × (i < sb.ninodes)
  pub was_free : disk_type sb d i ≡ 0
  pub first : (j : ℕ) → 0 < j → j < i → disk_type sb d j ≢ 0
  pub here : (c : Inode) → dinode sb d' i c ≡ fresh type c
  pub others : (j : ℕ) (c : Inode) → i ≢ j → dinode sb d' j c ≡ dinode sb d j c

module _ (f : ℕ → ℕ) (o type : ℕ) where
  zeroed : (k : ℕ) → o + 2 ≤ k → k < o + 64 → new_dinode f o type k ≡ 0
  unfolding new_dinode
  zeroed k lo hi =
      put_short-Beside (λ k. if leb o k && ltb k (o + 64) then 0 else f k) o type k (inr lo)
      ∙ (let x : leb o k ≡ true = ground arith in
          let y : ltb k (o + 64) ≡ true = ground arith in rw (x, y) refl)

  first : type < 65536 → load_short (new_dinode f o type) o ≡ type
  unfolding new_dinode
  first lt = load_short-put_short (λ k. if leb o k && ltb k (o + 64) then 0 else f k) o type lt

  short : (p : ℕ) → o + 2 ≤ p → p + 2 ≤ o + 64 → load_short (new_dinode f o type) p ≡ 0
  unfolding load_short
  short p lo hi =
      let a = zeroed p lo (omega arith) in
      let b = zeroed (p + 1) (omega arith) (omega arith) in omega arith

  word : (p : ℕ) → o + 2 ≤ p → p + 4 ≤ o + 64 → load_word (new_dinode f o type) p ≡ 0
  unfolding load_word
  word p lo hi =
      let a = short p lo (omega arith) in
      let b = short (p + 2) (omega arith) (omega arith) in omega arith

  words :
      (n p : ℕ)
      → o + 2 ≤ p
      → p + 4 * n ≤ o + 64
      → load_words n (new_dinode f o type) p ≡ replicate n 0
  unfolding load_words
  words zero p lo hi = refl
  words (suc n) p lo hi =
      ap₂ (λ x xs. x ∷ xs) (word p lo (omega arith)) (words n (p + 4) (omega arith) (omega arith))

module _ (sb : Superblock) (type : ℕ) (d : Blocks) where
  -- The disk with inode `i` taken.
  abbrev taken : ℕ → Blocks
  taken i = write_block (iblock sb i) (new_dinode (d.blocks (iblock sb i)) (i % ipb * 64) type) d
