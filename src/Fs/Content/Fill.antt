-- ===== src/Fs/Content/Fill.antt =====
-- A write of one block of the disk, seen from an inode that owns its blocks.
use mit_xv.Prelude.{
  ℕ, ◌-◌, ◌*◌, ◌/◌, ◌%◌, ◌≤◌, ◌<◌, ◌≡◌, refl, sym, ap, ◌∙◌, subst, ◌≢◌, inl, inr, arith, ◌==◌,
  if◌then◌else◌, ==→eq, ==→ne, ==_refl, ne→==, Bool-cases, update,
}
use mit_xv.Fs.{bsize, Superblock, Blocks, bblock, write_block}
use mit_xv.Fs.Bitmap.{is_used}
use mit_xv.Fs.Icache.{Inode}
use mit_xv.Fs.Bmap.{ndirect, maxfile}
use mit_xv.Fs.Content.{indirect, entry, block_of, content, Live, Usable, Sound, Foreign}
use mit_xv.Fs.Content.Places.{block_of-direct, block_of-table, block_of-entry, place-cases}

module _ (sb : Superblock) (d : Blocks) (q : ℕ) (bytes : ℕ → ℕ) where
  -- Block `q` is no block of the bitmap.
  abbrev NoMap : Type 0
  NoMap = (c : ℕ) → c < sb.size → bblock sb c ≢ q

  is_used-write :
      NoMap → (c : ℕ) → c < sb.size → is_used sb (write_block q bytes d) c ≡ is_used sb d c
  is_used-write nm c lt = rw (ne→== q (bblock sb c) (λ e. nm c lt (sym e))) refl

  Live-write : NoMap → (p : ℕ) → Live sb d p → Live sb (write_block q bytes d) p
  Live-write nm p l = record {
    fits = l.fits;
    used = is_used-write nm p l.fits ∙ l.used;
    no_map = l.no_map;
  }

  Usable-write : NoMap → 0 < sb.size → Usable sb d → Usable sb (write_block q bytes d)
  Usable-write nm pos u = record {
    small = u.small;
    boot = is_used-write nm 0 pos ∙ u.boot;
    maps_fit = u.maps_fit;
    owns = λ c lt. is_used-write nm (bblock sb c) (u.maps_fit c lt) ∙ u.owns c lt;
  }

module _ (d : Blocks) (ip : Inode) (q : ℕ) (bytes : ℕ → ℕ) (ne : indirect ip ≢ q) where
  entry-write : (i : ℕ) → entry (write_block q bytes d) (indirect ip) i ≡ entry d (indirect ip) i
  entry-write i = rw (ne→== q (indirect ip) (λ e. ne (sym e))) refl

  pub block_of-write :
      (j : ℕ) → j ≤ maxfile → block_of (write_block q bytes d) ip j ≡ block_of d ip j
  block_of-write j le = elim (place-cases j le) [
    | inl dj ↦ block_of-direct (write_block q bytes d) ip j dj ∙ sym (block_of-direct d ip j dj)
    | inr (inl (lo, hi)) ↦
        block_of-entry (write_block q bytes d) ip j lo hi
        ∙ entry-write (j - ndirect)
        ∙ sym (block_of-entry d ip j lo hi)
    | inr (inr e) ↦
        subst (λ t. block_of (write_block q bytes d) ip t ≡ block_of d ip t) (sym e)
          (block_of-table (write_block q bytes d) ip ∙ sym (block_of-table d ip))
  ]

module _ (sb : Superblock) (d : Blocks) (ip : Inode) (q : ℕ) (bytes : ℕ → ℕ) (s : Sound sb d ip)
    (ne : indirect ip ≢ q) (l : Live sb d q) where
  pub Sound-write : Sound sb (write_block q bytes d) ip
  Sound-write = record {
    disk = Usable-write sb d q bytes l.no_map (let h = l.fits in omega arith) s.disk;
    shape = s.shape;
    live = λ i le nz.
        let e = block_of-write d ip q bytes ne i le in
        subst (λ t. Live sb (write_block q bytes d) t) (sym e)
          (Live-write sb d q bytes l.no_map (block_of d ip i) (s.live i le (λ z. nz (e ∙ z))));
    distinct = λ i j le le' nz e.
        let x = block_of-write d ip q bytes ne i le in
        let y = block_of-write d ip q bytes ne j le' in
        s.distinct i j le le' (λ z. nz (x ∙ z)) (sym x ∙ e ∙ y);
  }

  pub Foreign-write : (p : ℕ) → Foreign sb d ip p → Foreign sb (write_block q bytes d) ip p
  Foreign-write p f = record {
    live = Live-write sb d q bytes l.no_map p f.live;
    not_owned = λ i le e. f.not_owned i le (sym (block_of-write d ip q bytes ne i le) ∙ e);
  }

  pub content-write :
      (k : ℕ)
      → k < maxfile * bsize
      → content (write_block q bytes d) ip k ≡ (
          if block_of d ip (k / bsize) == 0
          then 0
          else update d.blocks q bytes (block_of d ip (k / bsize)) (k % bsize))
  unfolding content
  content-write k lt = rw (block_of-write d ip q bytes ne (k / bsize) (omega arith)) refl

  -- A write of a block of others is not seen.
  pub content-Foreign :
      Foreign sb d ip q
      → (k : ℕ) → k < maxfile * bsize
      → content (write_block q bytes d) ip k ≡ content d ip k
  unfolding content
  content-Foreign f k lt =
      content-write k lt
      ∙ rw
          (ne→== q (block_of d ip (k / bsize)) (λ e. f.not_owned (k / bsize) (omega arith) (sym e)))
          refl

  -- A write of block `i` of the file changes the content there.
  pub content-own :
      (i : ℕ)
      → i < maxfile
      → block_of d ip i ≡ q
      → q ≢ 0
      → (k : ℕ) → k < maxfile * bsize
      → content (write_block q bytes d) ip k
        ≡ (if k / bsize == i then bytes (k % bsize) else content d ip k)
  unfolding content
  content-own i lt e nz k kt = content-write k kt ∙ elim (Bool-cases (k / bsize == i)) [
    | inl y ↦
        let h : block_of d ip (k / bsize) ≡ q = ap (block_of d ip) (==→eq (k / bsize) i y) ∙ e in
        rw (y, h, ne→== q 0 nz, ==_refl q) refl
    | inr n ↦
        let other : q ≢ block_of d ip (k / bsize) = (λ o. ==→ne (k / bsize) i n (
          sym (
            s.distinct i (k / bsize) (omega arith) (omega arith) (λ z. nz (sym e ∙ z)) (e ∙ o)))) in
        rw (n, ne→== q (block_of d ip (k / bsize)) other) refl
  ]

-- The indirect block is none of the file's others.
pub indirect_ne :
    (sb : Superblock) (d : Blocks) (ip : Inode) (i : ℕ)
    → Sound sb d ip
    → i < maxfile
    → block_of d ip i ≢ 0
    → indirect ip ≢ block_of d ip i
indirect_ne sb d ip i s lt nz e =
    let same : i ≡ maxfile =
      s.distinct i maxfile (omega arith) (omega arith) nz (sym e ∙ sym (block_of-table d ip)) in
    omega arith
