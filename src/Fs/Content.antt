-- ===== src/Fs/Content.antt =====
-- The content of a file, as the numbers of fs.c's `struct inode` and its indirect block give it:
-- what the operations of fs.c on inodes are about, and when the inode owns its blocks.
pub mod Grown
pub mod Places
pub mod Map
pub mod Fill
pub mod Step
use mit_xv.Prelude.{
  ℕ, ◌-◌, ◌*◌, ◌/◌, ◌%◌, ◌≤◌, ◌<◌, ◌≡◌, refl, sym, ap, ◌∙◌, ◌≢◌, true, not, none, ltb, ◌==◌,
  if◌then◌else◌, length, get_or, u32_mod,
}
use mit_xv.Fs.{bsize, Superblock, Blocks, bblock}
use mit_xv.Fs.Bitmap.{is_used}
use mit_xv.Fs.Icache.{Inode}
use mit_xv.Fs.Bmap.{ndirect, maxfile, get_word}

abbrev pub indirect : Inode → ℕ
indirect ip = get_or ip.addrs ndirect 0

-- Entry `i` of the indirect block `q`, if there is one.
abbrev pub entry : Blocks → ℕ → ℕ → ℕ
entry d q i = if q == 0 then 0 else get_word (d.blocks q) i

-- The block that holds block `bn` of the file, 0 for none; for `maxfile` the indirect block.
unfoldable pub block_of : Blocks → Inode → ℕ → ℕ
block_of d ip bn =
    if ltb bn ndirect
    then get_or ip.addrs bn 0
    else (if bn == maxfile then indirect ip else entry d (indirect ip) (bn - ndirect))

-- Byte `k` of the file, 0 where it has no block.
unfoldable pub content : Blocks → Inode → ℕ → ℕ
content d ip k =
    if block_of d ip (k / bsize) == 0 then 0 else d.blocks (block_of d ip (k / bsize)) (k % bsize)

-- Block `q` is in use, and not for the bitmap.
pub record Live (sb : Superblock) (d : Blocks) (q : ℕ) : Type 0 where
  pub fits : q < sb.size
  pub used : is_used sb d q ≡ true
  pub no_map : (c : ℕ) → c < sb.size → bblock sb c ≢ q

-- The disk can be used: the bitmap and block 0 are in use.
pub record Usable (sb : Superblock) (d : Blocks) : Type 0 where
  pub small : sb.size ≤ u32_mod
  pub boot : is_used sb d 0 ≡ true
  pub maps_fit : (c : ℕ) → c < sb.size → bblock sb c < sb.size
  pub owns : (c : ℕ) → c < sb.size → is_used sb d (bblock sb c) ≡ true

-- The inode owns its blocks: they are in use, and no two are the same.
pub record Sound (sb : Superblock) (d : Blocks) (ip : Inode) : Type 0 where
  pub disk : Usable sb d
  pub shape : length ip.addrs ≡ 13
  pub live : (i : ℕ) → i ≤ maxfile → block_of d ip i ≢ 0 → Live sb d (block_of d ip i)
  pub distinct :
      (i j : ℕ)
      → i ≤ maxfile
      → j ≤ maxfile
      → block_of d ip i ≢ 0
      → block_of d ip i ≡ block_of d ip j
      → i ≡ j

-- Block `q` is in use for something else than this inode and the bitmap.
pub record Foreign (sb : Superblock) (d : Blocks) (ip : Inode) (q : ℕ) : Type 0 where
  pub live : Live sb d q
  pub not_owned : (i : ℕ) → i ≤ maxfile → block_of d ip i ≢ q

-- The inode is as before up to its numbers of blocks.
abbrev pub SameInode : Inode → Inode → Type 0
SameInode ip ip' = ip' ≡ record ip { addrs = ip'.addrs }

-- A step that kept the content of the file and every block of others.
pub record Kept (sb : Superblock) (d : Blocks) (ip : Inode) (d' : Blocks) (ip' : Inode)
    : Type 0 where
  pub sound : Sound sb d' ip'
  pub content_kept : (k : ℕ) → k < maxfile * bsize → content d' ip' k ≡ content d ip k
  pub blocks_kept :
      (i : ℕ) → i ≤ maxfile → block_of d ip i ≢ 0 → block_of d' ip' i ≡ block_of d ip i
  pub foreign : (q : ℕ) → Foreign sb d ip q → Foreign sb d' ip' q × (d'.blocks q ≡ d.blocks q)
  pub same : SameInode ip ip'

pub Kept-refl : (sb : Superblock) (d : Blocks) (ip : Inode) → Sound sb d ip → Kept sb d ip d ip
Kept-refl sb d ip s = record {
  sound = s;
  content_kept = λ k lt. refl;
  blocks_kept = λ i le ne. refl;
  foreign = λ q f. (f, refl);
  same = refl;
}

pub Kept-trans :
    (sb : Superblock) (d : Blocks) (ip : Inode) (d' : Blocks) (ip' : Inode) (d'' : Blocks)
    (ip'' : Inode)
    → Kept sb d ip d' ip'
    → Kept sb d' ip' d'' ip''
    → Kept sb d ip d'' ip''
Kept-trans sb d ip d' ip' d'' ip'' f g = record {
  sound = g.sound;
  content_kept = λ k lt. g.content_kept k lt ∙ f.content_kept k lt;
  blocks_kept =
      λ i le ne. let e = f.blocks_kept i le ne in g.blocks_kept i le (λ z. ne (sym e ∙ z)) ∙ e;
  foreign = λ q x. let (y, e) = f.foreign q x in let (z, e') = g.foreign q y in (z, e' ∙ e);
  same = g.same ∙ ap (λ (t : Inode). record t { addrs = ip''.addrs }) f.same;
}
