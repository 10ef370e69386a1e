-- ===== src/Fs/Ilock/Put.antt =====
-- iput of fs.c on the last reference to a file without links.
use mit_xv.Prelude.{
  ℕ, suc, ◌-◌, ◌*◌, ◌%◌, ◌<◌, ◌≡◌, refl, sym, ap, ◌∙◌, subst, ◌≢◌, ◌⊎◌, inl, inr, Bool, true, false,
  ◌&&◌, List, [], ◌∷◌, arith, ◌==◌, if◌then◌else◌, ==_refl, ne→==, Bool-cases, get_or, All, Outcome,
  ◌>>=◌, u32_mod, ok,
}
use mit_xv.Fs.{Superblock, Blocks, bblock, write_block}
use mit_xv.Fs.Bitmap.{is_used}
use mit_xv.Fs.Icache.{Inode}
use mit_xv.Fs.Content.{block_of, Sound, Foreign}
use mit_xv.Fs.Inode.{ipb, iblock, put_dinode, iupdate}
use mit_xv.Fs.Ilock.{lock, discard, drop_ref, iput}
use mit_xv.Fs.Ilock.Trunc.{Truncated, Emptied, itrunc_lem}
use mit_xv.Fs.Ilock.Dinode.{Fits, load-put_dinode}
use mit_xv.Fs.Ilock.Reload.{dinode}

-- The inode is free in the cache, and on the disk, and its blocks are free.
pub record Gone (sb : Superblock) (d : Blocks) (ip : Inode) (ip' : Inode) (d' : Blocks)
    : Type 0 where
  pub unused : (ip'.ref ≡ 0) × (ip'.valid ≡ false) × (ip'.locked ≡ false)
  pub blocks : Truncated sb d ip d'
  pub free_dinode : (c : Inode) → (dinode sb d' ip.inum c).type ≡ 0

Truncated-home :
    (sb : Superblock) (d : Blocks) (ip : Inode) (d' : Blocks) (bytes : ℕ → ℕ)
    → Sound sb d ip
    → Foreign sb d ip (iblock sb ip.inum)
    → Truncated sb d ip d'
    → Truncated sb d ip (write_block (iblock sb ip.inum) bytes d')
Truncated-home sb d ip d' bytes s home t = record {
  freed = λ i le ne. bit_kept (block_of d ip i) ((s.live i le ne).fits) ∙ t.freed i le ne;
  still = λ c lt u away. bit_kept c lt ∙ t.still c lt u away;
  free = λ c lt u. bit_kept c lt ∙ t.free c lt u;
  bytes = λ q l ne. rw (ne→== (iblock sb ip.inum) q ne) (t.bytes q l ne);
}
  where
    bit_kept :
        (c : ℕ)
        → c < sb.size
        → is_used sb (write_block (iblock sb ip.inum) bytes d') c ≡ is_used sb d' c
    bit_kept c lt =
        rw (ne→== (iblock sb ip.inum) (bblock sb c) (λ e. home.live.no_map c lt (sym e))) refl

never : (x y z : Bool) → z ≡ false → (x && (y && z)) ≡ false
never true true z e = e
never true false z e = refl
never false y z e = refl

zeros-small : (xs : List ℕ) → ((j : ℕ) → get_or xs j 0 ≡ 0) → All (λ v. v < u32_mod) xs
zeros-small [] z = tt
zeros-small (x ∷ xs) z = (let e : x ≡ 0 = z 0 in omega arith, zeros-small xs (λ j. z (suc j)))

module _ (sb : Superblock) (d : Blocks) (ip : Inode) (s : Sound sb d ip) (fits : Fits ip)
    (home : Foreign sb d ip (iblock sb ip.inum)) where
  -- The disk inode that `discard` writes.
  Emptied-Fits : (ip' : Inode) → Emptied ip ip' → Fits (record ip' { type = 0 })
  Emptied-Fits ip' e =
      let major : ip'.major ≡ ip.major = ap (λ (t : Inode). t.major) e.same in
      let minor : ip'.minor ≡ ip.minor = ap (λ (t : Inode). t.minor) e.same in
      let nlink : ip'.nlink ≡ ip.nlink = ap (λ (t : Inode). t.nlink) e.same in
      let size = e.size in
      let h1 = fits.major in
      let h2 = fits.minor in
      let h3 = fits.nlink in
      record {
        type = omega arith;
        major = omega arith;
        minor = omega arith;
        nlink = omega arith;
        size = omega arith;
        count = e.shape;
        addrs = zeros-small ip'.addrs e.slots;
      }

  -- What `discard` writes to the block of the inode.
  abbrev written : Inode → Blocks → ℕ → ℕ
  written ip1 d1 =
      put_dinode (d1.blocks (iblock sb ip1.inum)) (ip1.inum % ipb * 64) (record ip1 { type = 0 })

  discard_lem :
      (ip' : Inode) × (d' : Blocks) × (discard sb ip d ≡ ok (ip', d'))
      × (ip'.ref ≡ ip.ref)
      × (ip'.valid ≡ false)
      × Truncated sb d ip d'
      × ((c : Inode) → (dinode sb d' ip.inum c).type ≡ 0)
  unfolding discard iupdate
  discard_lem =
      let (ip1, d1, r, e, t) = itrunc_lem sb d ip s home in
      let same_inum : ip1.inum ≡ ip.inum = ap (λ (u : Inode). u.inum) e.same in
      let bytes = written ip1 d1 in
      rw r (
        record ip1 { type = 0; valid = false },
        write_block (iblock sb ip1.inum) bytes d1,
        refl,
        ap (λ (u : Inode). u.ref) e.same,
        refl,
        subst (λ u. Truncated sb d ip (write_block (iblock sb u) bytes d1)) (sym same_inum)
            (Truncated-home sb d ip d1 bytes s home t),
        λ c.
            subst (λ u. (dinode sb (write_block (iblock sb ip1.inum) bytes d1) u c).type ≡ 0)
              same_inum (free_there ip1 d1 e c),
      )
    where
      free_there :
          (ip1 : Inode) (d1 : Blocks)
          → Emptied ip ip1
          → (c : Inode)
          → (dinode sb (write_block (iblock sb ip1.inum) (written ip1 d1) d1) ip1.inum c).type ≡ 0
      free_there ip1 d1 e c =
          let q = iblock sb ip1.inum in
          let r =
            load-put_dinode (d1.blocks q) (ip1.inum % ipb * 64) (record ip1 { type = 0 })
              (Emptied-Fits ip1 e) c in
          rw (==_refl q) (ap (λ (u : Inode). u.type) r)

module _ (sb : Superblock) (d : Blocks) (ip : Inode) where
  Sound-lock : Sound sb d ip → Sound sb d (lock ip)
  unfolding block_of
  Sound-lock s = record { disk = s.disk; shape = s.shape; live = s.live; distinct = s.distinct }

  Foreign-lock : (q : ℕ) → Foreign sb d ip q → Foreign sb d (lock ip) q
  unfolding block_of
  Foreign-lock q f = record { live = f.live; not_owned = f.not_owned }

  Truncated-unlock : (d' : Blocks) → Truncated sb d (lock ip) d' → Truncated sb d ip d'
  unfolding block_of
  Truncated-unlock d' t = record {
    freed = t.freed;
    still = t.still;
    free = t.free;
    bytes = t.bytes;
  }

  Fits-lock : Fits ip → Fits (lock ip)
  Fits-lock f = record {
    type = f.type;
    major = f.major;
    minor = f.minor;
    nlink = f.nlink;
    size = f.size;
    count = f.count;
    addrs = f.addrs;
  }

  -- What `iput` does after `discard`.
  abbrev freeing : Outcome (Inode × Blocks) → Outcome (Inode × Blocks)
  freeing call = do (ip', d') ← call; ok (drop_ref ip', d')

  -- `iput` of the only reference to a valid inode without links, which owns its blocks, returns:
  -- the inode is free in the cache and on the disk, exactly its blocks are freed, and every other
  -- block in use is as before but for that of the inode. In every other case `iput` drops one
  -- reference and leaves the disk as it is.
  pub iput_lem :
      Sound sb d ip
      → Fits ip
      → Foreign sb d ip (iblock sb ip.inum)
      → (ip.valid ≡ true
          → ip.nlink ≡ 0
          → ip.ref ≡ 1
          → (ip' : Inode) × (d' : Blocks) × (iput sb ip d ≡ ok (ip', d')) × Gone sb d ip ip' d')
        × ((ip.valid ≡ false) ⊎ ((ip.nlink ≢ 0) ⊎ (ip.ref ≢ 1))
            → iput sb ip d ≡ ok (record ip { ref = ip.ref - 1; locked = false }, d))
  unfolding iput
  iput_lem s fits home = (last, kept)
    where
      last :
          ip.valid ≡ true
          → ip.nlink ≡ 0
          → ip.ref ≡ 1
          → (ip' : Inode) × (d' : Blocks) × (iput sb ip d ≡ ok (ip', d')) × Gone sb d ip ip' d'
      last v nl one =
          let (ip1, d1, r, same_ref, stale, t, free) =
            discard_lem sb d (lock ip) (Sound-lock s) (Fits-lock fits)
              (Foreign-lock (iblock sb ip.inum) home) in
          let g : (ip.nlink == 0) ≡ true = ground arith in
          let g' : (ip.ref == 1) ≡ true = ground arith in
          let test : (ip.valid && ((ip.nlink == 0) && (ip.ref == 1))) ≡ true = rw (v, g, g') refl in
          (
            drop_ref ip1,
            d1,
            ap (λ t. if t then freeing (discard sb (lock ip) d) else ok (drop_ref ip, d)) test
                ∙ ap freeing r,
            record {
              unused = (omega arith, stale, refl);
              blocks = Truncated-unlock d1 t;
              free_dinode = free;
            },
          )

      kept :
          (ip.valid ≡ false) ⊎ ((ip.nlink ≢ 0) ⊎ (ip.ref ≢ 1))
          → iput sb ip d ≡ ok (record ip { ref = ip.ref - 1; locked = false }, d)
      kept (inl v) = rw v refl
      kept (inr (inl nl)) = elim (Bool-cases ip.valid) [
        | inl v ↦ rw (v, ne→== ip.nlink 0 nl) refl
        | inr v ↦ rw v refl
      ]
      kept (inr (inr more)) =
          let g : (ip.valid && ((ip.nlink == 0) && (ip.ref == 1))) ≡ false =
            never ip.valid (ip.nlink == 0) (ip.ref == 1) (ne→== ip.ref 1 more) in
          ap (λ t. if t then freeing (discard sb (lock ip) d) else ok (drop_ref ip, d)) g
