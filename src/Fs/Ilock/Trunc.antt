-- ===== src/Fs/Ilock/Trunc.antt =====
-- itrunc of fs.c on a file, and the blocks that it frees.
use mit_xv.Prelude.{
  ℕ, zero, suc, ◌+◌, ◌*◌, ◌%◌, ◌≤◌, ◌<◌, ◌≡◌, refl, sym, ap, ◌∙◌, subst, ◌≢◌, inl, inr, true, false,
  List, [], ◌∷◌, arith, ltb, ◌==◌, if◌then◌else◌, ltb→le, ==→eq, ==→ne, ne→==, Bool-cases, length,
  get_or, ok,
}
use mit_xv.Fs.{Superblock, Blocks, bblock, write_block}
use mit_xv.Fs.Bitmap.{is_used}
use mit_xv.Fs.Icache.{Inode}
use mit_xv.Fs.Bmap.{ndirect, nindirect, maxfile}
use mit_xv.Fs.Content.{indirect, block_of, Live, Sound, Foreign}
use mit_xv.Fs.Content.Places.{block_of-table, block_of-entry}
use mit_xv.Fs.Inode.{ipb, iblock, put_dinode, iupdate}
use mit_xv.Fs.Ilock.{free_table, itrunc}
use mit_xv.Fs.Ilock.Freed.{
  Freed, Cleared, Freed-none, Freed-hole, free_slot-Freed, free_slots-Freed, free_entries-Freed,
}

-- The file of `ip` is gone: exactly its blocks are free, and the other blocks in use are as they
-- were, but for that of the inode itself.
pub record Truncated (sb : Superblock) (d : Blocks) (ip : Inode) (d' : Blocks) : Type 0 where
  pub freed : (i : ℕ) → i ≤ maxfile → block_of d ip i ≢ 0 → is_used sb d' (block_of d ip i) ≡ false
  pub still :
      (c : ℕ)
      → c < sb.size
      → is_used sb d c ≡ true
      → ((i : ℕ) → i ≤ maxfile → block_of d ip i ≢ c)
      → is_used sb d' c ≡ true
  pub free : (c : ℕ) → c < sb.size → is_used sb d c ≡ false → is_used sb d' c ≡ false
  pub bytes : (q : ℕ) → Live sb d q → iblock sb ip.inum ≢ q → d'.blocks q ≡ d.blocks q

-- The inode has no block and no bytes, and is else as before.
pub record Emptied (ip ip' : Inode) : Type 0 where
  pub slots : (j : ℕ) → get_or ip'.addrs j 0 ≡ 0
  pub shape : length ip'.addrs ≡ 13
  pub size : ip'.size ≡ 0
  pub same : ip' ≡ record ip { size = 0; addrs = ip'.addrs }

module _ (sb : Superblock) (d : Blocks) (ip : Inode) (s : Sound sb d ip) where
  Freed-holes :
      (k i : ℕ) (d' : Blocks)
      → ((j : ℕ) → i ≤ j → j < i + k → block_of d ip j ≡ 0)
      → Freed sb d ip i d'
      → Freed sb d ip (i + k) d'
  Freed-holes zero i d' z f = let e : i ≡ i + 0 = omega arith in subst (λ t. Freed sb d ip t d') e f
  Freed-holes (suc k) i d' z f =
      let e : i + 1 + k ≡ i + suc k = omega arith in
      subst (λ t. Freed sb d ip t d') e
        (Freed-holes k (i + 1) d' (λ j lo hi. z j (omega arith) (omega arith))
          (Freed-hole sb d ip s i d' (z i (omega arith) (omega arith)) f))

  free_table-Freed :
      (ip' : Inode) (d' : Blocks)
      → Cleared ip ndirect ip'
      → Freed sb d ip ndirect d'
      → (ip'' : Inode) × (d'' : Blocks) × (free_table sb ip' d' ≡ ok (ip'', d''))
        × Cleared ip (ndirect + 1) ip''
        × Freed sb d ip (maxfile + 1) d''
  unfolding free_table
  free_table-Freed ip' d' c f = elim (Bool-cases (get_or ip'.addrs ndirect 0 == 0)) [
    | inl y ↦
        let z : indirect ip ≡ 0 = sym (c.slots ndirect) ∙ ==→eq (get_or ip'.addrs ndirect 0) 0 y in
        rw y (
          ip',
          d',
          refl,
          record {
            slots = λ j. elim (Bool-cases (j == ndirect)) [
              | inl e ↦
                  subst
                    (λ t.
                      get_or ip'.addrs t 0
                      ≡ (if ltb t (ndirect + 1) then 0 else get_or ip.addrs t 0))
                    (sym (==→eq j ndirect e)) (==→eq (get_or ip'.addrs ndirect 0) 0 y)
              | inr n ↦
                  c.slots j
                  ∙ ap (λ t. if t then 0 else get_or ip.addrs j 0) (same_test j (==→ne j ndirect n))
            ];
            shape = c.shape;
            same = c.same;
          },
          Freed-holes (nindirect + 1) ndirect d' (holes z) f,
        )
    | inr n ↦
        let nz = ==→ne (get_or ip'.addrs ndirect 0) 0 n in
        let (d1, r, f1) =
          free_entries-Freed sb d ip s nindirect 0 (get_or ip'.addrs ndirect 0) d' (omega arith)
            (sym (c.slots ndirect)) nz f in
        let (ip2, d2, r2, c2, f2) =
          free_slot-Freed sb d ip s ndirect maxfile ip' d1 (omega arith) (omega arith)
            (block_of-table d ip) c f1 in
        rw (n, r, r2) (ip2, d2, refl, c2, f2)
  ]
    where
      same_test : (j : ℕ) → j ≢ ndirect → ltb j ndirect ≡ ltb j (ndirect + 1)
      same_test j ne = ground arith

      holes :
          indirect ip ≡ 0
          → (j : ℕ) → ndirect ≤ j
          → j < ndirect + (nindirect + 1)
          → block_of d ip j ≡ 0
      holes z j lo hi = elim (Bool-cases (j == maxfile)) [
        | inl y ↦ ap (block_of d ip) (==→eq j maxfile y) ∙ block_of-table d ip ∙ z
        | inr n ↦
            let b : (indirect ip == 0) ≡ true = ground arith in
            let h = ==→ne j maxfile n in block_of-entry d ip j lo (omega arith) ∙ rw b refl
      ]

  none-Cleared : Cleared ip 0 ip
  none-Cleared = record { slots = λ j. no_slot j; shape = s.shape; same = refl }
    where
      no_slot : (j : ℕ) → get_or ip.addrs j 0 ≡ (if ltb j 0 then 0 else get_or ip.addrs j 0)
      no_slot j = let g : ltb j 0 ≡ false = ground arith in rw g refl

  all_zero : (ip' : Inode) → Cleared ip (ndirect + 1) ip' → (j : ℕ) → get_or ip'.addrs j 0 ≡ 0
  all_zero ip' c j = elim (Bool-cases (ltb j 13)) [
    | inl y ↦ c.slots j ∙ rw y refl
    | inr n ↦ get_or-beyond ip'.addrs j (let h = c.shape in let h' = ltb→le j 13 n in omega arith)
  ]
    where
      get_or-beyond : (xs : List ℕ) (j : ℕ) → length xs ≤ j → get_or xs j 0 ≡ 0
      get_or-beyond [] j le = refl
      get_or-beyond (x ∷ xs) zero le = absurd (omega arith)
      get_or-beyond (x ∷ xs) (suc j) le = get_or-beyond xs j (omega arith)

  -- The block of the inode is written last.
  module _ (home : Foreign sb d ip (iblock sb ip.inum)) where
    home_Truncated :
        (d' : Blocks) (bytes : ℕ → ℕ)
        → Freed sb d ip (maxfile + 1) d'
        → Truncated sb d ip (write_block (iblock sb ip.inum) bytes d')
    home_Truncated d' bytes f = record {
      freed = λ i le ne.
          bit_kept (block_of d ip i) ((s.live i le ne).fits) ∙ f.freed i (omega arith) ne;
      still = λ c lt u away. bit_kept c lt ∙ f.still c lt u (λ j jt. away j (omega arith));
      free = λ c lt u. bit_kept c lt ∙ f.free c lt u;
      bytes = λ q l ne. rw (ne→== (iblock sb ip.inum) q ne) (f.bytes q l.no_map);
    }
      where
        bit_kept :
            (c : ℕ)
            → c < sb.size
            → is_used sb (write_block (iblock sb ip.inum) bytes d') c ≡ is_used sb d' c
        bit_kept c lt =
            rw (ne→== (iblock sb ip.inum) (bblock sb c) (λ e. home.live.no_map c lt (sym e))) refl

    -- `itrunc` of an inode that owns its blocks returns: exactly its blocks are freed, the content
    -- of every other block in use is as before but for that of the inode, and the inode has no
    -- block and size 0.
    pub itrunc_lem :
        (ip' : Inode) × (d' : Blocks) × (itrunc sb ip d ≡ ok (ip', d'))
        × Emptied ip ip'
        × Truncated sb d ip d'
    unfolding itrunc iupdate
    itrunc_lem =
        let (ip1, d1, r1, c1, f1) =
          free_slots-Freed sb d ip s ndirect 0 ip d (omega arith) none-Cleared
            (Freed-none sb d ip s) in
        let (ip2, d2, r2, c2, f2) = free_table-Freed ip1 d1 c1 f1 in
        let same_inum : ip2.inum ≡ ip.inum = ap (λ (t : Inode). t.inum) c2.same in
        rw (r1, r2)
          (
            record ip2 { size = 0 },
            iupdate sb (record ip2 { size = 0 }) d2,
            refl,
            record {
              slots = all_zero ip2 c2;
              shape = c2.shape;
              size = refl;
              same = ap (λ (t : Inode). record t { size = 0 }) c2.same;
            },
            subst
                (λ t. Truncated sb d ip (
                  write_block (iblock sb t)
                    (put_dinode (d2.blocks (iblock sb ip2.inum)) (ip2.inum % ipb * 64)
                      (record ip2 { size = 0 }))
                    d2))
                (sym same_inum)
                (home_Truncated d2
                  (put_dinode (d2.blocks (iblock sb ip2.inum)) (ip2.inum % ipb * 64)
                    (record ip2 { size = 0 }))
                  f2),
          )
