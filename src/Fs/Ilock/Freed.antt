-- ===== src/Fs/Ilock/Freed.antt =====
-- The loops of itrunc of fs.c, on an inode that owns its blocks.
use mit_xv.Prelude.{
  ℕ, zero, suc, ◌+◌, ◌-◌, ◌≤◌, ◌<◌, ◌≡◌, refl, sym, ap, ap₂, ◌∙◌, subst, ◌≢◌, inl, inr, Bool, true,
  false, not, ◌&&◌, arith, ltb, ◌==◌, if◌then◌else◌, lt→ltb, ==→eq, ==→ne, ne→==, Bool-cases,
  length, get_or, set, length-set, get_or-set_self, get_or-set_ne, ok,
}
use mit_xv.Fs.{Superblock, Blocks, bblock, bfree}
use mit_xv.Fs.Bitmap.{is_used}
use mit_xv.Fs.Alloc.{bfree_lem}
use mit_xv.Fs.Icache.{Inode}
use mit_xv.Fs.Bmap.{ndirect, nindirect, maxfile, get_word}
use mit_xv.Fs.Content.{indirect, entry, block_of, Live, Sound, SameInode}
use mit_xv.Fs.Content.Places.{block_of-direct, block_of-table, block_of-entry}
use mit_xv.Fs.Ilock.{free_block, free_slot, free_slots, free_entries}

-- The blocks at the places below `i` of the inode have been freed, and no others.
pub record Freed (sb : Superblock) (d : Blocks) (ip : Inode) (i : ℕ) (d' : Blocks) : Type 0 where
  pub still :
      (c : ℕ)
      → c < sb.size
      → is_used sb d c ≡ true
      → ((j : ℕ) → j < i → block_of d ip j ≢ c)
      → is_used sb d' c ≡ true
  pub freed : (j : ℕ) → j < i → block_of d ip j ≢ 0 → is_used sb d' (block_of d ip j) ≡ false
  pub free : (c : ℕ) → c < sb.size → is_used sb d c ≡ false → is_used sb d' c ≡ false
  pub bytes : (q : ℕ) → ((c : ℕ) → c < sb.size → bblock sb c ≢ q) → d'.blocks q ≡ d.blocks q

-- The slots below `i` of the inode are 0 and the others as they were.
pub record Cleared (ip : Inode) (i : ℕ) (ip' : Inode) : Type 0 where
  pub slots : (j : ℕ) → get_or ip'.addrs j 0 ≡ (if ltb j i then 0 else get_or ip.addrs j 0)
  pub shape : length ip'.addrs ≡ 13
  pub same : SameInode ip ip'

module _ (sb : Superblock) (d : Blocks) (ip : Inode) (s : Sound sb d ip) where
  pub Freed-none : Freed sb d ip 0 d
  Freed-none = record {
    still = λ c lt u away. u;
    freed = λ j lt. absurd (omega arith);
    free = λ c lt u. u;
    bytes = λ q nm. refl;
  }

  -- A place without a block.
  pub Freed-hole :
      (i : ℕ) (d' : Blocks) → block_of d ip i ≡ 0 → Freed sb d ip i d' → Freed sb d ip (i + 1) d'
  Freed-hole i d' z f = record {
    still = λ c lt u away. f.still c lt u (λ j jt. away j (omega arith));
    freed = λ j lt ne. elim (Bool-cases (j == i)) [
      | inl y ↦ absurd (ne (ap (block_of d ip) (==→eq j i y) ∙ z))
      | inr n ↦ f.freed j (let h = ==→ne j i n in omega arith) ne
    ];
    free = f.free;
    bytes = f.bytes;
  }

  -- A place with a block, which `bfree` frees.
  Freed-block :
      (i : ℕ) (d' : Blocks)
      → i ≤ maxfile
      → block_of d ip i ≢ 0
      → Freed sb d ip i d'
      → (d'' : Blocks) × (bfree sb (block_of d ip i) d' ≡ ok d'') × Freed sb d ip (i + 1) d''
  Freed-block i d' le ne f =
      let l = s.live i le ne in
      let used : is_used sb d' (block_of d ip i) ≡ true =
        f.still (block_of d ip i) l.fits l.used (λ j lt e. apart j lt (sym e)) in
      let (d'', e, bits, others, log) = (bfree_lem sb d' (block_of d ip i)).0 used in
      (
        d'',
        e,
        record {
          still = λ c lt u away.
              let x = f.still c lt u (λ j jt. away j (omega arith)) in
              bits c ∙ rw (x, ne→== (block_of d ip i) c (away i (omega arith))) refl;
          freed = λ j lt nj.
              bits (block_of d ip j) ∙ elim (Bool-cases (block_of d ip i == block_of d ip j)) [
                | inl y ↦ rw y (none_left (is_used sb d' (block_of d ip j)))
                | inr n ↦
                    rw (n, f.freed j (below j lt (==→ne (block_of d ip i) (block_of d ip j) n)) nj)
                      refl
              ];
          free = λ c lt u. bits c ∙ rw (f.free c lt u) refl;
          bytes = λ q nm. others q (nm (block_of d ip i) l.fits) ∙ f.bytes q nm;
        },
      )
    where
      apart : (j : ℕ) → j < i → block_of d ip i ≢ block_of d ip j
      apart j lt e = let same : i ≡ j = s.distinct i j le (omega arith) ne e in omega arith

      below : (j : ℕ) → j < i + 1 → block_of d ip i ≢ block_of d ip j → j < i
      below j lt n = elim (Bool-cases (j == i)) [
        | inl y ↦ absurd (n (ap (block_of d ip) (sym (==→eq j i y))))
        | inr o ↦ let h = ==→ne j i o in omega arith
      ]

      none_left : (b : Bool) → (b && not true) ≡ false
      none_left true = refl
      none_left false = refl

  -- One call of `free_block`.
  Freed-step :
      (i a : ℕ) (d' : Blocks)
      → i ≤ maxfile
      → block_of d ip i ≡ a
      → Freed sb d ip i d'
      → (d'' : Blocks) × (free_block sb a d' ≡ ok d'') × Freed sb d ip (i + 1) d''
  unfolding free_block
  Freed-step i a d' le e f = elim (Bool-cases (a == 0)) [
    | inl y ↦ rw y (d', refl, Freed-hole i d' (e ∙ ==→eq a 0 y) f)
    | inr n ↦
        let (d'', r, f') = Freed-block i d' le (λ z. ==→ne a 0 n (sym e ∙ z)) f in
        rw n (d'', subst (λ t. bfree sb t d' ≡ ok d'') e r, f')
  ]

  Cleared-slot :
      (i : ℕ) (ip' : Inode)
      → i < 13
      → Cleared ip i ip'
      → Cleared ip (i + 1) (record ip' { addrs = set ip'.addrs i 0 })
  Cleared-slot i ip' lt c = record {
    slots = λ j. elim (Bool-cases (i == j)) [
      | inl y ↦
          subst
            (λ t.
              get_or (set ip'.addrs i 0) t 0 ≡ (if ltb t (i + 1) then 0 else get_or ip.addrs t 0))
            (==→eq i j y)
            (get_or-set_self ip'.addrs i 0 0 (let h = c.shape in omega arith)
              ∙ rw (lt→ltb i (i + 1) (omega arith)) refl)
      | inr n ↦
          get_or-set_ne ip'.addrs i j 0 0 (==→ne i j n)
          ∙ c.slots j
          ∙ ap (λ t. if t then 0 else get_or ip.addrs j 0) (same_test j (==→ne i j n))
    ];
    shape = length-set ip'.addrs i 0 ∙ c.shape;
    same = ap (λ (t : Inode). record t { addrs = set ip'.addrs i 0 }) c.same;
  }
    where
      same_test : (j : ℕ) → i ≢ j → ltb j i ≡ ltb j (i + 1)
      same_test j ne = ground arith

  Cleared-hole :
      (i : ℕ) (ip' : Inode) → get_or ip'.addrs i 0 ≡ 0 → Cleared ip i ip' → Cleared ip (i + 1) ip'
  Cleared-hole i ip' z c = record {
    slots = λ j. elim (Bool-cases (i == j)) [
      | inl y ↦
          subst (λ t. get_or ip'.addrs t 0 ≡ (if ltb t (i + 1) then 0 else get_or ip.addrs t 0))
            (==→eq i j y) (z ∙ rw (lt→ltb i (i + 1) (omega arith)) refl)
      | inr n ↦
          c.slots j ∙ ap (λ t. if t then 0 else get_or ip.addrs j 0) (same_test j (==→ne i j n))
    ];
    shape = c.shape;
    same = c.same;
  }
    where
      same_test : (j : ℕ) → i ≢ j → ltb j i ≡ ltb j (i + 1)
      same_test j ne = ground arith

  -- `free_slot` at slot `i`, whose block stands at place `p` of the file.
  pub free_slot-Freed :
      (i p : ℕ) (ip' : Inode) (d' : Blocks)
      → i < 13
      → p ≤ maxfile
      → block_of d ip p ≡ get_or ip.addrs i 0
      → Cleared ip i ip'
      → Freed sb d ip p d'
      → (ip'' : Inode) × (d'' : Blocks) × (free_slot sb i ip' d' ≡ ok (ip'', d''))
        × Cleared ip (i + 1) ip''
        × Freed sb d ip (p + 1) d''
  unfolding free_slot
  free_slot-Freed i p ip' d' lt le e c f = elim (Bool-cases (get_or ip'.addrs i 0 == 0)) [
    | inl y ↦
        let z = ==→eq (get_or ip'.addrs i 0) 0 y in
        rw y (ip', d', refl, Cleared-hole i ip' z c, Freed-hole p d' (here ∙ z) f)
    | inr n ↦
        let (d'', r, f') =
          Freed-block p d' le (λ z. ==→ne (get_or ip'.addrs i 0) 0 n (sym here ∙ z)) f in
        let r' : bfree sb (get_or ip'.addrs i 0) d' ≡ ok d'' =
          subst (λ t. bfree sb t d' ≡ ok d'') here r in
        rw (n, r')
          (record ip' { addrs = set ip'.addrs i 0 }, d'', refl, Cleared-slot i ip' lt c, f')
  ]
    where
      here : block_of d ip p ≡ get_or ip'.addrs i 0
      here = let g : ltb i i ≡ false = ground arith in e ∙ sym (c.slots i ∙ rw g refl)

  pub free_slots-Freed :
      (k i : ℕ) (ip' : Inode) (d' : Blocks)
      → i + k ≤ ndirect
      → Cleared ip i ip'
      → Freed sb d ip i d'
      → (ip'' : Inode) × (d'' : Blocks) × (free_slots k sb i ip' d' ≡ ok (ip'', d''))
        × Cleared ip (i + k) ip''
        × Freed sb d ip (i + k) d''
  unfolding free_slots
  free_slots-Freed zero i ip' d' le c f =
      let e : i ≡ i + 0 = omega arith in
      (ip', d', refl, subst (λ t. Cleared ip t ip') e c, subst (λ t. Freed sb d ip t d') e f)
  free_slots-Freed (suc k) i ip' d' le c f =
      let (ip1, d1, r, c1, f1) =
        free_slot-Freed i i ip' d' (omega arith) (omega arith)
          (block_of-direct d ip i (omega arith)) c f in
      let (ip2, d2, r2, c2, f2) = free_slots-Freed k (i + 1) ip1 d1 (omega arith) c1 f1 in
      let e : i + 1 + k ≡ i + suc k = omega arith in
      rw (r, r2)
        (ip2, d2, refl, subst (λ t. Cleared ip t ip2) e c2, subst (λ t. Freed sb d ip t d2) e f2)

  pub free_entries-Freed :
      (k j q : ℕ) (d' : Blocks)
      → j + k ≤ nindirect
      → indirect ip ≡ q
      → q ≢ 0
      → Freed sb d ip (ndirect + j) d'
      → (d'' : Blocks) × (free_entries k sb q j d' ≡ ok d'') × Freed sb d ip (ndirect + j + k) d''
  unfolding free_entries
  free_entries-Freed zero j q d' le e nz f =
      let z : ndirect + j ≡ ndirect + j + 0 = omega arith in
      (d', refl, subst (λ t. Freed sb d ip t d') z f)
  free_entries-Freed (suc k) j q d' le e nz f =
      let (d1, r, f1) =
        Freed-step (ndirect + j) (get_word (d'.blocks q) j) d' (omega arith) here f in
      let p : ndirect + j + 1 ≡ ndirect + (j + 1) = omega arith in
      let (d2, r2, f2) =
        free_entries-Freed k (j + 1) q d1 (omega arith) e nz
          (subst (λ t. Freed sb d ip t d1) p f1) in
      let z : ndirect + (j + 1) + k ≡ ndirect + j + suc k = omega arith in
      rw (r, r2) (d2, refl, subst (λ t. Freed sb d ip t d2) z f2)
    where
      table : Live sb d q
      table =
          subst (λ t. Live sb d t) (block_of-table d ip ∙ e)
            (s.live maxfile (omega arith) (λ z. nz (sym e ∙ sym (block_of-table d ip) ∙ z)))

      here : block_of d ip (ndirect + j) ≡ get_word (d'.blocks q) j
      here =
          let x : ndirect + j - ndirect ≡ j = omega arith in
          block_of-entry d ip (ndirect + j) (omega arith) (omega arith)
          ∙ ap₂ (λ u v. entry d u v) e x
          ∙ rw (ne→== q 0 nz) (ap (λ t. get_word t j) (sym (f.bytes q table.no_map)))
