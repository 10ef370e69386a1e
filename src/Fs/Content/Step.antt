-- ===== src/Fs/Content/Step.antt =====
-- The parts of bmap of fs.c on an inode that owns its blocks.
use mit_xv.Prelude.{
  ℕ, ◌+◌, ◌-◌, ◌<◌, ◌≡◌, refl, sym, ap, ap₂, ◌∙◌, subst, ◌≢◌, ◌⊎◌, inl, inr, true, false, ◌||◌,
  arith, ◌==◌, ==→eq, ==→ne, ne→==, Bool-cases, get_or, set, Outcome, ◌>>=◌, ok, panic,
}
use mit_xv.Fs.{Superblock, Blocks, write_block}
use mit_xv.Fs.Bitmap.{is_used}
use mit_xv.Fs.Alloc.{Allocated, balloc_lem}
use mit_xv.Fs.Icache.{Inode}
use mit_xv.Fs.Bmap.{ndirect, nindirect, maxfile, get_word, set_word, slot_block, entry_block}
use mit_xv.Fs.Content.{indirect, entry, block_of, Sound, Kept, Kept-refl}
use mit_xv.Fs.Content.Grown.{Grown, new_ne, now_here, Grown-Kept}
use mit_xv.Fs.Content.Places.{
  block_of-direct, block_of-table, block_of-entry, direct-Grown, table-Grown, entry-Grown,
}

-- `bmap` gave block `a` for place `i` of the file, and left `d'` and `ip'`.
pub record Mapped (sb : Superblock) (d : Blocks) (ip : Inode) (i a : ℕ) (d' : Blocks) (ip' : Inode)
    : Type 0 where
  pub kept : Kept sb d ip d' ip'
  pub nonzero : a ≢ 0
  pub here : block_of d' ip' i ≡ a
  pub hit : block_of d ip i ≢ 0 → (d' ≡ d) × (ip' ≡ ip)

-- Every block of the disk is in use, and every block but at most one.
abbrev pub Full : Superblock → Blocks → Type 0
Full sb d = (c : ℕ) → c < sb.size → is_used sb d c ≡ true

abbrev pub Crowded : Superblock → Blocks → Type 0
Crowded sb d =
    (c c' : ℕ)
    → c < sb.size
    → c' < sb.size
    → is_used sb d c ≡ false
    → is_used sb d c' ≡ false
    → c ≡ c'

-- A call that gives a block of the file, or finds the disk as `Spent` says.
abbrev pub Maps : Superblock → Blocks → Inode → ℕ → Type 0 → Outcome (ℕ × Inode × Blocks) → Type 0
Maps sb d ip i Spent call =
    ((a : ℕ) × (ip' : Inode) × (d' : Blocks) × (call ≡ ok (a, ip', d')) × Mapped sb d ip i a d' ip')
    ⊎ (call ≡ panic "balloc: out of blocks") × (block_of d ip i ≡ 0) × Spent

Grown-Mapped :
    (sb : Superblock) (d : Blocks) (ip : Inode) (i a : ℕ) (d' : Blocks) (ip' : Inode)
    → Sound sb d ip
    → Grown sb d ip i a d' ip'
    → Mapped sb d ip i a d' ip'
Grown-Mapped sb d ip i a d' ip' s g = record {
  kept = Grown-Kept sb d ip i a d' ip' s g;
  nonzero = new_ne sb d ip i a d' ip' s g;
  here = now_here sb d ip i a d' ip' s g;
  hit = λ ne. absurd (ne g.was_hole);
}

hit-Mapped :
    (sb : Superblock) (d : Blocks) (ip : Inode) (i a : ℕ)
    → Sound sb d ip
    → a ≢ 0
    → block_of d ip i ≡ a
    → Mapped sb d ip i a d ip
hit-Mapped sb d ip i a s ne e = record {
  kept = Kept-refl sb d ip s;
  nonzero = ne;
  here = e;
  hit = λ h. (refl, refl);
}

module _ (sb : Superblock) where
  pub Full-Crowded : (d : Blocks) → Full sb d → Crowded sb d
  Full-Crowded d full c c' lt lt' free free' = let u = full c lt in cc

  pub direct-Maps :
      (d : Blocks) (ip : Inode) (i : ℕ)
      → Sound sb d ip
      → i < ndirect
      → Maps sb d ip i (Full sb d) (slot_block sb ip i d)
  unfolding slot_block
  direct-Maps d ip i s lt = elim (Bool-cases (get_or ip.addrs i 0 == 0)) [
    | inr n ↦ rw n (
        inl (
          get_or ip.addrs i 0,
          ip,
          d,
          refl,
          hit-Mapped sb d ip i (get_or ip.addrs i 0) s (==→ne (get_or ip.addrs i 0) 0 n)
              (block_of-direct d ip i lt),
        ))
    | inl z ↦ elim (balloc_lem sb d s.disk.owns) [
      | inr (p, full) ↦
          rw (z, p) (inr (refl, block_of-direct d ip i lt ∙ ==→eq (get_or ip.addrs i 0) 0 z, full))
      | inl (a, d', e, al) ↦
          rw (z, e)
            (inl (
              a,
              record ip { addrs = set ip.addrs i a },
              d',
              refl,
              Grown-Mapped sb d ip i a d' (record ip { addrs = set ip.addrs i a }) s
                  (direct-Grown sb d ip a d' s al i lt (==→eq (get_or ip.addrs i 0) 0 z)),
            ))
    ]
  ]

  -- With the indirect block there, the disk had at most one free block more.
  pub table-Maps :
      (d : Blocks) (ip : Inode)
      → Sound sb d ip
      → ((q : ℕ) × (ip' : Inode) × (d' : Blocks) × (slot_block sb ip ndirect d ≡ ok (q, ip', d'))
          × Mapped sb d ip maxfile q d' ip'
          × (Full sb d' → Crowded sb d))
        ⊎ (slot_block sb ip ndirect d ≡ panic "balloc: out of blocks")
          × (indirect ip ≡ 0)
          × Full sb d
  unfolding slot_block
  table-Maps d ip s = elim (Bool-cases (indirect ip == 0)) [
    | inr n ↦ rw n (
        inl (
          indirect ip,
          ip,
          d,
          refl,
          hit-Mapped sb d ip maxfile (indirect ip) s (==→ne (indirect ip) 0 n)
              (block_of-table d ip),
          Full-Crowded d,
        ))
    | inl z ↦ elim (balloc_lem sb d s.disk.owns) [
      | inr (p, full) ↦ rw (z, p) (inr (refl, ==→eq (indirect ip) 0 z, full))
      | inl (a, d', e, al) ↦
          rw (z, e)
            (inl (
              a,
              record ip { addrs = set ip.addrs ndirect a },
              d',
              refl,
              Grown-Mapped sb d ip maxfile a d' (record ip { addrs = set ip.addrs ndirect a }) s
                  (table-Grown sb d ip a d' s al (nonzero a al) (==→eq (indirect ip) 0 z)),
              crowded a d' al,
            ))
    ]
  ]
    where
      nonzero : (a : ℕ) {d' : Blocks} → Allocated sb d a d' → a ≢ 0
      nonzero a al e = clash (subst (λ t. is_used sb d t ≡ false) e al.was_free) s.disk.boot
        where
          clash : is_used sb d 0 ≡ false → is_used sb d 0 ≡ true → ⊥
          clash u v = cc

      was_new :
          (a : ℕ) (d' : Blocks)
          → Allocated sb d a d'
          → Full sb d'
          → (c : ℕ) → c < sb.size
          → is_used sb d c ≡ false
          → a ≡ c
      was_new a d' al full c lt free =
          let e : (is_used sb d c || (a == c)) ≡ true = sym (al.now_used c lt) ∙ full c lt in
          let e' : (a == c) ≡ true = rw free at e in ==→eq a c e'

      crowded : (a : ℕ) (d' : Blocks) → Allocated sb d a d' → Full sb d' → Crowded sb d
      crowded a d' al full c c' lt lt' free free' =
          sym (was_new a d' al full c lt free) ∙ was_new a d' al full c' lt' free'

  -- The rest of the indirect case.
  abbrev pub entry_call : Inode → ℕ → ℕ → Blocks → Outcome (ℕ × Inode × Blocks)
  entry_call ip q i d = do (a, d') ← entry_block sb q i d; ok (a, ip, d')

  pub entry-Maps :
      (d : Blocks) (ip : Inode) (q i : ℕ)
      → Sound sb d ip
      → i < nindirect
      → indirect ip ≡ q
      → q ≢ 0
      → Maps sb d ip (ndirect + i) (Full sb d) (entry_call ip q i d)
  unfolding entry_block
  entry-Maps d ip q i s lt same nz = elim (Bool-cases (get_word (d.blocks q) i == 0)) [
    | inr n ↦ rw n (
        inl (
          get_word (d.blocks q) i,
          ip,
          d,
          refl,
          hit-Mapped sb d ip (ndirect + i) (get_word (d.blocks q) i) s
              (==→ne (get_word (d.blocks q) i) 0 n) found,
        ))
    | inl z ↦ elim (balloc_lem sb d s.disk.owns) [
      | inr (p, full) ↦ rw (z, p) (inr (refl, found ∙ ==→eq (get_word (d.blocks q) i) 0 z, full))
      | inl (a, d', e, al) ↦
          rw (z, e)
            (inl (
              a,
              ip,
              write_block q (set_word (d'.blocks q) i a) d',
              refl,
              Grown-Mapped sb d ip (ndirect + i) a (write_block q (set_word (d'.blocks q) i a) d')
                  ip s
                  (subst
                    (λ t.
                      Grown sb d ip (ndirect + i) a (write_block t (set_word (d'.blocks t) i a) d')
                        ip)
                    same
                    (entry-Grown sb d ip a d' s al i lt (λ o. nz (sym same ∙ o))
                      (ap (λ t. get_word (d.blocks t) i) same
                        ∙ ==→eq (get_word (d.blocks q) i) 0 z))),
            ))
    ]
  ]
    where
      found : block_of d ip (ndirect + i) ≡ get_word (d.blocks q) i
      found =
          let e : ndirect + i - ndirect ≡ i = omega arith in
          block_of-entry d ip (ndirect + i) (omega arith) (omega arith)
          ∙ ap₂ (λ x y. entry d x y) same e
          ∙ rw (ne→== q 0 nz) refl
