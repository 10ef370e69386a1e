-- ===== src/Fs/Inode/Chunk.antt =====
-- A chunk of the loop of writei of fs.c.
use mit_xv.Prelude.{
  ℕ, ◌+◌, ◌-◌, ◌*◌, ◌/◌, ◌%◌, ◌≤◌, ◌<◌, ◌≡◌, refl, sym, ap, ◌∙◌, subst, ◌≢◌, ◌⊎◌, inl, inr, arith,
  ltb, ◌==◌, ltb→lt, ltb→le, ==→eq, ==→ne, ne→==, Bool-cases,
}
use mit_xv.Fs.{bsize, Superblock, Blocks}
use mit_xv.Fs.Icache.{Inode}
use mit_xv.Fs.Bmap.{maxfile}
use mit_xv.Fs.Content.{indirect, block_of, content, Live, Sound, Foreign, SameInode}
use mit_xv.Fs.Content.Fill.{Sound-write, Foreign-write, block_of-write, content-own, indirect_ne}
use mit_xv.Fs.Content.Step.{Mapped}
use mit_xv.Fs.Inode.{Io, copy_bytes, copy_in}
use mit_xv.Fs.Inode.Copies.{
  copy_bytes-in, copy_bytes-out, copy_bytes-join, range-cases, content-block, IsChunk,
}

-- `m` bytes of memory from `src` on have been written to the file from `off` on.
pub record Filled (sb : Superblock) (s : Io) (src off m : ℕ) (s' : Io) : Type 0 where
  pub fits : off + m ≤ maxfile * bsize
  pub sound : Sound sb s'.disk s'.inode
  pub bytes :
      (k : ℕ)
      → k < maxfile * bsize
      → content s'.disk s'.inode k ≡ copy_bytes (content s.disk s.inode) off s.memory src m k
  pub blocks :
      (i : ℕ)
      → i ≤ maxfile
      → block_of s.disk s.inode i ≢ 0
      → block_of s'.disk s'.inode i ≡ block_of s.disk s.inode i
  pub present : (k : ℕ) → off ≤ k → k < off + m → block_of s'.disk s'.inode (k / bsize) ≢ 0
  pub foreign :
      (q : ℕ)
      → Foreign sb s.disk s.inode q
      → Foreign sb s'.disk s'.inode q × (s'.disk.blocks q ≡ s.disk.blocks q)
  pub memory : s'.memory ≡ s.memory
  pub same : SameInode s.inode s'.inode

copy_bytes-base :
    (f g : ℕ → ℕ) (t : ℕ) (from : ℕ → ℕ) (o m k : ℕ)
    → f k ≡ g k
    → copy_bytes f t from o m k ≡ copy_bytes g t from o m k
copy_bytes-base f g t from o m k e = elim (range-cases t m k) [
  | inl lt ↦
      copy_bytes-out f t from o m k (inl lt) ∙ e ∙ sym (copy_bytes-out g t from o m k (inl lt))
  | inr (inl (lo, hi)) ↦
      copy_bytes-in f t from o m k lo hi ∙ sym (copy_bytes-in g t from o m k lo hi)
  | inr (inr le) ↦
      copy_bytes-out f t from o m k (inr le) ∙ e ∙ sym (copy_bytes-out g t from o m k (inr le))
]

pub Filled-nothing :
    (sb : Superblock) (s : Io) (src off : ℕ)
    → Sound sb s.disk s.inode
    → off ≤ maxfile * bsize
    → Filled sb s src off 0 s
Filled-nothing sb s src off sound le = record {
  fits = omega arith;
  sound = sound;
  bytes = λ k lt.
      sym (copy_bytes-out (content s.disk s.inode) off s.memory src 0 k (before_or_after k));
  blocks = λ i le ne. refl;
  present = λ k lo hi. absurd (omega arith);
  foreign = λ q f. (f, refl);
  memory = refl;
  same = refl;
}
  where
    before_or_after : (k : ℕ) → (k < off) ⊎ (off + 0 ≤ k)
    before_or_after k = elim (Bool-cases (ltb k off)) [
      | inl y ↦ inl (ltb→lt k off y)
      | inr n ↦ let h = ltb→le k off n in inr (omega arith)
    ]

pub Filled-join :
    (sb : Superblock) (s : Io) (src off m : ℕ) (s' : Io) (r : ℕ) (s'' : Io)
    → Filled sb s src off m s'
    → Filled sb s' (src + m) (off + m) r s''
    → Filled sb s src off (m + r) s''
Filled-join sb s src off m s' r s'' f g = record {
  fits = let h = g.fits in omega arith;
  sound = g.sound;
  bytes = λ k lt.
      g.bytes k lt
      ∙ ap (λ t. copy_bytes (content s'.disk s'.inode) (off + m) t (src + m) r k) f.memory
      ∙ copy_bytes-base (content s'.disk s'.inode)
          (copy_bytes (content s.disk s.inode) off s.memory src m) (off + m) s.memory (src + m) r k
          (f.bytes k lt)
      ∙ ap (λ (t : ℕ → ℕ). t k)
          (copy_bytes-join (content s.disk s.inode) off s.memory s.memory src src m r
            (λ x lt. refl));
  blocks = λ i le ne. let e = f.blocks i le ne in g.blocks i le (λ z. ne (sym e ∙ z)) ∙ e;
  present = λ k lo hi. elim (Bool-cases (ltb k (off + m))) [
    | inr n ↦ g.present k (ltb→le k (off + m) n) (omega arith)
    | inl y ↦ kept_there k lo (ltb→lt k (off + m) y)
  ];
  foreign = λ q x. let (y, e) = f.foreign q x in let (z, e') = g.foreign q y in (z, e' ∙ e);
  memory = g.memory ∙ f.memory;
  same = g.same ∙ ap (λ (t : Inode). record t { addrs = s''.inode.addrs }) f.same;
}
  where
    kept_there : (k : ℕ) → off ≤ k → k < off + m → block_of s''.disk s''.inode (k / bsize) ≢ 0
    kept_there k lo hi z =
        let h = f.fits in
        let ne = f.present k lo hi in ne (sym (g.blocks (k / bsize) (omega arith) ne) ∙ z)

module _ (sb : Superblock) (s : Io) (a : ℕ) (ip : Inode) (d : Blocks) where
  -- The state after `bmap`.
  abbrev mapped : Io
  mapped = record s { disk = d; inode = ip }

  -- What a chunk writes to its block.
  abbrev chunk_bytes : ℕ → ℕ → ℕ → ℕ → ℕ
  chunk_bytes src off m = copy_bytes (d.blocks a) (off % bsize) s.memory src m

  pub chunk-Filled :
      (src off n tot m : ℕ)
      → Mapped sb s.disk s.inode (off / bsize) a d ip
      → off / bsize < maxfile
      → IsChunk off n tot m
      → Filled sb s src off m (copy_in a src off m mapped)
  unfolding copy_in
  chunk-Filled src off n tot m mp lt c = record {
    fits = let h = c.in_block in omega arith;
    sound = Sound-write sb d ip a (chunk_bytes src off m) mp.kept.sound table live;
    bytes = λ k kt.
        content-own sb d ip a (chunk_bytes src off m) mp.kept.sound table live (off / bsize) lt
          mp.here mp.nonzero k kt
        ∙ elim (Bool-cases (k / bsize == off / bsize)) [
          | inl y ↦ rw y (in_chunk k kt (==→eq (k / bsize) (off / bsize) y))
          | inr o ↦ rw o (
              mp.kept.content_kept k kt
              ∙ sym (
                  copy_bytes-out (content s.disk s.inode) off s.memory src m k
                    (elsewhere k (==→ne (k / bsize) (off / bsize) o))))
        ];
    blocks = λ i le ne.
        block_of-write d ip a (chunk_bytes src off m) table i le ∙ mp.kept.blocks_kept i le ne;
    present = λ k lo hi z.
        let h = c.in_block in
        let e : k / bsize ≡ off / bsize = omega arith in
        mp.nonzero (
          sym (ap (block_of d ip) e ∙ mp.here)
          ∙ sym (block_of-write d ip a (chunk_bytes src off m) table (k / bsize) (omega arith))
          ∙ z);
    foreign = λ q f.
        let (x, e) = mp.kept.foreign q f in
        (
          Foreign-write sb d ip a (chunk_bytes src off m) mp.kept.sound table live q x,
          rw (ne→== a q (λ o. x.not_owned (off / bsize) (omega arith) (mp.here ∙ o))) e,
        );
    memory = refl;
    same = mp.kept.same;
  }
    where
      owned : block_of d ip (off / bsize) ≢ 0
      owned z = mp.nonzero (sym mp.here ∙ z)

      table : indirect ip ≢ a
      table =
          subst (λ t. indirect ip ≢ t) mp.here
            (indirect_ne sb d ip (off / bsize) mp.kept.sound lt owned)

      live : Live sb d a
      live = subst (λ t. Live sb d t) mp.here (mp.kept.sound.live (off / bsize) (omega arith) owned)

      elsewhere : (k : ℕ) → k / bsize ≢ off / bsize → (k < off) ⊎ (off + m ≤ k)
      elsewhere k ne =
          let h = c.in_block in
          elim (Bool-cases (ltb k off)) [
            | inl y ↦ inl (ltb→lt k off y)
            | inr o ↦ let h' = ltb→le k off o in inr (omega arith)
          ]

      in_chunk :
          (k : ℕ)
          → k < maxfile * bsize
          → k / bsize ≡ off / bsize
          → chunk_bytes src off m (k % bsize)
            ≡ copy_bytes (content s.disk s.inode) off s.memory src m k
      in_chunk k kt e = elim (range-cases off m k) [
        | inl lo ↦
            copy_bytes-out (d.blocks a) (off % bsize) s.memory src m (k % bsize) (inl (omega arith))
            ∙ old
            ∙ sym (copy_bytes-out (content s.disk s.inode) off s.memory src m k (inl lo))
        | inr (inl (lo, hi)) ↦
            let x : src + (k % bsize - off % bsize) ≡ src + (k - off) = omega arith in
            copy_bytes-in (d.blocks a) (off % bsize) s.memory src m (k % bsize) (omega arith)
              (omega arith)
            ∙ ap s.memory x
            ∙ sym (copy_bytes-in (content s.disk s.inode) off s.memory src m k lo hi)
        | inr (inr le) ↦
            copy_bytes-out (d.blocks a) (off % bsize) s.memory src m (k % bsize) (inr (omega arith))
            ∙ old
            ∙ sym (copy_bytes-out (content s.disk s.inode) off s.memory src m k (inr le))
      ]
        where
          old : d.blocks a (k % bsize) ≡ content s.disk s.inode k
          old =
              sym (content-block d ip k a (ap (block_of d ip) e ∙ mp.here) mp.nonzero)
              ∙ mp.kept.content_kept k kt
