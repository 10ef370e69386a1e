-- ===== src/Fs/Inode/Fill.antt =====
-- The loop of writei of fs.c, on an inode that owns its blocks.
use mit_xv.Prelude.{
  ℕ, zero, suc, ◌+◌, ◌-◌, ◌*◌, ◌/◌, ◌≤◌, ◌<◌, ◌≡◌, refl, sym, ap, ◌∙◌, subst, ◌⊎◌, inl, inr, arith,
  ltb, ◌==◌, ltb→lt, ltb→le, ==→eq, ==→ne, Bool-cases, Outcome, add32, ok, panic,
}
use mit_xv.Fs.{bsize, Superblock}
use mit_xv.Fs.Bmap.{maxfile}
use mit_xv.Fs.Content.{block_of, Sound}
use mit_xv.Fs.Content.Map.{bmap_lem}
use mit_xv.Fs.Inode.{Io, copy_in, chunk, writei_loop}
use mit_xv.Fs.Inode.Copies.{IsChunk, chunk-IsChunk, EnoughFuel, EnoughFuel-chunk, add32-small}
use mit_xv.Fs.Inode.Chunk.{Filled, Filled-nothing, Filled-join, chunk-Filled}

-- A run that ends with its bytes written, or that finds the disk out of blocks at a byte that had
-- no block.
abbrev pub Fills : Superblock → Io → ℕ → ℕ → ℕ → Outcome (ℕ × Io) → Type 0
Fills sb s src off m run =
    ((s' : Io) × (run ≡ ok (off + m, s')) × Filled sb s src off m s')
    ⊎ (run ≡ panic "balloc: out of blocks")
      × ((k : ℕ) × (off ≤ k) × (k < off + m) × (block_of s.disk s.inode (k / bsize) ≡ 0))

module _ (sb : Superblock) where
  done :
      (src off n tot : ℕ) (s : Io)
      → Sound sb s.disk s.inode
      → off ≤ maxfile * bsize
      → n - tot ≡ 0
      → Fills sb s src off (n - tot) (ok (off, s))
  done src off n tot s sound le z =
      let e : off ≡ off + (n - tot) = omega arith in
      inl (
        s,
        ap (λ t. ok (t, s)) e,
        subst (λ t. Filled sb s src off t s) (sym z) (Filled-nothing sb s src off sound le),
      )

  -- A chunk, and then the rest.
  after_chunk :
      (src off n tot m : ℕ) (s s' : Io) (run : Outcome (ℕ × Io))
      → off + (n - tot) ≤ maxfile * bsize
      → IsChunk off n tot m
      → Filled sb s src off m s'
      → Fills sb s' (src + m) (off + m) (n - (tot + m)) run
      → Fills sb s src off (n - tot) run
  after_chunk src off n tot m s s' run all c f rest = elim rest [
    | inl (s'', e, g) ↦ inl (
      s'',
      e ∙ ap (λ t. ok (t, s'')) total,
      subst (λ t. Filled sb s src off t s'') count
          (Filled-join sb s src off m s' (n - (tot + m)) s'' f g),
    )
    | inr (p, (k, lo, hi, z)) ↦
        let fit = c.fits in inr (p, (k, omega arith, omega arith, was_hole k z (omega arith)))
  ]
    where
      count : m + (n - (tot + m)) ≡ n - tot
      count = let h = c.fits in omega arith

      was_hole :
          (k : ℕ)
          → block_of s'.disk s'.inode (k / bsize) ≡ 0
          → k / bsize ≤ maxfile
          → block_of s.disk s.inode (k / bsize) ≡ 0
      was_hole k z le = elim (Bool-cases (block_of s.disk s.inode (k / bsize) == 0)) [
        | inl y ↦ ==→eq (block_of s.disk s.inode (k / bsize)) 0 y
        | inr o ↦
            sym (f.blocks (k / bsize) le (==→ne (block_of s.disk s.inode (k / bsize)) 0 o)) ∙ z
      ]

      total : off + m + (n - (tot + m)) ≡ off + (n - tot)
      total = let h = c.fits in omega arith

  pub writei_loop-Fills :
      (k src off n tot : ℕ) (s : Io)
      → Sound sb s.disk s.inode
      → tot ≤ n
      → off + (n - tot) ≤ maxfile * bsize
      → EnoughFuel k off n tot
      → Fills sb s src off (n - tot) (writei_loop k sb src off n tot s)
  unfolding writei_loop
  writei_loop-Fills zero src off n tot s sound le fits fuel =
      let z : n - tot ≡ 0 = elim (Bool-cases (ltb tot n)) [
        | inl y ↦ let h = fuel (ltb→lt tot n y) in absurd (let h' = ltb→lt tot n y in omega arith)
        | inr o ↦ let h = ltb→le tot n o in omega arith
      ] in
      done src off n tot s sound (omega arith) z
  writei_loop-Fills (suc k) src off n tot s sound le fits fuel = elim (Bool-cases (ltb tot n)) [
    | inr o ↦
        let h = ltb→le tot n o in rw o (done src off n tot s sound (omega arith) (omega arith))
    | inl y ↦
        let lt = ltb→lt tot n y in
        let c = chunk-IsChunk off n tot lt in
        let m = chunk off n tot in
        let some_bytes = c.some_bytes in
        let part = c.fits in
        let place : off / bsize < maxfile = omega arith in
        let sum : add32 off m ≡ off + m = add32-small off m (omega arith) in
        elim (bmap_lem sb s.disk s.inode (off / bsize) sound place) [
          | inr (p, z, crowded) ↦ rw (y, p) (inr (refl, (off, omega arith, omega arith, z)))
          | inl (a, ip, d, e, mp) ↦
              let f = chunk-Filled sb s a ip d src off n tot m mp place c in
              let next = copy_in a src off m (record s { disk = d; inode = ip }) in
              rw (y, e, sum)
                (after_chunk src off n tot m s next
                  (writei_loop k sb (src + m) (off + m) n (tot + m) next) fits c f
                  (writei_loop-Fills k (src + m) (off + m) n (tot + m) next f.sound (omega arith)
                    (omega arith) (EnoughFuel-chunk k off n tot m lt c fuel)))
        ]
  ]
