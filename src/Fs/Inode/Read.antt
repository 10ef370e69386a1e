-- ===== src/Fs/Inode/Read.antt =====
-- readi of fs.c on a file that has a block for each of its bytes.
use mit_xv.Prelude.{
  ℕ, zero, suc, ◌+◌, ◌-◌, ◌*◌, ◌/◌, ◌%◌, ◌≤◌, ◌<◌, min, ◌≡◌, refl, sym, ap, ap₂, ◌∙◌, fun_ext, ◌≢◌,
  ◌⊎◌, inl, inr, true, false, Option, none, some, arith, ltb, ◌==◌, ltb→lt, ltb→le, lt→ltb, ne→==,
  Bool-cases, u32_mod, add32, ok,
}
use mit_xv.Fs.{bsize, Superblock, Blocks}
use mit_xv.Fs.Icache.{Inode}
use mit_xv.Fs.Bmap.{maxfile, bmap}
use mit_xv.Fs.Content.{block_of, content, Sound}
use mit_xv.Fs.Content.Map.{bmap_lem}
use mit_xv.Fs.Inode.{
  Io, Device, t_dev, copy_bytes, copy_out, chunk, block_fuel, readi_loop, read_blocks, readi,
}
use mit_xv.Fs.Inode.Copies.{
  copy_bytes-join, copy_bytes-out, content-block, IsChunk, chunk-IsChunk, EnoughFuel,
  EnoughFuel-chunk, EnoughFuel-start, add32-small,
}

-- A file: the inode owns its blocks, has one for every byte below its size, and is no longer
-- than it can be.
pub record IsFile (sb : Superblock) (d : Blocks) (ip : Inode) : Type 0 where
  pub sound : Sound sb d ip
  pub solid : (i : ℕ) → i < maxfile → i * bsize < ip.size → block_of d ip i ≢ 0
  pub short : ip.size ≤ maxfile * bsize
  pub no_device : ip.type ≢ t_dev

bmap-hit :
    (sb : Superblock) (d : Blocks) (ip : Inode) (i : ℕ)
    → Sound sb d ip
    → i < maxfile
    → block_of d ip i ≢ 0
    → bmap sb ip i d ≡ ok (block_of d ip i, ip, d)
bmap-hit sb d ip i s lt ne = elim (bmap_lem sb d ip i s lt) [
  | inr (p, z, crowded) ↦ absurd (ne z)
  | inl (a, ip', d', e, m) ↦
      let (x, y) = m.hit ne in
      let h : block_of d ip i ≡ a = ap₂ (λ u v. block_of u v i) (sym x) (sym y) ∙ m.here in
      e
      ∙ ap (λ (t : Inode × Blocks). ok (a, t.0, t.1)) (ap₂ (λ u v. (u, v)) y x)
      ∙ ap (λ t. ok (t, ip, d)) (sym h)
]

module _ (sb : Superblock) where
  -- The copy of `m` bytes of the file from `off` on to `dst`.
  abbrev pub loaded : Io → ℕ → ℕ → ℕ → Io
  loaded s dst off m = record s { memory = copy_bytes s.memory dst (content s.disk s.inode) off m }

  loaded-nothing : (s : Io) (dst off : ℕ) → s ≡ loaded s dst off 0
  loaded-nothing s dst off = ap (λ f. record s { memory = f }) (fun_ext (λ j. sym (none_copied j)))
    where
      none_copied : (j : ℕ) → copy_bytes s.memory dst (content s.disk s.inode) off 0 j ≡ s.memory j
      none_copied j =
          copy_bytes-out s.memory dst (content s.disk s.inode) off 0 j
            (elim (Bool-cases (ltb j dst)) [
              | inl y ↦ inl (ltb→lt j dst y)
              | inr n ↦ let h = ltb→le j dst n in inr (omega arith)
            ])

  -- One chunk from block `a`, and the rest.
  chunk-loaded :
      (s : Io) (dst off n tot m a : ℕ)
      → a ≢ 0
      → block_of s.disk s.inode (off / bsize) ≡ a
      → IsChunk off n tot m
      → loaded (copy_out a dst off m s) (dst + m) (off + m) (n - (tot + m))
        ≡ loaded s dst off (n - tot)
  unfolding copy_out
  chunk-loaded s dst off n tot m a nz here c =
      ap (λ f. record s { memory = f })
        (copy_bytes-join s.memory dst (s.disk.blocks a) (content s.disk s.inode) (off % bsize) off m
            (n - (tot + m)) same_bytes
          ∙ ap (copy_bytes s.memory dst (content s.disk s.inode) off) count)
    where
      count : m + (n - (tot + m)) ≡ n - tot
      count = let h = c.fits in omega arith

      same_bytes :
          (x : ℕ) → x < m → s.disk.blocks a (off % bsize + x) ≡ content s.disk s.inode (off + x)
      same_bytes x lt =
          let h = c.in_block in
          let e : (off + x) / bsize ≡ off / bsize = omega arith in
          let e' : (off + x) % bsize ≡ off % bsize + x = omega arith in
          sym (
            content-block s.disk s.inode (off + x) a (ap (block_of s.disk s.inode) e ∙ here) nz
            ∙ ap (s.disk.blocks a) e')

  readi_loop-loaded :
      (k dst off n tot : ℕ) (s : Io)
      → IsFile sb s.disk s.inode
      → tot ≤ n
      → off + (n - tot) ≤ s.inode.size
      → EnoughFuel k off n tot
      → readi_loop k sb dst off n tot s ≡ ok (loaded s dst off (n - tot))
  unfolding readi_loop copy_out
  readi_loop-loaded zero dst off n tot s file le fits fuel =
      let z : n - tot ≡ 0 = elim (Bool-cases (ltb tot n)) [
        | inl y ↦ let h = fuel (ltb→lt tot n y) in absurd (let h' = ltb→lt tot n y in omega arith)
        | inr o ↦ let h = ltb→le tot n o in omega arith
      ] in
      ap ok (loaded-nothing s dst off ∙ ap (loaded s dst off) (sym z))
  readi_loop-loaded (suc k) dst off n tot s file le fits fuel = elim (Bool-cases (ltb tot n)) [
    | inr o ↦
        let z : n - tot ≡ 0 = (let h = ltb→le tot n o in omega arith) in
        rw o (ap ok (loaded-nothing s dst off ∙ ap (loaded s dst off) (sym z)))
    | inl y ↦
        let lt = ltb→lt tot n y in
        let c = chunk-IsChunk off n tot lt in
        let short = file.short in
        let m = chunk off n tot in
        let some_bytes = c.some_bytes in
        let part = c.fits in
        let place : off / bsize < maxfile = omega arith in
        let a = block_of s.disk s.inode (off / bsize) in
        let nz : a ≢ 0 = file.solid (off / bsize) place (omega arith) in
        let sum : add32 off m ≡ off + m = add32-small off m (omega arith) in
        rw (y, bmap-hit sb s.disk s.inode (off / bsize) file.sound place nz)
          (ap (λ t. readi_loop k sb (dst + m) t n (tot + m) (copy_out a dst off m s)) sum
            ∙ readi_loop-loaded k (dst + m) (off + m) n (tot + m) (copy_out a dst off m s) file
                (omega arith) (omega arith) (EnoughFuel-chunk k off n tot m lt c fuel)
            ∙ ap ok (chunk-loaded s dst off n tot m a nz refl c))
  ]

  -- `readi` of a file at an offset not after its end copies the bytes of the content from there
  -- on, as many as asked for or as there are, returns their number and changes nothing else; past
  -- the end, or when the sum of offset and count wraps around, it returns -1 and changes nothing.
  pub readi_lem :
      (devsw : ℕ → Option Device) (dst off n : ℕ) (s : Io)
      → IsFile sb s.disk s.inode
      → off < u32_mod
      → n < u32_mod
      → (off ≤ s.inode.size
          → off + n < u32_mod
          → readi devsw sb dst off n s
            ≡ ok (some (min n (s.inode.size - off)), loaded s dst off (min n (s.inode.size - off))))
        × ((s.inode.size < off) ⊎ (u32_mod ≤ off + n) → readi devsw sb dst off n s ≡ ok (none, s))
  unfolding readi read_blocks
  readi_lem devsw dst off n s file so sn = (inside, outside)
    where
      regular : (s.inode.type == t_dev) ≡ false
      regular = ne→== s.inode.type t_dev file.no_device

      reads :
          (m : ℕ)
          → off + m ≤ s.inode.size
          → read_blocks sb dst off m s ≡ ok (some m, loaded s dst off m)
      reads m le =
          let z : m - 0 ≡ m = omega arith in
          let all =
            readi_loop-loaded (block_fuel m) dst off m 0 s file (omega arith) (omega arith)
              (EnoughFuel-start off m) in
          rw (all, z) refl

      inside :
          off ≤ s.inode.size
          → off + n < u32_mod
          → readi devsw sb dst off n s
            ≡ ok (some (min n (s.inode.size - off)), loaded s dst off (min n (s.inode.size - off)))
      inside le nw =
          let sum : add32 off n ≡ off + n = add32-small off n nw in
          let g : ltb s.inode.size off ≡ false = ground arith in
          let g' : ltb (off + n) off ≡ false = ground arith in
          elim (Bool-cases (ltb s.inode.size (off + n))) [
            | inl y ↦
                let lt = ltb→lt s.inode.size (off + n) y in
                let e : s.inode.size - off ≡ min n (s.inode.size - off) = omega arith in
                rw (regular, sum, g, g', y)
                  (reads (s.inode.size - off) (omega arith)
                    ∙ ap (λ t. ok (some t, loaded s dst off t)) e)
            | inr o ↦
                let ge = ltb→le s.inode.size (off + n) o in
                let e : n ≡ min n (s.inode.size - off) = omega arith in
                rw (regular, sum, g, g', o)
                  (reads n (omega arith) ∙ ap (λ t. ok (some t, loaded s dst off t)) e)
          ]

      outside :
          (s.inode.size < off) ⊎ (u32_mod ≤ off + n) → readi devsw sb dst off n s ≡ ok (none, s)
      outside (inl lt) = rw (regular, lt→ltb s.inode.size off lt) refl
      outside (inr wrap) = elim (Bool-cases (ltb s.inode.size off)) [
        | inl y ↦ rw (regular, y) refl
        | inr o ↦
            let g : ltb (add32 off n) off ≡ true = lt→ltb (add32 off n) off (omega arith) in
            rw (regular, o, g) refl
      ]
