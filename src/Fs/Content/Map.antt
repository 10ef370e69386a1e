-- ===== src/Fs/Content/Map.antt =====
-- bmap of fs.c on an inode that owns its blocks.
use mit_xv.Prelude.{
  ℕ, ◌+◌, ◌-◌, ◌<◌, ◌≡◌, refl, sym, ◌∙◌, subst, ◌≢◌, inl, inr, true, arith, ltb, ◌==◌, ltb→lt,
  ltb→le, ==→eq, ==→ne, Bool-cases, ◌>>=◌,
}
use mit_xv.Fs.{Superblock, Blocks}
use mit_xv.Fs.Icache.{Inode}
use mit_xv.Fs.Bmap.{ndirect, nindirect, maxfile, slot_block, bmap}
use mit_xv.Fs.Content.{indirect, block_of, Sound, Kept-trans}
use mit_xv.Fs.Content.Places.{block_of-table, block_of-entry}
use mit_xv.Fs.Content.Step.{
  Crowded, Maps, Full-Crowded, direct-Maps, table-Maps, entry_call, entry-Maps,
}

module _ (sb : Superblock) where
  two_steps :
      (d : Blocks) (ip : Inode) (i : ℕ)
      → Sound sb d ip
      → i < nindirect
      → Maps sb d ip
          (ndirect + i)
          (Crowded sb d)
          (do (q, ip', d') ← slot_block sb ip ndirect d; entry_call sb ip' q i d')
  two_steps d ip i s lt = elim (table-Maps sb d ip s) [
    | inr (p, z, full) ↦ rw p (inr (refl, no_table z, Full-Crowded sb d full))
    | inl (q, ip', d', e, m, later) ↦
        let table : indirect ip' ≡ q = sym (block_of-table d' ip') ∙ m.here in
        elim (entry-Maps sb d' ip' q i m.kept.sound lt table m.nonzero) [
          | inr (p, z, full) ↦
              rw (e, p)
                (inr
                  (refl, was_zero (m.kept.blocks_kept (ndirect + i) (omega arith)) z, later full))
          | inl (a, ip'', d'', e', m') ↦
              rw (e, e')
                (inl (
                  a,
                  ip'',
                  d'',
                  refl,
                  record {
                    kept = Kept-trans sb d ip d' ip' d'' ip'' m.kept m'.kept;
                    nonzero = m'.nonzero;
                    here = m'.here;
                    hit = λ ne.
                        let (x, y) = m.hit (has_table ne) in
                        let still = m.kept.blocks_kept (ndirect + i) (omega arith) ne in
                        let (x', y') = m'.hit (λ z. ne (sym still ∙ z)) in (x' ∙ x, y' ∙ y);
                  },
                ))
        ]
  ]
    where
      no_table : indirect ip ≡ 0 → block_of d ip (ndirect + i) ≡ 0
      no_table t =
          let b : (indirect ip == 0) ≡ true = ground arith in
          block_of-entry d ip (ndirect + i) (omega arith) (omega arith) ∙ rw b refl

      has_table : block_of d ip (ndirect + i) ≢ 0 → block_of d ip maxfile ≢ 0
      has_table ne z = ne (no_table (sym (block_of-table d ip) ∙ z))

      was_zero : {x y : ℕ} → (x ≢ 0 → y ≡ x) → y ≡ 0 → x ≡ 0
      was_zero {x} {y} kept z = elim (Bool-cases (x == 0)) [
        | inl e ↦ ==→eq x 0 e
        | inr n ↦ sym (kept (==→ne x 0 n)) ∙ z
      ]

  -- `bmap` of a place below MAXFILE, for an inode that owns its blocks, returns the block there,
  -- not 0; where the file had one, the disk and the inode stay as they are. The inode owns its
  -- blocks then, has the content it had, every block it had at its place, and every other block in
  -- use is untouched; `bmap` panics only at a place without a block, when the disk has at most one block free.
  pub bmap_lem :
      (d : Blocks) (ip : Inode) (bn : ℕ)
      → Sound sb d ip
      → bn < maxfile
      → Maps sb d ip bn (Crowded sb d) (bmap sb ip bn d)
  unfolding bmap
  bmap_lem d ip bn s lt = elim (Bool-cases (ltb bn ndirect)) [
    | inl y ↦ elim (direct-Maps sb d ip bn s (ltb→lt bn ndirect y)) [
      | inl found ↦ rw y (inl found)
      | inr (p, z, full) ↦ rw y (inr (p, z, Full-Crowded sb d full))
    ]
    | inr n ↦
        let le = ltb→le bn ndirect n in
        let b : ltb (bn - ndirect) nindirect ≡ true = ground arith in
        let e : ndirect + (bn - ndirect) ≡ bn = omega arith in
        rw (n, b)
          (subst
            (λ t.
              Maps sb d ip t (Crowded sb d) (do
                (q, ip', d') ← slot_block sb ip ndirect d
                entry_call sb ip' q (bn - ndirect) d'))
            e (two_steps d ip (bn - ndirect) s (ltb→lt (bn - ndirect) nindirect b)))
  ]
