-- ===== src/Bio/Bwrite.antt =====
-- `bwrite` of bio.c, and the disk that readers of the block see.
use mit_xv.Prelude.{
  ℕ, ◌<◌, ◌≡◌, refl, sym, ap, ◌∙◌, ◌≢◌, inl, inr, true, false, ◌&&◌, some, List, [], ◌∷◌, arith,
  ◌==◌, lt→ltb, Bool-cases, All, update, update_ne, ok,
}
use mit_xv.Bio.{Buf, Block, Cache, caches, modify, lookup, iderw, iderw_at, bwrite}
use mit_xv.Bio.Find.{has_key}
use mit_xv.Bio.Consistent.{Clean, Consistent, one_each, view, distinct_ids-modify, one_each-modify}
use mit_xv.Bio.Bread.{modify-const, has_key-lookup, view-lookup}

-- The flags that `iderw` leaves after a write.
abbrev cleaned : Buf → Buf
cleaned b = record b { valid = true; dirty = false }

view-update :
    (disk : ℕ → Block) (q p : ℕ) (d : Block) (bs : List Buf)
    → q ≢ p
    → view (update disk q d) bs p ≡ view disk bs p
unfolding view
view-update disk q p d [] ne = update_ne disk q d p ne
view-update disk q p d (b ∷ bs) ne = elim (Bool-cases (b.valid && caches 1 p b)) [
  | inl y ↦ rw y
  | inr n ↦ rw (n, view-update disk q p d bs ne)
]

view-clean :
    (disk : ℕ → Block) (i q p : ℕ) (bs : List Buf) (b : Buf)
    → lookup i bs ≡ some b
    → b.valid ≡ true
    → caches 1 q b ≡ true
    → view (update disk q b.bytes) (modify i cleaned bs) p ≡ view disk bs p
unfolding view modify lookup
view-clean disk i q p [] b l v k = cc
view-clean disk i q p (x ∷ xs) b l v k = elim (Bool-cases (x.id == i)) [
  | inl y ↦ rw y (elim (Bool-cases (caches 1 p x)) [
    | inl hit ↦ ground arith
    | inr miss ↦
        let apart : q ≢ p = ground arith in ground (arith, view-update disk q p b.bytes xs apart)
  ])
  | inr n ↦ rw n (elim (Bool-cases (x.valid && caches 1 p x)) [
    | inl hit ↦ rw hit
    | inr miss ↦ rw (miss, view-clean disk i q p xs b (rw n at l) v k)
  ])
]

All-update :
    (disk : ℕ → Block) (q : ℕ) (d : Block) (bs : List Buf)
    → has_key 1 q bs ≡ false
    → All (Clean disk) bs
    → All (Clean (update disk q d)) bs
unfolding has_key
All-update disk q d [] h c = tt
All-update disk q d (b ∷ bs) h c = (
  record {
    on_disk = c.0.on_disk;
    loaded = c.0.loaded;
    same = λ u v. c.0.same u v ∙ sym (update_ne disk q d b.blockno (other (c.0.on_disk v)));
  },
  All-update disk q d bs (ground arith) c.1,
)
  where
    other : b.dev ≡ 1 → q ≢ b.blockno
    other e s = absurd (ground arith)

All-Clean :
    (disk : ℕ → Block) (i q : ℕ) (bs : List Buf) (b : Buf)
    → one_each bs ≡ true
    → lookup i bs ≡ some b
    → caches 1 q b ≡ true
    → All (Clean disk) bs
    → All (Clean (update disk q b.bytes)) (modify i cleaned bs)
unfolding modify lookup one_each
All-Clean disk i q [] b o l k c = tt
All-Clean disk i q (x ∷ xs) b o l k c = elim (Bool-cases (x.id == i)) [
  | inl y ↦
      let same : x ≡ b = ground arith in
      rw y (here same, All-update disk q b.bytes xs (ground arith) c.1)
  | inr n ↦
      let l' : lookup i xs ≡ some b = rw n at l in
      let has : has_key 1 q xs ≡ true = has_key-lookup i 1 q xs b l' k in
      rw n (other has, All-Clean disk i q xs b (ground arith) l' k c.1)
]
  where
    here : x ≡ b → Clean (update disk q b.bytes) (cleaned x)
    here e = record { on_disk = λ v. ground arith; loaded = λ v. refl; same = λ u v. ground arith }

    other : has_key 1 q xs ≡ true → Clean (update disk q b.bytes) x
    other has = record {
      on_disk = c.0.on_disk;
      loaded = c.0.loaded;
      same = λ u v.
          c.0.same u v ∙ sym (update_ne disk q b.bytes x.blockno (apart (c.0.on_disk v) has));
    }
      where
        apart : x.dev ≡ 1 → has_key 1 q xs ≡ true → q ≢ x.blockno
        apart e h s =
            let clash : has_key x.dev x.blockno xs ≡ true = rw (e, ← s) h in absurd (ground arith)

-- `bwrite` of a locked, valid buffer for block `q` of disk 1, whatever data its holder has put in
-- it, returns: block `q` on the disk is then this data and no other block of it has changed, the
-- cache is consistent again, and every block reads as before.
pub bwrite-writes :
    (i q : ℕ) (c : Cache) (b : Buf)
    → Consistent c.disk c.bufs
    → lookup i c.bufs ≡ some b
    → b.locked ≡ true
    → b.valid ≡ true
    → caches 1 q b ≡ true
    → q < c.disksize
    → let bufs : List Buf = modify i (λ x. record x { valid = true; dirty = false }) c.bufs in
      let disk : ℕ → Block = update c.disk q b.bytes in
      (bwrite i c ≡ ok (record c { bufs = bufs; disk = disk }))
      × Consistent disk bufs
      × ((p : ℕ) → view disk bufs p ≡ view c.disk c.bufs p)
      × (view disk bufs q ≡ b.bytes)
unfolding bwrite iderw_at iderw
bwrite-writes i q c b k l lock v key fits = (
  runs,
  record {
    ids = distinct_ids-modify i cleaned (λ x. refl) c.bufs ∙ k.ids;
    once = one_each-modify i cleaned (λ x. refl) (λ x. refl) c.bufs ∙ k.once;
    clean = All-Clean c.disk i q c.bufs b k.once l key k.clean;
  },
  λ p. view-clean c.disk i q p c.bufs b l v key,
  view-clean c.disk i q q c.bufs b l v key
      ∙ view-lookup c.disk i q c.bufs b k.once l (ground arith),
)
  where
    e : b.blockno ≡ q
    e = ground arith

    runs :
        bwrite i c
        ≡ ok (record c { bufs = modify i cleaned c.bufs; disk = update c.disk q b.bytes })
    runs = ground (
      arith,
      modify-const i cleaned c.bufs b l,
      ap (λ t. update c.disk t b.bytes) e,
      lt→ltb q c.disksize fits,
    )
