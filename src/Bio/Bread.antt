-- ===== src/Bio/Bread.antt =====
-- `bread` and `bwrite` against the view that the log has of the cache.
use mit_xv.Prelude.{
  ℕ, ◌<◌, ◌≡◌, refl, sym, ap, ◌∙◌, subst, inl, inr, true, false, ◌&&◌, some, List, [], ◌∷◌, arith,
  ◌==◌, ==→eq, Bool-cases, All, and_then-ok, ok,
}
use mit_xv.Bio.{
  Buf, Block, Cache, caches, modify, lookup, take_lock, iderw, iderw_at, fill, bget, bread,
}
use mit_xv.Bio.Find.{has_key}
use mit_xv.Bio.Consistent.{
  Clean, Consistent, one_each, view, view-no_key, distinct_ids-modify, lookup-modify_self,
  All-modify, one_each-modify, view-modify,
}
use mit_xv.Bio.Bget.{bget-Got}

-- A change of one buffer may be computed from its fields before it is made.
pub modify-const :
    (i : ℕ) (f : Buf → Buf) (bs : List Buf) (b : Buf)
    → lookup i bs ≡ some b
    → modify i (λ _. f b) bs ≡ modify i f bs
unfolding modify lookup
modify-const i f [] b e = cc
modify-const i f (x ∷ xs) b e = elim (Bool-cases (x.id == i)) [
  | inl y ↦ rw y (ap (λ t. f t ∷ xs) (ground arith))
  | inr n ↦ rw n (ap (λ t. x ∷ t) (modify-const i f xs b (rw n at e)))
]

pub has_key-lookup :
    (i dev q : ℕ) (bs : List Buf) (b : Buf)
    → lookup i bs ≡ some b
    → caches dev q b ≡ true
    → has_key dev q bs ≡ true
unfolding has_key lookup
has_key-lookup i dev q [] b e k = cc
has_key-lookup i dev q (x ∷ xs) b e k = ground (arith, has_key-lookup i dev q xs b)

-- The one buffer for a block decides what its readers see.
pub view-lookup :
    (disk : ℕ → Block) (i q : ℕ) (bs : List Buf) (b : Buf)
    → one_each bs ≡ true
    → lookup i bs ≡ some b
    → (b.valid && caches 1 q b) ≡ true
    → view disk bs q ≡ b.bytes
unfolding view lookup one_each
view-lookup disk i q [] b o e v = cc
view-lookup disk i q (x ∷ xs) b o e v =
    ground (arith, has_key-lookup i 1 q xs b, view-lookup disk i q xs b)

abbrev load : (ℕ → Block) → Buf → Buf
load disk b = record b { valid = true; bytes = disk b.blockno }

-- Reading a block into its buffer does not change what readers see.
view-load :
    (disk : ℕ → Block) (i p : ℕ) (bs : List Buf) (b : Buf)
    → one_each bs ≡ true
    → lookup i bs ≡ some b
    → b.valid ≡ false
    → b.dev ≡ 1
    → view disk (modify i (load disk) bs) p ≡ view disk bs p
unfolding view modify lookup one_each
view-load disk i p [] b o e v d = cc
view-load disk i p (x ∷ xs) b o e v d =
    ground (arith, view-load disk i p xs b, view-no_key disk xs p, ==→eq x.blockno p)

-- What `bread` promises of its result.
pub record Read (q : ℕ) (c : Cache) (out : ℕ × Cache) : Type 0 where
  pub consistent : Consistent out.1.disk out.1.bufs
  pub buffer :
      (b : Buf) × (lookup out.0 out.1.bufs ≡ some b)
      × (b.bytes ≡ view c.disk c.bufs q)
      × (b.valid ≡ true)
      × (b.locked ≡ true)
      × (caches 1 q b ≡ true)
      × (0 < b.refcnt)
  pub views : (p : ℕ) → view out.1.disk out.1.bufs p ≡ view c.disk c.bufs p
  pub same_disk : out.1.disk ≡ c.disk

module _ (disk : ℕ → Block) where
  Clean-lock :
      (bs : List Buf) (i : ℕ) → Consistent disk bs → Consistent disk (modify i take_lock bs)
  Clean-lock bs i c = record {
    ids = distinct_ids-modify i take_lock (λ x. refl) bs ∙ c.ids;
    once = one_each-modify i take_lock (λ x. refl) (λ x. refl) bs ∙ c.once;
    clean =
        All-modify i take_lock (λ x. refl) bs
          (λ x l h. record { on_disk = h.on_disk; loaded = h.loaded; same = h.same }) c.clean;
  }

  Clean-load :
      (bs : List Buf) (i : ℕ) (b : Buf)
      → lookup i bs ≡ some b
      → b.dev ≡ 1
      → Consistent disk bs
      → Consistent disk (modify i (load disk) bs)
  Clean-load bs i b l d c = record {
    ids = distinct_ids-modify i (load disk) (λ x. refl) bs ∙ c.ids;
    once = one_each-modify i (load disk) (λ x. refl) (λ x. refl) bs ∙ c.once;
    clean =
        All-modify i (load disk) (λ x. refl) bs
          (λ x e h. record { on_disk = λ v. ground arith; loaded = λ v. refl; same = λ u v. refl })
          c.clean;
  }

  pub lookup-Clean :
      (i : ℕ) (bs : List Buf) (b : Buf) → lookup i bs ≡ some b → All (Clean disk) bs → Clean disk b
  unfolding lookup
  lookup-Clean i [] b e h = cc
  lookup-Clean i (x ∷ xs) b e h = elim (Bool-cases (x.id == i)) [
    | inl y ↦ subst (Clean disk) (some_inj (rw y at e)) h.0
    | inr n ↦ lookup-Clean i xs b (rw n at e) h.1
  ]
    where
      some_inj : {a d : Buf} → some a ≡ some d → a ≡ d
      some_inj p = cc

-- The buffer that `bget` returned, once its lock is held, is read from the disk if it is not valid.
fill-Read :
    (q i : ℕ) (c : Cache) (out : ℕ × Cache) (b : Buf)
    → Consistent c.disk c.bufs
    → lookup i c.bufs ≡ some b
    → b.locked ≡ true
    → caches 1 q b ≡ true
    → 0 < b.refcnt
    → fill i c ≡ ok out
    → Read q c out
unfolding fill iderw_at iderw
fill-Read q i c out b k l lock key refs e = elim (Bool-cases b.valid) [
  | inl v ↦
      let same : out ≡ (i, c) = ground arith in
      subst (Read q c) (sym same) (record {
        consistent = k;
        buffer = (
          b,
          l,
          sym (view-lookup c.disk i q c.bufs b k.once l (ground arith)),
          v,
          lock,
          key,
          refs,
        );
        views = λ p. refl;
        same_disk = refl;
      })
  | inr v ↦
      let bs = modify i (load c.disk) c.bufs in
      let dev : b.dev ≡ 1 = ground arith in
      let no_write : b.dirty ≡ false =
        ground (arith, (lookup-Clean c.disk i c.bufs b l k.clean).loaded) in
      let made : out ≡ (i, record c { bufs = modify i (λ _. load c.disk b) c.bufs }) =
        ground arith in
      let there : lookup i bs ≡ some (load c.disk b) =
        lookup-modify_self i (load c.disk) (λ x. refl) c.bufs b l in
      let good = Clean-load c.disk c.bufs i b l dev k in
      let sees = λ (p : ℕ). view-load c.disk i p c.bufs b k.once l v dev in
      subst (Read q c)
        (ap (λ t. (i, record c { bufs = t })) (sym (modify-const i (load c.disk) c.bufs b l))
          ∙ sym made)
        (record {
          consistent = good;
          buffer = (
            load c.disk b,
            there,
            sym (view-lookup c.disk i q bs (load c.disk b) good.once there key) ∙ sees q,
            refl,
            lock,
            key,
            refs,
          );
          views = sees;
          same_disk = refl;
        })
]

-- On a consistent cache a `bread` of a block of disk 1 that returns gives the locked, valid and
-- counted buffer for that block, with the data that readers of the block saw before; the cache
-- stays consistent, and every block still reads as before.
pub bread-Read :
    (q : ℕ) (c : Cache) (out : ℕ × Cache)
    → Consistent c.disk c.bufs
    → bread 1 q c ≡ ok out
    → Read q c out
unfolding bread
bread-Read q c out k e =
    let (got, e1, e2) =
      and_then-ok (bget 1 q c.bufs)
        (λ (r : ℕ × List Buf). fill r.0 (record c { bufs = modify r.0 take_lock r.1 })) e in
    let g = bget-Got 1 q c.disk c.bufs k (omega arith) got e1 in
    let (b, l, key, refs) = g.buffer in
    let c2 : Cache = record c { bufs = modify got.0 take_lock got.1 } in
    let same : (p : ℕ) → view c.disk c2.bufs p ≡ view c.disk c.bufs p = λ p.
      view-modify got.0 take_lock (λ x. refl) (λ x. refl) (λ x. refl) (λ x. refl) c.disk got.1 p
      ∙ g.views p in
    let r =
      fill-Read q got.0 c2 out (take_lock b) (Clean-lock c.disk got.1 got.0 g.consistent)
        (lookup-modify_self got.0 take_lock (λ x. refl) got.1 b l) refl key refs e2 in
    let (b', l', data_ok, v, lk, key', refs') = r.buffer in
    record {
      consistent = r.consistent;
      buffer = (b', l', data_ok ∙ same q, v, lk, key', refs');
      views = λ p. r.views p ∙ same p;
      same_disk = r.same_disk;
    }
