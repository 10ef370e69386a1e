-- ===== src/Bio/Bget.antt =====
-- `bget` of bio.c: the buffer that it returns and the buffers that it may take.
use mit_xv.Prelude.{
  ℕ, ◌≤◌, ◌<◌, ◌≡◌, refl, sym, ap, ◌∙◌, subst, ◌≢◌, ◌⊎◌, inl, inr, true, false, ◌&&◌, some, List,
  [], ◌∷◌, arith, ◌==◌, if◌then◌else◌, ==→eq, ==→ne, ==_refl, Bool-cases, Option-cases, All, ok,
}
use mit_xv.Bio.{
  Buf, Block, caches, unused, find_cached, find_unused, modify, lookup, hold, recycle, bget,
}
use mit_xv.Bio.Find.{has_key, Found, find_cached-Found, find_cached-none, find_unused-Found}
use mit_xv.Bio.Consistent.{
  Clean, Consistent, one_each, view, view-no_key, distinct_ids-modify, lookup-modify_self,
  lookup-modify_ne, All-modify, one_each-modify, view-modify,
}

-- Recycling a buffer for a block that is not cached brings in no second buffer for any block.
has_key-recycle :
    (i dev q d p : ℕ) (bs : List Buf)
    → has_key d p bs ≡ false
    → (dev ≢ d) ⊎ (q ≢ p)
    → has_key d p (modify i (recycle dev q) bs) ≡ false
unfolding has_key modify
has_key-recycle i dev q d p [] h ne = refl
has_key-recycle i dev q d p (b ∷ bs) h ne = ground (arith, has_key-recycle i dev q d p bs)

one_each-recycle :
    (i dev q : ℕ) (bs : List Buf)
    → has_key dev q bs ≡ false
    → one_each bs ≡ true
    → one_each (modify i (recycle dev q) bs) ≡ true
unfolding one_each modify has_key
one_each-recycle i dev q [] h o = refl
one_each-recycle i dev q (b ∷ bs) h o =
    ground (arith, one_each-recycle i dev q bs, has_key-recycle i dev q b.dev b.blockno bs)

view-recycle :
    (disk : ℕ → Block) (i dev q p : ℕ) (bs : List Buf)
    → one_each bs ≡ true
    → All (Clean disk) bs
    → ((b : Buf) → lookup i bs ≡ some b → unused b ≡ true)
    → view disk (modify i (recycle dev q) bs) p ≡ view disk bs p
unfolding view modify one_each lookup
view-recycle disk i dev q p [] o c free = refl
view-recycle disk i dev q p (b ∷ bs) o c free = elim (Bool-cases (b.id == i)) [
  | inl y ↦ rw y (drop_it (Bool-cases (b.valid && caches 1 p b)) (free b (rw y)))
  | inr n ↦ rw (n, view-recycle disk i dev q p bs (ground arith) c.1 (λ x e. free x (rw n e)))
]
  where
    drop_it :
        ((b.valid && caches 1 p b) ≡ true) ⊎ ((b.valid && caches 1 p b) ≡ false)
        → unused b ≡ true
        → view disk bs p ≡ (if b.valid && caches 1 p b then b.bytes else view disk bs p)
    drop_it (inl y) u = rw y (
        view-no_key disk bs p (ground arith)
        ∙ sym (c.0.same u (ground arith) ∙ ap disk (ground arith)))
    drop_it (inr n) u = rw n

-- A buffer in use, or waiting for its write, keeps its block and its data.
pub record Kept (b b' : Buf) : Type 0 where
  pub same_block : (b'.dev ≡ b.dev) × (b'.blockno ≡ b.blockno)
  pub same_bytes : b'.bytes ≡ b.bytes
  pub same_flags : (b'.valid ≡ b.valid) × (b'.dirty ≡ b.dirty)
  pub same_refs : b.refcnt ≤ b'.refcnt

-- What `bget` promises of its result.
pub record Got (dev q : ℕ) (disk : ℕ → Block) (bs : List Buf) (out : ℕ × List Buf) : Type 0 where
  pub consistent : Consistent disk out.1
  pub buffer : (b : Buf) × (lookup out.0 out.1 ≡ some b) × (caches dev q b ≡ true) × (0 < b.refcnt)
  pub views : (p : ℕ) → view disk out.1 p ≡ view disk bs p
  pub keeps :
      (j : ℕ) (b : Buf)
      → lookup j bs ≡ some b
      → unused b ≡ false
      → (b' : Buf) × (lookup j out.1 ≡ some b') × Kept b b'

module _ (dev q : ℕ) (disk : ℕ → Block) (bs : List Buf) (c : Consistent disk bs)
    (real : dev ≢ 0) where
  hit : (i : ℕ) → Found (caches dev q) i bs → Got dev q disk bs (i, modify i hold bs)
  hit i (b, e, k) = record {
    consistent = record {
      ids = distinct_ids-modify i hold (λ x. refl) bs ∙ c.ids;
      once = one_each-modify i hold (λ x. refl) (λ x. refl) bs ∙ c.once;
      clean =
          All-modify i hold (λ x. refl) bs
            (λ x l h. record {
              on_disk = h.on_disk;
              loaded = h.loaded;
              same = λ u. absurd (ground arith);
            })
            c.clean;
    };
    buffer = (hold b, lookup-modify_self i hold (λ x. refl) bs b e, k, omega arith);
    views = view-modify i hold (λ x. refl) (λ x. refl) (λ x. refl) (λ x. refl) disk bs;
    keeps = λ j x l u. elim (Bool-cases (i == j)) [
      | inl y ↦
          let l' : lookup i bs ≡ some x = ap (λ t. lookup t bs) (==→eq i j y) ∙ l in
          (
            hold x,
            subst (λ t. lookup t (modify i hold bs) ≡ some (hold x)) (==→eq i j y)
                (lookup-modify_self i hold (λ x. refl) bs x l'),
            record {
              same_block = (refl, refl);
              same_bytes = refl;
              same_flags = (refl, refl);
              same_refs = omega arith;
            },
          )
      | inr n ↦ (
        x,
        lookup-modify_ne i hold (λ x. refl) j bs (==→ne i j n) ∙ l,
        record {
          same_block = (refl, refl);
          same_bytes = refl;
          same_flags = (refl, refl);
          same_refs = omega arith;
        },
      )
    ];
  }

  miss :
      (i : ℕ)
      → has_key dev q bs ≡ false
      → Found unused i bs
      → Got dev q disk bs (i, modify i (recycle dev q) bs)
  miss i absent (b, e, u) = record {
    consistent = record {
      ids = distinct_ids-modify i (recycle dev q) (λ x. refl) bs ∙ c.ids;
      once = one_each-recycle i dev q bs absent c.once;
      clean =
          All-modify i (recycle dev q) (λ x. refl) bs
            (λ x l h. record { on_disk = λ v. cc; loaded = λ v. cc; same = λ s v. cc }) c.clean;
    };
    buffer = (
      recycle dev q b,
      lookup-modify_self i (recycle dev q) (λ x. refl) bs b e,
      rw (==_refl dev, ==_refl q),
      omega arith,
    );
    views = λ p. view-recycle disk i dev q p bs c.once c.clean (λ x l. ground arith);
    keeps = λ j x l v. elim (Bool-cases (i == j)) [
      | inl y ↦
          let l' : lookup i bs ≡ some x = ap (λ t. lookup t bs) (==→eq i j y) ∙ l in
          let clash : unused x ≡ true = ground arith in absurd (ground arith)
      | inr n ↦ (
        x,
        lookup-modify_ne i (recycle dev q) (λ x. refl) j bs (==→ne i j n) ∙ l,
        record {
          same_block = (refl, refl);
          same_bytes = refl;
          same_flags = (refl, refl);
          same_refs = omega arith;
        },
      )
    ];
  }

  -- On a consistent cache, `bget` of a block of a device other than 0 that returns has found or
  -- made the one buffer for that block and counts the caller in; the cache stays consistent, every
  -- block reads as before, and each buffer that is in use or dirty keeps its block, data and flags.
  pub bget-Got : (out : ℕ × List Buf) → bget dev q bs ≡ ok out → Got dev q disk bs out
  unfolding bget
  bget-Got out e = elim (Option-cases (find_cached dev q bs)) [
    | inr (i, f) ↦
        subst (Got dev q disk bs) (ground arith) (hit i (find_cached-Found dev q i bs c.ids f))
    | inl no_hit ↦ elim (Option-cases (find_unused bs)) [
      | inr (i, f) ↦
          subst (Got dev q disk bs) (ground arith)
            (miss i (find_cached-none dev q bs no_hit) (find_unused-Found i bs c.ids f))
      | inl full ↦ absurd (ground arith)
    ]
  ]
