-- ===== src/Fs/Alloc.antt =====
-- balloc and bfree of fs.c on the bitmap and the blocks of the disk.
use mit_xv.Prelude.{
  ℕ, ◌+◌, ◌/◌, ◌<◌, ◌≡◌, refl, sym, ap, ◌∙◌, subst, ◌≢◌, ◌⊎◌, inl, inr, Bool, true, false, not,
  ◌&&◌, ◌||◌, ◌∷◌, arith, ◌==◌, ==→eq, ==_refl, ne→==, Bool-cases, Option-cases, update_self,
  ok-injective, ok, panic,
}
use mit_xv.Fs.{bpb, Superblock, Blocks, bblock, bzero, scan_maps, mark, unmark, balloc, bfree}
use mit_xv.Fs.Bitmap.{is_used, is_used-mark, is_used-unmark}
use mit_xv.Fs.Scan.{scan_maps-first, scan_maps-none}

-- The bitmap has the blocks that hold it in use.
abbrev pub OwnsBitmap : Superblock → Blocks → Type 0
OwnsBitmap sb d = (c : ℕ) → c < sb.size → is_used sb d (bblock sb c) ≡ true

-- `balloc` gave block `a` and left `after`.
pub record Allocated (sb : Superblock) (d : Blocks) (a : ℕ) (after : Blocks) : Type 0 where
  pub fits : a < sb.size
  pub was_free : is_used sb d a ≡ false
  pub first : (c : ℕ) → c < a → is_used sb d c ≡ true
  pub now_used : (c : ℕ) → c < sb.size → is_used sb after c ≡ (is_used sb d c || (a == c))
  pub zeroed : (i : ℕ) → after.blocks a i ≡ 0
  pub others : (q : ℕ) → a ≢ q → bblock sb a ≢ q → after.blocks q ≡ d.blocks q
  pub logged : after.logged ≡ a ∷ bblock sb a ∷ d.logged

module _ (sb : Superblock) (d : Blocks) where
  -- `balloc` takes the first free block, which is then in use and zeroed, frees none, and logs two
  -- blocks; it panics only when every block is in use. For a bitmap whose own blocks are in use.
  pub balloc_lem :
      OwnsBitmap sb d
      → ((a : ℕ) × (after : Blocks) × (balloc sb d ≡ ok (a, after)) × Allocated sb d a after)
        ⊎ (balloc sb d ≡ panic "balloc: out of blocks")
          × ((c : ℕ) → c < sb.size → is_used sb d c ≡ true)
  unfolding balloc bzero mark
  balloc_lem own = elim (Option-cases (scan_maps (sb.size / bpb + 1) sb d 0)) [
    | inl n ↦
        rw (n, balloc)
          (inr (
            refl,
            λ c. scan_maps-none sb d (sb.size / bpb + 1) 0 refl (omega arith) n c (omega arith),
          ))
    | inr (a, s) ↦
        let (fits, free, before) = scan_maps-first sb d (sb.size / bpb + 1) 0 a refl s in
        rw (s, balloc)
          (inl (
            a,
            bzero a (mark sb a d),
            refl,
            record {
              fits = fits;
              was_free = free;
              first = λ c. before c (omega arith);
              now_used = λ c lt. kept a free c lt ∙ is_used-mark sb a c d;
              zeroed = λ i. ap (λ (f : ℕ → ℕ). f i) (update_self (mark sb a d).blocks a (λ _. 0));
              others = λ q ne ne'. untouched a q ne ne';
              logged = log_of a;
            },
          ))
  ]
    where
      kept :
          (a : ℕ)
          → is_used sb d a ≡ false
          → (c : ℕ) → c < sb.size
          → is_used sb (bzero a (mark sb a d)) c ≡ is_used sb (mark sb a d) c
      kept a free c lt = elim (Bool-cases (a == bblock sb c)) [
        | inl y ↦
            let u : is_used sb d a ≡ true =
              subst (λ t. is_used sb d t ≡ true) (sym (==→eq a (bblock sb c) y)) (own c lt) in
            cc
        | inr n ↦ rw n refl
      ]

      untouched :
          (a q : ℕ) → a ≢ q → bblock sb a ≢ q → (bzero a (mark sb a d)).blocks q ≡ d.blocks q
      untouched a q ne ne' = rw (ne→== a q ne, ne→== (bblock sb a) q ne') refl

      log_of : (a : ℕ) → (bzero a (mark sb a d)).logged ≡ a ∷ bblock sb a ∷ d.logged
      log_of a = refl

  -- `bfree` of a block in use returns with that block free and the others as they were, and logs
  -- one block; of a free block it panics.
  pub bfree_lem :
      (b : ℕ)
      → (is_used sb d b ≡ true
          → (after : Blocks) × (bfree sb b d ≡ ok after)
            × ((c : ℕ) → is_used sb after c ≡ (is_used sb d c && not (b == c)))
            × ((q : ℕ) → bblock sb b ≢ q → after.blocks q ≡ d.blocks q)
            × (after.logged ≡ bblock sb b ∷ d.logged))
        × (is_used sb d b ≡ false → bfree sb b d ≡ panic "freeing free block")
  unfolding bfree unmark
  bfree_lem b = (
    λ used. (
      unmark sb b d,
      rw used refl,
      λ c. is_used-unmark sb b c d,
      λ q ne. rw (ne→== (bblock sb b) q ne) refl,
      refl,
    ),
    λ free. rw free refl,
  )

-- A block that `balloc` has given can be freed, and then the bitmap is as before.
pub bfree-balloc :
    (sb : Superblock) (d : Blocks) (a : ℕ) (after : Blocks)
    → OwnsBitmap sb d
    → balloc sb d ≡ ok (a, after)
    → (back : Blocks) × (bfree sb a after ≡ ok back)
      × ((c : ℕ) → c < sb.size → is_used sb back c ≡ is_used sb d c)
bfree-balloc sb d a after own e = elim (balloc_lem sb d own) [
  | inr (p, full) ↦ cc
  | inl (a', after', e', al) ↦
      let same : (a', after') ≡ (a, after) = ok-injective (sym e' ∙ e) in
      freed (subst (λ (t : ℕ × Blocks). Allocated sb d t.0 t.1) same al)
]
  where
    freed :
        Allocated sb d a after
        → (back : Blocks) × (bfree sb a after ≡ ok back)
          × ((c : ℕ) → c < sb.size → is_used sb back c ≡ is_used sb d c)
    freed al =
        let used : is_used sb after a ≡ true =
          al.now_used a al.fits ∙ rw (al.was_free, ==_refl a) refl in
        let (back, r, bits, others, log) = (bfree_lem sb after a).0 used in
        (back, r, λ c lt. bits c ∙ ap (λ t. t && not (a == c)) (al.now_used c lt) ∙ restored c)
      where
        restored : (c : ℕ) → ((is_used sb d c || (a == c)) && not (a == c)) ≡ is_used sb d c
        restored c = elim (Bool-cases (a == c)) [
          | inl y ↦
              let u : is_used sb d c ≡ false =
                subst (λ t. is_used sb d t ≡ false) (==→eq a c y) al.was_free in
              rw (y, u) refl
          | inr n ↦ rw n (plain (is_used sb d c))
        ]
          where
            plain : (x : Bool) → ((x || false) && true) ≡ x
            plain true = refl
            plain false = refl
