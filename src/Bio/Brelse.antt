-- ===== src/Bio/Brelse.antt =====
-- `brelse` of bio.c on the list of buffers.
use mit_xv.Prelude.{
  ℕ, ◌-◌, ◌≡◌, refl, sym, ◌∙◌, subst, inl, inr, true, false, not, ◌&&◌, ◌||◌, some, List, [], ◌∷◌,
  arith, ◌==◌, if◌then◌else◌, ==→eq, Bool-cases, All, ok,
}
use mit_xv.Bio.{Buf, Block, caches, modify, lookup, unlink, brelse}
use mit_xv.Bio.Find.{has_id, has_key, distinct_ids}
use mit_xv.Bio.Consistent.{
  Clean, Consistent, one_each, view, distinct_ids-modify, one_each-modify, view-modify, All-modify,
}
use mit_xv.Bio.Bread.{modify-const, has_key-lookup, view-lookup, lookup-Clean}

has_id-unlink : (i j : ℕ) (bs : List Buf) → has_id j bs ≡ false → has_id j (unlink i bs) ≡ false
unfolding has_id unlink
has_id-unlink i j [] h = refl
has_id-unlink i j (b ∷ bs) h = ground (arith, has_id-unlink i j bs)

has_id-unlink_self :
    (i : ℕ) (bs : List Buf) → distinct_ids bs ≡ true → has_id i (unlink i bs) ≡ false
unfolding has_id unlink distinct_ids
has_id-unlink_self i [] h = refl
has_id-unlink_self i (b ∷ bs) h = elim (Bool-cases (b.id == i)) [
  | inl y ↦
      let gone : has_id b.id bs ≡ false = ground arith in
      rw y (subst (λ t. has_id t bs ≡ false) (==→eq b.id i y) gone)
  | inr n ↦ rw (n) (rw (n) (has_id-unlink_self i bs (ground arith)))
]

distinct_ids-unlink :
    (i : ℕ) (bs : List Buf) → distinct_ids bs ≡ true → distinct_ids (unlink i bs) ≡ true
unfolding unlink distinct_ids
distinct_ids-unlink i [] h = refl
distinct_ids-unlink i (b ∷ bs) h = ground (arith, distinct_ids-unlink i bs, has_id-unlink i b.id bs)

has_key-unlink :
    (i d q : ℕ) (bs : List Buf) → has_key d q bs ≡ false → has_key d q (unlink i bs) ≡ false
unfolding has_key unlink
has_key-unlink i d q [] h = refl
has_key-unlink i d q (b ∷ bs) h = ground (arith, has_key-unlink i d q bs)

one_each-unlink : (i : ℕ) (bs : List Buf) → one_each bs ≡ true → one_each (unlink i bs) ≡ true
unfolding unlink one_each
one_each-unlink i [] h = refl
one_each-unlink i (b ∷ bs) h =
    ground (arith, one_each-unlink i bs, has_key-unlink i b.dev b.blockno bs)

-- The buffer that is taken out was the only one for its block.
has_key-unlink_self :
    (i : ℕ) (bs : List Buf) (b : Buf)
    → one_each bs ≡ true
    → lookup i bs ≡ some b
    → ((b.dev == 0) || not (has_key b.dev b.blockno (unlink i bs))) ≡ true
unfolding unlink one_each lookup has_key
has_key-unlink_self i [] b o l = cc
has_key-unlink_self i (x ∷ xs) b o l = elim (Bool-cases (x.id == i)) [
  | inl y ↦ let same : x ≡ b = ground arith in rw (y, ← same) (ground arith)
  | inr n ↦ ground (arith, has_key-unlink_self i xs b, has_key-lookup i x.dev x.blockno xs b)
]

All-unlink :
    (disk : ℕ → Block) (i : ℕ) (bs : List Buf)
    → All (Clean disk) bs
    → All (Clean disk) (unlink i bs)
unfolding unlink
All-unlink disk i [] h = tt
All-unlink disk i (b ∷ bs) h = elim (Bool-cases (b.id == i)) [
  | inl y ↦ rw y h.1
  | inr n ↦ rw n (h.0, All-unlink disk i bs h.1)
]

view-unlink :
    (disk : ℕ → Block) (i p : ℕ) (bs : List Buf) (b : Buf)
    → lookup i bs ≡ some b
    → (b.valid && caches 1 p b) ≡ false
    → view disk (unlink i bs) p ≡ view disk bs p
unfolding view unlink lookup
view-unlink disk i p [] b l m = cc
view-unlink disk i p (x ∷ xs) b l m = elim (Bool-cases (x.id == i)) [
  | inl y ↦ let same : x ≡ b = ground arith in rw y (sym (rw (same, m)))
  | inr n ↦ rw n (elim (Bool-cases (x.valid && caches 1 p x)) [
    | inl hit ↦ rw hit
    | inr miss ↦ rw (miss, view-unlink disk i p xs b (rw n at l) m)
  ])
]

abbrev freed : Buf → Buf
freed b = record b { locked = false; refcnt = b.refcnt - 1 }

-- The list that `brelse` leaves.
abbrev pub released : ℕ → Buf → List Buf → List Buf
released i b bs = if b.refcnt - 1 == 0 then freed b ∷ unlink i bs else modify i freed bs

lookup_id : (i : ℕ) (bs : List Buf) (b : Buf) → lookup i bs ≡ some b → b.id ≡ i
unfolding lookup
lookup_id i [] b e = cc
lookup_id i (x ∷ xs) b e = ground (arith, lookup_id i xs b)

module _ (i : ℕ) (disk : ℕ → Block) (bs : List Buf) (b : Buf) (k : Consistent disk bs)
    (l : lookup i bs ≡ some b)
    (saved : b.dirty ≡ false → b.valid ≡ true → b.bytes ≡ disk b.blockno) where
  Clean-freed : Clean disk (freed b)
  Clean-freed = record {
    on_disk = (lookup-Clean disk i bs b l k.clean).on_disk;
    loaded = (lookup-Clean disk i bs b l k.clean).loaded;
    same = λ u v. saved (ground arith) v;
  }

  front-Consistent : Consistent disk (freed b ∷ unlink i bs)
  unfolding distinct_ids one_each
  front-Consistent = record {
    ids = rw (lookup_id i bs b l, has_id-unlink_self i bs k.ids, distinct_ids-unlink i bs k.ids);
    once = rw (has_key-unlink_self i bs b k.once l, one_each-unlink i bs k.once);
    clean = (Clean-freed, All-unlink disk i bs k.clean);
  }

  place-Consistent : Consistent disk (modify i freed bs)
  place-Consistent = record {
    ids = distinct_ids-modify i freed (λ x. refl) bs ∙ k.ids;
    once = one_each-modify i freed (λ x. refl) (λ x. refl) bs ∙ k.once;
    clean =
        All-modify i freed (λ x. refl) bs
          (λ x e h.
            let same : b ≡ x = ground arith in subst (λ t. Clean disk (freed t)) same Clean-freed)
          k.clean;
  }

  view-front : (p : ℕ) → view disk (freed b ∷ unlink i bs) p ≡ view disk bs p
  unfolding view
  view-front p = elim (Bool-cases (b.valid && caches 1 p b)) [
    | inl hit ↦ rw hit (sym (view-lookup disk i p bs b k.once l hit))
    | inr miss ↦ rw miss (view-unlink disk i p bs b l miss)
  ]

  released-keeps :
      Consistent disk (released i b bs) × ((p : ℕ) → view disk (released i b bs) p ≡ view disk bs p)
  released-keeps = elim (Bool-cases (b.refcnt - 1 == 0)) [
    | inl y ↦ rw y (front-Consistent, view-front)
    | inr n ↦ rw n (
      place-Consistent,
      λ p. view-modify i freed (λ x. refl) (λ x. refl) (λ x. refl) (λ x. refl) disk bs p,
    )
  ]

-- `brelse` of a locked buffer returns. It unlocks the buffer, and if no other user is left puts it
-- at the front of the list and leaves the others in their order. Where the holder has written or
-- logged what it changed, the cache stays consistent and every block reads as before.
pub brelse_lem :
    (i : ℕ) (disk : ℕ → Block) (bs : List Buf) (b : Buf)
    → Consistent disk bs
    → lookup i bs ≡ some b
    → b.locked ≡ true
    → (b.dirty ≡ false → b.valid ≡ true → b.bytes ≡ disk b.blockno)
    → (brelse i bs ≡ ok (released i b bs))
      × Consistent disk (released i b bs)
      × ((p : ℕ) → view disk (released i b bs) p ≡ view disk bs p)
unfolding brelse
brelse_lem i disk bs b k l lock saved =
    let keeps = released-keeps i disk bs b k l saved in
    (ground (arith, modify-const i freed bs b l), keeps.0, keeps.1)
