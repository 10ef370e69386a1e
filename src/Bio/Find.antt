-- ===== src/Bio/Find.antt =====
-- The loops of `bget`: what they find, and what they pass over.
use mit_xv.Prelude.{
  ℕ, ◌≡◌, refl, ap, ◌∙◌, subst, inl, inr, Bool, true, false, not, ◌&&◌, ◌||◌, none, some, List, [],
  ◌∷◌, arith, ◌==◌, ==_refl, Bool-cases, Option-cases,
}
use mit_xv.Bio.{Buf, caches, unused, find_cached, find_unused, lookup}

unfoldable pub has_id : ℕ → List Buf → Bool
has_id i [] = false
has_id i (b ∷ bs) = (b.id == i) || has_id i bs

-- Some buffer is for this block.
unfoldable pub has_key : ℕ → ℕ → List Buf → Bool
has_key dev blockno [] = false
has_key dev blockno (b ∷ bs) = caches dev blockno b || has_key dev blockno bs

-- The buffers are those of the array, each once.
unfoldable pub distinct_ids : List Buf → Bool
distinct_ids [] = true
distinct_ids (b ∷ bs) = not (has_id b.id bs) && distinct_ids bs

-- Buffer `i` is in the list and passes the test `t`.
abbrev pub Found : (Buf → Bool) → ℕ → List Buf → Type 0
Found t i bs = (b : Buf) × (lookup i bs ≡ some b) × (t b ≡ true)

pub has_id-lookup : (i : ℕ) (bs : List Buf) (b : Buf) → lookup i bs ≡ some b → has_id i bs ≡ true
unfolding has_id lookup
has_id-lookup i [] b e = cc
has_id-lookup i (x ∷ xs) b e = ground (arith, has_id-lookup i xs b)

Found-cons :
    (t : Buf → Bool) (i : ℕ) (b : Buf) (bs : List Buf)
    → has_id b.id bs ≡ false
    → Found t i bs
    → Found t i (b ∷ bs)
unfolding lookup
Found-cons t i b bs fresh (x, e, h) = (x, ground (arith, has_id-lookup i bs x e), h)

Found-head : (t : Buf → Bool) (b : Buf) (bs : List Buf) → t b ≡ true → Found t b.id (b ∷ bs)
unfolding lookup
Found-head t b bs h = (b, rw (==_refl b.id), h)

pub find_cached-Found :
    (dev blockno i : ℕ) (bs : List Buf)
    → distinct_ids bs ≡ true
    → find_cached dev blockno bs ≡ some i
    → Found (caches dev blockno) i bs
unfolding find_cached distinct_ids
find_cached-Found dev blockno i [] d e = cc
find_cached-Found dev blockno i (b ∷ bs) d e = elim (Bool-cases (caches dev blockno b)) [
  | inl y ↦
      let same : b.id ≡ i = ground arith in
      subst (λ j. Found (caches dev blockno) j (b ∷ bs)) same
        (Found-head (caches dev blockno) b bs y)
  | inr n ↦
      Found-cons (caches dev blockno) i b bs (ground arith)
        (find_cached-Found dev blockno i bs (ground arith) (ground arith))
]

pub find_cached-none :
    (dev blockno : ℕ) (bs : List Buf)
    → find_cached dev blockno bs ≡ none
    → has_key dev blockno bs ≡ false
unfolding find_cached has_key
find_cached-none dev blockno [] e = refl
find_cached-none dev blockno (b ∷ bs) e = ground (arith, find_cached-none dev blockno bs)

pub find_unused-Found :
    (i : ℕ) (bs : List Buf) → distinct_ids bs ≡ true → find_unused bs ≡ some i → Found unused i bs
unfolding find_unused distinct_ids
find_unused-Found i [] d e = cc
find_unused-Found i (b ∷ bs) d e = elim (Option-cases (find_unused bs)) [
  | inl n ↦
      let y : unused b ≡ true = ground arith in
      let same : b.id ≡ i = ground arith in
      subst (λ j. Found unused j (b ∷ bs)) same (Found-head unused b bs y)
  | inr (j, s) ↦
      let same : j ≡ i = ground arith in
      Found-cons unused i b bs (ground arith)
        (find_unused-Found i bs (ground arith) (s ∙ ap some same))
]
