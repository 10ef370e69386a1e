-- ===== src/Bio/Consistent.antt =====
-- What holds of the buffer cache between its operations, and what a change of one buffer keeps.
use mit_xv.Prelude.{
  ℕ, ◌≡◌, refl, ◌≢◌, inl, inr, Bool, true, false, not, ◌&&◌, ◌||◌, some, List, [], ◌∷◌, arith, ◌==◌,
  if◌then◌else◌, Bool-cases, All,
}
use mit_xv.Bio.{Buf, Block, caches, unused, modify, lookup}
use mit_xv.Bio.Find.{has_id, has_key, distinct_ids}

-- Only blocks of disk 1 are valid, and only valid ones are dirty; a buffer that may be recycled holds what the disk holds.
pub record Clean (disk : ℕ → Block) (b : Buf) : Type 0 where
  pub on_disk : b.valid ≡ true → b.dev ≡ 1
  pub loaded : b.dirty ≡ true → b.valid ≡ true
  pub same : unused b ≡ true → b.valid ≡ true → b.bytes ≡ disk b.blockno

-- No block of a device is cached twice.
unfoldable pub one_each : List Buf → Bool
one_each [] = true
one_each (b ∷ bs) = ((b.dev == 0) || not (has_key b.dev b.blockno bs)) && one_each bs

pub record Consistent (disk : ℕ → Block) (bs : List Buf) : Type 0 where
  pub ids : distinct_ids bs ≡ true
  pub once : one_each bs ≡ true
  pub clean : All (Clean disk) bs

-- What a reader gets of block `q` of disk 1: the valid cached data, else the disk's.
unfoldable pub view : (ℕ → Block) → List Buf → ℕ → Block
view disk [] q = disk q
view disk (b ∷ bs) q = if b.valid && caches 1 q b then b.bytes else view disk bs q

pub view-no_key :
    (disk : ℕ → Block) (bs : List Buf) (q : ℕ) → has_key 1 q bs ≡ false → view disk bs q ≡ disk q
unfolding view has_key
view-no_key disk [] q h = refl
view-no_key disk (b ∷ bs) q h = ground (arith, view-no_key disk bs q)

-- A change `f` of buffer `i` that keeps its index.
module _ (i : ℕ) (f : Buf → Buf) (same_id : (b : Buf) → (f b).id ≡ b.id) where
  pub has_id-modify : (j : ℕ) (bs : List Buf) → has_id j (modify i f bs) ≡ has_id j bs
  unfolding has_id modify
  has_id-modify j [] = refl
  has_id-modify j (b ∷ bs) = ground (arith, same_id b, has_id-modify j bs)

  pub distinct_ids-modify : (bs : List Buf) → distinct_ids (modify i f bs) ≡ distinct_ids bs
  unfolding distinct_ids modify
  distinct_ids-modify [] = refl
  distinct_ids-modify (b ∷ bs) = elim (Bool-cases (b.id == i)) [
    | inl y ↦ rw (y, same_id b)
    | inr n ↦ rw (n, has_id-modify b.id bs, distinct_ids-modify bs)
  ]

  pub lookup-modify_self :
      (bs : List Buf) (b : Buf) → lookup i bs ≡ some b → lookup i (modify i f bs) ≡ some (f b)
  unfolding lookup modify
  lookup-modify_self [] b e = cc
  lookup-modify_self (x ∷ xs) b e = ground (arith, same_id x, same_id b, lookup-modify_self xs b)

  pub lookup-modify_ne : (j : ℕ) (bs : List Buf) → i ≢ j → lookup j (modify i f bs) ≡ lookup j bs
  unfolding lookup modify
  lookup-modify_ne j [] h = refl
  lookup-modify_ne j (x ∷ xs) h = ground (arith, same_id x, lookup-modify_ne j xs)

  pub All-modify :
      {P : Buf → Type 0} (bs : List Buf)
      → ((b : Buf) → lookup i bs ≡ some b → P b → P (f b))
      → All P bs
      → All P (modify i f bs)
  unfolding modify lookup
  All-modify [] keep h = tt
  All-modify {P} (x ∷ xs) keep h = elim (Bool-cases (x.id == i)) [
    | inl y ↦ rw y (keep x (rw y) h.0, h.1)
    | inr n ↦ rw n (h.0, All-modify xs (λ b e. keep b (rw n e)) h.1)
  ]

-- A change that also keeps which block the buffer is for, and its data.
module _ (i : ℕ) (f : Buf → Buf) (same_dev : (b : Buf) → (f b).dev ≡ b.dev)
    (same_blockno : (b : Buf) → (f b).blockno ≡ b.blockno) where
  pub has_key-modify :
      (dev q : ℕ) (bs : List Buf) → has_key dev q (modify i f bs) ≡ has_key dev q bs
  unfolding has_key modify
  has_key-modify dev q [] = refl
  has_key-modify dev q (b ∷ bs) =
      ground (arith, same_dev b, same_blockno b, has_key-modify dev q bs)

  pub one_each-modify : (bs : List Buf) → one_each (modify i f bs) ≡ one_each bs
  unfolding one_each modify
  one_each-modify [] = refl
  one_each-modify (b ∷ bs) = elim (Bool-cases (b.id == i)) [
    | inl y ↦ rw (y, same_dev b, same_blockno b)
    | inr n ↦ rw (n, has_key-modify b.dev b.blockno bs, one_each-modify bs)
  ]

  pub view-modify :
      ((b : Buf) → (f b).valid ≡ b.valid)
      → ((b : Buf) → (f b).bytes ≡ b.bytes)
      → (disk : ℕ → Block) (bs : List Buf) (q : ℕ) → view disk (modify i f bs) q ≡ view disk bs q
  unfolding view modify
  view-modify sv sb disk [] q = refl
  view-modify sv sb disk (b ∷ bs) q = elim (Bool-cases (b.id == i)) [
    | inl y ↦ rw (y, sv b, sb b, same_dev b, same_blockno b)
    | inr n ↦ rw (n, view-modify sv sb disk bs q)
  ]
