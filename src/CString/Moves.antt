-- ===== src/CString/Moves.antt =====
-- memset and memmove of string.c, and the region that they are given.
use mit_xv.Prelude.{
  ℕ, zero, suc, ◌+◌, ◌-◌, ◌*◌, ◌/◌, ◌%◌, ◌≤◌, ◌<◌, ◌≡◌, refl, ap, ◌∙◌, inl, inr, Bool, true, false,
  ◌&&◌, arith, ltb, leb, ◌==◌, if◌then◌else◌, Bool-cases, update,
}
use mit_xv.CString.{Mem, stosb, store_word, stosl, four_times, memset, copy_up, copy_down, memmove}

abbrev pub in_region : ℕ → ℕ → ℕ → Bool
in_region d n a = leb d a && ltb a (d + n)

copy_down-region :
    (n d s : ℕ) (m : Mem) (a : ℕ)
    → s ≤ d
    → copy_down n d s m a ≡ (if in_region d n a then m (s + (a - d)) else m a)
unfolding copy_down
copy_down-region zero d s m a h = ground arith
copy_down-region (suc n) d s m a h =
    copy_down-region n d s (update m (d + n) (m (s + n))) a h ∙ step
  where
    step :
        (if in_region d n a
          then update m (d + n) (m (s + n)) (s + (a - d))
          else update m (d + n) (m (s + n)) a)
        ≡ (if in_region d (suc n) a then m (s + (a - d)) else m a)
    step = elim (Bool-cases (d + n == a)) [
      | inl y ↦
          let e : s + n ≡ s + (a - d) = ground arith in
          let o : in_region d n a ≡ false = ground arith in
          let i : in_region d (suc n) a ≡ true = ground arith in rw (o, i, y) (ap m e)
      | inr ne ↦
          let same : in_region d (suc n) a ≡ in_region d n a = ground arith in
          rw (ne, same)
            (elim (Bool-cases (in_region d n a)) [
              | inl y ↦ let o : (d + n == s + (a - d)) ≡ false = ground arith in rw (y, o) refl
              | inr ny ↦ rw ny refl
            ])
    ]

copy_up-region :
    (n d s : ℕ) (m : Mem) (a : ℕ)
    → (ltb s d && ltb d (s + n)) ≡ false
    → copy_up n d s m a ≡ (if in_region d n a then m (s + (a - d)) else m a)
unfolding copy_up
copy_up-region zero d s m a h = ground arith
copy_up-region (suc n) d s m a h =
    copy_up-region n (d + 1) (s + 1) (update m d (m s)) a (ground arith) ∙ step
  where
    step :
        (if in_region (d + 1) n a
          then update m d (m s) (s + 1 + (a - (d + 1)))
          else update m d (m s) a)
        ≡ (if in_region d (suc n) a then m (s + (a - d)) else m a)
    step = elim (Bool-cases (d == a)) [
      | inl y ↦
          let e : s ≡ s + (a - d) = ground arith in
          let o : in_region (d + 1) n a ≡ false = ground arith in
          let i : in_region d (suc n) a ≡ true = ground arith in rw (o, i, y) (ap m e)
      | inr ne ↦
          let same : in_region d (suc n) a ≡ in_region (d + 1) n a = ground arith in
          rw (ne, same)
            (elim (Bool-cases (in_region (d + 1) n a)) [
              | inl y ↦
                  let o : (d == s + 1 + (a - (d + 1))) ≡ false = ground arith in
                  let e : s + 1 + (a - (d + 1)) ≡ s + (a - d) = ground arith in rw (y, o) (ap m e)
              | inr ny ↦ rw ny refl
            ])
    ]

-- Also when source and destination overlap, `memmove` leaves in the destination what was in the
-- source before the call, and nothing else changes.
pub memmove_lem :
    (dst src n : ℕ) (m : Mem) (a : ℕ)
    → memmove dst src n m a ≡ (if in_region dst n a then m (src + (a - dst)) else m a)
unfolding memmove
memmove_lem dst src n m a = elim (Bool-cases (ltb src dst && ltb dst (src + n))) [
  | inl y ↦ rw y (copy_down-region n dst src m a (ground arith))
  | inr no_overlap ↦ rw no_overlap (copy_up-region n dst src m a no_overlap)
]

stosb-region :
    (n dst byte : ℕ) (m : Mem) (a : ℕ)
    → stosb n dst byte m a ≡ (if in_region dst n a then byte % 256 else m a)
unfolding stosb
stosb-region zero dst byte m a = ground arith
stosb-region (suc n) dst byte m a =
    stosb-region n (dst + 1) byte (update m dst (byte % 256)) a ∙ ground arith

store_word-region :
    (dst c : ℕ) (m : Mem) (a : ℕ)
    → c < 256
    → store_word dst (four_times c) m a ≡ (if in_region dst 4 a then c else m a)
store_word-region dst c m a h =
    let b0 : four_times c % 256 ≡ c = omega arith in
    let b1 : four_times c / 256 % 256 ≡ c = omega arith in
    let b2 : four_times c / 65536 % 256 ≡ c = omega arith in
    let b3 : four_times c / 16777216 % 256 ≡ c = omega arith in rw (b0, b1, b2, b3) (ground arith)

stosl-region :
    (n dst c : ℕ) (m : Mem) (a : ℕ)
    → c < 256
    → stosl n dst (four_times c) m a ≡ (if in_region dst (n * 4) a then c else m a)
unfolding stosl
stosl-region zero dst c m a h = ground arith
stosl-region (suc n) dst c m a h =
    stosl-region n (dst + 4) c (store_word dst (four_times c) m) a h
    ∙ rw (store_word-region dst c m a h) (joins (m a))
  where
    joins :
        (x : ℕ)
        → (if in_region (dst + 4) (n * 4) a then c else (if in_region dst 4 a then c else x))
          ≡ (if in_region dst (suc n * 4) a then c else x)
    joins x = ground arith

-- `memset` puts the low byte of `c` in every byte of the region, whether it stores words or bytes,
-- and nothing else changes.
pub memset_lem :
    (dst c n : ℕ) (m : Mem) (a : ℕ)
    → memset dst c n m a ≡ (if in_region dst n a then c % 256 else m a)
unfolding memset
memset_lem dst c n m a = elim (Bool-cases ((dst % 4 == 0) && (n % 4 == 0))) [
  | inr n' ↦ rw n' (stosb-region n dst c m a)
  | inl y ↦
      let e : n / 4 * 4 ≡ n = ground arith in
      let r = stosl-region (n / 4) dst (c % 256) m a (omega arith) in rw y (rw e at r)
]
