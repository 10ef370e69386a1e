-- ===== src/Fs/Bitmap.antt =====
-- The bits of the bitmap of fs.c.
use mit_xv.Prelude.{
  ℕ, zero, suc, ◌+◌, ◌*◌, ◌/◌, ◌%◌, ◌≡◌, refl, sym, ap, ap₂, ◌∙◌, subst, inl, inr, Bool, true,
  false, not, ◌&&◌, ◌||◌, arith, ◌==◌, if◌then◌else◌, ==→eq, Bool-cases, update,
}
use mit_xv.Fs.{
  bpb, Superblock, Blocks, write_block, bit, set_bit, clear_bit, bblock, is_marked, mark, unmark,
}

-- Block `b` is in use.
abbrev pub is_used : Superblock → Blocks → ℕ → Bool
is_used sb d b = is_marked d (bblock sb b) (b % bpb)

bit-set_bit : (i j x : ℕ) → bit j (set_bit i x) ≡ ((i == j) || bit j x)
unfolding bit set_bit
bit-set_bit zero zero x = ground arith
bit-set_bit zero (suc j) x =
    let e : (x / 2 * 2 + 1) / 2 ≡ x / 2 = omega arith in
    let n : (0 == suc j) ≡ false = ground arith in rw (e, n) refl
bit-set_bit (suc i) zero x =
    let e : (x % 2 + 2 * set_bit i (x / 2)) % 2 ≡ x % 2 = omega arith in
    let n : (suc i == 0) ≡ false = ground arith in rw (e, n) refl
bit-set_bit (suc i) (suc j) x =
    let e : (x % 2 + 2 * set_bit i (x / 2)) / 2 ≡ set_bit i (x / 2) = omega arith in
    let n : (suc i == suc j) ≡ (i == j) = ground arith in rw (e, n) (bit-set_bit i j (x / 2))

bit-clear_bit : (i j x : ℕ) → bit j (clear_bit i x) ≡ (bit j x && not (i == j))
unfolding bit clear_bit
bit-clear_bit zero zero x = ground arith
bit-clear_bit zero (suc j) x =
    let e : x / 2 * 2 / 2 ≡ x / 2 = omega arith in
    let n : (0 == suc j) ≡ false = ground arith in rw (e, n) (same (bit j (x / 2)))
  where
    same : (b : Bool) → b ≡ (b && true)
    same true = refl
    same false = refl
bit-clear_bit (suc i) zero x =
    let e : (x % 2 + 2 * clear_bit i (x / 2)) % 2 ≡ x % 2 = omega arith in
    let n : (suc i == 0) ≡ false = ground arith in rw (e, n) (same (x % 2 == 1))
  where
    same : (b : Bool) → b ≡ (b && true)
    same true = refl
    same false = refl
bit-clear_bit (suc i) (suc j) x =
    let e : (x % 2 + 2 * clear_bit i (x / 2)) / 2 ≡ clear_bit i (x / 2) = omega arith in
    let n : (suc i == suc j) ≡ (i == j) = ground arith in rw (e, n) (bit-clear_bit i j (x / 2))

module _ (sb : Superblock) (b c : ℕ) (d : Blocks) where
  -- The bits of `b` and of `c` stand in the same byte.
  same_byte : Bool
  same_byte = (bblock sb b == bblock sb c) && (b % bpb / 8 == c % bpb / 8)

  old : ℕ
  old = d.blocks (bblock sb b) (b % bpb / 8)

  old-same : same_byte ≡ true → old ≡ d.blocks (bblock sb c) (c % bpb / 8)
  unfolding same_byte old
  old-same h =
      let q : bblock sb b ≡ bblock sb c = ground arith in
      let i : b % bpb / 8 ≡ c % bpb / 8 = ground arith in ap₂ d.blocks q i

  place-injective : same_byte ≡ true → (b % bpb % 8 == c % bpb % 8) ≡ (b == c)
  unfolding same_byte
  place-injective h =
      let q : bblock sb b ≡ bblock sb c = ground arith in
      let i : b % bpb / 8 ≡ c % bpb / 8 = ground arith in ground arith

  place_ne : same_byte ≡ false → (b == c) ≡ false
  unfolding same_byte
  place_ne h = elim (Bool-cases (b == c)) [
    | inl y ↦ absurd (
        clash (
          subst (λ t. ((bblock sb b == bblock sb t) && (b % bpb / 8 == t % bpb / 8)) ≡ false)
            (sym (==→eq b c y)) h))
    | inr n ↦ n
  ]
    where
      clash : ((bblock sb b == bblock sb b) && (b % bpb / 8 == b % bpb / 8)) ≡ false → ⊥
      clash e = ground arith

  edited :
      (v : ℕ)
      → is_used sb (write_block (bblock sb b) (update (d.blocks (bblock sb b)) (b % bpb / 8) v) d) c
        ≡ (if same_byte then bit (c % bpb % 8) v else is_used sb d c)
  unfolding same_byte
  edited v = elim (Bool-cases (bblock sb b == bblock sb c)) [
    | inr n ↦ rw n refl
    | inl y ↦ elim (Bool-cases (b % bpb / 8 == c % bpb / 8)) [
      | inl y' ↦ rw (y, y') refl
      | inr n' ↦
          rw (y, n')
            (ap (λ t. bit (c % bpb % 8) (d.blocks t (c % bpb / 8)))
              (==→eq (bblock sb b) (bblock sb c) y))
    ]
  ]

  pub is_used-mark : is_used sb (mark sb b d) c ≡ (is_used sb d c || (b == c))
  unfolding mark old
  is_used-mark = edited (set_bit (b % bpb % 8) old) ∙ elim (Bool-cases same_byte) [
    | inl y ↦
        let s = place-injective y in
        rw (y, bit-set_bit (b % bpb % 8) (c % bpb % 8) old, s)
          (swap (b == c) (bit (c % bpb % 8) old)
            ∙ ap (λ t. bit (c % bpb % 8) t || (b == c)) (old-same y))
    | inr n ↦ rw (n, place_ne n) (sym (or_false (is_used sb d c)))
  ]
    where
      swap : (x y : Bool) → (x || y) ≡ (y || x)
      swap true true = refl
      swap true false = refl
      swap false true = refl
      swap false false = refl

      or_false : (x : Bool) → (x || false) ≡ x
      or_false true = refl
      or_false false = refl

  pub is_used-unmark : is_used sb (unmark sb b d) c ≡ (is_used sb d c && not (b == c))
  unfolding unmark old
  is_used-unmark = edited (clear_bit (b % bpb % 8) old) ∙ elim (Bool-cases same_byte) [
    | inl y ↦
        let s = place-injective y in
        rw (y, bit-clear_bit (b % bpb % 8) (c % bpb % 8) old, s)
          (ap (λ t. bit (c % bpb % 8) t && not (b == c)) (old-same y))
    | inr n ↦ rw (n, place_ne n) (sym (and_true (is_used sb d c)))
  ]
    where
      and_true : (x : Bool) → (x && true) ≡ x
      and_true true = refl
      and_true false = refl
