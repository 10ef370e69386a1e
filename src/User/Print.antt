-- ===== src/User/Print.antt =====
-- printint of printf.c and atoi of ulib.c.
use mit_xv.Prelude.{
  ℕ, zero, suc, ◌+◌, ◌*◌, ◌/◌, ◌%◌, ◌^◌, ◌≤◌, ◌<◌, ◌≡◌, refl, ap, ◌∙◌, ◌≢◌, inl, inr, Bool, true,
  false, ◌&&◌, List, [], ◌∷◌, arith, ltb, leb, ◌==◌, if◌then◌else◌, ==→eq, ==→ne, Bool-cases,
  length, u32_mod, add32, sub32,
}

-- `digits[d]`
abbrev pub digit : ℕ → ℕ
digit d = if ltb d 10 then d + 48 else d + 55

-- The loop of `printint` that fills `buf`, in front of what is there, so that the list is in the
-- order in which the last loop writes; on fuel.
unfoldable pub put_digits : ℕ → ℕ → ℕ → List ℕ → List ℕ
put_digits zero base x out = out
put_digits (suc k) base x out =
    let rest = put_digits k base (x / base) (digit (x % base) ∷ out) in
    if x / base == 0 then digit (x % base) ∷ out else rest

-- What `printint` writes of the word `xx`, which is an int if `sgn`; 32 digits are enough for it.
unfoldable pub printint : ℕ → ℕ → Bool → List ℕ
printint xx base sgn =
    if sgn && leb 2147483648 xx
    then 45 ∷ put_digits 32 base (sub32 0 xx) []
    else put_digits 32 base xx []

-- `'0' <= *s && *s <= '9'`
abbrev pub is_digit : ℕ → Bool
is_digit c = leb 48 c && leb c 57

-- The loop of `atoi`, on a word
unfoldable pub atoi_from : ℕ → List ℕ → ℕ
atoi_from n [] = n
atoi_from n (c ∷ s) =
    let rest = atoi_from (sub32 (add32 (n * 10 % u32_mod) c) 48) s in if is_digit c then rest else n

unfoldable pub atoi : List ℕ → ℕ
atoi s = atoi_from 0 s

-- Decimal digits are read back.
atoi_from-digit :
    (n d : ℕ) (s : List ℕ)
    → d < 10
    → n * 10 + d < u32_mod
    → atoi_from n (digit d ∷ s) ≡ atoi_from (n * 10 + d) s
unfolding atoi_from
atoi_from-digit n d s lt small =
    let e : ltb d 10 ≡ true = ground arith in
    let g : leb 48 (d + 48) ≡ true = ground arith in
    let g' : leb (d + 48) 57 ≡ true = ground arith in
    let v : sub32 (add32 (n * 10 % u32_mod) (d + 48)) 48 ≡ n * 10 + d = omega arith in
    rw (e, g, g', v) refl

needs_more : (k x : ℕ) → x < 10 ^ suc k → x / 10 ≢ 0 → 0 < k
needs_more zero x fit nz = absurd (nz (omega arith))
needs_more (suc k) x fit nz = omega arith

atoi_from-put_digits :
    (k x : ℕ) (out : List ℕ)
    → x < 10 ^ k
    → 0 < k
    → x < u32_mod
    → atoi_from 0 (put_digits k 10 x out) ≡ atoi_from x out
unfolding put_digits
atoi_from-put_digits zero x out fit pos small = absurd (omega arith)
atoi_from-put_digits (suc k) x out fit pos small = elim (Bool-cases (x / 10 == 0)) [
  | inl y ↦
      let z = ==→eq (x / 10) 0 y in
      let e : 0 * 10 + x % 10 ≡ x = omega arith in
      rw y
        (atoi_from-digit 0 (x % 10) out (omega arith) (omega arith) ∙ ap (λ t. atoi_from t out) e)
  | inr o ↦
      let nz = ==→ne (x / 10) 0 o in
      let e : x / 10 * 10 + x % 10 ≡ x = omega arith in
      rw o (
        atoi_from-put_digits k (x / 10) (digit (x % 10) ∷ out) (omega arith) (needs_more k x fit nz)
          (omega arith)
        ∙ atoi_from-digit (x / 10) (x % 10) out (omega arith) (omega arith)
        ∙ ap (λ t. atoi_from t out) e)
]

atoi_from-nil : (x : ℕ) → atoi_from x [] ≡ x
unfolding atoi_from
atoi_from-nil x = refl

length-put_digits :
    (k b x : ℕ) (out : List ℕ)
    → x < 10 ^ suc b
    → length (put_digits k 10 x out) ≤ suc b + length out
unfolding put_digits
length-put_digits zero b x out fit = omega arith
length-put_digits (suc k) zero x out fit =
    let y : (x / 10 == 0) ≡ true = ground arith in rw y (omega arith)
length-put_digits (suc k) (suc b) x out fit = elim (Bool-cases (x / 10 == 0)) [
  | inl y ↦ rw y (omega arith)
  | inr n ↦
      let h = length-put_digits k b (x / 10) (digit (x % 10) ∷ out) (omega arith) in
      rw n (omega arith)
]

-- `printint` writes a number of 31 bits in decimal so that `atoi` reads it back, and fills at most
-- 11 of the 16 bytes of its buffer for any word.
pub atoi-printint :
    (x : ℕ) (sgn : Bool)
    → x < u32_mod
    → (x < 2147483648 → atoi (printint x 10 sgn) ≡ x) × (length (printint x 10 sgn) ≤ 11)
unfolding atoi printint
atoi-printint x sgn lt = (read_back sgn, fits sgn)
  where
    read_back : (sgn : Bool) → x < 2147483648 → atoi (printint x 10 sgn) ≡ x
    read_back sgn low =
        let g : leb 2147483648 x ≡ false = ground arith in
        let e : (sgn && leb 2147483648 x) ≡ false = never sgn g in
        rw e
          (atoi_from-put_digits 32 x [] (omega arith) (omega arith) (omega arith) ∙ atoi_from-nil x)
      where
        never : {b : Bool} (s : Bool) → b ≡ false → (s && b) ≡ false
        never true e = e
        never false e = refl

    fits : (sgn : Bool) → length (printint x 10 sgn) ≤ 11
    fits sgn = elim (Bool-cases (sgn && leb 2147483648 x)) [
      | inl y ↦ let h = length-put_digits 32 9 (sub32 0 x) [] (omega arith) in rw y (omega arith)
      | inr n ↦ let h = length-put_digits 32 9 x [] (omega arith) in rw n (omega arith)
    ]
