-- ===== src/CString/Strings.antt =====
-- strncmp, strncpy and safestrcpy of string.c on strings that end with a 0 or fill their array.
use mit_xv.Prelude.{
  ℕ, zero, suc, ◌+◌, ◌<◌, ◌≡◌, refl, ap, ◌∙◌, inl, inr, Bool, true, false, not, ◌&&◌, ◌||◌, arith,
  leb, ◌==◌, if◌then◌else◌, Bool-cases, update, update_self, sub32,
}
use mit_xv.CString.{Mem, strncmp, pad, strncpy}
use mit_xv.CString.Moves.{in_region}

-- No 0 among the first `i` bytes of the string.
unfoldable pub no_nul : ℕ → ℕ → Mem → Bool
no_nul zero t m = true
no_nul (suc i) t m = not (m t == 0) && no_nul i (t + 1) m

-- The regions do not overlap.
abbrev pub apart : ℕ → ℕ → ℕ → Bool
apart s t n = leb (t + n) s || leb (s + n) t

pub no_nul-update :
    (i t s v : ℕ) (m : Mem) → in_region t i s ≡ false → no_nul i t (update m s v) ≡ no_nul i t m
unfolding no_nul
no_nul-update zero t s v m h = refl
no_nul-update (suc i) t s v m h =
    let ne : (s == t) ≡ false = ground arith in
    rw ne (ap (λ b. not (m t == 0) && b) (no_nul-update i (t + 1) s v m (ground arith)))

pad-region : (n s : ℕ) (m : Mem) (a : ℕ) → pad n s m a ≡ (if in_region s n a then 0 else m a)
unfolding pad
pad-region zero s m a = ground arith
pad-region (suc n) s m a = pad-region n (s + 1) (update m s 0) a ∙ ground arith

pub strncpy-outside :
    (n s t : ℕ) (m : Mem) (a : ℕ) → in_region s n a ≡ false → strncpy s t n m a ≡ m a
unfolding strncpy
strncpy-outside zero s t m a h = refl
strncpy-outside (suc n) s t m a h =
    let o : in_region (s + 1) n a ≡ false = ground arith in
    let ne : (s == a) ≡ false = ground arith in
    let here : update m s (m t) a ≡ m a = rw ne refl in
    elim (Bool-cases (m t == 0)) [
      | inl y ↦ rw (y, strncpy) (pad-region n (s + 1) (update m s (m t)) a ∙ rw o here)
      | inr k ↦ rw (k, strncpy) (strncpy-outside n (s + 1) (t + 1) (update m s (m t)) a o ∙ here)
    ]

strncpy-at :
    (n s t : ℕ) (m : Mem) (i : ℕ)
    → apart s t n ≡ true
    → i < n
    → strncpy s t n m (s + i) ≡ (if no_nul i t m then m (t + i) else 0)
unfolding strncpy no_nul
strncpy-at zero s t m i h lt = absurd (omega arith)
strncpy-at (suc n) s t m zero h lt =
    let e : s + 0 ≡ s = omega arith in
    let e' : t + 0 ≡ t = omega arith in
    let o : in_region (s + 1) n s ≡ false = ground arith in
    let here : update m s (m t) s ≡ m t = update_self m s (m t) in
    rw (e, e')
      (elim (Bool-cases (m t == 0)) [
        | inl y ↦ rw (y, strncpy) (pad-region n (s + 1) (update m s (m t)) s ∙ rw o here)
        | inr k ↦ rw (k, strncpy) (strncpy-outside n (s + 1) (t + 1) (update m s (m t)) s o ∙ here)
      ])
strncpy-at (suc n) s t m (suc i) h lt =
    let e : s + suc i ≡ s + 1 + i = omega arith in
    let e' : t + suc i ≡ t + 1 + i = omega arith in
    let o : in_region (t + 1) i s ≡ false = ground arith in
    let ne : (s == t + 1 + i) ≡ false = ground arith in
    let inside : in_region (s + 1) n (s + 1 + i) ≡ true = ground arith in
    rw (e, e')
      (elim (Bool-cases (m t == 0)) [
        | inl y ↦
            rw (y, strncpy) (pad-region n (s + 1) (update m s (m t)) (s + 1 + i) ∙ rw inside refl)
        | inr k ↦
            rw (k, strncpy)
              (strncpy-at n (s + 1) (t + 1) (update m s (m t)) i (ground arith) (omega arith)
                ∙ rw (no_nul-update i (t + 1) s (m t) m o, ne) refl)
      ])

-- The bytes that `strncpy` leaves at `s`: those of the string at `t`, then zeros up to `n`; it
-- writes nothing else. For arrays that do not overlap.
pub strncpy_lem :
    (n s t : ℕ) (m : Mem)
    → apart s t n ≡ true
    → ((i : ℕ) → i < n → strncpy s t n m (s + i) ≡ (if no_nul i t m then m (t + i) else 0))
      × ((a : ℕ) → in_region s n a ≡ false → strncpy s t n m a ≡ m a)
strncpy_lem n s t m h = (λ i lt. strncpy-at n s t m i h lt, λ a. strncpy-outside n s t m a)

-- Equal up to the first 0 of the string at `p`, or up to `n` bytes.
abbrev pub Same : ℕ → ℕ → ℕ → Mem → Type 0
Same p q n m = (i : ℕ) → i < n → no_nul i p m ≡ true → m (p + i) ≡ m (q + i)

sub32-zero : (a b : ℕ) → a < 256 → b < 256 → sub32 a b ≡ 0 → a ≡ b
sub32-zero a b h h' e = omega arith

-- `strncmp` returns 0 exactly for strings that agree up to the first 0, or in all `n` bytes.
pub strncmp_lem :
    (n p q : ℕ) (m : Mem)
    → ((a : ℕ) → m a < 256)
    → (strncmp p q n m ≡ 0 → Same p q n m) × (Same p q n m → strncmp p q n m ≡ 0)
unfolding strncmp no_nul
strncmp_lem zero p q m bytes = (λ e i lt. absurd (omega arith), λ same. refl)
strncmp_lem (suc n) p q m bytes =
    let (to, from) = strncmp_lem n (p + 1) (q + 1) m bytes in
    let z : p + 0 ≡ p = omega arith in
    let z' : q + 0 ≡ q = omega arith in
    elim (Bool-cases (not (m p == 0) && (m p == m q))) [
      | inl y ↦
          let eq : m p ≡ m q = ground arith in
          let live : not (m p == 0) ≡ true = ground arith in
          rw (y, strncmp)
            (
              λ e. λ i lt k. extends i (λ j lt' k'. to e j lt' k') eq live lt k,
              λ same. from (λ j lt' k'. tail j (same (suc j) (omega arith) (rw live k'))),
            )
      | inr d ↦
          rw (d, strncmp)
            (
              λ e i lt k. stops i d (sub32-zero (m p) (m q) (bytes p) (bytes q) e) k,
              λ same.
                  let eq : m (p + 0) ≡ m (q + 0) = same 0 (omega arith) refl in
                  let eq' : m p ≡ m q = rw (z, z') at eq in ground arith,
            )
    ]
  where
    tail : (j : ℕ) → m (p + suc j) ≡ m (q + suc j) → m (p + 1 + j) ≡ m (q + 1 + j)
    tail j e =
        let a : p + suc j ≡ p + 1 + j = omega arith in
        let b : q + suc j ≡ q + 1 + j = omega arith in rw (a, b) at e

    extends :
        (i : ℕ)
        → Same (p + 1) (q + 1) n m
        → m p ≡ m q
        → not (m p == 0) ≡ true
        → i < suc n
        → no_nul i p m ≡ true
        → m (p + i) ≡ m (q + i)
    extends zero rest eq live lt k =
        let z : p + 0 ≡ p = omega arith in let z' : q + 0 ≡ q = omega arith in rw (z, z') eq
    extends (suc j) rest eq live lt k =
        let a : p + suc j ≡ p + 1 + j = omega arith in
        let b : q + suc j ≡ q + 1 + j = omega arith in
        rw (a, b) (rest j (omega arith) (rw live at k))

    stops :
        (i : ℕ)
        → (not (m p == 0) && (m p == m q)) ≡ false
        → m p ≡ m q
        → no_nul i p m ≡ true
        → m (p + i) ≡ m (q + i)
    stops zero d eq k =
        let z : p + 0 ≡ p = omega arith in let z' : q + 0 ≡ q = omega arith in rw (z, z') eq
    stops (suc j) d eq k = absurd (ground arith)
