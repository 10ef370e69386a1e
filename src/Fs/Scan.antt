-- ===== src/Fs/Scan.antt =====
-- The search of balloc of fs.c for the first block that the bitmap has free.
use mit_xv.Prelude.{
  ℕ, zero, suc, ◌+◌, ◌-◌, ◌*◌, ◌/◌, ◌%◌, ◌≤◌, ◌<◌, ◌≡◌, sym, ap₂, ◌∙◌, subst, inl, inr, true, false,
  none, some, arith, ltb, ◌==◌, ltb→lt, ltb→le, ==→eq, Bool-cases, Option-cases,
}
use mit_xv.Fs.{bpb, Superblock, Blocks, bblock, is_marked, scan_bits, scan_maps}
use mit_xv.Fs.Bitmap.{is_used}

module _ (sb : Superblock) (d : Blocks) where
  -- The first bit that is clear, from `first` on, and before `stop`.
  record FirstClear (b first stop k : ℕ) : Type 0 where
    range : (first ≤ k) × (k < stop) × (b + k < sb.size)
    clear : is_marked d (bblock sb b) k ≡ false
    before : (j : ℕ) → first ≤ j → j < k → is_marked d (bblock sb b) j ≡ true

  scan_bits-first : (n b bi k : ℕ) → scan_bits n sb d b bi ≡ some k → FirstClear b bi (bi + n) k
  unfolding scan_bits
  scan_bits-first zero b bi k e = cc
  scan_bits-first (suc n) b bi k e = elim (Bool-cases (ltb (b + bi) sb.size)) [
    | inr o ↦ cc (rw o at e)
    | inl i ↦ elim (Bool-cases (is_marked d (bblock sb b) bi)) [
      | inr c ↦
          let e' : some bi ≡ some k = rw (i, c) at e in
          let same : bi ≡ k = cc in
          record {
            range = (omega arith, omega arith, ground arith);
            clear = subst (λ t. is_marked d (bblock sb b) t ≡ false) same c;
            before = λ j lo hi. absurd (omega arith);
          }
      | inl c ↦
          let r = scan_bits-first n b (bi + 1) k (rw (i, c) at e) in
          let (lo, hi, fits) = r.range in
          record {
            range = (omega arith, omega arith, fits);
            clear = r.clear;
            before = λ j lo' hi'. elim (Bool-cases (bi == j)) [
              | inl y ↦ subst (λ t. is_marked d (bblock sb b) t ≡ true) (==→eq bi j y) c
              | inr ne ↦ r.before j (ground arith) hi'
            ];
          }
    ]
  ]

  scan_bits-none :
      (n b bi : ℕ)
      → scan_bits n sb d b bi ≡ none
      → (j : ℕ) → bi ≤ j
      → j < bi + n
      → b + j < sb.size
      → is_marked d (bblock sb b) j ≡ true
  unfolding scan_bits
  scan_bits-none zero b bi e j lo hi fits = absurd (omega arith)
  scan_bits-none (suc n) b bi e j lo hi fits = elim (Bool-cases (ltb (b + bi) sb.size)) [
    | inr o ↦ absurd (ground arith)
    | inl i ↦ elim (Bool-cases (is_marked d (bblock sb b) bi)) [
      | inr c ↦ cc (rw (i, c) at e)
      | inl c ↦ elim (Bool-cases (bi == j)) [
        | inl y ↦ subst (λ t. is_marked d (bblock sb b) t ≡ true) (==→eq bi j y) c
        | inr ne ↦ scan_bits-none n b (bi + 1) (rw (i, c) at e) j (ground arith) (omega arith) fits
      ]
    ]
  ]

  -- Bit `j` of the bitmap block of `b`, a multiple of `BPB`, is that of block `b + j`.
  marked-used :
      (b j : ℕ) → b % bpb ≡ 0 → j < bpb → is_marked d (bblock sb b) j ≡ is_used sb d (b + j)
  marked-used b j al lt =
      let q : b / bpb ≡ (b + j) / bpb = omega arith in
      let r : j ≡ (b + j) % bpb = omega arith in ap₂ (λ x y. is_marked d (x + sb.bmapstart) y) q r

  used_from :
      (b c : ℕ)
      → b % bpb ≡ 0
      → b ≤ c
      → c < b + bpb
      → is_marked d (bblock sb b) (c - b) ≡ true
      → is_used sb d c ≡ true
  used_from b c al lo hi m =
      let e : b + (c - b) ≡ c = omega arith in
      subst (λ t. is_used sb d t ≡ true) e (sym (marked-used b (c - b) al (omega arith)) ∙ m)

  pub scan_maps-first :
      (k b a : ℕ)
      → b % bpb ≡ 0
      → scan_maps k sb d b ≡ some a
      → (a < sb.size) × (is_used sb d a ≡ false) × ((c : ℕ) → b ≤ c → c < a → is_used sb d c ≡ true)
  unfolding scan_maps
  scan_maps-first zero b a al e = cc
  scan_maps-first (suc k) b a al e = elim (Bool-cases (ltb b sb.size)) [
    | inr o ↦ cc (rw o at e)
    | inl i ↦ elim (Option-cases (scan_bits bpb sb d b 0)) [
      | inr (bi, s) ↦
          let e' : some (b + bi) ≡ some a = rw (i, s) at e in
          let same : b + bi ≡ a = cc in
          let f = scan_bits-first bpb b 0 bi s in
          let (lo, hi, fits) = f.range in
          (
            omega arith,
            subst (λ t. is_used sb d t ≡ false) same
                (sym (marked-used b bi al (omega arith)) ∙ f.clear),
            λ c lo' hi'.
                used_from b c al lo' (omega arith) (f.before (c - b) (omega arith) (omega arith)),
          )
      | inl n ↦
          let (fits, free, before) = scan_maps-first k (b + bpb) a (omega arith) (rw (i, n) at e) in
          (
            fits,
            free,
            λ c lo hi. elim (Bool-cases (ltb c (b + bpb))) [
              | inl y ↦
                  used_from b c al lo (ltb→lt c (b + bpb) y)
                    (scan_bits-none bpb b 0 n (c - b) (omega arith) (ground arith) (omega arith))
              | inr o ↦ before c (ltb→le c (b + bpb) o) hi
            ],
          )
    ]
  ]

  pub scan_maps-none :
      (k b : ℕ)
      → b % bpb ≡ 0
      → sb.size < b + k * bpb
      → scan_maps k sb d b ≡ none
      → (c : ℕ) → b ≤ c
      → c < sb.size
      → is_used sb d c ≡ true
  unfolding scan_maps
  scan_maps-none zero b al fuel e c lo hi = absurd (omega arith)
  scan_maps-none (suc k) b al fuel e c lo hi = elim (Bool-cases (ltb b sb.size)) [
    | inr o ↦ absurd (ground arith)
    | inl i ↦ elim (Option-cases (scan_bits bpb sb d b 0)) [
      | inr (bi, s) ↦ cc (rw (i, s) at e)
      | inl n ↦ elim (Bool-cases (ltb c (b + bpb))) [
        | inl y ↦
            used_from b c al lo (ltb→lt c (b + bpb) y)
              (scan_bits-none bpb b 0 n (c - b) (omega arith) (ground arith) (omega arith))
        | inr o ↦
            scan_maps-none k (b + bpb) (omega arith) (omega arith) (rw (i, n) at e) c
              (ltb→le c (b + bpb) o) hi
      ]
    ]
  ]
