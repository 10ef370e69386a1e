-- ===== src/Fs/Inode/Copies.antt =====
-- The copies of the loops of readi and writei of fs.c, a chunk at a time.
use mit_xv.Prelude.{
  ℕ, suc, ◌+◌, ◌-◌, ◌*◌, ◌/◌, ◌%◌, ◌≤◌, ◌<◌, ◌≡◌, refl, sym, ap, ◌∙◌, fun_ext, ◌≢◌, ◌⊎◌, inl, inr,
  true, false, arith, ltb, leb, ltb→lt, ltb→le, ne→==, Bool-cases, u32_mod, add32,
}
use mit_xv.Fs.{bsize, Blocks}
use mit_xv.Fs.Icache.{Inode}
use mit_xv.Fs.Content.{block_of, content}
use mit_xv.Fs.Inode.{copy_bytes, chunk}

pub copy_bytes-in :
    (to : ℕ → ℕ) (t : ℕ) (from : ℕ → ℕ) (o m j : ℕ)
    → t ≤ j
    → j < t + m
    → copy_bytes to t from o m j ≡ from (o + (j - t))
unfolding copy_bytes
copy_bytes-in to t from o m j lo hi =
    let x : leb t j ≡ true = ground arith in
    let y : ltb j (t + m) ≡ true = ground arith in rw (x, y) refl

pub copy_bytes-out :
    (to : ℕ → ℕ) (t : ℕ) (from : ℕ → ℕ) (o m j : ℕ)
    → (j < t) ⊎ (t + m ≤ j)
    → copy_bytes to t from o m j ≡ to j
unfolding copy_bytes
copy_bytes-out to t from o m j (inl lt) = let x : leb t j ≡ false = ground arith in rw x refl
copy_bytes-out to t from o m j (inr le) =
    let y : ltb j (t + m) ≡ false = ground arith in
    elim (Bool-cases (leb t j)) [ inl x ↦ rw (x, y) refl | inr x ↦ rw x refl ]

-- An address is before, in or after `m` bytes from `t` on.
pub range-cases : (t m j : ℕ) → (j < t) ⊎ (((t ≤ j) × (j < t + m)) ⊎ (t + m ≤ j))
range-cases t m j = elim (Bool-cases (ltb j t)) [
  | inl y ↦ inl (ltb→lt j t y)
  | inr n ↦ elim (Bool-cases (ltb j (t + m))) [
    | inl y' ↦ inr (inl (ltb→le j t n, ltb→lt j (t + m) y'))
    | inr n' ↦ inr (inr (ltb→le j (t + m) n'))
  ]
]

pub copy_bytes-join :
    (to : ℕ → ℕ) (t : ℕ) (part from : ℕ → ℕ) (o' o m r : ℕ)
    → ((x : ℕ) → x < m → part (o' + x) ≡ from (o + x))
    → copy_bytes (copy_bytes to t part o' m) (t + m) from (o + m) r ≡ copy_bytes to t from o (m + r)
copy_bytes-join to t part from o' o m r same = fun_ext at_byte
  where
    at_byte :
        (j : ℕ)
        → copy_bytes (copy_bytes to t part o' m) (t + m) from (o + m) r j
          ≡ copy_bytes to t from o (m + r) j
    at_byte j = elim (range-cases t m j) [
      | inl lt ↦
          copy_bytes-out (copy_bytes to t part o' m) (t + m) from (o + m) r j (inl (omega arith))
          ∙ copy_bytes-out to t part o' m j (inl lt)
          ∙ sym (copy_bytes-out to t from o (m + r) j (inl lt))
      | inr (inl (lo, hi)) ↦
          copy_bytes-out (copy_bytes to t part o' m) (t + m) from (o + m) r j (inl hi)
          ∙ copy_bytes-in to t part o' m j lo hi
          ∙ same (j - t) (omega arith)
          ∙ sym (copy_bytes-in to t from o (m + r) j lo (omega arith))
      | inr (inr le) ↦ elim (Bool-cases (ltb j (t + m + r))) [
        | inl y ↦
            let hi = ltb→lt j (t + m + r) y in
            let e : o + m + (j - (t + m)) ≡ o + (j - t) = omega arith in
            copy_bytes-in (copy_bytes to t part o' m) (t + m) from (o + m) r j le hi
            ∙ ap from e
            ∙ sym (copy_bytes-in to t from o (m + r) j (omega arith) (omega arith))
        | inr n ↦
            let hi = ltb→le j (t + m + r) n in
            copy_bytes-out (copy_bytes to t part o' m) (t + m) from (o + m) r j (inr hi)
            ∙ copy_bytes-out to t part o' m j (inr le)
            ∙ sym (copy_bytes-out to t from o (m + r) j (inr (omega arith)))
      ]
    ]

pub content-block :
    (d : Blocks) (ip : Inode) (k a : ℕ)
    → block_of d ip (k / bsize) ≡ a
    → a ≢ 0
    → content d ip k ≡ d.blocks a (k % bsize)
unfolding content
content-block d ip k a e nz = rw (e, ne→== a 0 nz) refl

-- A chunk is part of one block, and takes all bytes or ends at the block's end.
pub record IsChunk (off n tot m : ℕ) : Type 0 where
  pub some_bytes : 0 < m
  pub fits : m ≤ n - tot
  pub in_block : off % bsize + m ≤ bsize
  pub ends : (m ≡ n - tot) ⊎ (off % bsize + m ≡ bsize)

pub chunk-IsChunk : (off n tot : ℕ) → tot < n → IsChunk off n tot (chunk off n tot)
chunk-IsChunk off n tot lt = record {
  some_bytes = omega arith;
  fits = omega arith;
  in_block = omega arith;
  ends = elim (Bool-cases (ltb (n - tot) (bsize - off % bsize))) [
    | inl y ↦ let h = ltb→lt (n - tot) (bsize - off % bsize) y in inl (omega arith)
    | inr w ↦ let h = ltb→le (n - tot) (bsize - off % bsize) w in inr (omega arith)
  ];
}

-- The fuel that a loop needs from `off` on: one for each block.
abbrev pub EnoughFuel : ℕ → ℕ → ℕ → ℕ → Type 0
EnoughFuel k off n tot = tot < n → off % bsize + (n - tot) ≤ bsize * k

pub EnoughFuel-chunk :
    (k off n tot m : ℕ)
    → tot < n
    → IsChunk off n tot m
    → EnoughFuel (suc k) off n tot
    → EnoughFuel k (off + m) n (tot + m)
EnoughFuel-chunk k off n tot m lt c fuel more =
    let h = fuel lt in
    elim c.ends [
      | inl e ↦ absurd (omega arith)
      | inr e ↦ let z : (off + m) % bsize ≡ 0 = omega arith in omega arith
    ]

pub EnoughFuel-start : (off n : ℕ) → EnoughFuel (n / bsize + 2) off n 0
EnoughFuel-start off n lt = omega arith

pub add32-small : (a b : ℕ) → a + b < u32_mod → add32 a b ≡ a + b
add32-small a b h = omega arith
