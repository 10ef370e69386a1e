-- ===== src/Fs/Bmap/Words.antt =====
-- A block of fs.c as an array of `uint`.
use mit_xv.Prelude.{
  ℕ, ◌+◌, ◌*◌, ◌<◌, ◌≡◌, subst, ◌≢◌, inl, inr, arith, ◌==◌, if◌then◌else◌, ==→eq, ==→ne, Bool-cases,
  u32_mod,
}
use mit_xv.Fs.Bmap.{get_word, set_word}

pub get_word-set_word :
    (f : ℕ → ℕ) (i j v : ℕ)
    → v < u32_mod
    → get_word (set_word f i v) j ≡ (if i == j then v else get_word f j)
unfolding get_word set_word
get_word-set_word f i j v h = elim (Bool-cases (i == j)) [
  | inr n ↦ rw n (other (==→ne i j n))
  | inl y ↦ rw y (subst (λ t. get_word (set_word f i v) t ≡ v) (==→eq i j y) self)
]
  where
    self : get_word (set_word f i v) i ≡ v
    self = ground arith

    other : i ≢ j → get_word (set_word f i v) j ≡ get_word f j
    other ne = ground arith

pub get_word-zero : (f : ℕ → ℕ) (i : ℕ) → ((k : ℕ) → f k ≡ 0) → get_word f i ≡ 0
unfolding get_word
get_word-zero f i h = omega (arith, h (i * 4), h (i * 4 + 1), h (i * 4 + 2), h (i * 4 + 3))
