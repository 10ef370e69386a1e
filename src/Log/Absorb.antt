-- ===== src/Log/Absorb.antt =====
-- Log absorption in `log_write` of log.c.
use mit_xv.Prelude.{
  ℕ, ◌≡◌, refl, Bool, true, not, ◌&&◌, ◌||◌, List, [], ◌∷◌, ◌++◌, arith, ◌==◌, if◌then◌else◌,
}
use mit_xv.Log.{absorb}
use mit_xv.Log.Commit.{has_block}

-- No number occurs twice.
unfoldable pub distinct : List ℕ → Bool
distinct [] = true
distinct (b ∷ bs) = not (has_block b bs) && distinct bs

pub has_block-absorb :
    (b c : ℕ) (bs : List ℕ) → has_block c (absorb bs b) ≡ ((b == c) || has_block c bs)
unfolding absorb
has_block-absorb b c [] = refl
has_block-absorb b c (x ∷ xs) = ground (arith, has_block-absorb b c xs)

at_end : (b : ℕ) (xs : List ℕ) → absorb xs b ≡ (if has_block b xs then xs else xs ++ (b ∷ []))
unfolding absorb
at_end b [] = refl
at_end b (x ∷ xs) = ground (arith, at_end b xs)

still : (b : ℕ) (xs : List ℕ) → distinct xs ≡ true → distinct (absorb xs b) ≡ true
unfolding absorb distinct
still b [] h = refl
still b (x ∷ xs) h = ground (arith, still b xs, has_block-absorb b x xs)

-- `log_write` of a block that is logged changes nothing; of another block it adds this block at the
-- end. So it keeps the logged blocks distinct, and they are those from before and the one written.
pub absorb_lem :
    (b : ℕ) (bs : List ℕ)
    → (absorb bs b ≡ (if has_block b bs then bs else bs ++ (b ∷ [])))
      × (distinct bs ≡ true → distinct (absorb bs b) ≡ true)
      × ((c : ℕ) → has_block c (absorb bs b) ≡ ((b == c) || has_block c bs))
absorb_lem b bs = (at_end b bs, still b bs, λ c. has_block-absorb b c bs)
