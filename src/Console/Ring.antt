-- ===== src/Console/Ring.antt =====
-- The ring of input of console.c as the bytes that readers may have and the line being typed.
use mit_xv.Prelude.{
  ℕ, zero, suc, ◌+◌, ◌-◌, ◌%◌, ◌≤◌, ◌<◌, ◌≡◌, refl, ap, ap₂, ◌∙◌, ◌≢◌, List, [], ◌∷◌, ◌++◌, arith,
  length, All, update, update_ne, u32_mod, add32,
}
use mit_xv.Console.{input_buf, Input}

-- The `n` bytes from index `r` on.
unfoldable pub window : (ℕ → ℕ) → ℕ → ℕ → List ℕ
window buf r zero = []
window buf r (suc n) = buf (r % input_buf) ∷ window buf (add32 r 1) n

-- What typing has put in for readers, and the line that it may still erase.
pub record Holds (i : Input) (ready line : List ℕ) : Type 0 where
  pub r_word : i.r < u32_mod
  pub w_at : i.w ≡ add32 i.r (length ready)
  pub e_at : i.e ≡ add32 i.r (length ready + length line)
  pub is_ready : window i.buf i.r (length ready) ≡ ready
  pub is_line : window i.buf i.w (length line) ≡ line
  pub fits : length ready + length line ≤ input_buf
  pub open_line : All (λ c. c ≢ 10) line

add32-suc : (r n : ℕ) → r < u32_mod → add32 (add32 r 1) n ≡ add32 r (suc n)
add32-suc r n h = omega arith

pub window-snoc :
    (buf : ℕ → ℕ) (r n : ℕ)
    → r < u32_mod
    → window buf r (suc n) ≡ window buf r n ++ (buf (add32 r n % input_buf) ∷ [])
unfolding window
window-snoc buf r zero h =
    let e : r ≡ add32 r 0 = omega arith in ap (λ t. buf (t % input_buf) ∷ []) e
window-snoc buf r (suc n) h =
    ap (λ t. buf (r % input_buf) ∷ t)
      (window-snoc buf (add32 r 1) n (omega arith)
        ∙ ap (λ t. window buf (add32 r 1) n ++ (buf (t % input_buf) ∷ [])) (add32-suc r n h))

pub window-append :
    (buf : ℕ → ℕ) (r m n : ℕ)
    → r < u32_mod
    → window buf r (m + n) ≡ window buf r m ++ window buf (add32 r m) n
unfolding window
window-append buf r zero n h =
    let e : r ≡ add32 r 0 = omega arith in
    let z : 0 + n ≡ n = omega arith in rw z (ap (λ t. window buf t n) e)
window-append buf r (suc m) n h =
    let z : suc m + n ≡ suc (m + n) = omega arith in
    rw z (
      ap (λ t. buf (r % input_buf) ∷ t)
        (window-append buf (add32 r 1) m n (omega arith)
          ∙ ap (λ t. window buf (add32 r 1) m ++ window buf t n) (add32-suc r m h)))

pub length-window : (buf : ℕ → ℕ) (r n : ℕ) → length (window buf r n) ≡ n
unfolding window
length-window buf r zero = refl
length-window buf r (suc n) = ap suc (length-window buf (add32 r 1) n)

-- A byte beyond the window is none of it.
pub window-update :
    (buf : ℕ → ℕ) (r n k c : ℕ)
    → r < u32_mod
    → n ≤ k
    → k < input_buf
    → window (update buf (add32 r k % input_buf) c) r n ≡ window buf r n
unfolding window
window-update buf r zero k c h le lt = refl
window-update buf r (suc n) k c h le lt =
    let e : add32 r k ≡ add32 (add32 r 1) (k - 1) = omega arith in
    ap₂ ◌∷◌ (update_ne buf (add32 r k % input_buf) c (r % input_buf) (λ q. omega arith)) (
      ap (λ t. window (update buf (t % input_buf) c) (add32 r 1) n) e
      ∙ window-update buf (add32 r 1) n (k - 1) c (omega arith) (omega arith) (omega arith))
