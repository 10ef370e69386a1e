-- ===== src/Pipe/Window.antt =====
-- What a pipe holds: the bytes from `nread` up to `nwrite`, both counted modulo 2 ^ 32. The array
-- index is the counter modulo 512, which is sound only since 512 divides 2 ^ 32.
use mit_xv.Prelude.{
  ℕ, zero, suc, ◌%◌, ◌≤◌, ◌<◌, ◌≡◌, refl, ap, ap₂, ◌∙◌, ◌≢◌, true, false, List, [], ◌∷◌, ◌++◌,
  arith, length, update, update_self, update_ne, u32_mod, add32, sub32,
}
use mit_xv.Pipe.{Pipe, pipesize, new_pipe, is_full, is_empty, push, advance}

-- `nwrite - nread` as a `uint`
abbrev pub used : Pipe → ℕ
used p = sub32 p.nwrite p.nread

pub record IsValid (p : Pipe) : Type 0 where
  pub read_word : p.nread < u32_mod
  pub write_word : p.nwrite < u32_mod
  pub fits : used p ≤ pipesize

-- The `n` bytes from counter `r` on.
unfoldable pub window : (ℕ → ℕ) → ℕ → ℕ → List ℕ
window buf r zero = []
window buf r (suc n) = buf (r % pipesize) ∷ window buf (add32 r 1) n

abbrev pub contents : Pipe → List ℕ
contents p = window p.buf p.nread (used p)

pub length-window : (buf : ℕ → ℕ) (r n : ℕ) → length (window buf r n) ≡ n
unfolding window
length-window buf r zero = refl
length-window buf r (suc n) = ap suc (length-window buf (add32 r 1) n)

-- A slot beyond the window is none of its slots.
slot_ne : (r n : ℕ) → n < 511 → add32 r (suc n) % pipesize ≢ r % pipesize
slot_ne r n h e = omega arith

window-update :
    (buf : ℕ → ℕ) (r n c w : ℕ)
    → n < pipesize
    → r < u32_mod
    → w ≡ add32 r n
    → window (update buf (w % pipesize) c) r (suc n) ≡ window buf r n ++ (c ∷ [])
unfolding window
window-update buf r zero c w h hr e =
    let here : w ≡ r = omega arith in
    ap (λ t. t ∷ [])
      (ap (λ t. update buf (t % pipesize) c (r % pipesize)) here ∙ update_self buf (r % pipesize) c)
window-update buf r (suc n) c w h hr e =
    ap₂ ◌∷◌
      (update_ne buf (w % pipesize) c (r % pipesize)
        (λ q. slot_ne r n (omega arith) (ap (λ t. t % pipesize) (omega arith) ∙ q)))
      (window-update buf (add32 r 1) n c w (omega arith) (omega arith) (omega arith))

-- A fresh pipe is valid and empty.
pub new_pipe-IsValid : (junk : ℕ → ℕ) → IsValid (new_pipe junk) × (contents (new_pipe junk) ≡ [])
unfolding new_pipe window
new_pipe-IsValid junk = (omega arith, refl)

pub is_full-used : (p : Pipe) → IsValid p → is_full p ≡ true → used p ≡ pipesize
unfolding is_full
is_full-used p v h = ground arith

pub not_full-used : (p : Pipe) → IsValid p → is_full p ≡ false → used p < pipesize
unfolding is_full
not_full-used p v h = ground arith

pub is_empty-used : (p : Pipe) → IsValid p → is_empty p ≡ true → used p ≡ 0
unfolding is_empty
is_empty-used p v h = ground arith

pub not_empty-used : (p : Pipe) → IsValid p → is_empty p ≡ false → 0 < used p
unfolding is_empty
not_empty-used p v h = ground arith

pub push-IsValid : (p : Pipe) (c : ℕ) → IsValid p → used p < pipesize → IsValid (push p c)
unfolding push
push-IsValid p c v h = omega arith

pub used-push : (p : Pipe) (c : ℕ) → IsValid p → used p < pipesize → used (push p c) ≡ suc (used p)
unfolding push
used-push p c v h = omega arith

pub push-append :
    (p : Pipe) (c : ℕ)
    → IsValid p
    → used p < pipesize
    → contents (push p c) ≡ contents p ++ (c ∷ [])
unfolding push
push-append p c v h =
    ap (λ t. window (update p.buf (p.nwrite % pipesize) c) p.nread t)
      (unfold push in used-push p c v h)
    ∙ window-update p.buf p.nread (used p) c p.nwrite h v.read_word (omega arith)

pub advance-IsValid : (p : Pipe) → IsValid p → 0 < used p → IsValid (advance p)
unfolding advance
advance-IsValid p v h = omega arith

pub used-advance : (p : Pipe) → IsValid p → 0 < used p → used p ≡ suc (used (advance p))
unfolding advance
used-advance p v h = omega arith

pub advance-tail :
    (p : Pipe)
    → IsValid p
    → 0 < used p
    → contents p ≡ p.buf (p.nread % pipesize) ∷ contents (advance p)
unfolding advance window
advance-tail p v h = ap (λ t. window p.buf p.nread t) (used-advance p v h)
