-- ===== src/Console/Edit.antt =====
-- consoleintr of console.c on the line being typed.
use mit_xv.Prelude.{
  ℕ, zero, suc, ◌+◌, ◌%◌, ◌≤◌, ◌≡◌, refl, sym, ap, ap₂, ◌∙◌, subst, ◌≢◌, ◌⊎◌, inl, inr, Bool, true,
  false, not, ◌&&◌, ◌||◌, List, [], ◌∷◌, ◌++◌, arith, ltb, ◌==◌, if◌then◌else◌, ne→==, length, All,
  add32, sub32,
}
use mit_xv.Console.{input_buf, Input, erase, kill_line, newline}
use mit_xv.Console.Ring.{window, Holds, length-window, window-snoc}

-- All but the last.
unfoldable pub init : List ℕ → List ℕ
init [] = []
init (x ∷ []) = []
init (x ∷ (y ∷ ys)) = x ∷ init (y ∷ ys)

-- What typing `c` does to the bytes that readers may have and to the line; whether it ends it.
unfoldable pub typed : ℕ → List ℕ × List ℕ → (List ℕ × List ℕ) × Bool
typed c (ready, line) =
    if c == 21
    then ((ready, []), false)
    else (if (c == 8) || (c == 127)
        then ((ready, init line), false)
        else (if not (c == 0) && ltb (length ready + length line) input_buf
            then (if (newline c == 10)
                  || ((newline c == 4) || (length ready + length line + 1 == input_buf))
                then ((ready ++ (line ++ (newline c ∷ [])), []), true)
                else ((ready, line ++ (newline c ∷ [])), false))
            else ((ready, line), false)))

pub snoc-cases : (xs : List ℕ) → (xs ≡ []) ⊎ ((ys : List ℕ) × (y : ℕ) × (xs ≡ ys ++ (y ∷ [])))
snoc-cases [] = inl refl
snoc-cases (x ∷ xs) = elim (snoc-cases xs) [
  | inl e ↦ inr ([], x, ap (λ t. x ∷ t) e)
  | inr (ys, y, e) ↦ inr (x ∷ ys, y, ap (λ t. x ∷ t) e)
]

pub init-snoc : (ys : List ℕ) (y : ℕ) → init (ys ++ (y ∷ [])) ≡ ys
unfolding init
init-snoc [] y = refl
init-snoc (x ∷ []) y = refl
init-snoc (x ∷ (z ∷ zs)) y = ap (λ t. x ∷ t) (init-snoc (z ∷ zs) y)

pub length-snoc : (ys : List ℕ) (y : ℕ) → length (ys ++ (y ∷ [])) ≡ suc (length ys)
length-snoc [] y = refl
length-snoc (x ∷ xs) y = ap suc (length-snoc xs y)

snoc-injective :
    (xs ys : List ℕ) (x y : ℕ)
    → length xs ≡ length ys
    → xs ++ (x ∷ []) ≡ ys ++ (y ∷ [])
    → (xs ≡ ys) × (x ≡ y)
snoc-injective [] [] x y l e = (refl, cc)
snoc-injective [] (z ∷ zs) x y l e = absurd (omega arith)
snoc-injective (z ∷ zs) [] x y l e = absurd (omega arith)
snoc-injective (a ∷ xs) (b ∷ ys) x y l e =
    let h : a ≡ b = cc in
    let t : xs ++ (x ∷ []) ≡ ys ++ (y ∷ []) = cc in
    let (p, q) = snoc-injective xs ys x y (omega arith) t in (ap₂ ◌∷◌ h p, q)

All-init : (P : ℕ → Type 0) (ys : List ℕ) (y : ℕ) → All P (ys ++ (y ∷ [])) → All P ys × P y
All-init P [] y h = (tt, h.0)
All-init P (x ∷ xs) y h = let (a, b) = All-init P xs y h.1 in ((h.0, a), b)

pub All-snoc : (P : ℕ → Type 0) (ys : List ℕ) (y : ℕ) → All P ys → P y → All P (ys ++ (y ∷ []))
All-snoc P [] y h p = (p, tt)
All-snoc P (x ∷ xs) y h p = (h.0, All-snoc P xs y h.1 p)

-- The last byte of the line is before `e`, and goes.
pub erase-Holds :
    (i : Input) (ready ys : List ℕ) (y : ℕ)
    → Holds i ready (ys ++ (y ∷ []))
    → Holds (erase i) ready ys
      × ((i.e == i.w) ≡ false)
      × ((i.buf (sub32 i.e 1 % input_buf) == 10) ≡ false)
erase-Holds i ready ys y h =
    let len : length (ys ++ (y ∷ [])) ≡ suc (length ys) = length-snoc ys y in
    let r_word = h.r_word in
    let w_at = h.w_at in
    let e_at : i.e ≡ add32 i.r (length ready + suc (length ys)) = rw len at h.e_at in
    let fits : length ready + suc (length ys) ≤ input_buf = rw len at h.fits in
    let (kept, last) = All-init (λ c. c ≢ 10) ys y h.open_line in
    let e1 : sub32 i.e 1 ≡ add32 i.w (length ys) = omega arith in
    let line : window i.buf i.w (suc (length ys)) ≡ ys ++ (y ∷ []) = rw len at h.is_line in
    let (front, byte) =
      snoc-injective (window i.buf i.w (length ys)) ys (i.buf (add32 i.w (length ys) % input_buf)) y
        (length-window i.buf i.w (length ys))
        (sym (window-snoc i.buf i.w (length ys) (omega arith)) ∙ line) in
    (
      record {
        r_word = r_word;
        w_at = w_at;
        e_at = omega arith;
        is_ready = h.is_ready;
        is_line = front;
        fits = omega arith;
        open_line = kept;
      },
      ne→== i.e i.w (λ q. omega arith),
      rw (e1, byte) (ne→== y 10 last),
    )

pub kill_line-Holds :
    (n : ℕ) (i : Input) (ready line : List ℕ)
    → length line ≡ n
    → Holds i ready line
    → Holds (kill_line n i) ready []
unfolding kill_line
kill_line-Holds zero i ready [] l h = h
kill_line-Holds zero i ready (c ∷ line) l h = absurd (omega arith)
kill_line-Holds (suc n) i ready line l h = elim (snoc-cases line) [
  | inl z ↦ absurd (let k = ap length z in omega arith)
  | inr (ys, y, e) ↦
      let (h', ne, not_nl) = erase-Holds i ready ys y (subst (Holds i ready) e h) in
      let len : length ys ≡ n = (let k = ap length e in let k' = length-snoc ys y in omega arith) in
      rw (ne, not_nl) (kill_line-Holds n (erase i) ready ys len h')
]

pub line_length :
    (i : Input) (ready line : List ℕ) → Holds i ready line → sub32 i.e i.w ≡ length line
line_length i ready line h =
    let r_word = h.r_word in
    let w_at = h.w_at in let e_at = h.e_at in let fits = h.fits in omega arith

pub all_length :
    (i : Input) (ready line : List ℕ)
    → Holds i ready line
    → sub32 i.e i.r ≡ length ready + length line
all_length i ready line h =
    let r_word = h.r_word in let e_at = h.e_at in let fits = h.fits in omega arith
