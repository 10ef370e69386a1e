-- ===== src/Log/Shape.antt =====
-- What the loops of log.c do, written without loops: which blocks they send to the disk in which
-- order, and that `write_head` followed by `read_head` gives the block numbers back.
use mit_xv.Prelude.{
  ℕ, zero, suc, ◌+◌, ◌-◌, ◌≤◌, ◌<◌, ◌≡◌, refl, sym, ap, ◌∙◌, ◌⊎◌, inl, inr, Bool, true, false, ◌||◌,
  List, [], ◌∷◌, ◌++◌, append_assoc, arith, ◌==◌, Bool-cases, length, take, update, update_self,
  update_ne,
}
use mit_xv.Log.{Block, Store, put_blocks, head_block, get_blocks}

-- A disk after some writes of whole blocks, the first of the list first.
abbrev pub apply_writes : List (ℕ × Block) → (ℕ → Block) → ℕ → Block
apply_writes [] d = d
apply_writes ((b, x) ∷ ws) d = apply_writes ws (update d b x)

pub apply_writes-append :
    (xs ys : List (ℕ × Block)) (d : ℕ → Block)
    → apply_writes (xs ++ ys) d ≡ apply_writes ys (apply_writes xs d)
apply_writes-append [] ys d = refl
apply_writes-append ((b, x) ∷ xs) ys d = apply_writes-append xs ys (update d b x)

-- Entries `put_blocks` has not reached keep their words.
put_blocks_below : (bs : List ℕ) (i j : ℕ) (h : Block) → j ≤ i → put_blocks i bs h j ≡ h j
unfolding put_blocks
put_blocks_below [] i j h le = refl
put_blocks_below (b ∷ bs) i j h le =
    put_blocks_below bs (i + 1) j (update h (i + 1) b) (omega arith)
    ∙ update_ne h (i + 1) b j (omega arith)

get-put_blocks :
    (bs : List ℕ) (i : ℕ) (h : Block) → get_blocks (length bs) i (put_blocks i bs h) ≡ bs
unfolding get_blocks put_blocks
get-put_blocks [] i h = refl
get-put_blocks (b ∷ bs) i h =
    ap (λ t. t ∷ get_blocks (length bs) (i + 1) (put_blocks (i + 1) bs (update h (i + 1) b)))
      (put_blocks_below bs (i + 1) (i + 1) (update h (i + 1) b) (omega arith)
        ∙ update_self h (i + 1) b)
    ∙ ap (λ t. b ∷ t) (get-put_blocks bs (i + 1) (update h (i + 1) b))

head_block-zero : (bs : List ℕ) (h : Block) → head_block bs h 0 ≡ length bs
unfolding head_block
head_block-zero bs h =
    put_blocks_below bs 0 0 (update h 0 (length bs)) (omega arith) ∙ update_self h 0 (length bs)

-- The block numbers that a header block holds.
abbrev pub logged : Block → List ℕ
logged h = get_blocks (h 0) 0 h

-- A header block holds the block numbers that `write_head` was given, in order.
pub logged-head_block : (bs : List ℕ) (h : Block) → logged (head_block bs h) ≡ bs
unfolding head_block
logged-head_block bs h =
    ap (λ n. get_blocks n 0 (head_block bs h)) (head_block-zero bs h)
    ∙ get-put_blocks bs 0 (update h 0 (length bs))

-- The writes of `write_log` from entry `i` on, with the data taken from the view `v`.
abbrev pub log_writes : ℕ → ℕ → List ℕ → (ℕ → Block) → List (ℕ × Block)
log_writes start i [] v = []
log_writes start i (b ∷ bs) v = (start + i + 1, v b) ∷ log_writes start (i + 1) bs v

-- The writes of `install_trans`: each home block gets its log block.
abbrev pub home_writes : ℕ → ℕ → List ℕ → (ℕ → Block) → List (ℕ × Block)
home_writes start i [] v = []
home_writes start i (b ∷ bs) v = (b, v (start + i + 1)) ∷ home_writes start (i + 1) bs v

-- A store after it has sent `ws` to the disk.
abbrev pub after : List (ℕ × Block) → Store → Store
after ws s = record {
  view = apply_writes ws s.view;
  disk = apply_writes ws s.disk;
  writes = s.writes ++ ws;
}

pub after-after :
    (xs ys : List (ℕ × Block)) (s : Store) → after ys (after xs s) ≡ after (xs ++ ys) s
after-after xs ys s = λ i. record {
  view = sym (apply_writes-append xs ys s.view) i;
  disk = sym (apply_writes-append xs ys s.disk) i;
  writes = append_assoc s.writes xs ys i;
}

-- `b` is no block of the log, which is `size` blocks from `start` on.
abbrev pub Home : ℕ → ℕ → ℕ → Type 0
Home start size b = (b < start) ⊎ (start + size ≤ b)

-- The data of `b` is written by `ws`.
abbrev pub has_key : ℕ → List (ℕ × Block) → Bool
has_key b [] = false
has_key b ((c, x) ∷ ws) = (c == b) || has_key b ws

pub apply-no_key :
    (b : ℕ) (ws : List (ℕ × Block)) (d : ℕ → Block)
    → has_key b ws ≡ false
    → apply_writes ws d b ≡ d b
apply-no_key b [] d h = refl
apply-no_key b ((c, x) ∷ ws) d h =
    apply-no_key b ws (update d c x) (ground arith) ∙ update_ne d c x b (ground arith)

-- What a disk held before it is overwritten does not matter.
pub apply-has_key :
    (b : ℕ) (ws : List (ℕ × Block)) (d e : ℕ → Block)
    → (has_key b ws ≡ true) ⊎ (d b ≡ e b)
    → apply_writes ws d b ≡ apply_writes ws e b
apply-has_key b [] d e (inl h) = cc
apply-has_key b [] d e (inr h) = h
apply-has_key b ((c, x) ∷ ws) d e h = apply-has_key b ws (update d c x) (update e c x) (pass h)
  where
    pass :
        (has_key b ((c, x) ∷ ws) ≡ true) ⊎ (d b ≡ e b)
        → (has_key b ws ≡ true) ⊎ (update d c x b ≡ update e c x b)
    pass (inl q) = elim (Bool-cases (c == b)) [ inl y ↦ inr (rw y) | inr n ↦ inl (ground arith) ]
    pass (inr q) = inr (rw q)

no_key-take :
    (b k : ℕ) (ws : List (ℕ × Block)) → has_key b ws ≡ false → has_key b (take k ws) ≡ false
no_key-take b zero ws h = refl
no_key-take b (suc k) [] h = refl
no_key-take b (suc k) ((c, x) ∷ ws) h = ground (arith, no_key-take b k ws)

-- A prefix of the writes made before all of them changes nothing.
pub apply-apply-take :
    (b k : ℕ) (ws : List (ℕ × Block)) (d : ℕ → Block)
    → apply_writes ws (apply_writes (take k ws) d) b ≡ apply_writes ws d b
apply-apply-take b k ws d = elim (Bool-cases (has_key b ws)) [
  | inl y ↦ apply-has_key b ws (apply_writes (take k ws) d) d (inl y)
  | inr n ↦
      apply-has_key b ws (apply_writes (take k ws) d) d
        (inr (apply-no_key b (take k ws) d (no_key-take b k ws n)))
]

pub apply-take-no_key :
    (b k : ℕ) (ws : List (ℕ × Block)) (d : ℕ → Block)
    → has_key b ws ≡ false
    → apply_writes (take k ws) d b ≡ d b
apply-take-no_key b k ws d h = apply-no_key b (take k ws) d (no_key-take b k ws h)

pub has_key-append :
    (b : ℕ) (xs ys : List (ℕ × Block)) → has_key b (xs ++ ys) ≡ (has_key b xs || has_key b ys)
has_key-append b [] ys = refl
has_key-append b ((c, x) ∷ xs) ys = ground (arith, has_key-append b xs ys)

-- The first `k` of the writes `xs ++ ys`.
pub take-append_le :
    (k : ℕ) (xs ys : List (ℕ × Block)) → k ≤ length xs → take k (xs ++ ys) ≡ take k xs
take-append_le zero xs ys h = refl
take-append_le (suc k) [] ys h = absurd (omega arith)
take-append_le (suc k) (x ∷ xs) ys h = ap (λ t. x ∷ t) (take-append_le k xs ys (omega arith))

pub take-append_ge :
    (k : ℕ) (xs ys : List (ℕ × Block))
    → length xs ≤ k
    → take k (xs ++ ys) ≡ xs ++ take (k - length xs) ys
take-append_ge k [] ys h = ap (λ t. take t ys) (omega arith)
take-append_ge zero (x ∷ xs) ys h = absurd (omega arith)
take-append_ge (suc k) (x ∷ xs) ys h =
    ap (λ t. x ∷ t) (take-append_ge k xs ys (omega arith) ∙ ap (λ t. xs ++ take t ys) (omega arith))
