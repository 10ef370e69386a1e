-- ===== src/User/Wc.antt =====
-- wc of wc.c: the counts, over the reads of a file.
use mit_xv.Prelude.{
  ℕ, suc, ◌+◌, ◌≡◌, refl, ap, ◌∙◌, inl, inr, Bool, true, false, ◌||◌, List, [], ◌∷◌, ◌++◌, arith,
  ◌==◌, if◌then◌else◌, Bool-cases, length,
}

pub record Counts : Type 0 where
  pub l : ℕ
  pub w : ℕ
  pub c : ℕ
  pub inword : Bool

-- `strchr(" \r\t\n\v", c)`
abbrev pub is_space : ℕ → Bool
is_space c = (c == 32) || ((c == 13) || ((c == 9) || ((c == 10) || (c == 11))))

-- The body of the inner loop
unfoldable pub count_char : ℕ → Counts → Counts
count_char a s =
    let s' = record s { c = s.c + 1; l = if a == 10 then s.l + 1 else s.l } in
    if is_space a
    then record s' { inword = false }
    else (if s'.inword then s' else record s' { w = s'.w + 1; inword = true })

-- The inner loop, over what a read returned
unfoldable pub count_chars : List ℕ → Counts → Counts
count_chars [] s = s
count_chars (a ∷ buf) s = count_chars buf (count_char a s)

-- The outer loop, over what the reads return
unfoldable pub count_reads : List (List ℕ) → Counts → Counts
count_reads [] s = s
count_reads (buf ∷ reads) s = count_reads reads (count_chars buf s)

unfoldable pub wc : List (List ℕ) → Counts
wc reads = count_reads reads (record { l = 0; w = 0; c = 0; inword = false })

-- The file that the reads return.
abbrev pub joined : List (List ℕ) → List ℕ
joined [] = []
joined (buf ∷ reads) = buf ++ joined reads

abbrev pub newlines : List ℕ → ℕ
newlines [] = 0
newlines (a ∷ text) = if a == 10 then suc (newlines text) else newlines text

-- The parts of a text between spaces, the first and the others.
abbrev pub add_to : ℕ → List ℕ × List (List ℕ) → List ℕ × List (List ℕ)
add_to a p = if is_space a then ([], p.0 ∷ p.1) else (a ∷ p.0, p.1)

abbrev pub segments : List ℕ → List ℕ × List (List ℕ)
segments [] = ([], [])
segments (a ∷ text) = add_to a (segments text)

abbrev pub size_of : List ℕ → ℕ
size_of [] = 0
size_of (a ∷ s) = 1

-- The number of parts that are not empty.
abbrev pub nonempty : List (List ℕ) → ℕ
nonempty [] = 0
nonempty (s ∷ ss) = size_of s + nonempty ss

abbrev pub words : List ℕ → ℕ
words text = let p = segments text in size_of p.0 + nonempty p.1

count_chars-append :
    (a b : List ℕ) (s : Counts) → count_chars b (count_chars a s) ≡ count_chars (a ++ b) s
unfolding count_chars
count_chars-append [] b s = refl
count_chars-append (x ∷ a) b s = count_chars-append a b (count_char x s)

count_reads-joined :
    (reads : List (List ℕ)) (s : Counts) → count_reads reads s ≡ count_chars (joined reads) s
unfolding count_reads count_chars
count_reads-joined [] s = refl
count_reads-joined (buf ∷ reads) s =
    count_reads-joined reads (count_chars buf s) ∙ count_chars-append buf (joined reads) s

-- The counts of a text, added to those before.
pub record Counted (text : List ℕ) (s s' : Counts) : Type 0 where
  pub lines : s'.l ≡ s.l + newlines text
  pub chars : s'.c ≡ s.c + length text
  pub words_too : s'.w ≡ s.w + (if s.inword then nonempty (segments text).1 else words text)

line_step :
    (a : ℕ) (s : Counts) (n : ℕ) → (count_char a s).l + n ≡ s.l + (if a == 10 then suc n else n)
unfolding count_char
line_step a s n = elim (Bool-cases (is_space a)) [
  | inl y ↦ rw y (ground arith)
  | inr o ↦ elim (Bool-cases s.inword) [
    | inl i ↦ rw (o, i) (ground arith)
    | inr i ↦ rw (o, i) (ground arith)
  ]
]

char_step : (a : ℕ) (s : Counts) (n : ℕ) → (count_char a s).c + n ≡ s.c + suc n
unfolding count_char
char_step a s n = elim (Bool-cases (is_space a)) [
  | inl y ↦ rw y (omega arith)
  | inr o ↦ elim (Bool-cases s.inword) [
    | inl i ↦ rw (o, i) (omega arith)
    | inr i ↦ rw (o, i) (omega arith)
  ]
]

word_step :
    (a : ℕ) (s : Counts) (p : List ℕ × List (List ℕ))
    → (count_char a s).w
        + (if (count_char a s).inword then nonempty p.1 else size_of p.0 + nonempty p.1)
      ≡ s.w
        + (if s.inword
            then nonempty (add_to a p).1
            else size_of (add_to a p).0 + nonempty (add_to a p).1)
unfolding count_char
word_step a s p = elim (Bool-cases (is_space a)) [
  | inl y ↦ elim (Bool-cases s.inword) [ inl i ↦ rw (y, i) refl | inr i ↦ rw (y, i) (omega arith) ]
  | inr o ↦ elim (Bool-cases s.inword) [ inl i ↦ rw (o, i) refl | inr i ↦ rw (o, i) (omega arith) ]
]

count_chars-Counted : (text : List ℕ) (s : Counts) → Counted text s (count_chars text s)
unfolding count_chars
count_chars-Counted [] s = record {
  lines = omega arith;
  chars = omega arith;
  words_too = none_more s.inword;
}
  where
    none_more : (b : Bool) → s.w ≡ s.w + (if b then 0 else 0)
    none_more true = omega arith
    none_more false = omega arith
count_chars-Counted (a ∷ text) s =
    let h = count_chars-Counted text (count_char a s) in
    record {
      lines = h.lines ∙ line_step a s (newlines text);
      chars = h.chars ∙ char_step a s (length text);
      words_too = h.words_too ∙ word_step a s (segments text);
    }

-- However the reads cut up a file, `wc` counts its newlines, its words, which are the nonempty
-- parts between spaces, and its bytes.
pub wc_lem :
    (reads : List (List ℕ))
    → ((wc reads).l ≡ newlines (joined reads))
      × ((wc reads).w ≡ words (joined reads))
      × ((wc reads).c ≡ length (joined reads))
unfolding wc
wc_lem reads =
    let start : Counts = record { l = 0; w = 0; c = 0; inword = false } in
    let h = count_chars-Counted (joined reads) start in
    let e = count_reads-joined reads start in
    (
      ap (λ (t : Counts). t.l) e ∙ h.lines ∙ zero_plus (newlines (joined reads)),
      ap (λ (t : Counts). t.w) e ∙ h.words_too ∙ zero_plus (words (joined reads)),
      ap (λ (t : Counts). t.c) e ∙ h.chars ∙ zero_plus (length (joined reads)),
    )
  where
    zero_plus : (n : ℕ) → 0 + n ≡ n
    zero_plus n = omega arith
