-- ===== src/Fs/Path.antt =====
-- skipelem of fs.c: the elements of a path. A path is its bytes before the final 0, and a name is
-- the bytes of the array of DIRSIZ bytes before a 0 in it.
use mit_xv.Prelude.{
  ℕ, zero, suc, ◌≤◌, ◌<◌, ◌≡◌, refl, sym, ap, ◌∙◌, subst, ◌⊎◌, inl, inr, Bool, false, Option, none,
  some, List, [], ◌∷◌, map, arith, ◌==◌, if◌then◌else◌, Bool-cases, length, take,
}
use mathlib.Core.Option

abbrev pub dirsiz : ℕ
dirsiz = 14

abbrev pub is_slash : ℕ → Bool
is_slash c = c == 47

-- `while(*path == '/') path++;`
unfoldable pub skip_slashes : List ℕ → List ℕ
skip_slashes [] = []
skip_slashes (c ∷ cs) = let rest = skip_slashes cs in if is_slash c then rest else c ∷ cs

-- `while(*path != '/' && *path != 0) path++;`: what is passed, and what is left.
unfoldable pub span_elem : List ℕ → List ℕ × List ℕ
span_elem [] = ([], [])
span_elem (c ∷ cs) =
    let rest = span_elem cs in if is_slash c then ([], c ∷ cs) else (c ∷ rest.0, rest.1)

-- The name, and the path behind it.
abbrev pub elem_of : List ℕ → Option (List ℕ × List ℕ)
elem_of [] = none
elem_of (c ∷ cs) =
    let (elem, rest) = span_elem (c ∷ cs) in some (take dirsiz elem, skip_slashes rest)

unfoldable pub skipelem : List ℕ → Option (List ℕ × List ℕ)
skipelem path = elem_of (skip_slashes path)

-- The loop of `namex` on the path alone, with fuel for every byte: the names that it looks up.
unfoldable pub names : ℕ → List ℕ → Option (List (List ℕ))
names zero path = none
names (suc n) path = elim (skipelem path) [
  | none ↦ some []
  | some t ↦ Option.map (λ rest. t.0 ∷ rest) (names n t.1)
]

-- What a path means: the words between its slashes that are not empty.
unfoldable pub words : List ℕ → List (List ℕ)
words [] = [] ∷ []
words (c ∷ cs) =
    if is_slash c
    then [] ∷ words cs
    else (elim (words cs) [ [] ↦ (c ∷ []) ∷ [] | w ∷ ws ↦ (c ∷ w) ∷ ws ])

unfoldable pub nonempty : List (List ℕ) → List (List ℕ)
nonempty [] = []
nonempty ([] ∷ ws) = nonempty ws
nonempty ((c ∷ w) ∷ ws) = (c ∷ w) ∷ nonempty ws

abbrev pub elements : List ℕ → List (List ℕ)
elements path = nonempty (words path)

elements-skip_slashes : (path : List ℕ) → elements (skip_slashes path) ≡ elements path
unfolding skip_slashes words nonempty
elements-skip_slashes [] = refl
elements-skip_slashes (c ∷ cs) = elim (Bool-cases (is_slash c)) [
  | inl y ↦ rw y (elements-skip_slashes cs)
  | inr n ↦
      let same : skip_slashes (c ∷ cs) ≡ c ∷ cs = rw (n, skip_slashes) refl in
      ap (λ p. nonempty (words p)) same
]

-- The words behind a word that ends with a slash or with the path.
behind : List ℕ → List (List ℕ)
behind [] = []
behind (c ∷ cs) = words cs

words-span_elem : (path : List ℕ) → words path ≡ (span_elem path).0 ∷ behind (span_elem path).1
unfolding words span_elem behind
words-span_elem [] = refl
words-span_elem (c ∷ cs) = elim (Bool-cases (is_slash c)) [
  | inl y ↦ rw y refl
  | inr n ↦ rw (n, words-span_elem cs) refl
]

-- What is left after a word starts with a slash.
elements-left : (path : List ℕ) → nonempty (behind (span_elem path).1) ≡ elements (span_elem path).1
unfolding span_elem behind words nonempty
elements-left [] = refl
elements-left (c ∷ cs) = elim (Bool-cases (is_slash c)) [
  | inl y ↦ rw y (rw y refl)
  | inr n ↦ rw n (elements-left cs)
]

-- What skip_slashes leaves starts with no slash.
first_elem : (path : List ℕ) (c : ℕ) (cs : List ℕ) → skip_slashes path ≡ c ∷ cs → is_slash c ≡ false
unfolding skip_slashes
first_elem [] c cs e = cc
first_elem (d ∷ ds) c cs e = elim (Bool-cases (is_slash d)) [
  | inl y ↦ first_elem ds c cs (rw y at e)
  | inr n ↦
      let e' : d ∷ ds ≡ c ∷ cs = rw n at e in
      let same : d ≡ c = cc in subst (λ t. is_slash t ≡ false) same n
]

length-skip_slashes : (path : List ℕ) → length (skip_slashes path) ≤ length path
unfolding skip_slashes
length-skip_slashes [] = omega arith
length-skip_slashes (c ∷ cs) = elim (Bool-cases (is_slash c)) [
  | inl y ↦ let h = length-skip_slashes cs in rw y (omega arith)
  | inr n ↦ rw n (omega arith)
]

length-span_elem : (path : List ℕ) → length (span_elem path).1 ≤ length path
unfolding span_elem
length-span_elem [] = omega arith
length-span_elem (c ∷ cs) = elim (Bool-cases (is_slash c)) [
  | inl y ↦ rw y (omega arith)
  | inr n ↦ let h = length-span_elem cs in rw n (omega arith)
]

-- A path that starts with no slash starts with an element.
front :
    (c : ℕ) (cs : List ℕ)
    → is_slash c ≡ false
    → elements (c ∷ cs) ≡ (span_elem (c ∷ cs)).0 ∷ nonempty (behind (span_elem (c ∷ cs)).1)
unfolding span_elem nonempty
front c cs n = ap nonempty (words-span_elem (c ∷ cs)) ∙ go
  where
    go :
        nonempty ((span_elem (c ∷ cs)).0 ∷ behind (span_elem (c ∷ cs)).1)
        ≡ (span_elem (c ∷ cs)).0 ∷ nonempty (behind (span_elem (c ∷ cs)).1)
    go = rw n refl

less :
    (c : ℕ) (cs : List ℕ) {k l : ℕ}
    → is_slash c ≡ false
    → suc (length cs) ≡ k
    → k ≤ l
    → length (skip_slashes (span_elem (c ∷ cs)).1) < l
unfolding span_elem
less c cs {k} {l} n e short =
    let h = length-span_elem cs in
    let h' = length-skip_slashes (span_elem cs).1 in rw n (omega arith)

-- `skipelem` found the first element of `path`, and left the others.
pub record Skipped (path name rest : List ℕ) : Type 0 where
  pub elem : List ℕ
  pub cut : name ≡ take dirsiz elem
  pub split : elements path ≡ elem ∷ elements rest
  pub shorter : length rest < length path

-- `skipelem` returns 0 just for a path without elements; otherwise the name is the first element,
-- cut to 14 bytes, and the path that it returns is shorter and has the other elements.
pub skipelem_lem :
    (path : List ℕ)
    → (skipelem path ≡ none) × (elements path ≡ [])
      ⊎ ((name : List ℕ) × (rest : List ℕ) × (skipelem path ≡ some (name, rest))
          × Skipped path name rest)
unfolding skipelem words nonempty
skipelem_lem path =
    from (skip_slashes path) refl (elements-skip_slashes path) (length-skip_slashes path)
  where
    from :
        (s : List ℕ)
        → skip_slashes path ≡ s
        → elements (skip_slashes path) ≡ elements path
        → length (skip_slashes path) ≤ length path
        → (elem_of (skip_slashes path) ≡ none) × (elements path ≡ [])
          ⊎ ((name : List ℕ) × (rest : List ℕ) × (elem_of (skip_slashes path) ≡ some (name, rest))
              × Skipped path name rest)
    from [] e same short = inl (ap elem_of e, sym same ∙ ap elements e)
    from (c ∷ cs) e same short = inr (
      take dirsiz (span_elem (c ∷ cs)).0,
      skip_slashes (span_elem (c ∷ cs)).1,
      ap elem_of e,
      record {
        elem = (span_elem (c ∷ cs)).0;
        cut = refl;
        split =
            sym same
            ∙ ap elements e
            ∙ front c cs (first_elem path c cs e)
            ∙ ap (λ t. (span_elem (c ∷ cs)).0 ∷ t)
                (elements-left (c ∷ cs) ∙ sym (elements-skip_slashes (span_elem (c ∷ cs)).1));
        shorter = less c cs (first_elem path c cs e) (ap length (sym e)) short;
      },
    )

all :
    (n : ℕ) (path : List ℕ)
    → length path < n
    → names n path ≡ some (map (take dirsiz) (elements path))
unfolding names
all zero path lt = absurd (omega arith)
all (suc n) path lt = elim (skipelem_lem path) [
  | inl (e, z) ↦ rw (e, names, z) refl
  | inr (name, rest, e, s) ↦
      let shorter = s.shorter in
      let r = all n rest (omega arith) in rw (e, names, r, s.split, s.cut) refl
]

-- The loop of `namex` over a path ends, and looks up the elements of the path in their order, each
-- cut to 14 bytes; as many rounds as the path has bytes, and one, are enough.
pub names_lem :
    (path : List ℕ) → names (suc (length path)) path ≡ some (map (take dirsiz) (elements path))
names_lem path = all (suc (length path)) path (omega arith)
