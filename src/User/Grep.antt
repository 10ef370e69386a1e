-- ===== src/User/Grep.antt =====
-- match, matchhere and matchstar of grep.c, against what a pattern means.
use mit_xv.Prelude.{
  ℕ, ◌≡◌, refl, sym, ap, subst, ◌≢◌, ◌↔◌, ◌⊎◌, inl, inr, Bool, true, false, ◌||◌, List, [], ◌∷◌,
  ◌++◌, arith, ◌==◌, if◌then◌else◌, ==→eq, ==→ne, ne→==, Bool-cases,
}

-- `*text!='\0' && (re[0]=='.' || re[0]==*text)` and then the rest of the pattern
unfoldable pub match_one : ℕ → (List ℕ → Bool) → List ℕ → Bool
match_one c rest [] = false
match_one c rest (a ∷ text) = let r = rest text in if (c == 46) || (c == a) then r else false

-- `matchstar`, with `matchhere` of the pattern behind the `*`
unfoldable pub matchstar : ℕ → (List ℕ → Bool) → List ℕ → Bool
matchstar c here [] = here []
matchstar c here (a ∷ text) =
    let rest = matchstar c here text in
    if here (a ∷ text) then true else (if (a == c) || (c == 46) then rest else false)

abbrev pub is_empty : List ℕ → Bool
is_empty [] = true
is_empty (a ∷ text) = false

unfoldable pub matchhere : List ℕ → List ℕ → Bool
matchhere [] text = true
matchhere (c ∷ []) text = if c == 36 then is_empty text else match_one c (matchhere []) text
matchhere (c ∷ d ∷ re) text =
    let star = matchstar c (matchhere re) text in
    let one = match_one c (matchhere (d ∷ re)) text in if d == 42 then star else one

-- The loop of `match`
unfoldable pub match_from : List ℕ → List ℕ → Bool
match_from re [] = matchhere re []
match_from re (a ∷ text) =
    let rest = match_from re text in if matchhere re (a ∷ text) then true else rest

-- The test of `match` for `^`
unfoldable pub match : List ℕ → List ℕ → Bool
match [] text = match_from [] text
match (c ∷ re) text =
    let here = matchhere re text in
    let there = match_from (c ∷ re) text in if c == 94 then here else there

-- A character of a pattern stands for one of the text.
abbrev pub Fits : ℕ → ℕ → Type 0
Fits c a = (c ≡ 46) ⊎ (c ≡ a)

-- A character that stands for itself: no `*` follows, and it is no `$` at the end.
abbrev pub IsPlain : ℕ → List ℕ → Type 0
IsPlain c [] = c ≢ 36
IsPlain c (d ∷ re) = d ≢ 42

-- The pattern matches at the start of the text.
pub data Here : List ℕ → List ℕ → Type 0 where
  done : (text : List ℕ) → Here [] text
  at_end : Here (36 ∷ []) []
  one :
      (c a : ℕ) (re text : List ℕ)
      → IsPlain c re
      → Fits c a
      → Here re text
      → Here (c ∷ re) (a ∷ text)
  star_none : (c : ℕ) (re text : List ℕ) → Here re text → Here (c ∷ 42 ∷ re) text
  star_one :
      (c a : ℕ) (re text : List ℕ)
      → Fits c a
      → Here (c ∷ 42 ∷ re) text
      → Here (c ∷ 42 ∷ re) (a ∷ text)

-- The pattern matches somewhere in the text, or at its start after a `^`.
abbrev pub Matches : List ℕ → List ℕ → Type 0
Matches re text =
    ((r : List ℕ) × (re ≡ 94 ∷ r) × Here r text)
    ⊎ ((r : List ℕ) → re ≢ 94 ∷ r)
      × ((before after : List ℕ) × (text ≡ before ++ after) × Here re after)

Fits-of : (c a : ℕ) → ((c == 46) || (c == a)) ≡ true → Fits c a
Fits-of c a h = elim (Bool-cases (c == 46)) [
  | inl y ↦ inl (==→eq c 46 y)
  | inr n ↦ inr (==→eq c a (rw n at h))
]

of-Fits : (c a : ℕ) → Fits c a → ((c == 46) || (c == a)) ≡ true
of-Fits c a (inl e) = let y : (c == 46) ≡ true = ground arith in rw y refl
of-Fits c a (inr e) = ground arith

match_one_sound :
    (c : ℕ) (f : List ℕ → Bool) (re text : List ℕ)
    → IsPlain c re
    → ((t : List ℕ) → f t ≡ true → Here re t)
    → match_one c f text ≡ true
    → Here (c ∷ re) text
unfolding match_one
match_one_sound c f re [] plain here e = cc
match_one_sound c f re (a ∷ text) plain here e = elim (Bool-cases ((c == 46) || (c == a))) [
  | inl y ↦ one c a re text plain (Fits-of c a y) (here text (rw y at e))
  | inr n ↦ cc (rw n at e)
]

matchstar_sound :
    (c : ℕ) (f : List ℕ → Bool) (re text : List ℕ)
    → ((t : List ℕ) → f t ≡ true → Here re t)
    → matchstar c f text ≡ true
    → Here (c ∷ 42 ∷ re) text
unfolding matchstar
matchstar_sound c f re [] here e = star_none c re [] (here [] e)
matchstar_sound c f re (a ∷ text) here e = elim (Bool-cases (f (a ∷ text))) [
  | inl y ↦ star_none c re (a ∷ text) (here (a ∷ text) y)
  | inr n ↦ elim (Bool-cases ((a == c) || (c == 46))) [
    | inl y ↦ star_one c a re text (swapped y) (matchstar_sound c f re text here (rw (n, y) at e))
    | inr n' ↦ cc (rw (n, n') at e)
  ]
]
  where
    swapped : ((a == c) || (c == 46)) ≡ true → Fits c a
    swapped h = elim (Bool-cases (a == c)) [
      | inl y ↦ inr (sym (==→eq a c y))
      | inr n ↦ inl (==→eq c 46 (rw n at h))
    ]

matchhere_sound : (re text : List ℕ) → matchhere re text ≡ true → Here re text
unfolding matchhere
matchhere_sound [] text e = done text
matchhere_sound (c ∷ []) text e = elim (Bool-cases (c == 36)) [
  | inl y ↦ subst (λ x. Here (x ∷ []) text) (sym (==→eq c 36 y)) (at_start text (rw y at e))
  | inr n ↦ match_one_sound c (matchhere []) [] text (==→ne c 36 n) (λ t h. done t) (rw n at e)
]
  where
    at_start : (text : List ℕ) → is_empty text ≡ true → Here (36 ∷ []) text
    at_start [] h = at_end
    at_start (a ∷ text) h = cc
matchhere_sound (c ∷ d ∷ re) text e = elim (Bool-cases (d == 42)) [
  | inl y ↦
      subst (λ x. Here (c ∷ x ∷ re) text) (sym (==→eq d 42 y))
        (matchstar_sound c (matchhere re) re text (matchhere_sound re) (rw y at e))
  | inr n ↦
      match_one_sound c (matchhere (d ∷ re)) (d ∷ re) text (==→ne d 42 n) (matchhere_sound (d ∷ re))
        (rw n at e)
]

match_one_complete :
    (c a : ℕ) (f : List ℕ → Bool) (text : List ℕ)
    → Fits c a
    → f text ≡ true
    → match_one c f (a ∷ text) ≡ true
unfolding match_one
match_one_complete c a f text fit h = rw (of-Fits c a fit, h) refl

matchstar-none :
    (c : ℕ) (f : List ℕ → Bool) (text : List ℕ) → f text ≡ true → matchstar c f text ≡ true
unfolding matchstar
matchstar-none c f [] h = h
matchstar-none c f (a ∷ text) h = rw h refl

matchstar-one :
    (c a : ℕ) (f : List ℕ → Bool) (text : List ℕ)
    → Fits c a
    → matchstar c f text ≡ true
    → matchstar c f (a ∷ text) ≡ true
unfolding matchstar
matchstar-one c a f text fit h = elim (Bool-cases (f (a ∷ text))) [
  | inl y ↦ rw y refl
  | inr n ↦ rw (n, swapped fit, h) refl
]
  where
    swapped : Fits c a → ((a == c) || (c == 46)) ≡ true
    swapped (inr e) = let y : (a == c) ≡ true = ground arith in rw y refl
    swapped (inl e) = ground arith

matchhere_complete : {re text : List ℕ} → Here re text → matchhere re text ≡ true
unfolding matchhere
matchhere_complete (done text) = refl
matchhere_complete at_end = refl
matchhere_complete (one c a [] text plain fit h) =
    let n : (c == 36) ≡ false = ne→== c 36 plain in
    rw n (match_one_complete c a (matchhere []) text fit (matchhere_complete h))
matchhere_complete (one c a (d ∷ re) text plain fit h) =
    let n : (d == 42) ≡ false = ne→== d 42 plain in
    rw n (match_one_complete c a (matchhere (d ∷ re)) text fit (matchhere_complete h))
matchhere_complete (star_none c re text h) =
    matchstar-none c (matchhere re) text (matchhere_complete h)
matchhere_complete (star_one c a re text fit h) =
    matchstar-one c a (matchhere re) text fit (matchhere_complete h)

match_from_sound :
    (re text : List ℕ)
    → match_from re text ≡ true
    → (before after : List ℕ) × (text ≡ before ++ after) × Here re after
unfolding match_from
match_from_sound re [] e = ([], [], refl, matchhere_sound re [] e)
match_from_sound re (a ∷ text) e = elim (Bool-cases (matchhere re (a ∷ text))) [
  | inl y ↦ ([], a ∷ text, refl, matchhere_sound re (a ∷ text) y)
  | inr n ↦
      let (before, after, s, h) = match_from_sound re text (rw n at e) in
      (a ∷ before, after, ap (λ t. a ∷ t) s, h)
]

match_from_complete :
    (re before after : List ℕ) → Here re after → match_from re (before ++ after) ≡ true
unfolding match_from
match_from_complete re [] [] h = matchhere_complete h
match_from_complete re [] (a ∷ after) h = rw (matchhere_complete h) refl
match_from_complete re (b ∷ before) after h =
    elim (Bool-cases (matchhere re (b ∷ (before ++ after)))) [
      | inl y ↦ rw y refl
      | inr n ↦ rw (n, match_from_complete re before after h) refl
    ]

-- `match` returns 1 exactly when the pattern matches somewhere in the text, or at its start if the
-- pattern begins with `^`.
pub match-Matches : (re text : List ℕ) → (match re text ≡ true) ↔ Matches re text
unfolding match
match-Matches re text = (to re, from re)
  where
    to : (re : List ℕ) → match re text ≡ true → Matches re text
    to [] e = inr (λ r h. cc, match_from_sound [] text e)
    to (c ∷ re) e = elim (Bool-cases (c == 94)) [
      | inl y ↦ inl (re, ap (λ t. t ∷ re) (==→eq c 94 y), matchhere_sound re text (rw y at e))
      | inr n ↦ inr (
        λ r h. ==→ne c 94 n (let e' : c ≡ 94 = cc in e'),
        match_from_sound (c ∷ re) text (rw n at e),
      )
    ]

    found :
        (re : List ℕ)
        → ((before after : List ℕ) × (text ≡ before ++ after) × Here re after)
        → match_from re text ≡ true
    found re (before, after, s, h) =
        subst (λ t. match_from re t ≡ true) (sym s) (match_from_complete re before after h)

    from : (re : List ℕ) → Matches re text → match re text ≡ true
    from [] (inl (r, h, m)) = cc
    from [] (inr (absent, m)) = found [] m
    from (c ∷ re) (inl (r, h, m)) =
        let e : c ≡ 94 = cc in
        let e' : re ≡ r = cc in
        let y : (c == 94) ≡ true = ground arith in
        rw y (matchhere_complete (subst (λ t. Here t text) (sym e') m))
    from (c ∷ re) (inr (absent, m)) =
        let n : (c == 94) ≡ false = ne→== c 94 (λ e. absent re (ap (λ t. t ∷ re) e)) in
        rw n (found (c ∷ re) m)
