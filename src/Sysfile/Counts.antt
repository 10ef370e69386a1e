-- ===== src/Sysfile/Counts.antt =====
-- What dup and close of sysfile.c do to a table of descriptors and a table of open files.
use mit_xv.Prelude.{
  ℕ, zero, suc, ◌+◌, ◌-◌, ◌<◌, ◌≡◌, refl, ap, ◌∙◌, ◌≢◌, ◌⊎◌, inl, inr, false, Option, none, some,
  List, [], ◌∷◌, arith, ltb, ◌==◌, if◌then◌else◌, ltb→le, ==_refl, Bool-cases, length, get_elem?,
  set, ok,
}
use mit_xv.File.{File, Closes, filedup, fileclose, closes_nothing, closes_kind, fd_none}
use mit_xv.Sysfile.{Fds, nofile, opened, argfd, fdalloc_from, dup_at, close_at}

-- The number of descriptors of file `f`.
abbrev pub refers : ℕ → Option ℕ → ℕ
refers f none = 0
refers f (some g) = if f == g then 1 else 0

abbrev pub uses : ℕ → List (Option ℕ) → ℕ
uses f [] = 0
uses f (o ∷ fds) = refers f o + uses f fds

-- The reference count of file `f`, 0 out of the table.
abbrev pub ref_of : List File → ℕ → ℕ
ref_of [] f = 0
ref_of (x ∷ fs) zero = x.ref
ref_of (x ∷ fs) (suc f) = ref_of fs f

-- Each file is referred to by the descriptors of the process and `others` times from elsewhere.
pub record Counted (others : ℕ → ℕ) (s : Fds) : Type 0 where
  pub counts : (f : ℕ) → ref_of s.files f ≡ uses f s.ofile + others f
  pub size : length s.ofile ≡ nofile

-- A descriptor that changes.
pub uses-set :
    (g i : ℕ) (o o' : Option ℕ) (fds : List (Option ℕ))
    → get_elem? fds i ≡ some o
    → uses g (set fds i o') + refers g o ≡ uses g fds + refers g o'
uses-set g i o o' [] e = cc
uses-set g zero o o' (x ∷ fds) e =
    let same : x ≡ o = cc in let r : refers g x ≡ refers g o = ap (refers g) same in omega arith
uses-set g (suc i) o o' (x ∷ fds) e = let h = uses-set g i o o' fds e in omega arith

-- `fdalloc` found descriptor `fd` free, and the first, and gave it to `f`.
pub record Given (f : ℕ) (fds : List (Option ℕ)) (fd : ℕ) (fds' : List (Option ℕ)) : Type 0 where
  pub was_free : get_elem? fds fd ≡ some none
  pub first : (k : ℕ) → k < fd → get_elem? fds k ≢ some none
  pub after : fds' ≡ set fds fd (some f)

some_ne : (x y : Option ℕ) → some x ≡ some y → x ≡ y
some_ne x y e = cc

Given-next :
    (f g : ℕ) (fds : List (Option ℕ)) (fd : ℕ) (fds' : List (Option ℕ))
    → Given f fds fd fds'
    → Given f (some g ∷ fds) (suc fd) (some g ∷ fds')
Given-next f g fds fd fds' h = record {
  was_free = h.was_free;
  first = λ k lt. before k lt;
  after = ap (λ t. some g ∷ t) h.after;
}
  where
    before : (k : ℕ) → k < suc fd → get_elem? (some g ∷ fds) k ≢ some none
    before zero lt e = let x = some_ne (some g) none e in cc
    before (suc k) lt e = h.first k (omega arith) e

pub fdalloc_from-Given :
    (n f : ℕ) (fds : List (Option ℕ))
    → ((k : ℕ) × (fds' : List (Option ℕ)) × (fdalloc_from n f fds ≡ some (n + k, fds'))
        × Given f fds k fds')
      ⊎ (fdalloc_from n f fds ≡ none) × ((k : ℕ) → get_elem? fds k ≢ some none)
unfolding fdalloc_from
fdalloc_from-Given n f [] = inr (refl, λ k e. cc)
fdalloc_from-Given n f (none ∷ fds) =
    let z : n ≡ n + 0 = omega arith in
    inl (
      0,
      some f ∷ fds,
      ap (λ t. some (t, some f ∷ fds)) z,
      record { was_free = refl; first = λ k lt. absurd (omega arith); after = refl },
    )
fdalloc_from-Given n f (some g ∷ fds) = elim (fdalloc_from-Given (n + 1) f fds) [
  | inl (k, fds', e, h) ↦
      let z : n + 1 + k ≡ n + suc k = omega arith in
      rw (e, z) (inl (suc k, some g ∷ fds', refl, Given-next f g fds k fds' h))
  | inr (e, full) ↦ rw e (inr (refl, λ k. later k full))
]
  where
    later :
        (k : ℕ) → ((j : ℕ) → get_elem? fds j ≢ some none) → get_elem? (some g ∷ fds) k ≢ some none
    later zero full e = let x = some_ne (some g) none e in cc
    later (suc k) full e = full k e

-- One more reference to a file of the table.
pub dup_at-ref :
    (f : ℕ) (fs : List File)
    → 0 < ref_of fs f
    → (fs' : List File) × (dup_at f fs ≡ ok fs')
      × ((g : ℕ) → ref_of fs' g ≡ ref_of fs g + (if g == f then 1 else 0))
unfolding dup_at filedup
dup_at-ref f [] pos = absurd (omega arith)
dup_at-ref zero (x ∷ fs) pos =
    let n : (x.ref == 0) ≡ false = ground arith in
    rw n (record x { ref = x.ref + 1 } ∷ fs, refl, λ g. refs g)
  where
    refs :
        (g : ℕ)
        → ref_of (record x { ref = x.ref + 1 } ∷ fs) g
          ≡ ref_of (x ∷ fs) g + (if g == 0 then 1 else 0)
    refs zero = refl
    refs (suc g) = let n : (suc g == 0) ≡ false = ground arith in rw n (omega arith)
dup_at-ref (suc f) (x ∷ fs) pos =
    let (fs', e, h) = dup_at-ref f fs pos in rw e (x ∷ fs', refl, λ g. refs g fs' h)
  where
    refs :
        (g : ℕ) (fs' : List File)
        → ((g : ℕ) → ref_of fs' g ≡ ref_of fs g + (if g == f then 1 else 0))
        → ref_of (x ∷ fs') g ≡ ref_of (x ∷ fs) g + (if g == suc f then 1 else 0)
    refs zero fs' h = let n : (0 == suc f) ≡ false = ground arith in rw n (omega arith)
    refs (suc g) fs' h = let n : (suc g == suc f) ≡ (g == f) = ground arith in rw n (h g)

-- One less; the file is closed with the last.
pub close_at-ref :
    (f : ℕ) (fs : List File)
    → 0 < ref_of fs f
    → (c : Closes) × (fs' : List File) × (close_at f fs ≡ ok (c, fs'))
      × ((g : ℕ) → ref_of fs' g + (if g == f then 1 else 0) ≡ ref_of fs g)
      × (1 < ref_of fs f → c ≡ closes_nothing)
unfolding close_at fileclose
close_at-ref f [] pos = absurd (omega arith)
close_at-ref zero (x ∷ fs) pos =
    let n : (x.ref == 0) ≡ false = ground arith in
    elim (Bool-cases (ltb 0 (x.ref - 1))) [
      | inl y ↦
          rw (n, y)
            (closes_nothing, record x { ref = x.ref - 1 } ∷ fs, refl, λ g. refs g, λ h. refl)
      | inr o ↦
          let z = ltb→le 0 (x.ref - 1) o in
          rw (n, o)
            (
              closes_kind x.kind x,
              record x { ref = 0; kind = fd_none } ∷ fs,
              refl,
              λ g. last g (omega arith),
              λ h. absurd (omega arith),
            )
    ]
  where
    refs :
        (g : ℕ)
        → ref_of (record x { ref = x.ref - 1 } ∷ fs) g + (if g == 0 then 1 else 0)
          ≡ ref_of (x ∷ fs) g
    refs zero = omega arith
    refs (suc g) = let n : (suc g == 0) ≡ false = ground arith in rw n (omega arith)

    last :
        (g : ℕ)
        → x.ref ≡ 1
        → ref_of (record x { ref = 0; kind = fd_none } ∷ fs) g + (if g == 0 then 1 else 0)
          ≡ ref_of (x ∷ fs) g
    last zero e = omega arith
    last (suc g) e = let n : (suc g == 0) ≡ false = ground arith in rw n (omega arith)
close_at-ref (suc f) (x ∷ fs) pos =
    let (c, fs', e, h, q) = close_at-ref f fs pos in rw e (c, x ∷ fs', refl, λ g. refs g fs' h, q)
  where
    refs :
        (g : ℕ) (fs' : List File)
        → ((g : ℕ) → ref_of fs' g + (if g == f then 1 else 0) ≡ ref_of fs g)
        → ref_of (x ∷ fs') g + (if g == suc f then 1 else 0) ≡ ref_of (x ∷ fs) g
    refs zero fs' h = let n : (0 == suc f) ≡ false = ground arith in rw n (omega arith)
    refs (suc g) fs' h = let n : (suc g == suc f) ≡ (g == f) = ground arith in rw n (h g)

pub uses-pos : (f i : ℕ) (fds : List (Option ℕ)) → get_elem? fds i ≡ some (some f) → 0 < uses f fds
uses-pos f i [] e = cc
uses-pos f zero (o ∷ fds) e =
    let same : o ≡ some f = some_ne o (some f) e in
    let r : refers f o ≡ 1 = ap (refers f) same ∙ own in omega arith
  where
    own : refers f (some f) ≡ 1
    own = rw (==_refl f) refl
uses-pos f (suc i) (o ∷ fds) e = let h = uses-pos f i fds e in omega arith

opened-some : (o : Option (Option ℕ)) (f : ℕ) → opened o ≡ some f → o ≡ some (some f)
opened-some none f e = cc
opened-some (some none) f e = cc
opened-some (some (some g)) f e = let h : g ≡ f = cc in ap (λ t. some (some t)) h

pub argfd-opens : (fd f : ℕ) (s : Fds) → argfd fd s ≡ some f → get_elem? s.ofile fd ≡ some (some f)
unfolding argfd
argfd-opens fd f s e = elim (Bool-cases (ltb fd nofile)) [
  | inl y ↦ opened-some (get_elem? s.ofile fd) f (rw y at e)
  | inr n ↦ cc (rw n at e)
]
