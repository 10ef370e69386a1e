-- ===== src/Vm/Range.antt =====
-- What deallocuvm of vm.c does to a range of virtual pages.
use mit_xv.Prelude.{
  ℕ, ◌≤◌, ◌<◌, ◌≡◌, refl, sym, ap, ◌∙◌, subst, ◌⊎◌, inl, inr, true, false, arith, ltb, ltb→lt,
  ltb→le, Bool-cases,
}
use mit_xv.Vm.{Vm, is_present, page_of}
use mit_xv.Vm.Walk.{pte_of, IsFree}
use mit_xv.Vm.Release.{Space}

-- The virtual pages from `lo` on and below `hi` are unmapped and their pages free.
pub record Released (first : ℕ) (s : Vm) (g lo hi : ℕ) (s' : Vm) : Type 0 where
  pub space : Space first s' g
  pub cleared : (u : ℕ) → lo ≤ u → u < hi → is_present (pte_of s' g u) ≡ false
  pub outside : (u : ℕ) → (u < lo) ⊎ (hi ≤ u) → pte_of s' g u ≡ pte_of s g u
  pub freed :
      (u : ℕ)
      → lo ≤ u
      → u < hi
      → is_present (pte_of s g u) ≡ true
      → IsFree s' (page_of (pte_of s g u))
  pub kept_free : (p : ℕ) → IsFree s p → IsFree s' p
  pub dir_kept : (i : ℕ) → s'.mem g i ≡ s.mem g i
  pub only :
      (p : ℕ)
      → IsFree s' p
      → IsFree s p
        ⊎ (u : ℕ) × (lo ≤ u)
          × (u < hi)
          × (is_present (pte_of s g u) ≡ true)
          × (page_of (pte_of s g u) ≡ p)

-- Nothing is mapped there.
pub Released-gap :
    (first : ℕ) (s : Vm) (g lo hi : ℕ)
    → Space first s g
    → ((u : ℕ) → lo ≤ u → u < hi → is_present (pte_of s g u) ≡ false)
    → Released first s g lo hi s
Released-gap first s g lo hi sp gap = record {
  space = sp;
  cleared = gap;
  outside = λ u away. refl;
  freed = λ u a b p. let h = gap u a b in cc;
  kept_free = λ p f. f;
  dir_kept = λ i. refl;
  only = λ p f. inl f;
}

pub Released-join :
    (first : ℕ) (s : Vm) (g lo mid hi : ℕ) (s' s'' : Vm)
    → lo ≤ mid
    → mid ≤ hi
    → Released first s g lo mid s'
    → Released first s' g mid hi s''
    → Released first s g lo hi s''
Released-join first s g lo mid hi s' s'' le le' a b = record {
  space = b.space;
  cleared = λ u x y. elim (Bool-cases (ltb u mid)) [
    | inl l ↦ let lt = ltb→lt u mid l in ap is_present (b.outside u (inl lt)) ∙ a.cleared u x lt
    | inr l ↦ b.cleared u (ltb→le u mid l) y
  ];
  outside = λ u away. b.outside u (far u away) ∙ a.outside u (near u away);
  freed = λ u x y p. elim (Bool-cases (ltb u mid)) [
    | inl l ↦ b.kept_free (page_of (pte_of s g u)) (a.freed u x (ltb→lt u mid l) p)
    | inr l ↦
        let ge = ltb→le u mid l in
        let e = a.outside u (inr ge) in
        subst (λ t. IsFree s'' (page_of t)) e (b.freed u ge y (ap is_present e ∙ p))
  ];
  kept_free = λ p f. b.kept_free p (a.kept_free p f);
  dir_kept = λ i. b.dir_kept i ∙ a.dir_kept i;
  only = λ p f. elim (b.only p f) [
    | inl f' ↦ elim (a.only p f') [
      | inl f'' ↦ inl f''
      | inr (u, x, y, h, e) ↦ inr (u, x, omega arith, h, e)
    ]
    | inr (u, x, y, h, e) ↦
        let same = a.outside u (inr x) in
        inr (u, omega arith, y, ap is_present (sym same) ∙ h, ap page_of (sym same) ∙ e)
  ];
}
  where
    far : (u : ℕ) → (u < lo) ⊎ (hi ≤ u) → (u < mid) ⊎ (hi ≤ u)
    far u (inl l) = inl (omega arith)
    far u (inr l) = inr l

    near : (u : ℕ) → (u < lo) ⊎ (hi ≤ u) → (u < lo) ⊎ (mid ≤ u)
    near u (inl l) = inl l
    near u (inr l) = inr (omega arith)
