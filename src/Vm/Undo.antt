-- ===== src/Vm/Undo.antt =====
-- What allocuvm of vm.c takes back when it is out of memory.
use mit_xv.Prelude.{
  ℕ, zero, suc, ◌≤◌, ◌<◌, ◌≡◌, refl, sym, ap, ◌∙◌, subst, ◌≢◌, ◌⊎◌, inl, inr, true, false, some,
  List, ◌∷◌, arith, ltb, ltb→lt, ltb→le, Bool-cases, get_elem?, ok,
}
use mit_xv.Vm.{Vm, kern_pages, is_present, is_page, page_of, kfree}
use mit_xv.Vm.Walk.{pte_of, IsFree}
use mit_xv.Vm.Release.{Space, with_free, IsFree-cases, pte_of-free, Tables-free, dir_same}
use mit_xv.Vm.Range.{Released}
use mit_xv.Vm.Grow.{zeroed, p_taken, p_dir, p_table, p_new, dir_zeroed, pte_of-zeroed}

-- The virtual pages from `lo` on and below `hi` are unmapped and their pages free.
pub record Restored (first : ℕ) (s : Vm) (g lo hi : ℕ) (s' : Vm) : Type 0 where
  pub space : Space first s' g
  pub cleared : (u : ℕ) → lo ≤ u → u < hi → is_present (pte_of s' g u) ≡ false
  pub outside : (u : ℕ) → (u < lo) ⊎ (hi ≤ u) → pte_of s' g u ≡ pte_of s g u
  pub freed :
      (u : ℕ)
      → lo ≤ u
      → u < hi
      → is_present (pte_of s g u) ≡ true
      → IsFree s' (page_of (pte_of s g u))
  pub kept_free : (r : ℕ) → IsFree s r → IsFree s' r
  pub dir_kept : (i : ℕ) → s'.mem g i ≡ s.mem g i

pub Released-Restored :
    (first : ℕ) (s : Vm) (g lo hi : ℕ) (s' : Vm)
    → Released first s g lo hi s'
    → Restored first s g lo hi s'
Released-Restored first s g lo hi s' r = record {
  space = r.space;
  cleared = r.cleared;
  outside = r.outside;
  freed = r.freed;
  kept_free = r.kept_free;
  dir_kept = r.dir_kept;
}

-- A page that the address space does not have joins the free pages.
Space-free :
    (first : ℕ) (t : Vm) (g p : ℕ)
    → Space first t g
    → p ≢ g
    → ((i : ℕ) → is_present (t.mem g i) ≡ true → page_of (t.mem g i) ≢ p)
    → ((u : ℕ) → u < kern_pages → is_present (pte_of t g u) ≡ true → page_of (pte_of t g u) ≢ p)
    → ¬ IsFree t p
    → Space first (with_free p t) g
Space-free first t g p sp nd nt nm nf = record {
  tables = Tables-free t g p sp.tables nd nt nf;
  in_memory = λ u lt h.
      subst (λ x. is_page first (page_of x) ≡ true) (sym (same u)) (sp.in_memory u lt (back u h));
  no_dir = λ u lt h. subst (λ x. page_of x ≢ g) (sym (same u)) (sp.no_dir u lt (back u h));
  no_table = λ u i lt h q.
      let d = dir_same t g p sp.tables nd nt nf i in
      subst (λ x. page_of ((with_free p t).mem g i) ≢ page_of x) (sym (same u))
        (subst (λ x. page_of x ≢ page_of (pte_of t g u)) (sym d)
          (sp.no_table u i lt (back u h) (ap is_present (sym d) ∙ q)));
  not_free = λ u lt h.
      subst (λ x. ¬ IsFree (with_free p t) (page_of x)) (sym (same u))
        (λ fr. elim (IsFree-cases p t (page_of (pte_of t g u)) fr) [
          | inl e ↦ nm u lt (back u h) (sym e)
          | inr o ↦ sp.not_free u lt (back u h) o
        ]);
  once = λ u w lt lt' h h' e.
      sp.once u w lt lt' (back u h) (back w h')
        (sym (ap page_of (same u)) ∙ e ∙ ap page_of (same w));
}
  where
    same : (u : ℕ) → pte_of (with_free p t) g u ≡ pte_of t g u
    same = pte_of-free t g p sp.tables nd nt nf

    back :
        (u : ℕ) → is_present (pte_of (with_free p t) g u) ≡ true → is_present (pte_of t g u) ≡ true
    back u h = ap is_present (sym (same u)) ∙ h

module _ (first : ℕ) (s : Vm) (g p : ℕ) (ps : List ℕ) (f : s.free ≡ p ∷ ps) (sp : Space first s g)
    (lo hi : ℕ) (user : hi ≤ kern_pages) (t : Vm)
    (rel : Released first (zeroed first s g p ps f sp) g lo hi t) where
  abbrev z : Vm
  z = zeroed first s g p ps f sp

  same_pte : (u : ℕ) → pte_of z g u ≡ pte_of s g u
  same_pte = pte_of-zeroed first s g p ps f sp

  dir_then : (i : ℕ) → t.mem g i ≡ s.mem g i
  dir_then i = rel.dir_kept i ∙ dir_zeroed first s g p ps f sp i

  nt : (i : ℕ) → is_present (t.mem g i) ≡ true → page_of (t.mem g i) ≢ p
  nt i h =
      subst (λ x. page_of x ≢ p) (sym (dir_then i))
        (p_table first s g p ps f sp i (ap is_present (sym (dir_then i)) ∙ h))

  not_mapped :
      (u : ℕ) → u < kern_pages → is_present (pte_of z g u) ≡ true → page_of (pte_of z g u) ≢ p
  not_mapped u lt h =
      subst (λ x. page_of x ≢ p) (sym (same_pte u))
        (p_new first s g p ps f sp u lt (ap is_present (sym (same_pte u)) ∙ h))

  away : (u : ℕ) → u < kern_pages → is_present (pte_of t g u) ≡ true → page_of (pte_of t g u) ≢ p
  away u lt h = elim (Bool-cases (ltb u lo)) [
    | inl y ↦ stays (rel.outside u (inl (ltb→lt u lo y)))
    | inr n ↦ elim (Bool-cases (ltb u hi)) [
      | inr o ↦ stays (rel.outside u (inr (ltb→le u hi o)))
      | inl y ↦ let c = rel.cleared u (ltb→le u lo n) (ltb→lt u hi y) in cc
    ]
  ]
    where
      stays : pte_of t g u ≡ pte_of z g u → page_of (pte_of t g u) ≢ p
      stays e = subst (λ x. page_of x ≢ p) (sym e) (not_mapped u lt (ap is_present (sym e) ∙ h))

  nf : ¬ IsFree t p
  nf h = elim (rel.only p h) [
    | inl o ↦ p_taken first s g p ps f sp o
    | inr (u, l, l', there, e) ↦ not_mapped u (omega arith) there e
  ]

  nd : p ≢ g
  nd = p_dir first s g p ps f sp

  shift : (r : ℕ) → IsFree t r → IsFree (with_free p t) r
  shift r (k, e) = (suc k, e)

  was_free : (r k : ℕ) → get_elem? s.free k ≡ some r → IsFree (with_free p t) r
  was_free r zero e = (0, ap (λ x. get_elem? x 0) (sym f) ∙ e)
  was_free r (suc k) e = shift r (rel.kept_free r (k, ap (λ x. get_elem? x (suc k)) (sym f) ∙ e))

  -- The page that could not be mapped is freed too.
  pub page-Restored : Restored first s g lo hi (with_free p t)
  page-Restored =
      let same = pte_of-free t g p rel.space.tables nd nt nf in
      record {
        space = Space-free first t g p rel.space nd nt away nf;
        cleared = λ u l l'. ap is_present (same u) ∙ rel.cleared u l l';
        outside = λ u far. same u ∙ rel.outside u far ∙ same_pte u;
        freed = λ u l l' there. shift (page_of (pte_of s g u)) (
            subst (λ x. IsFree t (page_of x)) (same_pte u)
              (rel.freed u l l' (ap is_present (same_pte u) ∙ there)));
        kept_free = λ r (k, e). was_free r k e;
        dir_kept = λ i. dir_same t g p rel.space.tables nd nt nf i ∙ dir_then i;
      }

  pub gives_page : is_page first p ≡ true → kfree first p t ≡ ok (with_free p t)
  unfolding kfree
  gives_page page = rw page refl
