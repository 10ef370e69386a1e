-- ===== src/Vm/Release.antt =====
-- A page of a process that is freed, seen from its page tables.
use mit_xv.Prelude.{
  ℕ, zero, suc, ◌/◌, ◌%◌, ◌<◌, ◌≡◌, refl, sym, ap, ◌∙◌, subst, ◌≢◌, ◌⊎◌, inl, inr, true, false,
  none, some, ◌∷◌, if◌then◌else◌, ne→==, Bool-cases, get_elem?,
}
use mit_xv.Vm.{Vm, kern_pages, fill, is_present, is_page, page_of, walkpgdir}
use mit_xv.Vm.Walk.{pte_of, IsFree, Tables}

-- The user pages of an address space are pages of memory, none of them free, a page table or
-- the directory, and no page is mapped twice.
pub record Space (first : ℕ) (s : Vm) (g : ℕ) : Type 0 where
  pub tables : Tables s g
  pub in_memory :
      (u : ℕ)
      → u < kern_pages
      → is_present (pte_of s g u) ≡ true
      → is_page first (page_of (pte_of s g u)) ≡ true
  pub no_dir :
      (u : ℕ) → u < kern_pages → is_present (pte_of s g u) ≡ true → page_of (pte_of s g u) ≢ g
  pub no_table :
      (u i : ℕ)
      → u < kern_pages
      → is_present (pte_of s g u) ≡ true
      → is_present (s.mem g i) ≡ true
      → page_of (s.mem g i) ≢ page_of (pte_of s g u)
  pub not_free :
      (u : ℕ)
      → u < kern_pages
      → is_present (pte_of s g u) ≡ true
      → ¬ IsFree s (page_of (pte_of s g u))
  pub once :
      (u w : ℕ)
      → u < kern_pages
      → w < kern_pages
      → is_present (pte_of s g u) ≡ true
      → is_present (pte_of s g w) ≡ true
      → page_of (pte_of s g u) ≡ page_of (pte_of s g w)
      → u ≡ w

-- Page `f` joins the free pages.
abbrev pub with_free : ℕ → Vm → Vm
with_free f s = fill f 16843009 (record s { free = f ∷ s.free })

pub IsFree-cases : (f : ℕ) (s : Vm) (p : ℕ) → IsFree (with_free f s) p → (f ≡ p) ⊎ IsFree s p
IsFree-cases f s p (zero, e) = inl (let h : some f ≡ some p = e in cc)
IsFree-cases f s p (suc k, e) = inr (k, e)

module _ (s : Vm) (g f : ℕ) (t : Tables s g) (nd : f ≢ g)
    (nt : (i : ℕ) → is_present (s.mem g i) ≡ true → page_of (s.mem g i) ≢ f)
    (nf : ¬ IsFree s f) where
  pub dir_same : (i : ℕ) → (with_free f s).mem g i ≡ s.mem g i
  dir_same i = rw (ne→== f g nd) refl

  pub pte_of-free : (u : ℕ) → pte_of (with_free f s) g u ≡ pte_of s g u
  unfolding pte_of
  pte_of-free u = rw (dir_same (u / 1024)) (elim (Bool-cases (is_present (s.mem g (u / 1024)))) [
    | inr n ↦ rw n refl
    | inl y ↦ rw (y, ne→== f (page_of (s.mem g (u / 1024))) (λ e. nt (u / 1024) y (sym e))) refl
  ])

  pub Tables-free : Tables (with_free f s) g
  Tables-free = record {
    dir_free = λ p h. elim (IsFree-cases f s p h) [
      | inl e ↦ subst (λ x. x ≢ g) e nd
      | inr o ↦ t.dir_free p o
    ];
    no_dup = λ j k p e e'. once_free j k p e e';
    table_dir = λ i h. subst (λ x. page_of x ≢ g) (sym (dir_same i)) (t.table_dir i (back i h));
    table_free = λ i p h o. elim (IsFree-cases f s p o) [
      | inl e ↦
          subst (λ x. page_of x ≢ p) (sym (dir_same i))
            (subst (λ x. page_of (s.mem g i) ≢ x) e (nt i (back i h)))
      | inr o' ↦ subst (λ x. page_of x ≢ p) (sym (dir_same i)) (t.table_free i p (back i h) o')
    ];
    apart = λ i j h h' e.
        t.apart i j (back i h) (back j h')
          (sym (ap page_of (dir_same i)) ∙ e ∙ ap page_of (dir_same j));
  }
    where
      back : (i : ℕ) → is_present ((with_free f s).mem g i) ≡ true → is_present (s.mem g i) ≡ true
      back i h = ap is_present (sym (dir_same i)) ∙ h

      once_free :
          (j k p : ℕ)
          → get_elem? (f ∷ s.free) j ≡ some p
          → get_elem? (f ∷ s.free) k ≡ some p
          → j ≡ k
      once_free zero zero p e e' = refl
      once_free zero (suc k) p e e' = let h : f ≡ p = cc in absurd (nf (k, e' ∙ ap some (sym h)))
      once_free (suc j) zero p e e' = let h : f ≡ p = cc in absurd (nf (j, e ∙ ap some (sym h)))
      once_free (suc j) (suc k) p e e' = ap suc (t.no_dup j k p e e')

-- `walkpgdir` that may not allocate.
pub walkpgdir-no_alloc :
    (g v : ℕ) (s : Vm)
    → walkpgdir g v false s ≡ (
      if is_present (s.mem g (v / 1024))
          then some (page_of (s.mem g (v / 1024)), v % 1024)
          else none,
      s,
    )
unfolding walkpgdir
walkpgdir-no_alloc g v s = elim (Bool-cases (is_present (s.mem g (v / 1024)))) [
  | inl y ↦ rw y refl
  | inr n ↦ rw n refl
]
