-- ===== src/Vm/Grow.antt =====
-- A page that allocuvm of vm.c takes and maps.
use mit_xv.Prelude.{
  ℕ, suc, ◌/◌, ◌<◌, ◌≡◌, refl, sym, ap, ◌∙◌, subst, ◌≢◌, inl, inr, true, some, List, ◌∷◌, arith,
  ne→==, Bool-cases, get_elem?,
}
use mit_xv.Vm.{Vm, kern_pages, fill, is_present, is_page, page_of}
use mit_xv.Vm.Walk.{pte_of, IsFree, Tables}
use mit_xv.Vm.Release.{Space}

module _ (first : ℕ) (s : Vm) (g p : ℕ) (ps : List ℕ) (f : s.free ≡ p ∷ ps)
    (sp : Space first s g) where
  -- The state with the page taken and cleared.
  abbrev pub zeroed : Vm
  zeroed = fill p 0 (record s { free = ps })

  pub p_free : IsFree s p
  p_free = (0, ap (λ x. get_elem? x 0) f)

  was_free : (r k : ℕ) → get_elem? ps k ≡ some r → get_elem? s.free (suc k) ≡ some r
  was_free r k e = ap (λ x. get_elem? x (suc k)) f ∙ e

  pub free-before : (r : ℕ) → IsFree zeroed r → IsFree s r
  free-before r (k, e) = (suc k, was_free r k e)

  pub p_taken : ¬ IsFree zeroed p
  p_taken (k, e) =
      let h = sp.tables.no_dup 0 (suc k) p (ap (λ x. get_elem? x 0) f) (was_free p k e) in
      omega arith

  pub p_dir : p ≢ g
  p_dir = sp.tables.dir_free p p_free

  pub p_table : (i : ℕ) → is_present (s.mem g i) ≡ true → page_of (s.mem g i) ≢ p
  p_table i h = sp.tables.table_free i p h p_free

  pub p_new :
      (u : ℕ) → u < kern_pages → is_present (pte_of s g u) ≡ true → page_of (pte_of s g u) ≢ p
  p_new u lt h e = sp.not_free u lt h (subst (λ x. IsFree s x) (sym e) p_free)

  pub dir_zeroed : (i : ℕ) → zeroed.mem g i ≡ s.mem g i
  dir_zeroed i = rw (ne→== p g p_dir) refl

  pub pte_of-zeroed : (u : ℕ) → pte_of zeroed g u ≡ pte_of s g u
  unfolding pte_of
  pte_of-zeroed u =
      rw (dir_zeroed (u / 1024)) (elim (Bool-cases (is_present (s.mem g (u / 1024)))) [
        | inr n ↦ rw n refl
        | inl y ↦
            rw (y, ne→== p (page_of (s.mem g (u / 1024))) (λ e. p_table (u / 1024) y (sym e))) refl
      ])

  back : (i : ℕ) → is_present (zeroed.mem g i) ≡ true → is_present (s.mem g i) ≡ true
  back i h = ap is_present (sym (dir_zeroed i)) ∙ h

  pub Tables-zeroed : Tables zeroed g
  Tables-zeroed = record {
    dir_free = λ r h. sp.tables.dir_free r (free-before r h);
    no_dup = λ j k r e e'.
        let h = sp.tables.no_dup (suc j) (suc k) r (was_free r j e) (was_free r k e') in
        omega arith;
    table_dir =
        λ i h. subst (λ x. page_of x ≢ g) (sym (dir_zeroed i)) (sp.tables.table_dir i (back i h));
    table_free = λ i r h fr.
        subst (λ x. page_of x ≢ r) (sym (dir_zeroed i))
          (sp.tables.table_free i r (back i h) (free-before r fr));
    apart = λ i j h h' e.
        sp.tables.apart i j (back i h) (back j h')
          (sym (ap page_of (dir_zeroed i)) ∙ e ∙ ap page_of (dir_zeroed j));
  }

  mapped : (u : ℕ) → is_present (pte_of zeroed g u) ≡ true → is_present (pte_of s g u) ≡ true
  mapped u h = ap is_present (sym (pte_of-zeroed u)) ∙ h

  pub Space-zeroed : Space first zeroed g
  Space-zeroed = record {
    tables = Tables-zeroed;
    in_memory = λ u lt h.
        subst (λ x. is_page first (page_of x) ≡ true) (sym (pte_of-zeroed u))
          (sp.in_memory u lt (mapped u h));
    no_dir =
        λ u lt h. subst (λ x. page_of x ≢ g) (sym (pte_of-zeroed u)) (sp.no_dir u lt (mapped u h));
    no_table = λ u i lt h q.
        subst (λ x. page_of (zeroed.mem g i) ≢ page_of x) (sym (pte_of-zeroed u))
          (subst (λ x. page_of x ≢ page_of (pte_of s g u)) (sym (dir_zeroed i))
            (sp.no_table u i lt (mapped u h) (back i q)));
    not_free = λ u lt h.
        subst (λ x. ¬ IsFree zeroed (page_of x)) (sym (pte_of-zeroed u))
          (λ fr. sp.not_free u lt (mapped u h) (free-before (page_of (pte_of s g u)) fr));
    once = λ u w lt lt' h h' e.
        sp.once u w lt lt' (mapped u h) (mapped w h')
          (sym (ap page_of (pte_of-zeroed u)) ∙ e ∙ ap page_of (pte_of-zeroed w));
  }
