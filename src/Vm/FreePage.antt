-- ===== src/Vm/FreePage.antt =====
-- A page that deallocuvm of vm.c unmaps and frees.
use mit_xv.Prelude.{
  ℕ, suc, ◌+◌, ◌/◌, ◌%◌, ◌≤◌, ◌<◌, ◌≡◌, refl, sym, ap, ◌∙◌, subst, ◌≢◌, ◌⊎◌, inl, inr, true, false,
  some, arith, ◌==◌, if◌then◌else◌, ==→eq, ==→ne, ne→==, Bool-cases, ok,
}
use mit_xv.Vm.{Vm, kern_pages, store, is_present, is_page, page_of, kfree, free_at}
use mit_xv.Vm.Walk.{pte_of, IsFree, Tables, pte_of-store, Tables-store}
use mit_xv.Vm.Release.{Space, with_free, IsFree-cases, pte_of-free, Tables-free, dir_same}
use mit_xv.Vm.Range.{Released}

eq_true : (a b : ℕ) → a ≡ b → (a == b) ≡ true
eq_true a b e = ground arith

module _ (first : ℕ) (s : Vm) (g v : ℕ) (sp : Space first s g) (user : v < kern_pages)
    (table : is_present (s.mem g (v / 1024)) ≡ true)
    (there : is_present (pte_of s g v) ≡ true) where
  -- The page that is freed, and the state then.
  abbrev f : ℕ
  f = page_of (pte_of s g v)

  abbrev freed_then : Vm
  freed_then = with_free f s

  nd : f ≢ g
  nd = sp.no_dir v user there

  nt : (i : ℕ) → is_present (s.mem g i) ≡ true → page_of (s.mem g i) ≢ f
  nt i h = sp.no_table v i user there h

  nf : ¬ IsFree s f
  nf = sp.not_free v user there

  same1 : (u : ℕ) → pte_of freed_then g u ≡ pte_of s g u
  same1 = pte_of-free s g f sp.tables nd nt nf

  dir1 : (i : ℕ) → freed_then.mem g i ≡ s.mem g i
  dir1 = dir_same s g f sp.tables nd nt nf

  table1 : is_present (freed_then.mem g (v / 1024)) ≡ true
  table1 = ap is_present (dir1 (v / 1024)) ∙ table

  tables1 : Tables freed_then g
  tables1 = Tables-free s g f sp.tables nd nt nf

  -- The state after the store, at the page table that the state before has.
  abbrev pub after : Vm
  after = store (page_of (freed_then.mem g (v / 1024))) (v % 1024) 0 freed_then

  pte_after : (u : ℕ) → pte_of after g u ≡ (if v == u then 0 else pte_of s g u)
  pte_after u =
      pte_of-store freed_then g v 0 tables1 table1 u ∙ ap (λ t. if v == u then 0 else t) (same1 u)

  gone : (u : ℕ) → v ≡ u → is_present (pte_of after g u) ≡ false
  gone u e =
      let z : pte_of after g u ≡ 0 =
        pte_after u ∙ ap (λ t. if t then 0 else pte_of s g u) (eq_true v u e) in
      ap is_present z

  others : (u : ℕ) → v ≢ u → pte_of after g u ≡ pte_of s g u
  others u ne = pte_after u ∙ rw (ne→== v u ne) refl

  -- What is mapped afterwards was mapped, and is not `v`.
  mapped-before :
      (u : ℕ)
      → is_present (pte_of after g u) ≡ true
      → (v ≢ u) × (is_present (pte_of s g u) ≡ true) × (pte_of after g u ≡ pte_of s g u)
  mapped-before u h = elim (Bool-cases (v == u)) [
    | inl y ↦ let z = gone u (==→eq v u y) in cc
    | inr n ↦ let ne = ==→ne v u n in (ne, ap is_present (sym (others u ne)) ∙ h, others u ne)
  ]

  dir_after : (i : ℕ) → after.mem g i ≡ s.mem g i
  dir_after i =
      rw (ne→== (page_of (freed_then.mem g (v / 1024))) g (tables1.table_dir (v / 1024) table1))
        (dir1 i)

  Space-after : Space first after g
  Space-after = record {
    tables = Tables-store freed_then g v 0 tables1 table1;
    in_memory = λ u lt h.
        let (ne, p, e) = mapped-before u h in
        subst (λ t. is_page first (page_of t) ≡ true) (sym e) (sp.in_memory u lt p);
    no_dir = λ u lt h.
        let (ne, p, e) = mapped-before u h in subst (λ t. page_of t ≢ g) (sym e) (sp.no_dir u lt p);
    no_table = λ u i lt h q.
        let (ne, p, e) = mapped-before u h in
        subst (λ t. page_of (after.mem g i) ≢ page_of t) (sym e)
          (subst (λ t. page_of t ≢ page_of (pte_of s g u)) (sym (dir_after i))
            (sp.no_table u i lt p (ap is_present (sym (dir_after i)) ∙ q)));
    not_free = λ u lt h.
        let (ne, p, e) = mapped-before u h in
        subst (λ t. ¬ IsFree after (page_of t)) (sym e)
          (λ fr. elim (IsFree-cases f s (page_of (pte_of s g u)) fr) [
            | inl z ↦ ne (sp.once v u user lt there p z)
            | inr z ↦ sp.not_free u lt p z
          ]);
    once = λ u w lt lt' h h' e.
        let (ne, p, x) = mapped-before u h in
        let (ne', p', x') = mapped-before w h' in
        sp.once u w lt lt' p p' (sym (ap page_of x) ∙ e ∙ ap page_of x');
  }

  pub page-Released : Released first s g v (v + 1) after
  page-Released = record {
    space = Space-after;
    cleared = λ u a b. gone u (omega arith);
    outside = λ u away. others u (λ e. clash u e away);
    freed =
        λ u a b h. let e : v ≡ u = omega arith in (0, ap (λ t. some (page_of (pte_of s g t))) e);
    kept_free = λ p (k, e). (suc k, e);
    dir_kept = dir_after;
    only = λ p fr. elim (IsFree-cases f s p fr) [
      | inl e ↦ inr (v, omega arith, omega arith, there, e)
      | inr o ↦ inl o
    ];
  }
    where
      clash : (u : ℕ) → v ≡ u → (u < v) ⊎ (v + 1 ≤ u) → ⊥
      clash u e (inl lt) = omega arith
      clash u e (inr le) = omega arith

  entry_here : s.mem (page_of (s.mem g (v / 1024))) (v % 1024) ≡ pte_of s g v
  unfolding pte_of
  entry_here = rw table refl

  pub frees : 0 < first → free_at first (page_of (s.mem g (v / 1024))) (v % 1024) s ≡ ok after
  unfolding free_at kfree
  frees pos =
      let m = sp.in_memory v user there in
      let nz : (f == 0) ≡ false = in_use f m in
      rw (entry_here, there, nz, m)
        (ap (λ t. ok (store t (v % 1024) 0 freed_then)) (ap page_of (sym (dir1 (v / 1024)))))
    where
      in_use : (p : ℕ) → is_page first p ≡ true → (p == 0) ≡ false
      in_use p h = ground arith
