-- ===== src/Vm/Grown.antt =====
-- An address space to which allocuvm of vm.c has added pages.
use mit_xv.Prelude.{
  ℕ, zero, suc, ◌+◌, ◌/◌, ◌%◌, ◌≤◌, ◌<◌, ◌≡◌, refl, sym, ap, ◌∙◌, subst, ◌≢◌, ◌⊎◌, inl, inr, true,
  false, some, List, ◌∷◌, arith, ◌==◌, if◌then◌else◌, ==→eq, ==→ne, ==_refl, ne→==, Bool-cases,
  get_elem?, ok,
}
use mit_xv.Vm.{
  Vm, kern_pages, store, is_present, is_page, page_of, flags_of, entry_for, walkpgdir, map_at,
  map_page,
}
use mit_xv.Vm.Walk.{pte_of, IsFree, Walked, pte_of-store, Tables-store}
use mit_xv.Vm.Table.{present-entry, page-entry}
use mit_xv.Vm.Map.{found}
use mit_xv.Vm.Release.{Space}
use mit_xv.Vm.Grow.{
  zeroed, p_free, free-before, p_taken, p_dir, p_table, p_new, dir_zeroed, pte_of-zeroed,
}

-- Page `r` is a page table.
abbrev pub IsTable : Vm → ℕ → ℕ → Type 0
IsTable s g r = (i : ℕ) × (is_present (s.mem g i) ≡ true) × (page_of (s.mem g i) ≡ r)

-- The virtual pages from `lo` on and below `hi` have pages of their own, which were free, are
-- filled with zeros, and are for the user to read and write.
pub record Extended (first : ℕ) (s : Vm) (g lo hi : ℕ) (s' : Vm) : Type 0 where
  pub space : Space first s' g
  pub added :
      (u : ℕ)
      → lo ≤ u
      → u < hi
      → (is_present (pte_of s' g u) ≡ true)
        × (flags_of (pte_of s' g u) ≡ 7)
        × IsFree s (page_of (pte_of s' g u))
        × ((j : ℕ) → s'.mem (page_of (pte_of s' g u)) j ≡ 0)
  pub outside : (u : ℕ) → (u < lo) ⊎ (hi ≤ u) → pte_of s' g u ≡ pte_of s g u
  pub kept :
      (u : ℕ)
      → u < kern_pages
      → (u < lo) ⊎ (hi ≤ u)
      → is_present (pte_of s g u) ≡ true
      → s'.mem (page_of (pte_of s g u)) ≡ s.mem (page_of (pte_of s g u))
  pub free_before : (r : ℕ) → IsFree s' r → IsFree s r
  pub tables_kept : (i : ℕ) → is_present (s.mem g i) ≡ true → s'.mem g i ≡ s.mem g i
  pub where_gone :
      (r : ℕ)
      → IsFree s r
      → IsFree s' r
        ⊎ IsTable s' g r
        ⊎ (u : ℕ) × (lo ≤ u)
          × (u < hi)
          × (is_present (pte_of s' g u) ≡ true)
          × (page_of (pte_of s' g u) ≡ r)

module _ (first : ℕ) (s : Vm) (g v p : ℕ) (ps : List ℕ) (f : s.free ≡ p ∷ ps) (sp : Space first s g)
    (page : is_page first p ≡ true) (q : ℕ) (s' : Vm)
    (w : Walked (zeroed first s g p ps f sp) g v q s') where
  abbrev z : Vm
  z = zeroed first s g p ps f sp

  -- The page table of `v`, and the state after the store.
  abbrev t : ℕ
  t = page_of (s'.mem g (v / 1024))

  abbrev pub after : Vm
  after = store t (v % 1024) (entry_for p 6) s'

  pte_after : (u : ℕ) → pte_of after g u ≡ (if v == u then entry_for p 6 else pte_of s g u)
  pte_after u =
      pte_of-store s' g v (entry_for p 6) w.tables w.present_now u
      ∙ ap (λ x. if v == u then entry_for p 6 else x)
          (w.same u ∙ pte_of-zeroed first s g p ps f sp u)

  here : (u : ℕ) → v ≡ u → pte_of after g u ≡ entry_for p 6
  here u e = pte_after u ∙ rw (subst (λ x. (v == x) ≡ true) e (==_refl v)) refl

  others : (u : ℕ) → v ≢ u → pte_of after g u ≡ pte_of s g u
  others u ne = pte_after u ∙ rw (ne→== v u ne) refl

  page_here : (u : ℕ) → v ≡ u → page_of (pte_of after g u) ≡ p
  page_here u e = ap page_of (here u e) ∙ page-entry p 6 (omega arith)

  mapped-cases :
      (u : ℕ)
      → is_present (pte_of after g u) ≡ true
      → ((v ≡ u) × (page_of (pte_of after g u) ≡ p))
        ⊎ (is_present (pte_of s g u) ≡ true) × (page_of (pte_of after g u) ≡ page_of (pte_of s g u))
  mapped-cases u h = elim (Bool-cases (v == u)) [
    | inl y ↦ let e = ==→eq v u y in inl (e, page_here u e)
    | inr n ↦ let e = others u (==→ne v u n) in inr (ap is_present (sym e) ∙ h, ap page_of e)
  ]

  free_zeroed : (r : ℕ) → IsFree after r → IsFree z r
  free_zeroed r (k, e) = elim w.free [
    | inl same ↦ (k, ap (λ x. get_elem? x k) (sym same) ∙ e)
    | inr less ↦ (suc k, ap (λ x. get_elem? x (suc k)) (sym less) ∙ e)
  ]

  free_first : (r : ℕ) → IsFree after r → IsFree s r
  free_first r h = free-before first s g p ps f sp r (free_zeroed r h)

  dir_after : (i : ℕ) → after.mem g i ≡ s'.mem g i
  dir_after i = rw (ne→== t g (w.tables.table_dir (v / 1024) w.present_now)) refl

  -- A page table was free, or it was there.
  table-cases :
      (i : ℕ)
      → is_present (s'.mem g i) ≡ true
      → IsFree z (page_of (s'.mem g i))
        ⊎ (is_present (s.mem g i) ≡ true) × (page_of (s'.mem g i) ≡ page_of (s.mem g i))
  table-cases i h = elim (w.taken i h) [
    | inl o ↦ inl o
    | inr (o, e) ↦
        let d = dir_zeroed first s g p ps f sp i in
        inr (ap is_present (sym d) ∙ o, e ∙ ap page_of d)
  ]

  -- A page table is neither the new page nor one that was mapped.
  table_new : (i : ℕ) → is_present (s'.mem g i) ≡ true → page_of (s'.mem g i) ≢ p
  table_new i h e = elim (table-cases i h) [
    | inl o ↦ p_taken first s g p ps f sp (subst (λ x. IsFree z x) e o)
    | inr (o, same) ↦ p_table first s g p ps f sp i o (sym same ∙ e)
  ]

  table_old :
      (i u : ℕ)
      → is_present (s'.mem g i) ≡ true
      → u < kern_pages
      → is_present (pte_of s g u) ≡ true
      → page_of (s'.mem g i) ≢ page_of (pte_of s g u)
  table_old i u h lt there e = elim (table-cases i h) [
    | inl o ↦
        sp.not_free u lt there
          (free-before first s g p ps f sp (page_of (pte_of s g u)) (subst (λ x. IsFree z x) e o))
    | inr (o, same) ↦ sp.no_table u i lt there o (sym same ∙ e)
  ]

  Space-after : Space first after g
  Space-after = record {
    tables = Tables-store s' g v (entry_for p 6) w.tables w.present_now;
    in_memory = λ u lt h. elim (mapped-cases u h) [
      | inl (e, at) ↦ subst (λ x. is_page first x ≡ true) (sym at) page
      | inr (o, at) ↦ subst (λ x. is_page first x ≡ true) (sym at) (sp.in_memory u lt o)
    ];
    no_dir = λ u lt h. elim (mapped-cases u h) [
      | inl (e, at) ↦ subst (λ x. x ≢ g) (sym at) (p_dir first s g p ps f sp)
      | inr (o, at) ↦ subst (λ x. x ≢ g) (sym at) (sp.no_dir u lt o)
    ];
    no_table = λ u i lt h b.
        let b' : is_present (s'.mem g i) ≡ true = ap is_present (sym (dir_after i)) ∙ b in
        subst (λ x. page_of x ≢ page_of (pte_of after g u)) (sym (dir_after i))
          (elim (mapped-cases u h) [
            | inl (e, at) ↦ subst (λ x. page_of (s'.mem g i) ≢ x) (sym at) (table_new i b')
            | inr (o, at) ↦ subst (λ x. page_of (s'.mem g i) ≢ x) (sym at) (table_old i u b' lt o)
          ]);
    not_free = λ u lt h fr. elim (mapped-cases u h) [
      | inl (e, at) ↦
          p_taken first s g p ps f sp
            (subst (λ x. IsFree z x) at (free_zeroed (page_of (pte_of after g u)) fr))
      | inr (o, at) ↦
          sp.not_free u lt o
            (subst (λ x. IsFree s x) at (free_first (page_of (pte_of after g u)) fr))
    ];
    once = λ u x lt lt' h h' e. elim (mapped-cases u h) [
      | inl (d, at) ↦ elim (mapped-cases x h') [
        | inl (d', at') ↦ sym d ∙ d'
        | inr (o', at') ↦ absurd (p_new first s g p ps f sp x lt' o' (sym at' ∙ sym e ∙ at))
      ]
      | inr (o, at) ↦ elim (mapped-cases x h') [
        | inl (d', at') ↦ absurd (p_new first s g p ps f sp u lt o (sym at ∙ e ∙ at'))
        | inr (o', at') ↦ sp.once u x lt lt' o o' (sym at ∙ e ∙ at')
      ]
    ];
  }

  zeros : (j : ℕ) → after.mem p j ≡ 0
  zeros j = rw (ne→== t p (table_new (v / 1024) w.present_now)) (
      ap (λ (x : ℕ → ℕ). x j) (w.others p (p_dir first s g p ps f sp) (p_taken first s g p ps f sp))
      ∙ cleared)
    where
      cleared : z.mem p j ≡ 0
      cleared = rw (==_refl p) refl

  same_page :
      (r : ℕ) → r ≢ g → ¬ IsFree s r → page_of (s'.mem g (v / 1024)) ≢ r → after.mem r ≡ s.mem r
  same_page r ne nf nt =
      rw (ne→== t r nt) (w.others r ne (λ h. nf (free-before first s g p ps f sp r h)) ∙ untouched)
    where
      untouched : z.mem r ≡ s.mem r
      untouched =
          rw (ne→== p r (λ e. nf (subst (λ x. IsFree s x) e (p_free first s g p ps f sp)))) refl

  -- Where a free page is after the walk took what it needed.
  walk_gone :
      (r k : ℕ)
      → get_elem? ps k ≡ some r
      → (s'.free ≡ ps) ⊎ (q ∷ s'.free ≡ ps)
      → IsFree after r ⊎ IsTable after g r
  walk_gone r k e (inl same) = inl (k, ap (λ x. get_elem? x k) same ∙ e)
  walk_gone r zero e (inr less) =
      let same : some q ≡ some r = ap (λ x. get_elem? x 0) less ∙ e in
      let q_is : q ≡ r = cc in
      inr (
        v / 1024,
        ap is_present (dir_after (v / 1024)) ∙ w.present_now,
        ap page_of (dir_after (v / 1024)) ∙ w.here ∙ q_is,
      )
  walk_gone r (suc k) e (inr less) = inl (k, ap (λ x. get_elem? x (suc k)) less ∙ e)

  gone :
      (r k : ℕ)
      → get_elem? s.free k ≡ some r
      → IsFree after r
        ⊎ IsTable after g r
        ⊎ (u : ℕ) × (v ≤ u)
          × (u < v + 1)
          × (is_present (pte_of after g u) ≡ true)
          × (page_of (pte_of after g u) ≡ r)
  gone r zero e =
      let same : some p ≡ some r = ap (λ x. get_elem? x 0) (sym f) ∙ e in
      let p_is : p ≡ r = cc in
      inr (
        inr (
          v,
          omega arith,
          omega arith,
          ap is_present (here v refl) ∙ present-entry p 6,
          page_here v refl ∙ p_is,
        ))
  gone r (suc k) e = elim (walk_gone r k (ap (λ x. get_elem? x (suc k)) (sym f) ∙ e) w.free) [
    | inl h ↦ inl h
    | inr h ↦ inr (inl h)
  ]

  pub page-Extended : Extended first s g v (v + 1) after
  page-Extended = record {
    space = Space-after;
    added = λ u lo hi.
        let e : v ≡ u = omega arith in
        (
          ap is_present (here u e) ∙ present-entry p 6,
          ap flags_of (here u e) ∙ flags p,
          subst (λ x. IsFree s x) (sym (page_here u e)) (p_free first s g p ps f sp),
          λ j. ap (λ x. after.mem x j) (page_here u e) ∙ zeros j,
        );
    outside = λ u away. others u (λ e. clash u e away);
    kept = λ u lt away there.
        same_page (page_of (pte_of s g u)) (sp.no_dir u lt there) (sp.not_free u lt there)
          (table_old (v / 1024) u w.present_now lt there);
    free_before = free_first;
    tables_kept = λ i h.
        let d = dir_zeroed first s g p ps f sp i in
        dir_after i ∙ w.tables_kept i (ap is_present d ∙ h) ∙ d;
    where_gone = λ r (k, e). gone r k e;
  }
    where
      flags : (p : ℕ) → flags_of (entry_for p 6) ≡ 7
      flags p = omega arith

      clash : (u : ℕ) → v ≡ u → (u < v) ⊎ (v + 1 ≤ u) → ⊥
      clash u e (inl lt) = omega arith
      clash u e (inr le) = omega arith

  -- The call of mappages that finds the page table.
  pub maps :
      (walk : walkpgdir g v true z ≡ (some (q, v % 1024), s'))
      → is_present (pte_of s g v) ≡ false
      → map_page g v p 6 z ≡ ok (true, after)
  unfolding map_page map_at
  maps walk gap =
      let e : is_present (s'.mem q (v % 1024)) ≡ false =
        ap is_present (found g 6 z v q s' w ∙ pte_of-zeroed first s g p ps f sp v) ∙ gap in
      rw (walk, e) (ap (λ x. ok (true, store x (v % 1024) (entry_for p 6) s')) (sym w.here))
