-- ===== src/Vm/Map.antt =====
-- mappages of vm.c on a range of virtual pages.
use mit_xv.Prelude.{
  ℕ, zero, suc, ◌+◌, ◌-◌, ◌*◌, ◌/◌, ◌%◌, ◌≤◌, ◌<◌, ◌≡◌, refl, sym, ap, ◌∙◌, subst, ◌⊎◌, inl, inr,
  Bool, true, false, [], arith, ◌==◌, if◌then◌else◌, ==→eq, ==→ne, ==_refl, ne→==, Bool-cases,
  Outcome, ok, panic,
}
use mit_xv.Vm.{
  Vm, store, is_present, page_of, entry_for, walkpgdir, map_at, map_page, map_pages, mappages,
  pgsize,
}
use mit_xv.Vm.Walk.{pte_of, Tables, Walked, pte_of-store, Tables-store}
use mit_xv.Vm.Table.{walkpgdir_lem}

-- Virtual pages from `v` on, `n` of them, have entries for the pages from `p` on; the entries of
-- others are as before.
pub record Mapped (s : Vm) (g v n p perm : ℕ) (s' : Vm) : Type 0 where
  pub tables : Tables s' g
  pub inside : (u : ℕ) → v ≤ u → u < v + n → pte_of s' g u ≡ entry_for (p + (u - v)) perm
  pub outside : (u : ℕ) → (u < v) ⊎ (v + n ≤ u) → pte_of s' g u ≡ pte_of s g u

-- A call that maps them, or that finds no free page for a page table.
abbrev pub Maps : Vm → ℕ → ℕ → ℕ → ℕ → ℕ → Outcome (Bool × Vm) → Type 0
Maps s g v n p perm call =
    ((s' : Vm) × (call ≡ ok (true, s')) × Mapped s g v n p perm s')
    ⊎ (s' : Vm) × (call ≡ ok (false, s')) × Tables s' g × (s'.free ≡ [])

module _ (g perm : ℕ) where
  -- The entry that a walk finds.
  pub found : (s : Vm) (v q : ℕ) (s' : Vm) → Walked s g v q s' → s'.mem q (v % 1024) ≡ pte_of s g v
  unfolding pte_of
  found s v q s' w =
      sym (
        ap (λ b. if b then s'.mem (page_of (s'.mem g (v / 1024))) (v % 1024) else 0) w.present_now
        ∙ ap (λ x. s'.mem x (v % 1024)) w.here)
      ∙ w.same v

  pub map_page-Maps :
      (v p : ℕ) (s : Vm)
      → Tables s g
      → is_present (pte_of s g v) ≡ false
      → Maps s g v 1 p perm (map_page g v p perm s)
  unfolding map_page map_at
  map_page-Maps v p s t gap = elim (walkpgdir_lem g v s t) [
    | inr (e, none_left) ↦ rw e (inr (s, refl, t, none_left))
    | inl (q, s', e, w) ↦
        let e' : is_present (s'.mem q (v % 1024)) ≡ false =
          ap is_present (found s v q s' w) ∙ gap in
        let here = w.here in
        rw (e, e') (inl (store q (v % 1024) (entry_for p perm) s', refl, stored q s' w))
  ]
    where
      stored :
          (q : ℕ) (s' : Vm)
          → Walked s g v q s'
          → Mapped s g v 1 p perm (store q (v % 1024) (entry_for p perm) s')
      stored q s' w =
          subst (λ x. Mapped s g v 1 p perm (store x (v % 1024) (entry_for p perm) s')) w.here
            (record {
              tables = Tables-store s' g v (entry_for p perm) w.tables w.present_now;
              inside = λ u lo hi.
                  let same : v ≡ u = omega arith in
                  let z : p + (u - v) ≡ p = omega arith in
                  at u ∙ rw (subst (λ x. (v == x) ≡ true) same (==_refl v), z) refl;
              outside = λ u away. at u ∙ rw (ne→== v u (λ e. clash u e away)) (w.same u);
            })
        where
          at :
              (u : ℕ)
              → pte_of (store (page_of (s'.mem g (v / 1024))) (v % 1024) (entry_for p perm) s') g u
                ≡ (if v == u then entry_for p perm else pte_of s' g u)
          at u = pte_of-store s' g v (entry_for p perm) w.tables w.present_now u

          clash : (u : ℕ) → v ≡ u → (u < v) ⊎ (v + 1 ≤ u) → ⊥
          clash u e (inl lt) = omega arith
          clash u e (inr le) = omega arith

  -- A virtual page that is mapped already.
  pub map_page-remap :
      (v p : ℕ) (s : Vm) → is_present (pte_of s g v) ≡ true → map_page g v p perm s ≡ panic "remap"
  unfolding map_page map_at pte_of walkpgdir
  map_page-remap v p s there = elim (Bool-cases (is_present (s.mem g (v / 1024)))) [
    | inr n ↦ cc (rw n at there)
    | inl y ↦
        let e : is_present (s.mem (page_of (s.mem g (v / 1024))) (v % 1024)) ≡ true =
          rw y at there in
        rw (y, e) refl
  ]

  Mapped-join :
      (s : Vm) (v n p : ℕ) (s' s'' : Vm)
      → Mapped s g v 1 p perm s'
      → Mapped s' g (v + 1) n (p + 1) perm s''
      → Mapped s g v (suc n) p perm s''
  Mapped-join s v n p s' s'' a b = record {
    tables = b.tables;
    inside = λ u lo hi. elim (Bool-cases (v == u)) [
      | inl y ↦ let e = ==→eq v u y in b.outside u (inl (omega arith)) ∙ a.inside u lo (omega arith)
      | inr o ↦
          let ne = ==→ne v u o in
          let z : p + 1 + (u - (v + 1)) ≡ p + (u - v) = omega arith in
          b.inside u (omega arith) (omega arith) ∙ ap (λ x. entry_for x perm) z
    ];
    outside = λ u away. b.outside u (far u away) ∙ a.outside u (near u away);
  }
    where
      far : (u : ℕ) → (u < v) ⊎ (v + suc n ≤ u) → (u < v + 1) ⊎ (v + 1 + n ≤ u)
      far u (inl lt) = inl (omega arith)
      far u (inr le) = inr (omega arith)

      near : (u : ℕ) → (u < v) ⊎ (v + suc n ≤ u) → (u < v) ⊎ (v + 1 ≤ u)
      near u (inl lt) = inl lt
      near u (inr le) = inr (omega arith)

  map_pages-Maps :
      (n v p : ℕ) (s : Vm)
      → Tables s g
      → ((u : ℕ) → v ≤ u → u ≤ v + n → is_present (pte_of s g u) ≡ false)
      → Maps s g v (suc n) p perm (map_pages n g v p perm s)
  unfolding map_pages
  map_pages-Maps zero v p s t gap = map_page-Maps v p s t (gap v (omega arith) (omega arith))
  map_pages-Maps (suc n) v p s t gap =
      elim (map_page-Maps v p s t (gap v (omega arith) (omega arith))) [
        | inr (s', e, t', none_left) ↦ rw e (inr (s', refl, t', none_left))
        | inl (s', e, m) ↦
            elim (map_pages-Maps n (v + 1) (p + 1) s' m.tables (λ u lo hi.
              ap is_present (m.outside u (inr lo)) ∙ gap u (omega arith) (omega arith))) [
                | inr (s'', e', t', none_left) ↦ rw (e, e') (inr (s'', refl, t', none_left))
                | inl (s'', e', m') ↦
                    rw (e, e') (inl (s'', refl, Mapped-join s v (suc n) p s' s'' m m'))
              ]
      ]

  -- `mappages` on a range where no virtual page is mapped returns with every virtual page of the
  -- range mapped to its page and all other entries as they were, or it returns -1, when no page is
  -- free for a page table.
  pub mappages_lem :
      (va size p : ℕ) (s : Vm)
      → Tables s g
      → 0 < size
      → ((u : ℕ) → va / pgsize ≤ u → u * pgsize < va + size → is_present (pte_of s g u) ≡ false)
      → Maps s g
          (va / pgsize)
          ((va + size - 1) / pgsize - va / pgsize + 1)
          p
          perm
          (mappages g va size p perm s)
  unfolding mappages
  mappages_lem va size p s t pos gap =
      let n = (va + size - 1) / pgsize - va / pgsize in
      let e : suc n ≡ n + 1 = omega arith in
      subst (λ x. Maps s g (va / pgsize) x p perm (map_pages n g (va / pgsize) p perm s)) e
        (map_pages-Maps n (va / pgsize) p s t (λ u lo hi. gap u lo (omega arith)))
