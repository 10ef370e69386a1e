-- ===== src/Vm/Walk.antt =====
-- walkpgdir of vm.c: what a page directory says of a virtual page.
use mit_xv.Prelude.{
  ℕ, ◌/◌, ◌%◌, ◌≡◌, refl, sym, ap, ◌∙◌, subst, ◌≢◌, ◌⊎◌, inl, inr, true, false, some, ◌∷◌, arith,
  ◌==◌, if◌then◌else◌, ==→eq, ==→ne, ne→==, Bool-cases, get_elem?,
}
use mit_xv.Vm.{Vm, store, is_present, page_of}

-- The entry of virtual page `v`, 0 without a page table.
unfoldable pub pte_of : Vm → ℕ → ℕ → ℕ
pte_of s g v =
    if is_present (s.mem g (v / 1024)) then s.mem (page_of (s.mem g (v / 1024))) (v % 1024) else 0

-- Page `p` is free.
abbrev pub IsFree : Vm → ℕ → Type 0
IsFree s p = (k : ℕ) × (get_elem? s.free k ≡ some p)

-- The free pages, the directory and its page tables are all different.
pub record Tables (s : Vm) (g : ℕ) : Type 0 where
  pub dir_free : (p : ℕ) → IsFree s p → p ≢ g
  pub no_dup : (j k p : ℕ) → get_elem? s.free j ≡ some p → get_elem? s.free k ≡ some p → j ≡ k
  pub table_dir : (i : ℕ) → is_present (s.mem g i) ≡ true → page_of (s.mem g i) ≢ g
  pub table_free : (i p : ℕ) → is_present (s.mem g i) ≡ true → IsFree s p → page_of (s.mem g i) ≢ p
  pub apart :
      (i j : ℕ)
      → is_present (s.mem g i) ≡ true
      → is_present (s.mem g j) ≡ true
      → page_of (s.mem g i) ≡ page_of (s.mem g j)
      → i ≡ j

-- `walkpgdir` gave page table `q` for virtual page `v` and left `s'`.
pub record Walked (s : Vm) (g v q : ℕ) (s' : Vm) : Type 0 where
  pub tables : Tables s' g
  pub present_now : is_present (s'.mem g (v / 1024)) ≡ true
  pub here : page_of (s'.mem g (v / 1024)) ≡ q
  pub same : (u : ℕ) → pte_of s' g u ≡ pte_of s g u
  pub others : (p : ℕ) → p ≢ g → ¬ IsFree s p → s'.mem p ≡ s.mem p
  pub free : (s'.free ≡ s.free) ⊎ (q ∷ s'.free ≡ s.free)
  pub tables_kept : (i : ℕ) → is_present (s.mem g i) ≡ true → s'.mem g i ≡ s.mem g i
  pub taken :
      (i : ℕ)
      → is_present (s'.mem g i) ≡ true
      → IsFree s (page_of (s'.mem g i))
        ⊎ (is_present (s.mem g i) ≡ true) × (page_of (s'.mem g i) ≡ page_of (s.mem g i))

module _ (s : Vm) (g v w : ℕ) (t : Tables s g) (p : is_present (s.mem g (v / 1024)) ≡ true) where
  -- The page table of `v`.
  abbrev q : ℕ
  q = page_of (s.mem g (v / 1024))

  dir_kept : (i : ℕ) → (store q (v % 1024) w s).mem g i ≡ s.mem g i
  dir_kept i = rw (ne→== q g (t.table_dir (v / 1024) p)) refl

  -- A store in a page table changes the entry of one virtual page.
  pub pte_of-store :
      (u : ℕ) → pte_of (store q (v % 1024) w s) g u ≡ (if v == u then w else pte_of s g u)
  unfolding pte_of
  pte_of-store u = rw (dir_kept (u / 1024)) (elim (Bool-cases (is_present (s.mem g (u / 1024)))) [
    | inr n ↦ rw n (sym (absent n))
    | inl y ↦ rw y (elim (Bool-cases (q == page_of (s.mem g (u / 1024)))) [
      | inr o ↦ rw o (sym (other y (==→ne q (page_of (s.mem g (u / 1024))) o)))
      | inl e ↦ rw e (at_table y (==→eq q (page_of (s.mem g (u / 1024))) e))
    ])
  ])
    where
      absent : is_present (s.mem g (u / 1024)) ≡ false → (if v == u then w else 0) ≡ 0
      absent n = elim (Bool-cases (v == u)) [
        | inr o ↦ rw o refl
        | inl e ↦ absurd (clash (ap (λ x. is_present (s.mem g (x / 1024))) (==→eq v u e)))
      ]
        where
          clash : is_present (s.mem g (v / 1024)) ≡ is_present (s.mem g (u / 1024)) → ⊥
          clash e = cc

      other :
          is_present (s.mem g (u / 1024)) ≡ true
          → q ≢ page_of (s.mem g (u / 1024))
          → (if v == u then w else s.mem (page_of (s.mem g (u / 1024))) (u % 1024))
            ≡ s.mem (page_of (s.mem g (u / 1024))) (u % 1024)
      other y ne = elim (Bool-cases (v == u)) [
        | inr o ↦ rw o refl
        | inl e ↦ absurd (ne (ap (λ x. page_of (s.mem g (x / 1024))) (==→eq v u e)))
      ]

      at_table :
          is_present (s.mem g (u / 1024)) ≡ true
          → q ≡ page_of (s.mem g (u / 1024))
          → (if v % 1024 == u % 1024 then w else s.mem q (u % 1024))
            ≡ (if v == u then w else s.mem (page_of (s.mem g (u / 1024))) (u % 1024))
      at_table y e =
          let d : v / 1024 ≡ u / 1024 = t.apart (v / 1024) (u / 1024) p y e in
          let b : (v % 1024 == u % 1024) ≡ (v == u) = ground arith in
          rw b (ap (λ x. if v == u then w else s.mem x (u % 1024)) e)

  pub Tables-store : Tables (store q (v % 1024) w s) g
  Tables-store = record {
    dir_free = t.dir_free;
    no_dup = t.no_dup;
    table_dir = λ i h. subst (λ x. page_of x ≢ g) (sym (dir_kept i)) (t.table_dir i (back i h));
    table_free =
        λ i r h f. subst (λ x. page_of x ≢ r) (sym (dir_kept i)) (t.table_free i r (back i h) f);
    apart = λ i j h h' e.
        t.apart i j (back i h) (back j h')
          (sym (ap page_of (dir_kept i)) ∙ e ∙ ap page_of (dir_kept j));
  }
    where
      back :
          (i : ℕ)
          → is_present ((store q (v % 1024) w s).mem g i) ≡ true
          → is_present (s.mem g i) ≡ true
      back i h = ap is_present (sym (dir_kept i)) ∙ h
