-- ===== src/Vm/Tests.antt =====
-- Page 5 is a directory with one page table, page 6, which maps virtual page 0 to page 8; pages 10
-- and 11 are free.
use mit_xv.Prelude.{
  ℕ, zero, suc, ◌+◌, ◌-◌, ◌/◌, ◌%◌, ◌≤◌, ◌<◌, ◌≡◌, refl, sym, ◌∙◌, subst, ◌≢◌, ◌⊎◌, inl, inr, true,
  false, Option, some, [], ◌∷◌, arith, ◌==◌, if◌then◌else◌, Bool-cases, get_elem?, ok,
}
use mit_xv.Vm.{Vm, pgsize, is_present, page_of, is_page, mappages, deallocuvm, allocuvm, pages_up}
use mit_xv.Vm.Walk.{pte_of, IsFree, Tables}
use mit_xv.Vm.Release.{Space}
use mit_xv.Vm.Map.{Maps, mappages_lem}
use mit_xv.Vm.Range.{Released}
use mit_xv.Vm.Dealloc.{deallocuvm_lem}
use mit_xv.Vm.Steps.{Allocs}
use mit_xv.Vm.Alloc.{allocuvm_lem}

abbrev memory : ℕ → ℕ → ℕ
memory p i = if i == 0 then (if p == 5 then 24583 else (if p == 6 then 32775 else 0)) else 0

abbrev pub state : Vm
state = record { free = 10 ∷ 11 ∷ []; mem = memory }

first_entry : (i : ℕ) → is_present (memory 5 i) ≡ true → i ≡ 0
first_entry i h = ground arith

pub free_pages : (p : ℕ) → IsFree state p → (p ≡ 10) ⊎ (p ≡ 11)
free_pages p (zero, e) = inl (let h : some 10 ≡ some p = e in cc)
free_pages p (suc zero, e) = inr (let h : some 11 ≡ some p = e in cc)
free_pages p (suc (suc k), e) = cc

only_page : (u : ℕ) → is_present (pte_of state 5 u) ≡ true → u ≡ 0
unfolding pte_of
only_page u h = elim (Bool-cases (is_present (memory 5 (u / 1024)))) [
  | inr n ↦ cc (rw n at h)
  | inl y ↦
      let z = first_entry (u / 1024) y in
      let h' : is_present (memory (page_of (memory 5 (u / 1024))) (u % 1024)) ≡ true = rw y at h in
      let h'' : is_present (memory (page_of (memory 5 0)) (u % 1024)) ≡ true =
        subst (λ t. is_present (memory (page_of (memory 5 t)) (u % 1024)) ≡ true) z h' in
      let m : u % 1024 ≡ 0 = low (u % 1024) h'' in omega arith
]
  where
    low : (i : ℕ) → is_present (memory 6 i) ≡ true → i ≡ 0
    low i h = ground arith

pub state-Tables : Tables state 5
state-Tables = record {
  dir_free = λ p f. elim (free_pages p f) [ inl e ↦ λ z. omega arith | inr e ↦ λ z. omega arith ];
  no_dup = λ j k p e e'. once j k p e e';
  table_dir =
      λ i h. subst (λ t. page_of (memory 5 t) ≢ 5) (sym (first_entry i h)) (λ z. omega arith);
  table_free = λ i p h f.
      subst (λ t. page_of (memory 5 t) ≢ p) (sym (first_entry i h))
        (elim (free_pages p f) [ inl e ↦ λ z. omega arith | inr e ↦ λ z. omega arith ]);
  apart = λ i j h h' e. first_entry i h ∙ sym (first_entry j h');
}
  where
    once : (j k p : ℕ) → get_elem? state.free j ≡ some p → get_elem? state.free k ≡ some p → j ≡ k
    once zero zero p e e' = refl
    once zero (suc zero) p e e' = let h : some 10 ≡ some 11 = e ∙ sym e' in absurd (clash h)
      where
        clash : ◌≡◌ {A = Option ℕ} (some 10) (some 11) → ⊥
        clash h = cc
    once zero (suc (suc k)) p e e' = cc
    once (suc zero) zero p e e' = let h : some 10 ≡ some 11 = e' ∙ sym e in absurd (clash h)
      where
        clash : ◌≡◌ {A = Option ℕ} (some 10) (some 11) → ⊥
        clash h = cc
    once (suc zero) (suc zero) p e e' = refl
    once (suc zero) (suc (suc k)) p e e' = cc
    once (suc (suc j)) k p e e' = cc

page_zero : page_of (pte_of state 5 0) ≡ 8
unfolding pte_of
page_zero = refl

frame : (u : ℕ) → is_present (pte_of state 5 u) ≡ true → page_of (pte_of state 5 u) ≡ 8
frame u h = subst (λ t. page_of (pte_of state 5 t) ≡ 8) (sym (only_page u h)) page_zero

state-Space : Space 1 state 5
state-Space = record {
  tables = state-Tables;
  in_memory = λ u lt h. subst (λ t. is_page 1 t ≡ true) (sym (frame u h)) refl;
  no_dir = λ u lt h z. let e = frame u h in omega arith;
  no_table = λ u i lt h h' z.
      let e = frame u h in
      let e' =
        subst (λ t. page_of (memory 5 t) ≡ page_of (pte_of state 5 u)) (first_entry i h') z in
      omega arith;
  not_free = λ u lt h f.
      let e = frame u h in
      elim (free_pages (page_of (pte_of state 5 u)) f) [
        | inl z ↦ omega arith
        | inr z ↦ omega arith
      ];
  once = λ u w lt lt' h h' e. only_page u h ∙ sym (only_page w h');
}

-- Two pages from virtual page 1030 on need a page table.
mappages_lem_example :
    Maps state 5
      (4218880 / pgsize)
      ((4218880 + 8192 - 1) / pgsize - 4218880 / pgsize + 1)
      20
      6
      (mappages 5 4218880 8192 20 6 state)
mappages_lem_example =
    mappages_lem 5 6 4218880 8192 20 state state-Tables (omega arith) (λ u lo hi. unmapped u lo)
  where
    unmapped : (u : ℕ) → 4218880 / pgsize ≤ u → is_present (pte_of state 5 u) ≡ false
    unmapped u lo = elim (Bool-cases (is_present (pte_of state 5 u))) [
      | inr n ↦ n
      | inl y ↦ let z = only_page u y in absurd (omega arith)
    ]

deallocuvm_lem_example :
    (0 < 4096
      → (s' : Vm) × (deallocuvm 1 5 4096 0 state ≡ ok (0, s'))
        × Released 1 state 5 (pages_up 0) (pages_up 4096) s')
    × (4096 ≤ 0 → deallocuvm 1 5 4096 0 state ≡ ok (4096, state))
deallocuvm_lem_example = deallocuvm_lem 1 5 (omega arith) 4096 0 state state-Space (omega arith)

state_pages : (r : ℕ) → IsFree state r → is_page 1 r ≡ true
state_pages r f = elim (free_pages r f) [
  | inl e ↦ subst (λ x. is_page 1 x ≡ true) (sym e) refl
  | inr e ↦ subst (λ x. is_page 1 x ≡ true) (sym e) refl
]

state_gap : (u : ℕ) → pages_up 4096 ≤ u → u < pages_up 8192 → is_present (pte_of state 5 u) ≡ false
state_gap u l l' = elim (Bool-cases (is_present (pte_of state 5 u))) [
  | inr n ↦ n
  | inl y ↦ let e = only_page u y in absurd (omega arith)
]

allocuvm_lem_example :
    Allocs 1 state 5 (pages_up 4096) (pages_up 8192) 8192 (allocuvm 1 5 4096 8192 state)
allocuvm_lem_example =
    allocuvm_lem 1 5 (omega arith) state 4096 8192 state_pages state_gap (omega arith) state-Space
      (omega arith)
