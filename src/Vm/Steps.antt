-- ===== src/Vm/Steps.antt =====
-- The parts of a run of allocuvm of vm.c put together.
use mit_xv.Prelude.{
  ℕ, ◌%◌, ◌≤◌, ◌<◌, ◌≡◌, refl, sym, ap, ◌∙◌, subst, ◌⊎◌, inl, inr, false, arith, ltb, ltb→lt,
  ltb→le, Bool-cases, Outcome, ok,
}
use mit_xv.Vm.{Vm, kern_pages, pgsize, is_present, page_of}
use mit_xv.Vm.Walk.{pte_of, IsFree}
use mit_xv.Vm.Release.{Space}
use mit_xv.Vm.Grown.{IsTable, Extended}
use mit_xv.Vm.Undo.{Restored}

-- A virtual page out of a range is out of each part of it.
far : (lo mid hi u : ℕ) → lo ≤ mid → (u < lo) ⊎ (hi ≤ u) → (u < mid) ⊎ (hi ≤ u)
far lo mid hi u le (inl l) = inl (omega arith)
far lo mid hi u le (inr l) = inr l

near : (lo mid hi u : ℕ) → mid ≤ hi → (u < lo) ⊎ (hi ≤ u) → (u < lo) ⊎ (mid ≤ u)
near lo mid hi u le (inl l) = inl l
near lo mid hi u le (inr l) = inr (omega arith)

pub Extended-nothing : (first : ℕ) (s : Vm) (g v : ℕ) → Space first s g → Extended first s g v v s
Extended-nothing first s g v sp = record {
  space = sp;
  added = λ u l l'. absurd (omega arith);
  outside = λ u away. refl;
  kept = λ u lt away there. refl;
  free_before = λ r h. h;
  tables_kept = λ i h. refl;
  where_gone = λ r h. inl h;
}

pub Extended-join :
    (first : ℕ) (s : Vm) (g lo mid hi : ℕ) (s' s'' : Vm)
    → lo ≤ mid
    → mid ≤ hi
    → hi ≤ kern_pages
    → Extended first s g lo mid s'
    → Extended first s' g mid hi s''
    → Extended first s g lo hi s''
Extended-join first s g lo mid hi s' s'' le le' user a b = record {
  space = b.space;
  added = λ u l l'. elim (Bool-cases (ltb u mid)) [
    | inl y ↦
        let lt = ltb→lt u mid y in
        let (there, flags, free, zeros) = a.added u l lt in
        let e = b.outside u (inl lt) in
        (
          ap is_present e ∙ there,
          ap (λ x. x % pgsize) e ∙ flags,
          subst (λ x. IsFree s (page_of x)) (sym e) free,
          λ j.
              ap (λ x. s''.mem (page_of x) j) e
              ∙ ap (λ (x : ℕ → ℕ). x j) (b.kept u (omega arith) (inl lt) there)
              ∙ zeros j,
        )
    | inr n ↦
        let (there, flags, free, zeros) = b.added u (ltb→le u mid n) l' in
        (there, flags, a.free_before (page_of (pte_of s'' g u)) free, zeros)
  ];
  outside =
      λ u away. b.outside u (far lo mid hi u le away) ∙ a.outside u (near lo mid hi u le' away);
  kept = λ u lt away there.
      let e = a.outside u (near lo mid hi u le' away) in
      subst (λ x. s''.mem (page_of x) ≡ s'.mem (page_of x)) e
        (b.kept u lt (far lo mid hi u le away) (ap is_present e ∙ there))
      ∙ a.kept u lt (near lo mid hi u le' away) there;
  free_before = λ r h. a.free_before r (b.free_before r h);
  tables_kept = λ i h. let e = a.tables_kept i h in b.tables_kept i (ap is_present e ∙ h) ∙ e;
  where_gone = λ r h. elim (a.where_gone r h) [
    | inl o ↦ elim (b.where_gone r o) [
      | inl o' ↦ inl o'
      | inr (inl t) ↦ inr (inl t)
      | inr (inr (u, l, l', there, at)) ↦ inr (inr (u, omega arith, l', there, at))
    ]
    | inr (inl (i, there, at)) ↦
        let e = b.tables_kept i there in inr (inl (i, ap is_present e ∙ there, ap page_of e ∙ at))
    | inr (inr (u, l, l', there, at)) ↦
        let e = b.outside u (inl l') in
        inr (inr (u, l, omega arith, ap is_present e ∙ there, ap page_of e ∙ at))
  ];
}

-- Nothing is mapped in the range, the rest is as it was, and each page that was free is free or
-- a page table.
pub record Undone (first : ℕ) (s : Vm) (g lo hi : ℕ) (s' : Vm) : Type 0 where
  pub space : Space first s' g
  pub cleared : (u : ℕ) → lo ≤ u → u < hi → is_present (pte_of s' g u) ≡ false
  pub outside : (u : ℕ) → (u < lo) ⊎ (hi ≤ u) → pte_of s' g u ≡ pte_of s g u
  pub no_leak : (r : ℕ) → IsFree s r → IsFree s' r ⊎ IsTable s' g r

pub undo-Undone :
    (first : ℕ) (s : Vm) (g lo mid hi : ℕ) (s' s'' : Vm)
    → mid ≤ hi
    → Extended first s g lo mid s'
    → Restored first s' g lo hi s''
    → Undone first s g lo hi s''
undo-Undone first s g lo mid hi s' s'' le a b = record {
  space = b.space;
  cleared = b.cleared;
  outside = λ u away. b.outside u away ∙ a.outside u (near lo mid hi u le away);
  no_leak = λ r h. elim (a.where_gone r h) [
    | inl o ↦ inl (b.kept_free r o)
    | inr (inl (i, there, at)) ↦
        let e = b.dir_kept i in inr (i, ap is_present e ∙ there, ap page_of e ∙ at)
    | inr (inr (u, l, l', there, at)) ↦
        inl (subst (λ x. IsFree s'' x) at (b.freed u l (omega arith) there))
  ];
}

-- A call of allocuvm that gives the pages, or undoes what it did.
abbrev pub Allocs : ℕ → Vm → ℕ → ℕ → ℕ → ℕ → Outcome (ℕ × Vm) → Type 0
Allocs first s g lo hi newsz call =
    ((s' : Vm) × (call ≡ ok (newsz, s')) × Extended first s g lo hi s')
    ⊎ (s' : Vm) × (call ≡ ok (0, s')) × Undone first s g lo hi s'
