-- ===== src/Vm/Table.antt =====
-- walkpgdir and mappages of vm.c.
use mit_xv.Prelude.{
  ℕ, suc, ◌/◌, ◌%◌, ◌<◌, ◌≡◌, refl, sym, ap, ◌∙◌, subst, ◌≢◌, ◌⊎◌, inl, inr, true, false, Option,
  none, some, List, [], ◌∷◌, arith, ◌==◌, if◌then◌else◌, ==→eq, ==→ne, ==_refl, ne→==, Bool-cases,
  get_elem?, List-cases,
}
use mit_xv.Vm.{Vm, store, fill, kalloc, is_present, page_of, entry_for, walkpgdir}
use mit_xv.Vm.Walk.{pte_of, IsFree, Tables, Walked}

pub present-entry : (p perm : ℕ) → is_present (entry_for p perm) ≡ true
present-entry p perm = ground arith

pub page-entry : (p perm : ℕ) → perm < 4096 → page_of (entry_for p perm) ≡ p
page-entry p perm h = omega arith

module _ (s : Vm) (g v p : ℕ) (ps : List ℕ) (t : Tables s g) (f : s.free ≡ p ∷ ps)
    (gap : is_present (s.mem g (v / 1024)) ≡ false) where
  p_free : IsFree s p
  p_free = (0, ap (λ x. get_elem? x 0) f)

  was_free : (r k : ℕ) → get_elem? ps k ≡ some r → get_elem? s.free (suc k) ≡ some r
  was_free r k e = ap (λ x. get_elem? x (suc k)) f ∙ e

  p_dir : p ≢ g
  p_dir = t.dir_free p p_free

  -- The memory with page `p` as the page table.
  abbrev pub tabled : Vm
  tabled = store g (v / 1024) (entry_for p 7) (fill p 0 (record s { free = ps }))

  dir_at : (i : ℕ) → tabled.mem g i ≡ (if v / 1024 == i then entry_for p 7 else s.mem g i)
  dir_at i = rw (==_refl g, ne→== p g p_dir) refl

  dir_here : tabled.mem g (v / 1024) ≡ entry_for p 7
  dir_here = dir_at (v / 1024) ∙ rw (==_refl (v / 1024)) refl

  dir_else : (i : ℕ) → v / 1024 ≢ i → tabled.mem g i ≡ s.mem g i
  dir_else i ne = dir_at i ∙ rw (ne→== (v / 1024) i ne) refl

  page_here : page_of (tabled.mem g (v / 1024)) ≡ p
  page_here = ap page_of dir_here ∙ page-entry p 7 (omega arith)

  present_here : is_present (tabled.mem g (v / 1024)) ≡ true
  present_here = ap is_present dir_here ∙ present-entry p 7

  -- An entry of the directory is the new one, or it was there.
  dir-cases :
      (i : ℕ)
      → is_present (tabled.mem g i) ≡ true
      → ((v / 1024 ≡ i) × (page_of (tabled.mem g i) ≡ p))
        ⊎ (is_present (s.mem g i) ≡ true) × (page_of (tabled.mem g i) ≡ page_of (s.mem g i))
  dir-cases i h = elim (Bool-cases (v / 1024 == i)) [
    | inl y ↦
        let e = ==→eq (v / 1024) i y in
        inl (e, subst (λ x. page_of (tabled.mem g x) ≡ p) e page_here)
    | inr n ↦
        let e = dir_else i (==→ne (v / 1024) i n) in inr (ap is_present (sym e) ∙ h, ap page_of e)
  ]

  mem_else : (r : ℕ) → r ≢ g → r ≢ p → tabled.mem r ≡ s.mem r
  mem_else r ne ne' = rw (ne→== g r (λ e. ne (sym e)), ne→== p r (λ e. ne' (sym e))) refl

  tabled_same : (u : ℕ) → pte_of tabled g u ≡ pte_of s g u
  unfolding pte_of
  tabled_same u = elim (Bool-cases (v / 1024 == u / 1024)) [
    | inl y ↦
        let e = ==→eq (v / 1024) (u / 1024) y in
        let no_old : is_present (s.mem g (u / 1024)) ≡ false =
          subst (λ x. is_present (s.mem g x) ≡ false) e gap in
        let now : is_present (tabled.mem g (u / 1024)) ≡ true =
          subst (λ x. is_present (tabled.mem g x) ≡ true) e present_here in
        let at : page_of (tabled.mem g (u / 1024)) ≡ p =
          subst (λ x. page_of (tabled.mem g x) ≡ p) e page_here in
        choose (u / 1024) (u % 1024) now no_old at
    | inr n ↦
        let e = dir_else (u / 1024) (==→ne (v / 1024) (u / 1024) n) in
        elim (Bool-cases (is_present (s.mem g (u / 1024)))) [
          | inr o ↦ untouched (u / 1024) (u % 1024) e (inr o)
          | inl o ↦ untouched (u / 1024) (u % 1024) e (inl o)
        ]
  ]
    where
      choose :
          (i j : ℕ)
          → is_present (tabled.mem g i) ≡ true
          → is_present (s.mem g i) ≡ false
          → page_of (tabled.mem g i) ≡ p
          → (if is_present (tabled.mem g i) then tabled.mem (page_of (tabled.mem g i)) j else 0)
            ≡ (if is_present (s.mem g i) then s.mem (page_of (s.mem g i)) j else 0)
      choose i j now no_old at =
          ap (λ b. if b then tabled.mem (page_of (tabled.mem g i)) j else 0) now
          ∙ ap (λ x. tabled.mem x j) at
          ∙ zero_page j
          ∙ sym (ap (λ b. if b then s.mem (page_of (s.mem g i)) j else 0) no_old)
        where
          zero_page : (j : ℕ) → tabled.mem p j ≡ 0
          zero_page j = rw (ne→== g p (λ e. p_dir (sym e)), ==_refl p) refl

      untouched :
          (i j : ℕ)
          → tabled.mem g i ≡ s.mem g i
          → (is_present (s.mem g i) ≡ true) ⊎ (is_present (s.mem g i) ≡ false)
          → (if is_present (tabled.mem g i) then tabled.mem (page_of (tabled.mem g i)) j else 0)
            ≡ (if is_present (s.mem g i) then s.mem (page_of (s.mem g i)) j else 0)
      untouched i j e (inr o) =
          ap (λ b. if b then tabled.mem (page_of (tabled.mem g i)) j else 0) (ap is_present e ∙ o)
          ∙ sym (ap (λ b. if b then s.mem (page_of (s.mem g i)) j else 0) o)
      untouched i j e (inl o) =
          ap (λ b. if b then tabled.mem (page_of (tabled.mem g i)) j else 0) (ap is_present e ∙ o)
          ∙ ap (λ x. tabled.mem (page_of x) j) e
          ∙ ap (λ (f : ℕ → ℕ). f j)
              (mem_else (page_of (s.mem g i)) (t.table_dir i o) (λ z. t.table_free i p o p_free z))
          ∙ sym (ap (λ b. if b then s.mem (page_of (s.mem g i)) j else 0) o)

  tabled-Tables : Tables tabled g
  tabled-Tables = record {
    dir_free = λ r (k, e). t.dir_free r (suc k, was_free r k e);
    no_dup = λ j k r e e'.
        let h = t.no_dup (suc j) (suc k) r (was_free r j e) (was_free r k e') in omega arith;
    table_dir = λ i h. elim (dir-cases i h) [
      | inl (e, at) ↦ subst (λ x. x ≢ g) (sym at) p_dir
      | inr (o, at) ↦ subst (λ x. x ≢ g) (sym at) (t.table_dir i o)
    ];
    table_free = λ i r h (k, e). elim (dir-cases i h) [
      | inl (d, at) ↦ λ z. still_free k (was_free r k e ∙ ap some (sym z ∙ at))
      | inr (o, at) ↦ subst (λ x. x ≢ r) (sym at) (t.table_free i r o (suc k, was_free r k e))
    ];
    apart = λ i j h h' e. elim (dir-cases i h) [
      | inl (d, at) ↦ elim (dir-cases j h') [
        | inl (d', at') ↦ sym d ∙ d'
        | inr (o', at') ↦ absurd (t.table_free j p o' p_free (sym at' ∙ sym e ∙ at))
      ]
      | inr (o, at) ↦ elim (dir-cases j h') [
        | inl (d', at') ↦ absurd (t.table_free i p o p_free (sym at ∙ e ∙ at'))
        | inr (o', at') ↦ t.apart i j o o' (sym at ∙ e ∙ at')
      ]
    ];
  }
    where
      still_free : (k : ℕ) → get_elem? s.free (suc k) ≡ some p → ⊥
      still_free k e = let h = t.no_dup 0 (suc k) p (ap (λ x. get_elem? x 0) f) e in omega arith

  pub tabled-Walked : Walked s g v p tabled
  tabled-Walked = record {
    tables = tabled-Tables;
    present_now = present_here;
    here = page_here;
    same = tabled_same;
    others = λ r ne nf. mem_else r ne (λ e. nf (subst (λ x. IsFree s x) (sym e) p_free));
    free = inr (sym f);
    tables_kept = λ i h. dir_else i (λ e. old_entry i e h);
    taken = λ i h. elim (dir-cases i h) [
      | inl (d, at) ↦ inl (subst (λ x. IsFree s x) (sym at) p_free)
      | inr o ↦ inr o
    ];
  }
    where
      old_entry : (i : ℕ) → v / 1024 ≡ i → is_present (s.mem g i) ≡ true → ⊥
      old_entry i e h =
          let no_old : is_present (s.mem g i) ≡ false =
            subst (λ x. is_present (s.mem g x) ≡ false) e gap in
          cc

pub kalloc-none : (s : Vm) → s.free ≡ [] → kalloc s ≡ none
unfolding kalloc
kalloc-none s e =
    ap
      (λ (xs : List ℕ). elim xs as (λ x. Option (ℕ × Vm)) [
        | [] ↦ none
        | p ∷ ps ↦ some (p, record s { free = ps })
      ])
      e

pub kalloc-some :
    (s : Vm) (p : ℕ) (ps : List ℕ) → s.free ≡ p ∷ ps → kalloc s ≡ some (p, record s { free = ps })
unfolding kalloc
kalloc-some s p ps e =
    ap
      (λ (xs : List ℕ). elim xs as (λ x. Option (ℕ × Vm)) [
        | [] ↦ none
        | p ∷ ps ↦ some (p, record s { free = ps })
      ])
      e

-- `walkpgdir` that may allocate gives the page table of the virtual page, a free page if there
-- was none, and changes no entry of any virtual page; it fails only when no page is free.
pub walkpgdir_lem :
    (g v : ℕ) (s : Vm)
    → Tables s g
    → ((q : ℕ) × (s' : Vm) × (walkpgdir g v true s ≡ (some (q, v % 1024), s')) × Walked s g v q s')
      ⊎ (walkpgdir g v true s ≡ (none, s)) × (s.free ≡ [])
unfolding walkpgdir
walkpgdir_lem g v s t = elim (Bool-cases (is_present (s.mem g (v / 1024)))) [
  | inl y ↦ rw y (
      inl (
        page_of (s.mem g (v / 1024)),
        s,
        refl,
        record {
          tables = t;
          present_now = y;
          here = refl;
          same = λ u. refl;
          others = λ r ne nf. refl;
          free = inl refl;
          tables_kept = λ i h. refl;
          taken = λ i h. inr (h, refl);
        },
      ))
  | inr n ↦ elim (List-cases s.free) [
    | inl e ↦ rw (n, kalloc-none s e) (inr (refl, e))
    | inr (p, ps, e) ↦
        rw (n, kalloc-some s p ps e)
          (inl (p, tabled s g v p ps t e n, refl, tabled-Walked s g v p ps t e n))
  ]
]
