-- ===== src/Vm/Dealloc.antt =====
-- The loop of deallocuvm of vm.c.
use mit_xv.Prelude.{
  ℕ, zero, suc, ◌+◌, ◌*◌, ◌/◌, ◌%◌, ◌≤◌, ◌<◌, ◌≡◌, refl, ap, ◌∙◌, subst, inl, inr, true, false,
  Option, none, some, arith, ltb, leb, ltb→lt, ltb→le, leb→le, Bool-cases, ok,
}
use mit_xv.Vm.{
  Vm, kern_pages, pgsize, pages_up, is_present, page_of, walkpgdir, free_at, dealloc_at, next_page,
  dealloc_pages, deallocuvm,
}
use mit_xv.Vm.Walk.{pte_of}
use mit_xv.Vm.Release.{Space, walkpgdir-no_alloc}
use mit_xv.Vm.Range.{Released, Released-gap, Released-join}
use mit_xv.Vm.FreePage.{after, page-Released, frees}

module _ (first g : ℕ) (pos : 0 < first) where
  -- Past the range nothing is done.
  past : (k v oldsz : ℕ) (s : Vm) → pages_up oldsz ≤ v → dealloc_pages k first g v oldsz s ≡ ok s
  unfolding dealloc_pages
  past zero v oldsz s le = refl
  past (suc k) v oldsz s le = let b : ltb (v * pgsize) oldsz ≡ false = ground arith in rw b refl

  no_table_there :
      (s : Vm) (v u : ℕ)
      → is_present (s.mem g (v / 1024)) ≡ false
      → v / 1024 ≡ u / 1024
      → is_present (pte_of s g u) ≡ false
  unfolding pte_of
  no_table_there s v u n e =
      let n' : is_present (s.mem g (u / 1024)) ≡ false =
        subst (λ t. is_present (s.mem g t) ≡ false) e n in
      rw n' refl

  -- An entry that maps nothing is passed over.
  skips :
      (s : Vm) (v : ℕ)
      → is_present (s.mem g (v / 1024)) ≡ true
      → is_present (pte_of s g v) ≡ false
      → free_at first (page_of (s.mem g (v / 1024))) (v % 1024) s ≡ ok s
  unfolding free_at pte_of
  skips s v t p =
      let p' : is_present (s.mem (page_of (s.mem g (v / 1024))) (v % 1024)) ≡ false = rw t at p in
      rw p' refl

  over_gap :
      (k v oldsz : ℕ) (s : Vm)
      → Space first s g
      → v * pgsize < oldsz
      → is_present (s.mem g (v / 1024)) ≡ false
      → ((v / 1024 + 1) * 1024 ≤ pages_up oldsz
          → (s' : Vm) × (dealloc_pages k first g ((v / 1024 + 1) * 1024) oldsz s ≡ ok s')
            × Released first s g ((v / 1024 + 1) * 1024) (pages_up oldsz) s')
      → (s' : Vm) × (dealloc_pages k first g ((v / 1024 + 1) * 1024) oldsz s ≡ ok s')
        × Released first s g v (pages_up oldsz) s'
  over_gap k v oldsz s sp lt n rest =
      elim (Bool-cases (leb ((v / 1024 + 1) * 1024) (pages_up oldsz))) [
        | inl y ↦
            let le = leb→le ((v / 1024 + 1) * 1024) (pages_up oldsz) y in
            let (s', e, r) = rest le in
            (
              s',
              e,
              Released-join first s g v ((v / 1024 + 1) * 1024) (pages_up oldsz) s s' (omega arith)
                  le
                  (Released-gap first s g v ((v / 1024 + 1) * 1024) sp
                    (λ u a b. no_table_there s v u n (omega arith)))
                  r,
            )
        | inr o ↦
            let ge : pages_up oldsz ≤ (v / 1024 + 1) * 1024 = ground arith in
            (
              s,
              past k ((v / 1024 + 1) * 1024) oldsz s ge,
              Released-gap first s g v (pages_up oldsz) sp
                  (λ u a b. no_table_there s v u n (omega arith)),
            )
      ]

  dealloc_pages-Released :
      (k v oldsz : ℕ) (s : Vm)
      → Space first s g
      → oldsz ≤ kern_pages * pgsize
      → v ≤ pages_up oldsz
      → pages_up oldsz ≤ v + k
      → (s' : Vm) × (dealloc_pages k first g v oldsz s ≡ ok s')
        × Released first s g v (pages_up oldsz) s'
  unfolding dealloc_pages dealloc_at next_page
  dealloc_pages-Released zero v oldsz s sp small le fuel =
      (s, refl, Released-gap first s g v (pages_up oldsz) sp (λ u a b. absurd (omega arith)))
  dealloc_pages-Released (suc k) v oldsz s sp small le fuel =
      elim (Bool-cases (ltb (v * pgsize) oldsz)) [
        | inr n ↦
            let h = ltb→le (v * pgsize) oldsz n in
            rw n (
              s,
              refl,
              Released-gap first s g v (pages_up oldsz) sp (λ u a b. absurd (omega arith)),
            )
        | inl y ↦
            let lt = ltb→lt (v * pgsize) oldsz y in
            elim (Bool-cases (is_present (s.mem g (v / 1024)))) [
              | inr n ↦
                  let e : (walkpgdir g v false s).0 ≡ none =
                    ap (λ (t : Option (ℕ × ℕ) × Vm). t.0) (walkpgdir-no_alloc g v s) ∙ rw n refl in
                  rw (y, e)
                    (over_gap k v oldsz s sp lt n (λ le'.
                      dealloc_pages-Released k ((v / 1024 + 1) * 1024) oldsz s sp small le'
                        (omega arith)))
              | inl t ↦
                  let e : (walkpgdir g v false s).0
                      ≡ some (page_of (s.mem g (v / 1024)), v % 1024) =
                    ap (λ (t : Option (ℕ × ℕ) × Vm). t.0) (walkpgdir-no_alloc g v s) ∙ rw t refl in
                  elim (Bool-cases (is_present (pte_of s g v))) [
                    | inl p ↦
                        let a = after first s g v sp (omega arith) t p in
                        let r = page-Released first s g v sp (omega arith) t p in
                        let (s', e', r') =
                          dealloc_pages-Released k (v + 1) oldsz a r.space small (omega arith)
                            (omega arith) in
                        rw (y, e, frees first s g v sp (omega arith) t p pos)
                          (
                            s',
                            e',
                            Released-join first s g v (v + 1) (pages_up oldsz) a s' (omega arith)
                                (omega arith) r r',
                          )
                    | inr p ↦
                        let r = Released-gap first s g v (v + 1) sp (only_here s v p) in
                        let (s', e', r') =
                          dealloc_pages-Released k (v + 1) oldsz s sp small (omega arith)
                            (omega arith) in
                        rw (y, e, skips s v t p)
                          (
                            s',
                            e',
                            Released-join first s g v (v + 1) (pages_up oldsz) s s' (omega arith)
                                (omega arith) r r',
                          )
                  ]
            ]
      ]
    where
      only_here :
          (s : Vm) (v : ℕ)
          → is_present (pte_of s g v) ≡ false
          → (u : ℕ) → v ≤ u
          → u < v + 1
          → is_present (pte_of s g u) ≡ false
      only_here s v p u a b =
          let e : v ≡ u = omega arith in subst (λ t. is_present (pte_of s g t) ≡ false) e p

  -- `deallocuvm` to a smaller size, of an address space that owns its pages, frees exactly the
  -- pages that are mapped above the new size and below the old one, each once, and unmaps them; all
  -- other entries stay, and the address space still owns its pages. To a size that is not smaller
  -- it changes nothing.
  pub deallocuvm_lem :
      (oldsz newsz : ℕ) (s : Vm)
      → Space first s g
      → oldsz ≤ kern_pages * pgsize
      → (newsz < oldsz
          → (s' : Vm) × (deallocuvm first g oldsz newsz s ≡ ok (newsz, s'))
            × Released first s g (pages_up newsz) (pages_up oldsz) s')
        × (oldsz ≤ newsz → deallocuvm first g oldsz newsz s ≡ ok (oldsz, s))
  unfolding deallocuvm
  deallocuvm_lem oldsz newsz s sp small = (
    λ lt.
        let b : leb oldsz newsz ≡ false = ground arith in
        let (s', e, r) =
          dealloc_pages-Released (pages_up oldsz) (pages_up newsz) oldsz s sp small (omega arith)
            (omega arith) in
        rw (b, e) (s', refl, r),
    λ le. let b : leb oldsz newsz ≡ true = ground arith in rw b refl,
  )
