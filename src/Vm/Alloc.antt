-- ===== src/Vm/Alloc.antt =====
-- allocuvm of vm.c: its loop, and the calls when it is out of memory.
use mit_xv.Prelude.{
  ℕ, zero, suc, ◌+◌, ◌-◌, ◌*◌, ◌≤◌, ◌<◌, ◌≡◌, refl, ap, ◌∙◌, subst, inl, inr, true, false, none,
  List, [], ◌∷◌, arith, ltb, leb, List-cases, Outcome,
}
use mit_xv.Vm.{
  Vm, kern_pages, pgsize, pages_up, is_present, is_page, walkpgdir, map_at, map_page, give_back,
  alloc_at, alloc_pages, allocuvm,
}
use mit_xv.Vm.Walk.{pte_of, IsFree}
use mit_xv.Vm.Table.{kalloc-none, kalloc-some, walkpgdir_lem}
use mit_xv.Vm.Release.{Space, with_free}
use mit_xv.Vm.Dealloc.{deallocuvm_lem}
use mit_xv.Vm.Grow.{zeroed, p_free, Tables-zeroed, Space-zeroed}
use mit_xv.Vm.Grown.{Extended, after, page-Extended, maps}
use mit_xv.Vm.Undo.{Released-Restored, page-Restored, gives_page}
use mit_xv.Vm.Steps.{Extended-nothing, Extended-join, undo-Undone, Allocs}

module _ (first g : ℕ) (pos : 0 < first) (s : Vm) (oldsz newsz : ℕ)
    (pages : (r : ℕ) → IsFree s r → is_page first r ≡ true)
    (gap : (u : ℕ) → pages_up oldsz ≤ u → u < pages_up newsz → is_present (pte_of s g u) ≡ false)
    (small : newsz < kern_pages * pgsize) where
  -- What is left to do from a state on.
  abbrev Ends : Outcome (ℕ × Vm) → Type 0
  Ends call = Allocs first s g (pages_up oldsz) (pages_up newsz) newsz call

  no_page :
      (k v : ℕ) (t : Vm)
      → pages_up oldsz ≤ v
      → v < pages_up newsz
      → Extended first s g (pages_up oldsz) v t
      → t.free ≡ []
      → Ends (alloc_pages (suc k) first g v oldsz newsz t)
  unfolding alloc_pages alloc_at give_back
  no_page k v t le lt x e =
      let (t', e', r) =
        (deallocuvm_lem first g pos newsz oldsz t x.space (omega arith)).0 (omega arith) in
      rw (kalloc-none t e, e')
        (inr (
          t',
          refl,
          undo-Undone first s g (pages_up oldsz) v (pages_up newsz) t t' (omega arith) x
              (Released-Restored first t g (pages_up oldsz) (pages_up newsz) t' r),
        ))

  no_table :
      (k v p : ℕ) (ps : List ℕ) (t : Vm) (f : t.free ≡ p ∷ ps)
      → pages_up oldsz ≤ v
      → v < pages_up newsz
      → (x : Extended first s g (pages_up oldsz) v t)
      → walkpgdir g v true (zeroed first t g p ps f x.space)
        ≡ (none, zeroed first t g p ps f x.space)
      → Ends (alloc_pages (suc k) first g v oldsz newsz t)
  unfolding alloc_pages alloc_at give_back map_page map_at
  no_table k v p ps t f le lt x walk =
      let page = pages p (x.free_before p (p_free first t g p ps f x.space)) in
      let (t', e', r) =
        (deallocuvm_lem first g pos newsz oldsz (zeroed first t g p ps f x.space)
            (Space-zeroed first t g p ps f x.space) (omega arith)).0
          (omega arith) in
      let back =
        page-Restored first t g p ps f x.space (pages_up oldsz) (pages_up newsz) (omega arith) t'
          r in
      rw
        (
          kalloc-some t p ps f,
          walk,
          e',
          gives_page first t g p ps f x.space (pages_up oldsz) (pages_up newsz) (omega arith) t' r
              page,
        )
        (inr (
          with_free p t',
          refl,
          undo-Undone first s g (pages_up oldsz) v (pages_up newsz) t (with_free p t') (omega arith)
              x back,
        ))

  alloc_pages-Allocs :
      (k v : ℕ) (t : Vm)
      → pages_up oldsz ≤ v
      → v + k ≡ pages_up newsz
      → Extended first s g (pages_up oldsz) v t
      → Ends (alloc_pages k first g v oldsz newsz t)
  unfolding alloc_pages alloc_at
  alloc_pages-Allocs zero v t le fuel x =
      let e : v ≡ pages_up newsz = omega arith in
      inl (t, refl, subst (λ y. Extended first s g (pages_up oldsz) y t) e x)
  alloc_pages-Allocs (suc k) v t le fuel x = elim (List-cases t.free) [
    | inl e ↦ no_page k v t le (omega arith) x e
    | inr (p, ps, f) ↦
        elim (walkpgdir_lem g v (zeroed first t g p ps f x.space)
          (Tables-zeroed first t g p ps f x.space)) [
            | inr (walk, none_left) ↦ no_table k v p ps t f le (omega arith) x walk
            | inl (q, t', walk, w) ↦
                let page = pages p (x.free_before p (p_free first t g p ps f x.space)) in
                let unmapped : is_present (pte_of t g v) ≡ false =
                  ap is_present (x.outside v (inr (omega arith))) ∙ gap v le (omega arith) in
                let e = maps first t g v p ps f x.space page q t' w walk unmapped in
                let step = page-Extended first t g v p ps f x.space page q t' w in
                let next = after first t g v p ps f x.space page q t' w in
                rw (kalloc-some t p ps f, e)
                  (alloc_pages-Allocs k (v + 1) next (omega arith) (omega arith) (
                    Extended-join first s g (pages_up oldsz) v (v + 1) t next le (omega arith)
                      (omega arith) x step))
          ]
  ]

  -- `allocuvm` of an address space that owns its pages, to a size below KERNBASE that is not
  -- smaller, where the new virtual pages are unmapped and the free pages lie in the memory of
  -- kalloc, returns the new size with a page of its own, which was free and is full of zeros,
  -- for the user to read and write at each new virtual page, or 0 with none of them mapped and
  -- each page that was free free again or a page table. Either way all other entries stay.
  pub allocuvm_lem : Space first s g → oldsz ≤ newsz → Ends (allocuvm first g oldsz newsz s)
  unfolding allocuvm
  allocuvm_lem sp le =
      let b : leb (kern_pages * pgsize) newsz ≡ false = ground arith in
      let c : ltb newsz oldsz ≡ false = ground arith in
      rw (b, c)
        (alloc_pages-Allocs (pages_up newsz - pages_up oldsz) (pages_up oldsz) s (omega arith)
          (omega arith) (Extended-nothing first s g (pages_up oldsz) sp))
