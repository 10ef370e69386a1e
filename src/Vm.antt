-- ===== src/Vm.antt =====
-- vm.c: two-level page tables in physical memory. A page is its number, the address over 4096, so
-- `P2V` and `V2P` are the identity; a page table or directory is a page of 1024 words. An address
-- in memory is a page and the index of a word there.
pub mod Copy
pub mod Walk
pub mod Table
pub mod Map
pub mod Release
pub mod Dealloc
pub mod Tests
pub mod Range
pub mod FreePage
pub mod Grow
pub mod Grown
pub mod Undo
pub mod Steps
pub mod Alloc
use mit_xv.Prelude.{
  ℕ, zero, suc, ◌+◌, ◌-◌, ◌*◌, ◌/◌, ◌%◌, Bool, true, false, not, ◌&&◌, Option, none, some, List, [],
  ◌∷◌, ltb, leb, ◌==◌, if◌then◌else◌, update, Outcome, ◌>>=◌, ◌>>◌, ensure, ok, panic,
}

-- `KERNBASE` and `PHYSTOP`, in pages
abbrev pub kern_pages : ℕ
kern_pages = 524288

abbrev pub phys_pages : ℕ
phys_pages = 57344

abbrev pub pgsize : ℕ
pgsize = 4096

-- The free pages of kalloc.c, the next first, and the words of the memory by page and index.
pub record Vm : Type 0 where
  pub free : List ℕ
  pub mem : ℕ → ℕ → ℕ

abbrev pub store : ℕ → ℕ → ℕ → Vm → Vm
store p i w s = record s { mem = update s.mem p (update (s.mem p) i w) }

-- `memset` of a page
abbrev pub fill : ℕ → ℕ → Vm → Vm
fill p w s = record s { mem = update s.mem p (λ i. w) }

-- `kalloc` and `kfree`; `first` is the first page after the kernel.
unfoldable pub kalloc : Vm → Option (ℕ × Vm)
kalloc s = elim s.free [ [] ↦ none | p ∷ ps ↦ some (p, record s { free = ps }) ]

abbrev pub is_page : ℕ → ℕ → Bool
is_page first p = leb first p && ltb p phys_pages

unfoldable pub kfree : ℕ → ℕ → Vm → Outcome Vm
kfree first p s = do
  ensure (is_page first p) "kfree"
  ok (fill p 16843009 (record s { free = p ∷ s.free }))

-- `PTE_P`, `PTE_U`, `PTE_ADDR` as a page, and `PTE_FLAGS`
abbrev pub is_present : ℕ → Bool
is_present e = e % 2 == 1

abbrev pub is_user : ℕ → Bool
is_user e = e / 4 % 2 == 1

abbrev pub page_of : ℕ → ℕ
page_of e = e / pgsize

abbrev pub flags_of : ℕ → ℕ
flags_of e = e % pgsize

-- The entry of a page: `V2P(page) | perm | PTE_P`, for flags `perm` below PGSIZE
abbrev pub entry_for : ℕ → ℕ → ℕ
entry_for p perm = p * pgsize + (perm / 2 * 2 + 1)

-- `walkpgdir` for virtual page `v`: the page table and the index there.
unfoldable pub walkpgdir : ℕ → ℕ → Bool → Vm → Option (ℕ × ℕ) × Vm
walkpgdir g v alloc s =
    if is_present (s.mem g (v / 1024))
    then (some (page_of (s.mem g (v / 1024)), v % 1024), s)
    else (if alloc
        then (elim (kalloc s) [
          | none ↦ (none, s)
          | some (p, s') ↦ (some (p, v % 1024), store g (v / 1024) (entry_for p 7) (fill p 0 s'))
        ])
        else (none, s))

-- The test of `mappages` for a mapping, and the store, at what `walkpgdir` returned.
unfoldable pub map_at : ℕ → ℕ → Option (ℕ × ℕ) → Vm → Outcome (Bool × Vm)
map_at p perm none s = ok (false, s)
map_at p perm (some (t, i)) s = do
  ensure (not (is_present (s.mem t i))) "remap"
  ok (true, store t i (entry_for p perm) s)

-- One round of `mappages`
unfoldable pub map_page : ℕ → ℕ → ℕ → ℕ → Vm → Outcome (Bool × Vm)
map_page g v p perm s = let r = walkpgdir g v true s in map_at p perm r.0 r.1

-- The loop of `mappages` over `n + 1` virtual pages from `v` on, to pages from `p` on; false is -1.
unfoldable pub map_pages : ℕ → ℕ → ℕ → ℕ → ℕ → Vm → Outcome (Bool × Vm)
map_pages zero g v p perm s = map_page g v p perm s
map_pages (suc n) g v p perm s = do
  (mapped, s') ← map_page g v p perm s
  if mapped then map_pages n g (v + 1) (p + 1) perm s' else ok (false, s')

-- `va` and `size` in bytes, with `va + size` in the address space; `p` is the page of `pa`.
unfoldable pub mappages : ℕ → ℕ → ℕ → ℕ → ℕ → Vm → Outcome (Bool × Vm)
mappages g va size p perm s =
    map_pages ((va + size - 1) / pgsize - va / pgsize) g (va / pgsize) p perm s

-- What `deallocuvm` does at a page table entry: a page that is mapped is freed.
unfoldable pub free_at : ℕ → ℕ → ℕ → Vm → Outcome Vm
free_at first t i s =
    if is_present (s.mem t i)
    then (do
      ensure (not (page_of (s.mem t i) == 0)) "kfree"
      s' ← kfree first (page_of (s.mem t i)) s
      ok (store t i 0 s'))
    else ok s

-- One round of its loop, at what `walkpgdir` returned, and the next virtual page.
unfoldable pub dealloc_at : ℕ → Option (ℕ × ℕ) → Vm → Outcome Vm
dealloc_at first none s = ok s
dealloc_at first (some (t, i)) s = free_at first t i s

unfoldable pub next_page : ℕ → Option (ℕ × ℕ) → ℕ
next_page v none = (v / 1024 + 1) * 1024
next_page v (some r) = v + 1

-- The loop from virtual page `v` on, for pages below byte `oldsz`, on fuel.
unfoldable pub dealloc_pages : ℕ → ℕ → ℕ → ℕ → ℕ → Vm → Outcome Vm
dealloc_pages zero first g v oldsz s = ok s
dealloc_pages (suc k) first g v oldsz s =
    if ltb (v * pgsize) oldsz
    then (do
      s' ← dealloc_at first (walkpgdir g v false s).0 s
      dealloc_pages k first g (next_page v (walkpgdir g v false s).0) oldsz s')
    else ok s

-- `PGROUNDUP`, as a page, and the pages below a size.
abbrev pub pages_up : ℕ → ℕ
pages_up sz = (sz + 4095) / pgsize

unfoldable pub deallocuvm : ℕ → ℕ → ℕ → ℕ → Vm → Outcome (ℕ × Vm)
deallocuvm first g oldsz newsz s =
    if leb oldsz newsz
    then ok (oldsz, s)
    else (do s' ← dealloc_pages (pages_up oldsz) first g (pages_up newsz) oldsz s; ok (newsz, s'))

-- What `allocuvm` does when it is out of memory.
unfoldable pub give_back : ℕ → ℕ → ℕ → ℕ → Vm → Outcome (ℕ × Vm)
give_back first g oldsz newsz s = do (sz, s') ← deallocuvm first g newsz oldsz s; ok (0, s')

-- One round of the loop of `allocuvm` at virtual page `v`, with what `kalloc` returned and the
-- rounds after it.
unfoldable pub alloc_at :
    ℕ → ℕ → ℕ → ℕ → ℕ → Vm → (Vm → Outcome (ℕ × Vm)) → Option (ℕ × Vm) → Outcome (ℕ × Vm)
alloc_at first g v oldsz newsz s next none = give_back first g oldsz newsz s
alloc_at first g v oldsz newsz s next (some (p, s')) = do
  (mapped, s'') ← map_page g v p 6 (fill p 0 s')
  if mapped
      then next s''
      else (do (sz, t) ← give_back first g oldsz newsz s''; t' ← kfree first p t; ok (0, t'))

-- The loop of `allocuvm` from virtual page `v` on, for `k` pages.
unfoldable pub alloc_pages : ℕ → ℕ → ℕ → ℕ → ℕ → ℕ → Vm → Outcome (ℕ × Vm)
alloc_pages zero first g v oldsz newsz s = ok (newsz, s)
alloc_pages (suc k) first g v oldsz newsz s =
    alloc_at first g v oldsz newsz s (alloc_pages k first g (v + 1) oldsz newsz) (kalloc s)

unfoldable pub allocuvm : ℕ → ℕ → ℕ → ℕ → Vm → Outcome (ℕ × Vm)
allocuvm first g oldsz newsz s =
    if leb (kern_pages * pgsize) newsz
    then ok (0, s)
    else (if ltb newsz oldsz
        then ok (oldsz, s)
        else alloc_pages (pages_up newsz - pages_up oldsz) first g (pages_up oldsz) oldsz newsz s)

-- The loop of `freevm` over the page tables, from entry `i` on for `k` entries.
unfoldable pub free_tables : ℕ → ℕ → ℕ → ℕ → Vm → Outcome Vm
free_tables zero first g i s = ok s
free_tables (suc k) first g i s =
    if is_present (s.mem g i)
    then (do s' ← kfree first (page_of (s.mem g i)) s; free_tables k first g (i + 1) s')
    else free_tables k first g (i + 1) s

unfoldable pub freevm : ℕ → ℕ → Vm → Outcome Vm
freevm first g s = do
  ensure (not (g == 0)) "freevm: no pgdir"
  (sz, s') ← deallocuvm first g (kern_pages * pgsize) 0 s
  s'' ← free_tables 1024 first g 0 s'
  kfree first g s''

-- `*pte &= ~PTE_U`
unfoldable pub clearpteu : ℕ → ℕ → Vm → Outcome Vm
clearpteu g va s = elim (walkpgdir g (va / pgsize) false s).0 [
  | none ↦ panic "clearpteu"
  | some (t, i) ↦ ok (store t i (s.mem t i - (if is_user (s.mem t i) then 4 else 0)) s)
]
