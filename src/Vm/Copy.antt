-- ===== src/Vm/Copy.antt =====
-- setupkvm, copyuvm, uva2ka and copyout of vm.c. Bytes of a page
-- are those of its words, so a copy of a page copies its words; copyout works on bytes, here a
-- memory of their own, by page and offset.
use mit_xv.Prelude.{
  ℕ, zero, suc, ◌+◌, ◌-◌, ◌*◌, ◌/◌, ◌%◌, min, Bool, true, false, ◌&&◌, Option, none, some, List, [],
  ◌∷◌, ltb, leb, if◌then◌else◌, update, Outcome, ◌>>=◌, ok, panic,
}
use mit_xv.Vm.{
  Vm, kern_pages, pgsize, fill, is_present, is_user, page_of, flags_of, kalloc, walkpgdir, map_page,
  mappages, freevm,
}

-- `struct kmap`, with its physical range in pages
pub record Kmap : Type 0 where
  pub virt : ℕ
  pub first_page : ℕ
  pub bytes : ℕ
  pub perm : ℕ

-- The array `kmap`; `kdata` is the symbol `data` of the linker.
abbrev pub kmap : ℕ → List Kmap
kmap kdata =
    record { virt = 2147483648; first_page = 0; bytes = 1048576; perm = 2 }
    ∷ record { virt = 2148532224; first_page = 256; bytes = kdata - 2148532224; perm = 0 }
    ∷ record {
      virt = kdata;
      first_page = kdata / pgsize - kern_pages;
      bytes = 234881024 - (kdata - 2147483648);
      perm = 2;
    }
    ∷ record { virt = 4261412864; first_page = 1040384; bytes = 33554432; perm = 2 }
    ∷ []

-- The loop of `setupkvm`; `none` is the null pointer.
unfoldable pub map_kernel : ℕ → ℕ → List Kmap → Vm → Outcome (Option ℕ × Vm)
map_kernel first g [] s = ok (some g, s)
map_kernel first g (k ∷ ks) s = do
  (mapped, s') ← mappages g k.virt k.bytes k.first_page k.perm s
  if mapped then map_kernel first g ks s' else (do s'' ← freevm first g s'; ok (none, s''))

unfoldable pub setupkvm : ℕ → ℕ → Vm → Outcome (Option ℕ × Vm)
setupkvm first kdata s = elim (kalloc s) [
  | none ↦ ok (none, s)
  | some (g, s') ↦ map_kernel first g (kmap kdata) (fill g 0 s')
]

-- `bad: freevm(d); return 0;`
unfoldable pub give_up : ℕ → ℕ → Vm → Outcome (Option ℕ × Vm)
give_up first d s = do s' ← freevm first d s; ok (none, s')

-- The loop of `copyuvm` from virtual page `v` on, for `k` pages, from directory `g` to `d`.
unfoldable pub copy_pages : ℕ → ℕ → ℕ → ℕ → ℕ → Vm → Outcome (Option ℕ × Vm)
copy_pages zero first g d v s = ok (some d, s)
copy_pages (suc k) first g d v s = elim (walkpgdir g v false s).0 [
  | none ↦ panic "copyuvm: pte should exist"
  | some (t, i) ↦
      let e = s.mem t i in
      if is_present e
      then (elim (kalloc s) [
        | none ↦ give_up first d s
        | some (p, s') ↦ (do
          (mapped, s'') ←
              map_page d v p (flags_of e) (record s' { mem = update s'.mem p (s'.mem (page_of e)) })
          if mapped then copy_pages k first g d (v + 1) s'' else give_up first d s'')
      ])
      else panic "copyuvm: page not present"
]

unfoldable pub copyuvm : ℕ → ℕ → ℕ → ℕ → Vm → Outcome (Option ℕ × Vm)
copyuvm first kdata g sz s = do
  (d, s') ← setupkvm first kdata s
  elim d [ none ↦ ok (none, s') | some d' ↦ copy_pages ((sz + 4095) / pgsize) first g d' 0 s' ]

-- The entry that `uva2ka` reads; without a page table it reads the word at address 0.
unfoldable pub entry_read : ℕ → Option (ℕ × ℕ) → Vm → ℕ
entry_read null_word none s = null_word
entry_read null_word (some (t, i)) s = s.mem t i

unfoldable pub uva2ka : ℕ → ℕ → ℕ → Vm → Option ℕ
uva2ka null_word g v s =
    let e = entry_read null_word (walkpgdir g v false s).0 s in
    if is_present e then (if is_user e then some (page_of e) else none) else none

-- `memmove` of `n` bytes from `buf` on to page `p` at `o`
abbrev pub put_bytes : (ℕ → ℕ → ℕ) → ℕ → ℕ → (ℕ → ℕ) → ℕ → ℕ → ℕ → ℕ
put_bytes bytes p o buf n =
    update bytes p (λ j. if leb o j && ltb j (o + n) then buf (j - o) else bytes p j)

-- The loop of `copyout`, on fuel, with what the kernel reads of the page tables in `s`.
unfoldable pub copy_out : ℕ → ℕ → ℕ → ℕ → (ℕ → ℕ) → ℕ → Vm → (ℕ → ℕ → ℕ) → Bool × (ℕ → ℕ → ℕ)
copy_out zero null_word g va buf len s bytes = (true, bytes)
copy_out (suc k) null_word g va buf len s bytes =
    if ltb 0 len
    then (elim (uva2ka null_word g (va / pgsize) s) [
      | none ↦ (false, bytes)
      | some p ↦
          let n = min len (pgsize - va % pgsize) in
          copy_out k null_word g ((va / pgsize + 1) * pgsize) (λ j. buf (n + j)) (len - n) s
            (put_bytes bytes p (va % pgsize) buf n)
    ])
    else (true, bytes)

-- A count of `len` bytes takes part of at most this many pages.
unfoldable pub copyout : ℕ → ℕ → ℕ → (ℕ → ℕ) → ℕ → Vm → (ℕ → ℕ → ℕ) → Bool × (ℕ → ℕ → ℕ)
copyout null_word g va buf len s bytes = copy_out (len / pgsize + 2) null_word g va buf len s bytes
