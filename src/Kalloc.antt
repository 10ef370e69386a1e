-- ===== src/Kalloc.antt =====
-- kalloc.c: the free pages of physical memory, linked through their own first words. What runs
-- under `kmem.lock` is one step.
pub mod Pages
pub mod Range
pub mod Owners
mod Tests
use mit_xv.Prelude.{
  ℕ, zero, suc, ◌+◌, ◌-◌, ◌*◌, ◌/◌, ◌%◌, Bool, ◌&&◌, ltb, leb, ◌==◌, if◌then◌else◌, update, Outcome,
  and_then, ◌>>=◌, ◌>>◌, ensure, add32, sub32, ok, panic,
}

abbrev pub page_size : ℕ
page_size = 4096

abbrev pub kern_base : ℕ
kern_base = 2147483648

abbrev pub phys_stop : ℕ
phys_stop = 234881024

-- `PGROUNDUP`, on `uint`
abbrev pub round_up : ℕ → ℕ
round_up a = add32 a (page_size - 1) / page_size * page_size

-- `V2P`
abbrev pub v2p : ℕ → ℕ
v2p a = sub32 a kern_base

-- `kmem.freelist`, with 0 for the null pointer, and the words of the memory by their address.
pub record Kmem : Type 0 where
  pub freelist : ℕ
  pub mem : ℕ → ℕ

abbrev pub in_page : ℕ → ℕ → Bool
in_page v a = leb v a && ltb a (v + page_size)

-- `memset(v, 1, PGSIZE)`: each word gets the byte 1 four times.
abbrev pub fill_page : ℕ → (ℕ → ℕ) → ℕ → ℕ
fill_page v mem a = if in_page v a then 16843009 else mem a

-- The page at `v` passes the test of `kfree`; `kernel_end` is the symbol `end` of the linker.
abbrev pub is_page : ℕ → ℕ → Bool
is_page kernel_end v = (v % page_size == 0) && leb kernel_end v && ltb (v2p v) phys_stop

pub kfree : ℕ → ℕ → Kmem → Outcome Kmem
kfree kernel_end v k = do
  ensure (is_page kernel_end v) "kfree"
  ok (record { freelist = v; mem = update (fill_page v k.mem) v k.freelist })

pub kalloc : Kmem → ℕ × Kmem
kalloc k =
    if k.freelist == 0 then (0, k) else (k.freelist, record k { freelist = k.mem k.freelist })

-- The loop of `freerange` from `p` on; each round takes a unit of fuel.
unfoldable pub free_pages : ℕ → ℕ → ℕ → ℕ → Kmem → Outcome Kmem
free_pages zero kernel_end p vend k = panic "out of fuel"
free_pages (suc n) kernel_end p vend k =
    let freed =
      and_then (free_pages n kernel_end (add32 p page_size) vend) (kfree kernel_end p k) in
    if leb (add32 p page_size) vend then freed else ok k

pub freerange : ℕ → ℕ → ℕ → Kmem → Outcome Kmem
freerange kernel_end vstart vend k =
    free_pages (vend / page_size + 1) kernel_end (round_up vstart) vend k
