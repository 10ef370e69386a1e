-- ===== src/Syscall.antt =====
-- syscall.c: the arguments of system calls, from the memory of the process, and their dispatch. A
-- return value of -1 is `none`; an int is the `uint` of the same bits.
pub mod Bounds
mod Tests
use mit_xv.Prelude.{
  ℕ, zero, suc, ◌+◌, ◌-◌, ◌*◌, ◌^◌, ◌<◌, Bool, not, ◌&&◌, ◌||◌, Option, none, some, List, map, ltb,
  leb, ◌==◌, if◌then◌else◌, length, get_elem?, add32,
}
use mathlib.Core.Option

-- What syscall.c uses of `myproc()`: `sz`, `tf->esp` and the memory of the process, by bytes.
pub record User : Type 0 where
  pub sz : ℕ
  pub esp : ℕ
  pub mem : ℕ → ℕ

-- `*(int*)(addr)`
abbrev pub word_at : (ℕ → ℕ) → ℕ → ℕ
word_at mem a = mem a + mem (a + 1) * 256 + mem (a + 2) * 65536 + mem (a + 3) * 16777216

pub fetchint : User → ℕ → Option ℕ
fetchint u addr =
    if leb u.sz addr || ltb u.sz (add32 addr 4) then none else some (word_at u.mem addr)

-- The loop of `fetchstr`, `n` bytes before `ep`; `len` is `s - *pp`.
unfoldable pub scan_str : ℕ → ℕ → ℕ → (ℕ → ℕ) → Option ℕ
scan_str zero addr len mem = none
scan_str (suc n) addr len mem =
    let rest = scan_str n addr (len + 1) mem in if mem (addr + len) == 0 then some len else rest

-- The pointer and the length.
pub fetchstr : User → ℕ → Option (ℕ × ℕ)
fetchstr u addr =
    if leb u.sz addr
    then none
    else Option.map (λ len. (addr, len)) (scan_str (u.sz - addr) addr 0 u.mem)

pub argint : User → ℕ → Option ℕ
argint u n = fetchint u (add32 (add32 u.esp 4) (4 * n))

-- `size < 0`
abbrev pub is_negative : ℕ → Bool
is_negative size = leb (2 ^ 31) size

pub argptr : User → ℕ → ℕ → Option ℕ
argptr u n size = elim (argint u n) [
  | none ↦ none
  | some i ↦ if is_negative size || (leb u.sz i || ltb u.sz (add32 i size)) then none else some i
]

pub argstr : User → ℕ → Option (ℕ × ℕ)
argstr u n = elim (argint u n) [ none ↦ none | some addr ↦ fetchstr u addr ]

-- `syscall` with the table of the system calls over the state `S` of the kernel: the value put in
-- `eax`, and the state.
pub syscall {ℓ} : {S : Type ℓ} → List (Option (S → ℕ × S)) → ℕ → S → ℕ × S
syscall table num s =
    if ltb 0 num && not (is_negative num) && ltb num (length table)
    then elim (get_elem? table num) [ some (some call) ↦ call s | _ ↦ (2 ^ 32 - 1, s) ]
    else (2 ^ 32 - 1, s)
