-- ===== src/Syscall/Bounds.antt =====
-- The system calls of syscall.c and the memory of the process.
use mit_xv.Prelude.{
  ℕ, zero, suc, ◌+◌, ◌-◌, ◌*◌, ◌^◌, ◌≤◌, ◌<◌, ◌≡◌, refl, sym, ap, ◌∙◌, subst, ◌⊎◌, inl, inr, true,
  ◌||◌, none, some, arith, ltb, leb, ◌==◌, if◌then◌else◌, leb→le, ==→eq, Bool-cases, Option-cases,
  add32,
}
use mit_xv.CString.Strings.{no_nul}
use mit_xv.Syscall.{User, word_at, fetchint, scan_str, fetchstr, argint, is_negative, argptr}

-- A process has less than half of the address space; `fetchint` then reads the word at `addr` just
-- if its four bytes lie below `sz`.
pub fetchint_lem :
    (u : User) (addr : ℕ)
    → u.sz ≤ 2 ^ 31
    → addr < 2 ^ 32
    → fetchint u addr ≡ (if leb (addr + 4) u.sz then some (word_at u.mem addr) else none)
unfolding fetchint
fetchint_lem u addr small word = ground arith

-- Where the n-th argument of the system call lies.
abbrev pub arg_at : User → ℕ → ℕ
arg_at u n = add32 (add32 u.esp 4) (4 * n)

-- `argptr` returns the n-th argument as a pointer just if that argument lies in the memory of the
-- process, and `size`, not negative, bytes from the pointer on, which itself lies in it.
pub argptr_lem :
    (u : User) (n size p : ℕ)
    → u.sz ≤ 2 ^ 31
    → size < 2 ^ 32
    → (argptr u n size ≡ some p
        → (arg_at u n + 4 ≤ u.sz)
          × (word_at u.mem (arg_at u n) ≡ p)
          × (size < 2 ^ 31)
          × (p < u.sz)
          × (p + size ≤ u.sz))
      × (arg_at u n + 4 ≤ u.sz
          → word_at u.mem (arg_at u n) ≡ p
          → size < 2 ^ 31
          → p < u.sz
          → p + size ≤ u.sz
          → argptr u n size ≡ some p)
unfolding argptr argint
argptr_lem u n size p small word = (
  λ e. elim (Bool-cases (leb (arg_at u n + 4) u.sz)) [
    | inr o ↦ cc (rw (argptr, argint, fetched, o) at e)
    | inl i ↦
        let e' = rw (argptr, argint, fetched, i) at e in
        inner (word_at u.mem (arg_at u n)) (leb→le (arg_at u n + 4) u.sz i) e'
  ],
  λ here val pos in_ whole.
      let i : leb (arg_at u n + 4) u.sz ≡ true = ground arith in
      rw (argptr, argint, fetched, i, val) (outer in_ pos whole),
)
  where
    fetched :
        fetchint u (arg_at u n)
        ≡ (if leb (arg_at u n + 4) u.sz then some (word_at u.mem (arg_at u n)) else none)
    fetched = fetchint_lem u (arg_at u n) small (omega arith)

    inner :
        (w : ℕ)
        → arg_at u n + 4 ≤ u.sz
        → (if is_negative size || (leb u.sz w || ltb u.sz (add32 w size)) then none else some w)
          ≡ some p
        → (arg_at u n + 4 ≤ u.sz) × (w ≡ p) × (size < 2 ^ 31) × (p < u.sz) × (p + size ≤ u.sz)
    inner w here e = ground arith

    outer :
        p < u.sz
        → size < 2 ^ 31
        → p + size ≤ u.sz
        → (if is_negative size || (leb u.sz p || ltb u.sz (add32 p size)) then none else some p)
          ≡ some p
    outer a b c = ground arith

scan_str-found :
    (n addr len k : ℕ) (mem : ℕ → ℕ)
    → scan_str n addr len mem ≡ some k
    → (d : ℕ) × (k ≡ len + d) × (d < n) × (no_nul d (addr + len) mem ≡ true) × (mem (addr + k) ≡ 0)
unfolding scan_str no_nul
scan_str-found zero addr len k mem e = cc
scan_str-found (suc n) addr len k mem e = elim (Bool-cases (mem (addr + len) == 0)) [
  | inl y ↦
      let e' : some len ≡ some k = rw y at e in
      let same : len ≡ k = cc in
      (
        0,
        omega arith,
        omega arith,
        refl,
        ap (λ t. mem (addr + t)) (sym same) ∙ ==→eq (mem (addr + len)) 0 y,
      )
  | inr go ↦
      let (d, q, lt, live, z) = scan_str-found n addr (len + 1) k mem (rw go at e) in
      let a : addr + (len + 1) ≡ addr + len + 1 = omega arith in
      (suc d, omega arith, omega arith, rw go (rw a at live), z)
]

scan_str-none :
    (n addr len : ℕ) (mem : ℕ → ℕ)
    → scan_str n addr len mem ≡ none
    → no_nul n (addr + len) mem ≡ true
unfolding scan_str no_nul
scan_str-none zero addr len mem e = refl
scan_str-none (suc n) addr len mem e = elim (Bool-cases (mem (addr + len) == 0)) [
  | inl y ↦ cc (rw y at e)
  | inr go ↦
      let a : addr + (len + 1) ≡ addr + len + 1 = omega arith in
      rw go (rw a at (scan_str-none n addr (len + 1) mem (rw go at e)))
]

-- `fetchstr` of an address returns it with the length of the string there, whose final 0 lies
-- below `sz`; or -1 when the address does not, or no 0 follows it below `sz`.
pub fetchstr_lem :
    (u : User) (addr : ℕ)
    → ((k : ℕ) × (fetchstr u addr ≡ some (addr, k))
        × (addr + k < u.sz)
        × (no_nul k addr u.mem ≡ true)
        × (u.mem (addr + k) ≡ 0))
      ⊎ (fetchstr u addr ≡ none) × (no_nul (u.sz - addr) addr u.mem ≡ true)
unfolding fetchstr no_nul
fetchstr_lem u addr = elim (Bool-cases (leb u.sz addr)) [
  | inl y ↦ let z : u.sz - addr ≡ 0 = ground arith in rw (y, z) (inr (refl, refl))
  | inr inside ↦ rw inside (elim (Option-cases (scan_str (u.sz - addr) addr 0 u.mem)) [
    | inl n ↦
        let a : addr + 0 ≡ addr = omega arith in
        rw n (inr (refl, rw a at (scan_str-none (u.sz - addr) addr 0 u.mem n)))
    | inr (k, e) ↦
        let (d, q, lt, live, z) = scan_str-found (u.sz - addr) addr 0 k u.mem e in
        let a : addr + 0 ≡ addr = omega arith in
        let same : d ≡ k = omega arith in
        rw e (
          inl
            (k, refl, omega arith, subst (λ t. no_nul t addr u.mem ≡ true) same (rw a at live), z))
  ])
]
