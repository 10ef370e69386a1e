-- ===== src/Syscall/Tests.antt =====
-- A process of 100 bytes, whose stack pointer is 40: argument 0 is the word at 44, argument 1 the
-- word at 48, and a string stands at 60.
use mit_xv.Prelude.{
  ◌+◌, ◌^◌, ◌≤◌, ◌<◌, ◌≡◌, refl, ◌||◌, none, some, [], ◌∷◌, arith, ◌==◌, if◌then◌else◌,
}
use mit_xv.Syscall.{User, word_at, fetchint, scan_str, fetchstr, argint, argptr, argstr, syscall}
use mit_xv.Syscall.Bounds.{arg_at, argptr_lem}

abbrev user : User
user = record {
  sz = 100;
  esp = 40;
  mem = λ a. if (a == 44) || (a == 48) then 60 else (if (a == 60) || (a == 61) then 97 else 0);
}

argstr_runs :
    (argstr user 0 ≡ some (60, 2)) × (argptr user 1 40 ≡ some 60) × (argptr user 1 41 ≡ none)
unfolding argstr argptr argint fetchint fetchstr scan_str
argstr_runs = (refl, refl, refl)

syscall_runs :
    (syscall (none ∷ some (λ s. (7, s + 1)) ∷ []) 1 5 ≡ (7, 6))
    × (syscall (none ∷ some (λ s. (7, s + 1)) ∷ []) 0 5 ≡ (4294967295, 5))
    × (syscall (none ∷ some (λ s. (7, s + 1)) ∷ []) 2 5 ≡ (4294967295, 5))
unfolding syscall
syscall_runs = (refl, refl, refl)

argptr_lem_example :
    (argptr user 1 40 ≡ some 60
      → (arg_at user 1 + 4 ≤ user.sz)
        × (word_at user.mem (arg_at user 1) ≡ 60)
        × (40 < 2 ^ 31)
        × (60 < user.sz)
        × (60 + 40 ≤ user.sz))
    × (arg_at user 1 + 4 ≤ user.sz
        → word_at user.mem (arg_at user 1) ≡ 60
        → 40 < 2 ^ 31
        → 60 < user.sz
        → 60 + 40 ≤ user.sz
        → argptr user 1 40 ≡ some 60)
argptr_lem_example = argptr_lem user 1 40 60 (omega arith) (omega arith)
