-- ===== src/CString/Tests.antt =====
-- A memory with "abc" at 10, "abd" at 20, and 7 everywhere else.
use mit_xv.Prelude.{ℕ, ◌+◌, ◌≡◌, refl, ltb, ◌==◌, if◌then◌else◌}
use mit_xv.CString.{memmove, memcmp, strncmp, copy_up, copy_down}

abbrev word : ℕ → ℕ → ℕ → ℕ
word start last a =
    if a == start
    then 97
    else (if a == start + 1
        then 98
        else (if a == start + 2 then last else (if a == start + 3 then 0 else 7)))

abbrev mem : ℕ → ℕ
mem a = if ltb a 15 then word 10 99 a else word 20 100 a

overlap_runs :
    (memmove 11 10 3 mem 11 ≡ 97) × (memmove 11 10 3 mem 13 ≡ 99) × (memmove 9 10 3 mem 9 ≡ 97)
unfolding memmove copy_up copy_down
overlap_runs = (refl, refl, refl)

compare_runs : (strncmp 10 20 3 mem ≡ 4294967295) × (memcmp 20 10 3 mem ≡ 1)
unfolding strncmp memcmp
compare_runs = (refl, refl)
