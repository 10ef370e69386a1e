-- ===== src/User/Tests.antt =====
-- Runs of grep, wc and printint.
use mit_xv.Prelude.{ℕ, ◌≤◌, ◌<◌, ◌≡◌, refl, ◌↔◌, true, false, List, [], ◌∷◌, arith, length}
use mit_xv.User.Grep.{match, match_from, matchhere, match_one, matchstar, Matches, match-Matches}
use mit_xv.User.Wc.{wc, count_reads, count_chars, count_char}
use mit_xv.User.Print.{printint, put_digits, atoi, atoi-printint}

-- "a.*c$"
abbrev pattern : List ℕ
pattern = 97 ∷ 46 ∷ 42 ∷ 99 ∷ 36 ∷ []

match_runs :
    (match pattern (98 ∷ 97 ∷ 98 ∷ 99 ∷ []) ≡ true) × (match pattern (97 ∷ 99 ∷ 98 ∷ []) ≡ false)
unfolding match match_from matchhere match_one matchstar
match_runs = (refl, refl)

match-Matches_example :
    (match pattern (98 ∷ 97 ∷ 98 ∷ 99 ∷ []) ≡ true) ↔ Matches pattern (98 ∷ 97 ∷ 98 ∷ 99 ∷ [])
match-Matches_example = match-Matches pattern (98 ∷ 97 ∷ 98 ∷ 99 ∷ [])

-- "ab c\n" in two reads.
abbrev reads : List (List ℕ)
reads = (97 ∷ 98 ∷ []) ∷ (32 ∷ 99 ∷ 10 ∷ []) ∷ []

wc_runs : wc reads ≡ record { l = 1; w = 2; c = 5; inword = false }
unfolding wc count_reads count_chars count_char
wc_runs = refl

printint_runs :
    (printint 4294967254 10 true ≡ 45 ∷ 52 ∷ 50 ∷ [])
    × (printint 48879 16 false ≡ 66 ∷ 69 ∷ 69 ∷ 70 ∷ [])
unfolding printint put_digits
printint_runs = (refl, refl)

atoi-printint_example :
    (1907 < 2147483648 → atoi (printint 1907 10 true) ≡ 1907)
    × (length (printint 1907 10 true) ≤ 11)
atoi-printint_example = atoi-printint 1907 true (omega arith)
