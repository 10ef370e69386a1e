-- ===== src/Console/Tests.antt =====
-- An empty ring whose indices are about to wrap.
use mit_xv.Prelude.{◌≡◌, refl, false, [], ◌∷◌, arith, ◌==◌, if◌then◌else◌}
use mit_xv.Console.{Input, kill_line, type_char, got, consoleread}
use mit_xv.Console.Ring.{window, Holds}

abbrev fresh : Input
fresh = record { buf = λ _. 0; r = 4294967295; w = 4294967295; e = 4294967295; out = [] }

-- "ab", the first byte at the last index.
abbrev two_typed : Input
two_typed = record fresh { buf = λ j. if j == 127 then 97 else (if j == 0 then 98 else 0); e = 1 }

abbrev line_ready : Input
line_ready = record two_typed { w = 1 }

line_ready-Holds : Holds line_ready (97 ∷ 98 ∷ []) []
unfolding window
line_ready-Holds = record {
  r_word = omega arith;
  w_at = refl;
  e_at = refl;
  is_ready = refl;
  is_line = refl;
  fits = omega arith;
  open_line = tt;
}

kill_runs : ((type_char 21 two_typed).0.e ≡ 4294967295) × ((type_char 8 two_typed).0.e ≡ 0)
unfolding type_char kill_line
kill_runs = (refl, refl)

read_runs : (consoleread false 1 1 line_ready).0 ≡ got (97 ∷ [])
unfolding consoleread
read_runs = refl
