-- ===== src/Sysfile/Tests.antt =====
-- A process with two open descriptors; file 1 is also open elsewhere.
use mit_xv.Prelude.{
  ℕ, zero, suc, ◌+◌, ◌<◌, ◌≡◌, refl, ◌≢◌, ◌⊎◌, true, false, none, some, [], ◌∷◌, arith, ◌==◌,
  if◌then◌else◌, get_elem?, set, replicate, ok,
}
use mit_xv.File.{File, Closes, fd_inode, closes_nothing, filedup}
use mit_xv.Sysfile.{
  Fds, argfd, fdalloc_from, fdalloc, dup_at, dup_file, sys_dup, sys_close, pipe_fds,
}
use mit_xv.Sysfile.Counts.{uses, ref_of, Counted, Given}
use mit_xv.Sysfile.Refs.{sys_dup_lem, sys_close_lem}

abbrev one_file : ℕ → File
one_file n = record {
  kind = fd_inode;
  ref = n;
  readable = true;
  writable = true;
  pipe = 0;
  ip = 7;
  off = 0;
}

abbrev state : Fds
state = record { ofile = some 0 ∷ some 1 ∷ replicate 14 none; files = one_file 1 ∷ one_file 2 ∷ [] }

abbrev elsewhere : ℕ → ℕ
elsewhere f = if f == 1 then 1 else 0

state-Counted : Counted elsewhere state
state-Counted = record { counts = λ f. match_count f; size = refl }
  where
    match_count : (f : ℕ) → ref_of state.files f ≡ uses f state.ofile + elsewhere f
    match_count zero = refl
    match_count (suc zero) = refl
    match_count (suc (suc f)) =
        let a : (suc (suc f) == 0) ≡ false = ground arith in
        let b : (suc (suc f) == 1) ≡ false = ground arith in rw (a, b) refl

sys_dup_lem_example :
    ((f k : ℕ) × (s' : Fds) × (argfd 1 state ≡ some f)
      × (sys_dup 1 state ≡ ok (some k, s'))
      × Given f state.ofile k s'.ofile
      × Counted elsewhere s')
    ⊎ (sys_dup 1 state ≡ ok (none, state))
      × ((argfd 1 state ≡ none) ⊎ ((k : ℕ) → get_elem? state.ofile k ≢ some none))
sys_dup_lem_example = sys_dup_lem elsewhere 1 state state-Counted

sys_close_lem_example :
    ((f : ℕ) × (c : Closes) × (s' : Fds) × (argfd 0 state ≡ some f)
      × (sys_close 0 state ≡ ok (true, c, s'))
      × Counted elsewhere s'
      × (s'.ofile ≡ set state.ofile 0 none)
      × (1 < uses f state.ofile + elsewhere f → c ≡ closes_nothing))
    ⊎ (sys_close 0 state ≡ ok (false, closes_nothing, state)) × (argfd 0 state ≡ none)
sys_close_lem_example = sys_close_lem elsewhere 0 state state-Counted

-- Descriptor 2 is the first free one, and closing descriptor 0 puts inode 7.
sys_dup_runs :
    sys_dup 1 state
    ≡ ok (
      some 2,
      record {
        ofile = some 0 ∷ some 1 ∷ some 1 ∷ replicate 13 none;
        files = one_file 1 ∷ one_file 3 ∷ [];
      },
    )
unfolding sys_dup dup_file argfd fdalloc fdalloc_from dup_at filedup
sys_dup_runs = refl

pipe_runs : pipe_fds 0 1 (record state { ofile = replicate 16 none }) ≡ ok (some (0, 1), state)
unfolding pipe_fds fdalloc fdalloc_from
pipe_runs = refl
