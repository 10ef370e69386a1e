-- ===== src/Sysfile.antt =====
-- sysfile.c: the descriptors of a process, dup, close and pipe. A pointer to an open file is its
-- index in the table of file.c; the arguments of the system calls are those that argint gives.
pub mod Refs
mod Tests
pub mod Counts
use mit_xv.Prelude.{
  ℕ, zero, suc, ◌+◌, Bool, true, false, Option, none, some, List, [], ◌∷◌, ltb, if◌then◌else◌,
  get_elem?, set, Outcome, ◌>>=◌, ◌>>◌, ok, panic,
}
use mit_xv.File.{File, Closes, filedup, fileclose, closes_nothing}

-- `NOFILE`
abbrev pub nofile : ℕ
nofile = 16

-- `ofile` of a process and the table `ftable.file`
pub record Fds : Type 0 where
  pub ofile : List (Option ℕ)
  pub files : List File

-- The file of a descriptor, if it is open.
abbrev pub opened : Option (Option ℕ) → Option ℕ
opened none = none
opened (some f) = f

-- `argfd`, for the descriptor that `argint` gives; `none` is -1.
unfoldable pub argfd : ℕ → Fds → Option ℕ
argfd fd s = if ltb fd nofile then opened (get_elem? s.ofile fd) else none

-- The loop of `fdalloc` from `fd` on
unfoldable pub fdalloc_from : ℕ → ℕ → List (Option ℕ) → Option (ℕ × List (Option ℕ))
fdalloc_from fd f [] = none
fdalloc_from fd f (none ∷ fds) = some (fd, some f ∷ fds)
fdalloc_from fd f (some g ∷ fds) = elim (fdalloc_from (fd + 1) f fds) [
  | none ↦ none
  | some (n, fds') ↦ some (n, some g ∷ fds')
]

unfoldable pub fdalloc : ℕ → Fds → Option (ℕ × Fds)
fdalloc f s = elim (fdalloc_from 0 f s.ofile) [
  | none ↦ none
  | some (fd, fds) ↦ some (fd, record s { ofile = fds })
]

-- `filedup` and `fileclose` of file `f` of the table
unfoldable pub dup_at : ℕ → List File → Outcome (List File)
dup_at f [] = panic "no file"
dup_at zero (x ∷ fs) = do x' ← filedup x; ok (x' ∷ fs)
dup_at (suc f) (x ∷ fs) = do fs' ← dup_at f fs; ok (x ∷ fs')

unfoldable pub close_at : ℕ → List File → Outcome (Closes × List File)
close_at f [] = panic "no file"
close_at zero (x ∷ fs) = do (c, x') ← fileclose x; ok (c, x' ∷ fs)
close_at (suc f) (x ∷ fs) = do (c, fs') ← close_at f fs; ok (c, x ∷ fs')

-- `sys_dup` after `argfd`
unfoldable pub dup_file : Option ℕ → Fds → Outcome (Option ℕ × Fds)
dup_file none s = ok (none, s)
dup_file (some f) s = elim (fdalloc f s) [
  | none ↦ ok (none, s)
  | some (fd, s') ↦ (do files' ← dup_at f s'.files; ok (some fd, record s' { files = files' }))
]

unfoldable pub sys_dup : ℕ → Fds → Outcome (Option ℕ × Fds)
sys_dup fd s = dup_file (argfd fd s) s

-- `sys_close` after `argfd`; false is -1.
unfoldable pub close_file : ℕ → Option ℕ → Fds → Outcome (Bool × Closes × Fds)
close_file fd none s = ok (false, closes_nothing, s)
close_file fd (some f) s = do
  (c, files') ← close_at f s.files
  ok (true, c, record { ofile = set s.ofile fd none; files = files' })

unfoldable pub sys_close : ℕ → Fds → Outcome (Bool × Closes × Fds)
sys_close fd s = close_file fd (argfd fd s) s

-- `sys_pipe` after `pipealloc` gave the files `rf` and `wf`; `none` is -1.
unfoldable pub close_both : ℕ → ℕ → Fds → Outcome (Option (ℕ × ℕ) × Fds)
close_both rf wf s = do
  (c, files') ← close_at rf s.files
  (c', files'') ← close_at wf files'
  ok (none, record s { files = files'' })

unfoldable pub pipe_fds : ℕ → ℕ → Fds → Outcome (Option (ℕ × ℕ) × Fds)
pipe_fds rf wf s = elim (fdalloc rf s) [
  | none ↦ close_both rf wf s
  | some (fd0, s') ↦ elim (fdalloc wf s') [
    | none ↦ close_both rf wf (record s' { ofile = set s'.ofile fd0 none })
    | some (fd1, s'') ↦ ok (some (fd0, fd1), s'')
  ]
]
