-- ===== src/Proc/Tests.antt =====
-- A table of four slots: init asleep in `wait`, a shell that runs on CPU 0, its dead child, and a
-- free slot. The files are a count of references.
use mit_xv.Prelude.{
  ℕ, ◌+◌, ◌-◌, ◌≡◌, refl, ◌≢◌, true, false, none, some, [], ◌∷◌, get_elem?, replicate, update, ok,
}
use mathlib.Core.Option
use mit_xv.Proc.{
  sleeping, runnable, running, zombie, on_proc, Proc, Kernel, Deps, is_proc, zero_proc, modify,
  find_from,
}
use mit_xv.Proc.Switch.{kill, dispatch, wakeup1}
use mit_xv.Proc.Life.{exit, close_files, adopt, adopt_from}
use mit_xv.Proc.Exit.{state_of, parent_of, handed}
use mit_xv.Proc.Orphans.{exit_lem}
use mit_xv.Proc.Cpus.{Machine, choose, Reach, boot, next, one_cpu}

abbrev files : Deps
files = record {
  Files = ℕ;
  filedup = λ f s. ok (s + 1);
  fileclose = λ f s. ok (s - 1);
  idup = λ i s. s + 1;
  iput = λ i s. s - 1;
  copyuvm = λ pgdir sz pages. (some 7, pages);
  freevm = λ pgdir pages. ok pages;
}

abbrev init : Proc
init = record zero_proc { state = sleeping; pid = 1; chan = some (on_proc 0) }

abbrev shell : Proc
shell = record zero_proc { state = running; pid = 2; parent = some 0; ofile = some 3 ∷ none ∷ [] }

abbrev dead : Proc
dead = record zero_proc { state = zombie; pid = 3; parent = some 1; kstack = some 9 }

abbrev kernel : Kernel ℕ
kernel = record {
  procs = init ∷ shell ∷ dead ∷ zero_proc ∷ [];
  nextpid = 4;
  initproc = 0;
  pages = 5 ∷ 6 ∷ [];
  files = 10;
}

kill_runs : (kill 1 kernel).0 ≡ true
unfolding kill find_from
kill_runs = refl

abbrev exited : Kernel ℕ
exited = record kernel {
  files = 8;
  procs =
      record init { state = runnable }
      ∷ record shell { state = zombie; ofile = replicate 16 none }
      ∷ record dead { parent = some 0 }
      ∷ zero_proc
      ∷ [];
}

exit_runs : exit files 1 shell kernel ≡ ok exited
unfolding exit close_files wakeup1 adopt adopt_from modify
exit_runs = refl

abbrev kid : Proc
kid = record zero_proc {
  state = runnable;
  pid = 4;
  pgdir = some 7;
  kstack = some 5;
  parent = some 1;
  ofile = shell.ofile;
}

abbrev forked : Kernel ℕ
forked = record kernel {
  procs = init ∷ shell ∷ dead ∷ kid ∷ [];
  nextpid = 5;
  pages = 6 ∷ [];
  files = 12;
}

exit_lem_example :
    (◌≢◌ {A = ℕ} 1 0)
    × (state_of 1 exited.procs ≡ some zombie)
    × ((j : ℕ) (q : Proc) → get_elem? exited.procs j ≡ some q → is_proc q.parent 1 ≡ false)
    × ((j : ℕ) → parent_of j exited.procs ≡ Option.map (handed 1 0) (parent_of j kernel.procs))
    × ((i : ℕ) (q : Proc)
        → shell.parent ≡ some i
        → i ≢ 1
        → get_elem? kernel.procs i ≡ some q
        → q.state ≡ sleeping
        → q.chan ≡ some (on_proc i)
        → state_of i exited.procs ≡ some runnable)
exit_lem_example = exit_lem files 1 shell kernel exited shell refl exit_runs

-- A kernel in which the shell has not run yet.
abbrev ready : Kernel ℕ
ready = record kernel { procs = init ∷ record shell { state = runnable } ∷ dead ∷ zero_proc ∷ [] }

abbrev started : Machine files
started = record { kernel = kernel; cpu = update (λ _. none) 2 (some 1) }

shell_runs : dispatch 1 ready ≡ (true, kernel)
unfolding dispatch modify
shell_runs = refl

starts : Reach files ready started
starts = next boot (choose 2 1 refl shell_runs)

one_cpu_example :
    (state_of 1 kernel.procs ≡ some running) × (started.cpu 2 ≡ some 1 → ◌≡◌ {A = ℕ} 2 2)
one_cpu_example = one_cpu files starts 2 2 1 refl
