-- ===== src/Proc/Switch.antt =====
-- proc.c: giving up and getting the CPU, sleeping, waking and killing.
use mit_xv.Prelude.{
  ℕ, Bool, true, false, not, ◌&&◌, Option, none, some, List, [], ◌∷◌, ◌==◌, if◌then◌else◌,
  get_elem?, Outcome, ◌>>◌, ensure,
}
use mit_xv.Proc.{
  ProcState, sleeping, runnable, running, state_eq, Chan, chan_eq, Proc, Kernel, change, find_from,
}

abbrev pub same_chan : Option Chan → Option Chan → Bool
same_chan none none = true
same_chan (some c) (some d) = chan_eq c d
same_chan _ _ = false

-- `wakeup1`
unfoldable pub wakeup1 : Option Chan → List Proc → List Proc
wakeup1 c [] = []
wakeup1 c (p ∷ ps) =
    (if state_eq p.state sleeping && same_chan p.chan c then record p { state = runnable } else p)
    ∷ wakeup1 c ps

unfoldable pub wakeup : {F : Type 0} → Chan → Kernel F → Kernel F
wakeup c k = record k { procs = wakeup1 (some c) k.procs }

abbrev pub has_pid : ℕ → Proc → Bool
has_pid pid p = p.pid == pid

abbrev pub kill_proc : Proc → Proc
kill_proc p = record p {
  killed = true;
  state = if state_eq p.state sleeping then runnable else p.state;
}

-- `kill`: true is the return value 0, false is -1.
unfoldable pub kill : {F : Type 0} → ℕ → Kernel F → Bool × Kernel F
kill pid k = elim (find_from (has_pid pid) 0 k.procs) [
  | some i ↦ (true, change i kill_proc k)
  | none ↦ (false, k)
]

-- The checks of `sched`, for a CPU that holds `ptable.lock` or not, its `ncli`, the state of its
-- process and whether FL_IF is set. Its `swtch` is the step to the scheduler.
unfoldable pub sched : Bool → ℕ → ProcState → Bool → Outcome (Unit {0})
sched holding ncli state interruptible = do
  ensure holding "sched ptable.lock"
  ensure (ncli == 1) "sched locks"
  ensure (not (state_eq state running)) "sched running"
  ensure (not interruptible) "sched interruptible"

-- `yield` of process `i`, up to its `sched`.
unfoldable pub yield : {F : Type 0} → ℕ → Kernel F → Kernel F
yield i k = change i (λ p. record p { state = runnable }) k

-- `sleep` of process `i` on `c`, up to its `sched`; and what it does when it runs again.
unfoldable pub sleep : {F : Type 0} → ℕ → Chan → Kernel F → Kernel F
sleep i c k = change i (λ p. record p { chan = some c; state = sleeping }) k

unfoldable pub sleep_return : {F : Type 0} → ℕ → Kernel F → Kernel F
sleep_return i k = change i (λ p. record p { chan = none }) k

-- One round of the inner loop of `scheduler`, for process `i`: whether it is chosen.
unfoldable pub dispatch : {F : Type 0} → ℕ → Kernel F → Bool × Kernel F
dispatch i k = elim (get_elem? k.procs i) [
  | none ↦ (false, k)
  | some p ↦
      if state_eq p.state runnable
      then (true, change i (λ p. record p { state = running }) k)
      else (false, k)
]
