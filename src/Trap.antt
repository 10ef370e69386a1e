-- ===== src/Trap.antt =====
-- trap.c and sysproc.c: the timer tick with the alarm of a process, the page fault that maps a
-- page, and the system calls sbrk, sleep, uptime and alarm.
pub mod Ticks
pub mod Fault
mod Tests
use mit_xv.Prelude.{
  ℕ, zero, suc, ◌/◌, Bool, true, false, Option, none, some, ltb, leb, if◌then◌else◌, update,
  Outcome, ◌>>=◌, ◌>>◌, add32, sub32, ok, panic,
}
use mit_xv.Vm.{Vm, pgsize, kalloc, kfree, fill, map_page}

-- What the alarm uses of a process and its trap frame; `stack` is memory by word address.
pub record Alarm : Type 0 where
  pub alarmticks : ℕ
  pub alarmhandler : ℕ
  pub ticks : ℕ
  pub eip : ℕ
  pub esp : ℕ
  pub stack : ℕ → ℕ

-- The call of the handler that is pushed on the user's stack
unfoldable pub divert : Alarm → Alarm
divert p =
    let esp' = sub32 p.esp 4 in
    record p { esp = esp'; stack = update p.stack esp' p.eip; eip = p.alarmhandler; alarmticks = 0 }

-- A timer interrupt of a process in user mode
unfoldable pub tick : Alarm → Alarm
tick p =
    let p' = record p { ticks = add32 p.ticks 1 } in
    if leb p'.alarmticks p'.ticks then divert p' else p'

-- Timer interrupts one after the other
unfoldable pub ticks_of : ℕ → Alarm → Alarm
ticks_of zero p = p
ticks_of (suc n) p = ticks_of n (tick p)

-- `sys_alarm`, with the results of `argint` and `argptr`
unfoldable pub sys_alarm : Option ℕ → Option ℕ → Alarm → Bool × Alarm
sys_alarm none handler p = (false, p)
sys_alarm (some n) none p = (false, p)
sys_alarm (some n) (some h) p = (true, record p { alarmticks = n; alarmhandler = h })

-- What the page fault handler does with `mappages`: true if it maps the page.
unfoldable pub fault_with : ℕ → ℕ → Outcome (Bool × Vm) → Outcome (Bool × Vm)
fault_with first p (panic m) = panic m
fault_with first p (ok (true, s)) = ok (true, s)
fault_with first p (ok (false, s)) = do s' ← kfree first p s; ok (false, s')

-- `case T_PGFLT` at address `cr2`, in the address space of directory `g`
unfoldable pub page_fault : ℕ → ℕ → ℕ → Vm → Outcome (Bool × Vm)
page_fault first g cr2 s = elim (kalloc s) [
  | none ↦ ok (false, s)
  | some (p, s') ↦ fault_with first p (map_page g (cr2 / pgsize) p 6 (fill p 0 s'))
]

-- `sys_sbrk` on the size of the process, with the result of `argint`; `none` is -1.
unfoldable pub sys_sbrk : Option ℕ → ℕ → Option ℕ × ℕ
sys_sbrk none sz = (none, sz)
sys_sbrk (some n) sz = (some sz, add32 sz n)

-- One run of the loop of `sys_sleep`, from entry or wakeup.
pub data Sleeps : Type 0 where
  returns : Option ℕ → Sleeps
  sleeps : Sleeps

unfoldable pub sys_sleep : ℕ → ℕ → ℕ → Bool → Sleeps
sys_sleep n ticks0 ticks killed =
    if ltb (sub32 ticks ticks0) n
    then (if killed then returns none else sleeps)
    else returns (some 0)
