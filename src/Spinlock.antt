-- ===== src/Spinlock.antt =====
-- spinlock.c: disabling interrupts, and one spin lock, whose memory accesses are separate steps.
pub mod Nesting
pub mod Mutex
pub mod Exclusion
pub mod Safe
mod Tests
pub mod Steps
use mit_xv.Prelude.{
  ℕ, ◌+◌, ◌-◌, Bool, true, false, not, ◌&&◌, Option, none, some, ◌==◌, if◌then◌else◌, Outcome,
  ◌>>=◌, ◌>>◌, ensure, ok,
}

-- `ncli` and `intena` of `struct cpu`, and the flag FL_IF of the CPU.
pub record Cpu : Type 0 where
  pub ncli : ℕ
  pub intena : Bool
  pub interrupts : Bool

pub pushcli : Cpu → Cpu
pushcli c = record {
  ncli = c.ncli + 1;
  intena = if c.ncli == 0 then c.interrupts else c.intena;
  interrupts = false;
}

-- `ncli` is a natural number here, so that what C finds below 0 is found before the decrement.
pub popcli : Cpu → Outcome Cpu
popcli c = do
  ensure (not c.interrupts) "popcli - interruptible"
  ensure (not (c.ncli == 0)) "popcli"
  ok (record c {
    ncli = c.ncli - 1;
    interrupts = if (c.ncli - 1 == 0) && c.intena then true else c.interrupts;
  })

-- `locked` and `cpu` of `struct spinlock`.
pub record Lock : Type 0 where
  pub locked : Bool
  pub cpu : Option ℕ

pub initlock : Lock
initlock = record { locked = false; cpu = none }

-- By CPU `c`.
unfoldable pub holding : ℕ → Lock → Bool
holding c lk = elim lk.cpu [ none ↦ false | some d ↦ lk.locked && (d == c) ]

-- `acquire` up to its loop.
pub acquire_enter : ℕ → Lock → Cpu → Outcome Cpu
acquire_enter c lk cpu = do ensure (not (holding c lk)) "acquire"; ok (pushcli cpu)

-- `xchg(&lk->locked, 1)`: the value before it, and the lock after.
pub xchg : Lock → Bool × Lock
xchg lk = (lk.locked, record lk { locked = true })

-- `lk->cpu = mycpu()`
pub record_cpu : ℕ → Lock → Lock
record_cpu c lk = record lk { cpu = some c }

-- `release` up to the store that unlocks, that store; `popcli` is the rest.
pub release_enter : ℕ → Lock → Outcome Lock
release_enter c lk = do ensure (holding c lk) "release"; ok (record lk { cpu = none })

pub unlock : Lock → Lock
unlock lk = record lk { locked = false }
