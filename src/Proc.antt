-- ===== src/Proc.antt =====
-- proc.c and proc.h: the process table. What runs under `ptable.lock` is one step. A process is
-- named by its index in `ptable.proc`; a return value of -1 is `none`.
pub mod Life
pub mod Switch
pub mod Table
pub mod Kill
pub mod Wait
pub mod Exit
pub mod Orphans
pub mod Fork
pub mod Cpus
mod Tests
pub mod Awake
use mit_xv.Prelude.{
  ℕ, zero, suc, ◌+◌, ◌<◌, Bool, true, false, not, Option, none, some, List, [], ◌∷◌, ◌==◌,
  if◌then◌else◌, replicate, Outcome,
}

abbrev pub nproc : ℕ
nproc = 64

abbrev pub nofile : ℕ
nofile = 16

-- `enum procstate`
pub data ProcState : Type 0 where
  unused embryo sleeping runnable running zombie : ProcState

abbrev pub state_eq : ProcState → ProcState → Bool
state_eq unused unused = true
state_eq embryo embryo = true
state_eq sleeping sleeping = true
state_eq runnable runnable = true
state_eq running running = true
state_eq zombie zombie = true
state_eq _ _ = false

-- What a process sleeps on: the address of a process, or any other address.
pub data Chan : Type 0 where
  on_proc : ℕ → Chan
  on_other : ℕ → Chan

abbrev pub chan_eq : Chan → Chan → Bool
chan_eq (on_proc i) (on_proc j) = i == j
chan_eq (on_other i) (on_other j) = i == j
chan_eq _ _ = false

-- `p->chan == chan`, for a channel that is not null
abbrev pub sleeps_on : Option Chan → Chan → Bool
sleeps_on none c = false
sleeps_on (some d) c = chan_eq d c

abbrev pub is_proc : Option ℕ → ℕ → Bool
is_proc none i = false
is_proc (some j) i = j == i

-- The trap frame: `eax`, and the other registers by number.
pub record Trapframe : Type 0 where
  pub eax : ℕ
  pub regs : ℕ → ℕ

-- `struct proc`; a null pointer is `none`, and so is a `pgdir` or `kstack` of 0.
pub record Proc : Type 0 where
  pub sz : ℕ
  pub pgdir : Option ℕ
  pub kstack : Option ℕ
  pub state : ProcState
  pub pid : ℕ
  pub parent : Option ℕ
  pub tf : Trapframe
  pub chan : Option Chan
  pub killed : Bool
  pub ofile : List (Option ℕ)
  pub cwd : Option ℕ
  pub name : List ℕ
  pub alarmticks : ℕ
  pub alarmhandler : ℕ
  pub ticks : ℕ

-- A slot of the table as the C loader leaves it.
abbrev pub zero_proc : Proc
zero_proc = record {
  sz = 0;
  pgdir = none;
  kstack = none;
  state = unused;
  pid = 0;
  parent = none;
  tf = record { eax = 0; regs = λ _. 0 };
  chan = none;
  killed = false;
  ofile = replicate nofile none;
  cwd = none;
  name = [];
  alarmticks = 0;
  alarmhandler = 0;
  ticks = 0;
}

-- What proc.c calls of file.c, fs.c and vm.c, over their state `Files` and the list of free pages.
pub record Deps : Type 1 where
  pub Files : Type 0
  pub filedup : ℕ → Files → Outcome Files
  pub fileclose : ℕ → Files → Outcome Files
  pub idup : Option ℕ → Files → Files
  pub iput : Option ℕ → Files → Files
  pub copyuvm : Option ℕ → ℕ → List ℕ → Option ℕ × List ℕ
  pub freevm : Option ℕ → List ℕ → Outcome (List ℕ)

-- `ptable`, `nextpid` and `initproc`, the free pages of kalloc.c, and the state of the files.
pub record Kernel (F : Type 0) : Type 0 where
  pub procs : List Proc
  pub nextpid : ℕ
  pub initproc : ℕ
  pub pages : List ℕ
  pub files : F

-- A change of process `i`.
unfoldable pub modify : ℕ → (Proc → Proc) → List Proc → List Proc
modify i f [] = []
modify zero f (p ∷ ps) = f p ∷ ps
modify (suc i) f (p ∷ ps) = p ∷ modify i f ps

abbrev pub change : {F : Type 0} → ℕ → (Proc → Proc) → Kernel F → Kernel F
change i f k = record k { procs = modify i f k.procs }

-- `for(p = ptable.proc; p < &ptable.proc[NPROC]; p++) if(test) found`: the first slot that passes
-- the test, from index `i` on.
unfoldable pub find_from : (Proc → Bool) → ℕ → List Proc → Option ℕ
find_from test i [] = none
find_from test i (p ∷ ps) = if test p then some i else find_from test (i + 1) ps
