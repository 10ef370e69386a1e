-- ===== src/Proc/Life.antt =====
-- proc.c: making a process, its exit, and the wait for it.
use mit_xv.Prelude.{
  ℕ, zero, suc, ◌+◌, Bool, true, false, not, ◌||◌, Option, none, some, List, [], ◌∷◌, ◌==◌,
  if◌then◌else◌, length, get_elem?, take, replicate, Outcome, and_then, ◌>>=◌, ◌>>◌, ensure, ok,
  panic,
}
use mit_xv.Proc.{
  unused, embryo, sleeping, runnable, zombie, state_eq, on_proc, Proc, Kernel, Deps, is_proc,
  nofile, modify, change, find_from,
}
use mit_xv.Proc.Switch.{wakeup1}

abbrev pub is_unused : Proc → Bool
is_unused p = state_eq p.state unused

abbrev pub claim : ℕ → Proc → Proc
claim pid p = record p { state = embryo; pid = pid }

-- The fields that `allocproc` sets once it has the page of the kernel stack. The trap frame and the
-- context lie in that page, so the frame's registers are whatever the page holds.
abbrev pub set_stack : ℕ → Proc → Proc
set_stack page p = record p { kstack = some page; alarmticks = 0; alarmhandler = 0; ticks = 0 }

-- `allocproc`, with `kalloc` on the list of free pages.
unfoldable pub allocproc : {F : Type 0} → Kernel F → Option ℕ × Kernel F
allocproc k = elim (find_from is_unused 0 k.procs) [
  | none ↦ (none, k)
  | some i ↦
      let claimed = record k {
        procs = modify i (claim k.nextpid) k.procs;
        nextpid = k.nextpid + 1;
      } in
      elim k.pages [
        | [] ↦ (none, change i (λ p. record p { kstack = none; state = unused }) claimed)
        | page ∷ pages ↦ (some i, change i (set_stack page) (record claimed { pages = pages }))
      ]
]

-- `kfree(np->kstack)` and the reset of the slot, when `fork` has no memory for the child; the slot
-- is the one that `allocproc` has just given a kernel stack.
unfoldable pub give_up : {F : Type 0} → ℕ → Kernel F → Kernel F
give_up i k = elim (get_elem? k.procs i) [
  | none ↦ k
  | some c ↦
      change i (λ p. record p { kstack = none; state = unused })
        (record k { pages = elim c.kstack [ none ↦ k.pages | some page ↦ page ∷ k.pages ] })
]

-- The loop of `exit` that hands the children of `cur` to `init`, one process of it.
unfoldable pub adopt : ℕ → ℕ → ℕ → List Proc → List Proc
adopt cur init i ps = elim (get_elem? ps i) [
  | none ↦ ps
  | some p ↦
      if is_proc p.parent cur
      then (if state_eq p.state zombie
          then wakeup1 (some (on_proc init)) (modify i (λ p. record p { parent = some init }) ps)
          else modify i (λ p. record p { parent = some init }) ps)
      else ps
]

-- The same loop with `n` rounds left, from process `i` on.
unfoldable pub adopt_from : ℕ → ℕ → ℕ → ℕ → List Proc → List Proc
adopt_from zero cur init i ps = ps
adopt_from (suc n) cur init i ps = adopt_from n cur init (i + 1) (adopt cur init i ps)

-- The scan of `wait` from index `i` on: whether there is a child, and the first that is a zombie.
unfoldable pub find_child : ℕ → ℕ → List Proc → Bool × Option ℕ
find_child cur i [] = (false, none)
find_child cur i (p ∷ ps) =
    let rest = find_child cur (i + 1) ps in
    if is_proc p.parent cur
    then (if state_eq p.state zombie then (true, some i) else (true, rest.1))
    else rest

-- How a round of `wait` ends: with the pid of a child, with -1, or asleep on the caller's address.
pub data WaitEnd : Type 0 where
  reaped : ℕ → WaitEnd
  no_child : WaitEnd
  waits : WaitEnd

abbrev pub clear_slot : Proc → Proc
clear_slot p = record p {
  kstack = none;
  pid = 0;
  parent = none;
  name = [];
  killed = false;
  state = unused;
}

module _ (deps : Deps) where
  open deps use {Files, filedup, fileclose, idup, iput, copyuvm, freevm}

  -- The loop of `fork` over the open files: each gets one more reference.
  unfoldable pub dup_files : List (Option ℕ) → Files → Outcome Files
  dup_files [] s = ok s
  dup_files (none ∷ fs) s = dup_files fs s
  dup_files (some f ∷ fs) s = and_then (dup_files fs) (filedup f s)

  -- The child as `fork` fills it in; `safestrcpy` copies at most 15 bytes of the name.
  abbrev pub child : ℕ → Proc → ℕ → Proc → Proc
  child cur p pgdir c = record c {
    pgdir = some pgdir;
    sz = p.sz;
    parent = some cur;
    tf = record { eax = 0; regs = p.tf.regs };
    ofile = p.ofile;
    cwd = p.cwd;
    name = take 15 p.name;
    state = runnable;
  }

  -- `fork` once `copyuvm` has returned, with the child in slot `i`.
  unfoldable pub fork_copied :
      ℕ → Proc → ℕ → ℕ → Kernel Files → Option ℕ × List ℕ → Outcome (Option ℕ × Kernel Files)
  fork_copied cur p pid i k (none, pages) = ok (none, give_up i (record k { pages = pages }))
  fork_copied cur p pid i k (some pgdir, pages) = do
    files ← dup_files p.ofile k.files
    ok (
      some pid,
      change i (child cur p pgdir) (record k { pages = pages; files = idup p.cwd files }),
    )

  -- `fork` once `allocproc` has returned; `pid` is what it gave the child.
  unfoldable pub fork_into :
      ℕ → Proc → ℕ → Option ℕ × Kernel Files → Outcome (Option ℕ × Kernel Files)
  fork_into cur p pid (none, k) = ok (none, k)
  fork_into cur p pid (some i, k) = fork_copied cur p pid i k (copyuvm p.pgdir p.sz k.pages)

  -- `fork` by process `cur`, whose fields are those of `p`: the pid of the child.
  unfoldable pub fork : ℕ → Proc → Kernel Files → Outcome (Option ℕ × Kernel Files)
  unfolding fork_into fork_copied
  fork cur p k = fork_into cur p k.nextpid (allocproc k)

  -- The loop of `exit` over the open files.
  unfoldable pub close_files : List (Option ℕ) → Files → Outcome Files
  close_files [] s = ok s
  close_files (none ∷ fs) s = close_files fs s
  close_files (some f ∷ fs) s = and_then (close_files fs) (fileclose f s)

  -- `exit` by process `cur`, whose fields are those of `p`, up to its `sched`.
  unfoldable pub exit : ℕ → Proc → Kernel Files → Outcome (Kernel Files)
  exit cur p k = do
    ensure (not (cur == k.initproc)) "init exiting"
    files ← close_files p.ofile k.files
    let shut = modify cur (λ q. record q { ofile = replicate nofile none; cwd = none }) k.procs
    let woken = wakeup1 (elim p.parent [ none ↦ none | some j ↦ some (on_proc j) ]) shut
    let handed = adopt_from (length woken) cur k.initproc 0 woken
    ok (record k {
      files = iput p.cwd files;
      procs = modify cur (λ q. record q { state = zombie }) handed;
    })

  -- One round of the loop of `wait` by process `cur`; `killed` is its flag.
  unfoldable pub wait : ℕ → Bool → Kernel Files → Outcome (WaitEnd × Kernel Files)
  wait cur killed k =
      let (havekids, dead) = find_child cur 0 k.procs in
      elim dead [
        | some i ↦ elim (get_elem? k.procs i) [
          | none ↦ panic "no such process"
          | some c ↦ elim c.kstack [
            | none ↦ panic "kfree"
            | some page ↦ (do
              pages ← freevm c.pgdir (page ∷ k.pages)
              ok (reaped c.pid, change i clear_slot (record k { pages = pages })))
          ]
        ]
        | none ↦
            if not havekids || killed
            then ok (no_child, k)
            else ok (
              waits,
              change cur (λ p. record p { chan = some (on_proc cur); state = sleeping }) k,
            )
      ]
