-- ===== src/Proc/Fork.antt =====
-- `fork` of proc.c: the child, and a fork that fails.
use mit_xv.Prelude.{
  ℕ, ◌+◌, ◌-◌, ◌≡◌, refl, sym, ap, ◌∙◌, subst, ◌≢◌, ◌⊎◌, inl, inr, Bool, true, false, Option, none,
  some, List, [], ◌∷◌, arith, ◌==◌, if◌then◌else◌, ==_refl, ne→==, Option-cases, get_elem?,
  and_then-ok, ok-injective, ok,
}
use mathlib.Core.Option
use mit_xv.Proc.{
  ProcState, unused, embryo, runnable, state_eq, Proc, Kernel, Deps, modify, change, find_from,
}
use mit_xv.Proc.Life.{
  is_unused, claim, set_stack, allocproc, dup_files, child, fork, fork_into, fork_copied, fork_into,
  fork_copied,
}
use mit_xv.Proc.Table.{get_elem?-modify, find_from-Slot}

-- Slot `i` was free, and is the only one that `after` may change.
pub record Claimed (i : ℕ) (before after : List Proc) : Type 0 where
  pub free : (p : Proc) × (get_elem? before i ≡ some p) × (p.state ≡ unused)
  pub others : (j : ℕ) → i ≢ j → get_elem? after j ≡ get_elem? before j

-- What a `fork` by `cur`, with the fields of `p`, has done.
pub record Forked (cur : ℕ) (p : Proc) (pid : ℕ) (before after : List Proc) : Type 0 where
  pub slot : ℕ
  pub kid : Proc
  pub claimed : Claimed slot before after
  pub made : get_elem? after slot ≡ some kid
  pub runs : kid.state ≡ runnable
  pub its_pid : kid.pid ≡ pid
  pub its_parent : kid.parent ≡ some cur
  pub returns_zero : kid.tf.eax ≡ 0
  pub same_regs : kid.tf.regs ≡ p.tf.regs
  pub same_size : kid.sz ≡ p.sz
  pub same_files : (kid.ofile ≡ p.ofile) × (kid.cwd ≡ p.cwd)

state-unused : (s : ProcState) → state_eq s unused ≡ true → s ≡ unused
state-unused unused h = refl
state-unused embryo h = cc
state-unused ProcState.sleeping h = cc
state-unused runnable h = cc
state-unused ProcState.running h = cc
state-unused ProcState.zombie h = cc

found_free :
    (i : ℕ) (ps : List Proc)
    → find_from is_unused 0 ps ≡ some i
    → (p : Proc) × (get_elem? ps i ≡ some p) × (p.state ≡ unused)
found_free i ps e =
    let s = (find_from-Slot is_unused 0 i ps e).1 in
    let (p, l, h) = s in
    let z : i - 0 ≡ i = omega arith in
    (p, ap (λ n. get_elem? ps n) (sym z) ∙ l, state-unused p.state h)

module _ (deps : Deps) (cur : ℕ) (p : Proc) (k : Kernel deps.Files) where
  made_it :
      (i page pgdir : ℕ) (c : Proc)
      → get_elem? k.procs i ≡ some c
      → c.state ≡ unused
      → Forked cur p k.nextpid k.procs (
          modify i
            (child deps cur p pgdir)
            (modify i (set_stack page) (modify i (claim k.nextpid) k.procs)))
  made_it i page pgdir c l u = record {
    slot = i;
    kid = child deps cur p pgdir (set_stack page (claim k.nextpid c));
    claimed = record { free = (c, l, u); others = λ j ne. steps j ∙ rw (ne→== i j ne) refl };
    made = steps i ∙ rw (==_refl i, l) refl;
    runs = refl;
    its_pid = refl;
    its_parent = refl;
    returns_zero = refl;
    same_regs = refl;
    same_size = refl;
    same_files = (refl, refl);
  }
    where
      steps :
          (j : ℕ)
          → get_elem?
              (modify i
                (child deps cur p pgdir)
                (modify i (set_stack page) (modify i (claim k.nextpid) k.procs)))
              j
            ≡ (if i == j
                then Option.map
                    (λ c. child deps cur p pgdir (set_stack page (claim k.nextpid c)))
                    (get_elem? k.procs j)
                else get_elem? k.procs j)
      steps j =
          get_elem?-modify i j (child deps cur p pgdir)
            (modify i (set_stack page) (modify i (claim k.nextpid) k.procs))
          ∙ rw
              (
                get_elem?-modify i j (set_stack page) (modify i (claim k.nextpid) k.procs),
                get_elem?-modify i j (claim k.nextpid) k.procs,
              )
              (go (i == j) (get_elem? k.procs j))
        where
          go :
              (b : Bool) (o : Option Proc)
              → (if b
                  then Option.map (child deps cur p pgdir) (
                      if b
                      then Option.map
                          (set_stack page)
                          (if b then Option.map (claim k.nextpid) o else o)
                      else (if b then Option.map (claim k.nextpid) o else o))
                  else (if b
                      then Option.map
                          (set_stack page)
                          (if b then Option.map (claim k.nextpid) o else o)
                      else (if b then Option.map (claim k.nextpid) o else o)))
                ≡ (if b
                    then Option.map
                        (λ c. child deps cur p pgdir (set_stack page (claim k.nextpid c)))
                        o
                    else o)
          go true none = refl
          go true (some c) = refl
          go false o = refl

  -- The table behind `allocproc`, when there is a slot and a page.
  claimed_state : ℕ → ℕ → List ℕ → Kernel deps.Files
  claimed_state i page pages = change i (set_stack page) (record k {
    procs = modify i (claim k.nextpid) k.procs;
    nextpid = k.nextpid + 1;
    pages = pages;
  })

  allocproc-some :
      (i page : ℕ) (pages : List ℕ)
      → find_from is_unused 0 k.procs ≡ some i
      → k.pages ≡ page ∷ pages
      → allocproc k ≡ (some i, claimed_state i page pages)
  unfolding allocproc claimed_state
  allocproc-some i page pages f e = rw (f, e, allocproc) refl

  allocproc-none : (find_from is_unused 0 k.procs ≡ none) ⊎ (k.pages ≡ []) → (allocproc k).0 ≡ none
  unfolding allocproc
  allocproc-none (inl f) = rw (f, allocproc) refl
  allocproc-none (inr e) = elim (Option-cases (find_from is_unused 0 k.procs)) [
    | inl f ↦ rw (f, allocproc) refl
    | inr (i, f) ↦ rw (f, e, allocproc) refl
  ]

  by_copy :
      (i page pid : ℕ) (pages : List ℕ) (k' : Kernel deps.Files) (copied : Option ℕ × List ℕ)
      → find_from is_unused 0 k.procs ≡ some i
      → fork_copied deps cur p k.nextpid i (claimed_state i page pages) copied ≡ ok (some pid, k')
      → (pid ≡ k.nextpid) × (k'.nextpid ≡ k.nextpid + 1) × Forked cur p pid k.procs k'.procs
  unfolding fork_copied claimed_state
  by_copy i page pid pages k' (none, rest) f e = absurd (cc (ok-injective e))
  by_copy i page pid pages k' (some pgdir, rest) f e =
      let (files, d, r) = and_then-ok (dup_files deps p.ofile k.files) (λ _. _) e in
      let same = ok-injective r in
      let (slot, l, u) = found_free i k.procs f in
      let pid_eq : some k.nextpid ≡ some pid =
        ap (λ (t : Option ℕ × Kernel deps.Files). t.0) same in
      let fresh : k.nextpid ≡ pid = ground arith in
      (
        sym fresh,
        ap (λ (t : Option ℕ × Kernel deps.Files). t.1.nextpid) (sym same),
        subst (λ n. Forked cur p n k.procs k'.procs) fresh
            (subst (Forked cur p k.nextpid k.procs)
              (ap (λ (t : Option ℕ × Kernel deps.Files). t.1.procs) same)
              (made_it i page pgdir slot l u)),
      )

  -- Without a slot from `allocproc`, `fork` returns no pid.
  no_slot :
      (a : Option ℕ × Kernel deps.Files) (pid : ℕ) (k' : Kernel deps.Files)
      → a.0 ≡ none
      → fork_into deps cur p k.nextpid a ≡ ok (some pid, k')
      → ⊥
  unfolding fork_into
  no_slot (none, x) pid k' h q = cc (ok-injective q)
  no_slot (some i, x) pid k' h q = cc

  by_alloc :
      (pages : List ℕ) (slot : Option ℕ) (pid : ℕ) (k' : Kernel deps.Files)
      → k.pages ≡ pages
      → find_from is_unused 0 k.procs ≡ slot
      → fork deps cur p k ≡ ok (some pid, k')
      → (pid ≡ k.nextpid) × (k'.nextpid ≡ k.nextpid + 1) × Forked cur p pid k.procs k'.procs
  unfolding fork fork_into claimed_state
  by_alloc pages none pid k' pe f e =
      absurd (no_slot (allocproc k) pid k' (allocproc-none (inl f)) e)
  by_alloc [] (some i) pid k' pe f e =
      absurd (no_slot (allocproc k) pid k' (allocproc-none (inr pe)) e)
  by_alloc (page ∷ pages) (some i) pid k' pe f e =
      by_copy i page pid pages k' (deps.copyuvm p.pgdir p.sz pages) f (
        subst (λ a. fork_into deps cur p k.nextpid a ≡ ok (some pid, k'))
          (allocproc-some i page pages f pe) e)

  pub fork_lem :
      (pid : ℕ) (k' : Kernel deps.Files)
      → fork deps cur p k ≡ ok (some pid, k')
      → (pid ≡ k.nextpid) × (k'.nextpid ≡ k.nextpid + 1) × Forked cur p pid k.procs k'.procs
  fork_lem pid k' e = by_alloc k.pages (find_from is_unused 0 k.procs) pid k' refl refl e
