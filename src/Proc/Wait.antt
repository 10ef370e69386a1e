-- ===== src/Proc/Wait.antt =====
-- `wait` of proc.c: children that are dead and children that live.
use mit_xv.Prelude.{
  ℕ, ◌-◌, ◌≡◌, refl, sym, ap, ◌∙◌, subst, ◌≢◌, ◌⊎◌, inl, inr, Bool, true, false, not, ◌||◌, none,
  some, List, [], ◌∷◌, arith, ==_refl, ne→==, Bool-cases, Option-cases, get_elem?, and_then-ok,
  ok-injective, ok,
}
use mit_xv.Proc.{unused, sleeping, on_proc, Proc, Kernel, Deps, change}
use mit_xv.Proc.Life.{find_child, WaitEnd, reaped, no_child, waits, clear_slot, wait}
use mit_xv.Proc.Table.{
  get_elem?-modify, NoSlot, child_of, dead_child, find_child-dead, find_child-none,
  find_child-havekids,
}

-- A child of `cur` has been reaped with the pages that `freevm` left.
pub record Reaped (cur pid : ℕ) (before after : List Proc) : Type 0 where
  pub slot : ℕ
  pub child : Proc
  pub was_there : get_elem? before slot ≡ some child
  pub was_dead : dead_child cur child ≡ true
  pub its_pid : child.pid ≡ pid
  pub is_free :
      get_elem? after slot
      ≡ some (record child {
        kstack = none;
        pid = 0;
        parent = none;
        name = [];
        killed = false;
        state = unused;
      })
  pub others : (j : ℕ) → slot ≢ j → get_elem? after j ≡ get_elem? before j

-- How a round of `wait` that returns or sleeps has ended.
abbrev pub Waited : {F : Type 0} → ℕ → Bool → Kernel F → WaitEnd × Kernel F → Type 0
Waited cur killed k (reaped pid, k') = Reaped cur pid k.procs k'.procs
Waited cur killed k (no_child, k') =
    (k' ≡ k) × NoSlot (dead_child cur) k.procs × (NoSlot (child_of cur) k.procs ⊎ (killed ≡ true))
Waited cur killed k (waits, k') =
    (k' ≡ change cur (λ p. record p { chan = some (on_proc cur); state = sleeping }) k)
    × NoSlot (dead_child cur) k.procs
    × (killed ≡ false)

module _ (deps : Deps) (cur : ℕ) (killed : Bool) (k : Kernel deps.Files) where
  reap :
      (i : ℕ) (c : Proc) (pages : List ℕ)
      → get_elem? k.procs i ≡ some c
      → dead_child cur c ≡ true
      → Waited cur killed k (reaped c.pid, change i clear_slot (record k { pages = pages }))
  reap i c pages l h = record {
    slot = i;
    child = c;
    was_there = l;
    was_dead = h;
    its_pid = refl;
    is_free = get_elem?-modify i i clear_slot k.procs ∙ rw (==_refl i, l) refl;
    others = λ j ne. get_elem?-modify i j clear_slot k.procs ∙ rw (ne→== i j ne) refl;
  }

  pub wait_lem :
      (out : WaitEnd × Kernel deps.Files)
      → wait deps cur killed k ≡ ok out
      → Waited cur killed k out
  unfolding wait
  wait_lem out e = elim (Option-cases (find_child cur 0 k.procs).1) [
    | inr (i, f) ↦ found i f
    | inl f ↦ alone f
  ]
    where
      found : (i : ℕ) → (find_child cur 0 k.procs).1 ≡ some i → Waited cur killed k out
      found i f =
          let s = (find_child-dead cur 0 i k.procs f).1 in
          let (c, l, h) = s in
          let z : i - 0 ≡ i = omega arith in
          let l' : get_elem? k.procs i ≡ some c = ap (λ n. get_elem? k.procs n) (sym z) ∙ l in
          let e' = rw (f, l', wait) at e in
          elim (Option-cases c.kstack) [
            | inl n ↦ cc (rw n at e')
            | inr (page, s) ↦
                let e'' = rw s at e' in
                let (pages, r, q) =
                  and_then-ok (deps.freevm c.pgdir (page ∷ k.pages))
                    (λ pages. ok (reaped c.pid, change i clear_slot (record k { pages = pages })))
                    e'' in
                let same : (reaped c.pid, change i clear_slot (record k { pages = pages })) ≡ out =
                  ok-injective q in
                subst (Waited cur killed k) same (reap i c pages l' h)
          ]

      why :
          ((find_child cur 0 k.procs).0 ≡ true) ⊎ ((find_child cur 0 k.procs).0 ≡ false)
          → (not (find_child cur 0 k.procs).0 || killed) ≡ true
          → NoSlot (child_of cur) k.procs ⊎ (killed ≡ true)
      why (inl h) y = inr (ground arith)
      why (inr h) y = inl (find_child-havekids cur 0 k.procs h)

      alone : (find_child cur 0 k.procs).1 ≡ none → Waited cur killed k out
      alone f = elim (Bool-cases (not (find_child cur 0 k.procs).0 || killed)) [
        | inl y ↦
            subst (Waited cur killed k) (ok-injective (rw (f, y, wait) at e)) (
              refl,
              find_child-none cur 0 k.procs f,
              why (Bool-cases (find_child cur 0 k.procs).0) y,
            )
        | inr n ↦
            subst (Waited cur killed k) (ok-injective (rw (f, n, wait) at e))
              (refl, find_child-none cur 0 k.procs f, ground arith)
      ]
