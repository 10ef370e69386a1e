-- ===== src/Proc/Kill.antt =====
-- `kill`, and a pid of 0.
use mit_xv.Prelude.{
  ℕ, ◌-◌, ◌≡◌, refl, sym, ap, ◌∙◌, ◌≢◌, ◌⊎◌, inl, inr, true, false, some, List, arith,
  if◌then◌else◌, ==→eq, ==_refl, ne→==, Option-cases, get_elem?,
}
use mit_xv.Proc.{sleeping, runnable, state_eq, Proc, Kernel, modify, find_from}
use mit_xv.Proc.Switch.{has_pid, kill, kill_proc}
use mit_xv.Proc.Table.{get_elem?-modify, NoSlot, find_from-Slot, find_from-NoSlot}

-- What a `kill` of `pid` did: one process with that pid is marked, and no other is touched.
pub record Killed (pid : ℕ) (before after : List Proc) : Type 0 where
  pub slot : ℕ
  pub target : Proc
  pub found : get_elem? before slot ≡ some target
  pub right_pid : target.pid ≡ pid
  pub marked :
      get_elem? after slot
      ≡ some (record target {
        killed = true;
        state = if state_eq target.state sleeping then runnable else target.state;
      })
  pub others : (j : ℕ) → slot ≢ j → get_elem? after j ≡ get_elem? before j

module _ {F : Type 0} (pid : ℕ) (k : Kernel F) where
  -- `kill` returns 0 just if there is a process with the pid: then it marks one as killed, which
  -- runs again if it slept, and touches no other. Otherwise it returns -1 and changes nothing.
  pub kill_lem :
      ((kill pid k).0 ≡ true) × Killed pid k.procs (kill pid k).1.procs
      ⊎ ((kill pid k).0 ≡ false) × ((kill pid k).1 ≡ k) × NoSlot (has_pid pid) k.procs
  unfolding kill
  kill_lem = elim (Option-cases (find_from (has_pid pid) 0 k.procs)) [
    | inr (i, e) ↦ rw (e, kill) (inl (refl, hit i e))
    | inl e ↦ rw (e, kill) (inr (refl, refl, find_from-NoSlot (has_pid pid) 0 k.procs e))
  ]
    where
      hit :
          (i : ℕ)
          → find_from (has_pid pid) 0 k.procs ≡ some i
          → Killed pid k.procs (modify i kill_proc k.procs)
      hit i e =
          let s = (find_from-Slot (has_pid pid) 0 i k.procs e).1 in
          let (p, l, h) = s in
          let z : i - 0 ≡ i = omega arith in
          let l' : get_elem? k.procs i ≡ some p = ap (λ n. get_elem? k.procs n) (sym z) ∙ l in
          record {
            slot = i;
            target = p;
            found = l';
            right_pid = ==→eq p.pid pid h;
            marked = get_elem?-modify i i kill_proc k.procs ∙ rw (==_refl i, l') refl;
            others = λ j ne. get_elem?-modify i j kill_proc k.procs ∙ rw (ne→== i j ne) refl;
          }
