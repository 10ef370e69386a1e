-- ===== src/Proc/Orphans.antt =====
-- `exit` of proc.c as a whole: the children and the parent of the process.
use mit_xv.Prelude.{
  ℕ, zero, suc, ◌+◌, ◌<◌, ◌≡◌, refl, sym, ap, ◌∙◌, ◌≢◌, ◌⊎◌, inl, inr, Bool, true, false, not, ◌&&◌,
  Option, none, some, List, [], ◌∷◌, arith, ltb, leb, ◌==◌, if◌then◌else◌, lt→ltb, ==→ne, ==_refl,
  ne→==, Bool-cases, Option-cases, length, get_elem?, replicate, ensure, and_then-ok, ok-injective,
  ok,
}
use mathlib.Core.Option
use mit_xv.Proc.{
  ProcState, sleeping, runnable, zombie, state_eq, on_proc, Proc, Kernel, Deps, modify, is_proc,
  nofile,
}
use mit_xv.Proc.Switch.{wakeup1}
use mit_xv.Proc.Life.{adopt_from, exit, close_files}
use mit_xv.Proc.Table.{get_elem?-modify, get_elem?-wakeup1}
use mit_xv.Proc.Exit.{parent_of, state_of, handed, parent_of-wakeup1, parent_of-adopt_from}
use mit_xv.Proc.Awake.{Awake-modify, Awake-wakeup1, Awake-adopt_from}

parent_of-modify :
    (f : Proc → Proc)
    → ((p : Proc) → (f p).parent ≡ p.parent)
    → (i j : ℕ) (ps : List Proc) → parent_of j (modify i f ps) ≡ parent_of j ps
parent_of-modify f same i j ps = rw (get_elem?-modify i j f ps) (go (i == j) (get_elem? ps j))
  where
    go :
        (b : Bool) (o : Option Proc)
        → Option.map (λ (p : Proc). p.parent) (if b then Option.map f o else o)
          ≡ Option.map (λ (p : Proc). p.parent) o
    go true none = refl
    go true (some p) = ap some (same p)
    go false o = refl

get_elem?-lt : (ps : List Proc) (j : ℕ) (p : Proc) → get_elem? ps j ≡ some p → j < length ps
get_elem?-lt [] j p e = cc
get_elem?-lt (q ∷ ps) zero p e = omega arith
get_elem?-lt (q ∷ ps) (suc j) p e = omega (arith, get_elem?-lt ps j p e)

-- After the loop over the whole table every parent has been handed over.
all_handed :
    (cur init j : ℕ) (ps : List Proc)
    → parent_of j (adopt_from (length ps) cur init 0 ps)
      ≡ Option.map (handed cur init) (parent_of j ps)
all_handed cur init j ps =
    parent_of-adopt_from cur init (length ps) 0 j ps ∙ go (Option-cases (get_elem? ps j))
  where
    go :
        (get_elem? ps j ≡ none) ⊎ ((p : Proc) × (get_elem? ps j ≡ some p))
        → (if leb 0 j && ltb j (0 + length ps)
            then Option.map (handed cur init) (parent_of j ps)
            else parent_of j ps)
          ≡ Option.map (handed cur init) (parent_of j ps)
    go (inl n) = rw n (same (leb 0 j && ltb j (0 + length ps)))
      where
        same : (b : Bool) → ◌≡◌ {A = Option (Option ℕ)} (if b then none else none) none
        same true = refl
        same false = refl
    go (inr (p, l)) =
        let lt = get_elem?-lt ps j p l in
        rw (lt→ltb j (0 + length ps) (omega arith), (let z : leb 0 j ≡ true = ground arith in z))
          refl

module _ (deps : Deps) (cur : ℕ) (p : Proc) (k : Kernel deps.Files) where
  shut : List Proc
  shut = modify cur (λ q. record q { ofile = replicate nofile none; cwd = none }) k.procs

  woken : List Proc
  woken = wakeup1 (elim p.parent [ none ↦ none | some j ↦ some (on_proc j) ]) shut

  -- The table that `exit` leaves.
  left : List Proc
  left =
      modify cur (λ q. record q { state = zombie })
        (adopt_from (length woken) cur k.initproc 0 woken)

  runs :
      (k' : Kernel deps.Files)
      → exit deps cur p k ≡ ok k'
      → ((cur == k.initproc) ≡ false) × (k'.procs ≡ left)
  unfolding exit left woken shut
  runs k' e =
      let (u, e1, e2) = and_then-ok (ensure (not (cur == k.initproc)) "init exiting") (λ _. _) e in
      let (files, e3, e4) = and_then-ok (close_files deps p.ofile k.files) (λ _. _) e2 in
      (ground arith, sym (ap (λ (t : Kernel deps.Files). t.procs) (ok-injective e4)))

  parents : (j : ℕ) → parent_of j left ≡ Option.map (handed cur k.initproc) (parent_of j k.procs)
  unfolding left woken shut
  parents j =
      parent_of-modify (λ q. record q { state = zombie }) (λ q. refl) cur j
        (adopt_from (length woken) cur k.initproc 0 woken)
      ∙ all_handed cur k.initproc j woken
      ∙ ap (Option.map (handed cur k.initproc)) (
          parent_of-wakeup1 (elim p.parent [ none ↦ none | some i ↦ some (on_proc i) ]) j shut
          ∙ parent_of-modify (λ q. record q { ofile = replicate nofile none; cwd = none })
              (λ q. refl) cur j k.procs)

  no_orphan :
      cur ≢ k.initproc
      → (j : ℕ) (q : Proc) → get_elem? left j ≡ some q
      → is_proc q.parent cur ≡ false
  no_orphan ne j q l = go (parent_of j k.procs) (sym (parents j) ∙ rw l refl)
    where
      go :
          (o : Option (Option ℕ))
          → Option.map (handed cur k.initproc) o ≡ some q.parent
          → is_proc q.parent cur ≡ false
      go none e = cc
      go (some x) e = elim (Bool-cases (is_proc x cur)) [
        | inl y ↦
            let s : some k.initproc ≡ q.parent = ground arith in
            rw (← s) (ne→== k.initproc cur (λ t. ne (sym t)))
        | inr n ↦ let s : x ≡ q.parent = ground arith in rw (← s) n
      ]

  parent_woken :
      (i : ℕ) (q : Proc)
      → p.parent ≡ some i
      → i ≢ cur
      → get_elem? k.procs i ≡ some q
      → q.state ≡ sleeping
      → q.chan ≡ some (on_proc i)
      → state_of i left ≡ some runnable
  unfolding left woken shut
  parent_woken i q pe ne l s c =
      rw
        (
          get_elem?-modify cur i (λ q. record q { state = zombie })
              (adopt_from (length woken) cur k.initproc 0 woken),
          ne→== cur i (λ t. ne (sym t)),
        )
        (Awake-adopt_from runnable refl cur k.initproc i (length woken) 0 woken here)
    where
      here : state_of i woken ≡ some runnable
      here =
          rw
            (
              get_elem?-wakeup1 (elim p.parent [ none ↦ none | some i ↦ some (on_proc i) ]) i shut,
              get_elem?-modify cur i (λ q. record q { ofile = replicate nofile none; cwd = none })
                  k.procs,
              ne→== cur i (λ t. ne (sym t)),
              l,
              pe,
              s,
              c,
              ==_refl i,
            )
            refl

  is_zombie : (q : Proc) → get_elem? k.procs cur ≡ some q → state_of cur left ≡ some zombie
  unfolding left
  is_zombie q l =
      rw
        (
          get_elem?-modify cur cur (λ q. record q { state = zombie })
              (adopt_from (length woken) cur k.initproc 0 woken),
          ==_refl cur,
        )
        (go (get_elem? (adopt_from (length woken) cur k.initproc 0 woken) cur) still)
    where
      here : parent_of cur k.procs ≡ some q.parent
      here = rw l refl

      still :
          parent_of cur (adopt_from (length woken) cur k.initproc 0 woken)
          ≡ some (handed cur k.initproc q.parent)
      still =
          unfold woken shut in
          all_handed cur k.initproc cur woken
          ∙ ap (Option.map (handed cur k.initproc)) (
              parent_of-wakeup1 (elim p.parent [ none ↦ none | some i ↦ some (on_proc i) ]) cur shut
              ∙ parent_of-modify (λ q. record q { ofile = replicate nofile none; cwd = none })
                  (λ q. refl) cur cur k.procs
              ∙ here)

      go :
          (o : Option Proc) {x : Option ℕ}
          → Option.map (λ (q : Proc). q.parent) o ≡ some x
          → Option.map
              (λ (q : Proc). q.state)
              (Option.map (λ (q : Proc). record q { state = zombie }) o)
            ≡ some zombie
      go none e = cc
      go (some q) e = refl

  -- A process other than the caller that is awake is left in its state.
  pub exit-others :
      (k' : Kernel deps.Files) (j : ℕ) (s : ProcState)
      → exit deps cur p k ≡ ok k'
      → cur ≢ j
      → state_eq s sleeping ≡ false
      → state_of j k.procs ≡ some s
      → state_of j k'.procs ≡ some s
  unfolding left woken shut
  exit-others k' j s e ne awake h =
      rw
        (
          (runs k' e).1,
          get_elem?-modify cur j (λ q. record q { state = zombie })
              (adopt_from (length woken) cur k.initproc 0 woken),
          ne→== cur j ne,
        )
        (Awake-adopt_from s awake cur k.initproc j (length woken) 0 woken (
          Awake-wakeup1 s awake (elim p.parent [ none ↦ none | some i ↦ some (on_proc i) ]) j shut
            (Awake-modify s awake (λ q. record q { ofile = replicate nofile none; cwd = none })
              (λ q. refl) cur j k.procs h)))

  -- An `exit` that reaches its `sched` is not that of init. It leaves the process a zombie and no
  -- process with it as parent: its children are init's, and all other parents are as before. A
  -- parent that slept in `wait` can run.
  pub exit_lem :
      (k' : Kernel deps.Files) (self : Proc)
      → get_elem? k.procs cur ≡ some self
      → exit deps cur p k ≡ ok k'
      → (cur ≢ k.initproc)
        × (state_of cur k'.procs ≡ some zombie)
        × ((j : ℕ) (q : Proc) → get_elem? k'.procs j ≡ some q → is_proc q.parent cur ≡ false)
        × ((j : ℕ)
            → parent_of j k'.procs ≡ Option.map (handed cur k.initproc) (parent_of j k.procs))
        × ((i : ℕ) (q : Proc)
            → p.parent ≡ some i
            → i ≢ cur
            → get_elem? k.procs i ≡ some q
            → q.state ≡ sleeping
            → q.chan ≡ some (on_proc i)
            → state_of i k'.procs ≡ some runnable)
  exit_lem k' self l e =
      let (ne, t) = runs k' e in
      let apart : cur ≢ k.initproc = ==→ne cur k.initproc ne in
      rw t (apart, is_zombie self l, no_orphan apart, parents, parent_woken)
