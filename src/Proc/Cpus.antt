-- ===== src/Proc/Cpus.antt =====
-- The processes on several CPUs, each of which chooses one under `ptable.lock` in `scheduler` of
-- proc.c.
use mit_xv.Prelude.{
  ℕ, ◌≡◌, refl, sym, ap, ◌∙◌, subst, ◌≢◌, inl, inr, Bool, true, false, Option, none, some, List,
  arith, ◌==◌, if◌then◌else◌, ==→eq, ==→ne, ==_refl, ne→==, Bool-cases, Option-cases, get_elem?,
  update, ok,
}
use mathlib.Core.Option
use mit_xv.Proc.{
  ProcState, unused, embryo, sleeping, runnable, running, zombie, state_eq, Chan, Proc, Kernel,
  Deps, modify, find_from,
}
use mit_xv.Proc.Switch.{wakeup, kill, kill_proc, has_pid, yield, sleep, dispatch}
use mit_xv.Proc.Life.{exit, fork, wait, reaped}
use mit_xv.Proc.Table.{get_elem?-modify, dead_child}
use mit_xv.Proc.Exit.{state_of}
use mit_xv.Proc.Awake.{Awake-wakeup1}
use mit_xv.Proc.Orphans.{exit-others}
use mit_xv.Proc.Fork.{fork_lem}
use mit_xv.Proc.Wait.{Reaped, wait_lem}

module _ (deps : Deps) where
  -- `cpu c` is `cpus[c].proc`.
  pub record Machine : Type 0 where
    pub kernel : Kernel deps.Files
    pub cpu : ℕ → Option ℕ

  -- The process on CPU `c` gives it up, or keeps it, with the table that it leaves; or the
  -- scheduler of an idle CPU makes a choice.
  pub data Step (m : Machine) : Machine → Type 0 where
    choose :
        (c i : ℕ) {k : Kernel deps.Files}
        → m.cpu c ≡ none
        → dispatch i m.kernel ≡ (true, k)
        → Step m (record { kernel = k; cpu = update m.cpu c (some i) })
    yields :
        (c i : ℕ)
        → m.cpu c ≡ some i
        → Step m (record { kernel = yield i m.kernel; cpu = update m.cpu c none })
    sleeps :
        (c i : ℕ) (ch : Chan)
        → m.cpu c ≡ some i
        → Step m (record { kernel = sleep i ch m.kernel; cpu = update m.cpu c none })
    wakes : (ch : Chan) → Step m (record m { kernel = wakeup ch m.kernel })
    kills : (pid : ℕ) → Step m (record m { kernel = (kill pid m.kernel).1 })
    exits :
        (c i : ℕ) (p : Proc) {k : Kernel deps.Files}
        → m.cpu c ≡ some i
        → exit deps i p m.kernel ≡ ok k
        → Step m (record { kernel = k; cpu = update m.cpu c none })
    forks :
        (c i pid : ℕ) (p : Proc) {k : Kernel deps.Files}
        → m.cpu c ≡ some i
        → fork deps i p m.kernel ≡ ok (some pid, k)
        → Step m (record m { kernel = k })
    reaps :
        (c i pid : ℕ) (killed : Bool) {k : Kernel deps.Files}
        → m.cpu c ≡ some i
        → wait deps i killed m.kernel ≡ ok (reaped pid, k)
        → Step m (record m { kernel = k })

  -- From a machine on which no CPU runs a process yet.
  pub data Reach (k : Kernel deps.Files) : Machine → Type 0 where
    boot : Reach k (record { kernel = k; cpu = λ _. none })
    next : {m n : Machine} → Reach k m → Step m n → Reach k n

  pub record Sound (m : Machine) : Type 0 where
    pub runs : (c i : ℕ) → m.cpu c ≡ some i → state_of i m.kernel.procs ≡ some running
    pub once : (c d i : ℕ) → m.cpu c ≡ some i → m.cpu d ≡ some i → c ≡ d

  -- Every running process but `i` still runs in `after`.
  abbrev StillRun : ℕ → List Proc → List Proc → Type 0
  StillRun i before after =
      (j : ℕ) → i ≢ j → state_of j before ≡ some running → state_of j after ≡ some running

  StillRun-modify : (i : ℕ) (f : Proc → Proc) (ps : List Proc) → StillRun i ps (modify i f ps)
  StillRun-modify i f ps j ne h = rw (get_elem?-modify i j f ps, ne→== i j ne) h

  -- The process `i` of CPU `c` stops running.
  stops :
      (m : Machine) (c i : ℕ) (k : Kernel deps.Files)
      → m.cpu c ≡ some i
      → StillRun i m.kernel.procs k.procs
      → Sound m
      → Sound (record { kernel = k; cpu = update m.cpu c none })
  stops m c i k e still s = record {
    runs = λ d j q. elim (Bool-cases (c == d)) [
      | inl y ↦ cc (rw y at q)
      | inr n ↦
          let q' : m.cpu d ≡ some j = rw n at q in
          still j (λ t. ==→ne c d n (s.once c d i e (q' ∙ ap some (sym t)))) (s.runs d j q')
    ];
    once = λ d d' j q q'. s.once d d' j (was d j q) (was d' j q');
  }
    where
      was : (d j : ℕ) → update m.cpu c none d ≡ some j → m.cpu d ≡ some j
      was d j q = elim (Bool-cases (c == d)) [ inl y ↦ cc (rw y at q) | inr n ↦ rw n at q ]

  -- No CPU changes, and what runs goes on running.
  goes_on :
      (m : Machine) (k : Kernel deps.Files)
      → ((j : ℕ) → state_of j m.kernel.procs ≡ some running → state_of j k.procs ≡ some running)
      → Sound m
      → Sound (record m { kernel = k })
  goes_on m k still s = record { runs = λ c i q. still i (s.runs c i q); once = s.once }

  -- A chosen process was runnable, and runs.
  chosen :
      (i : ℕ) (k k' : Kernel deps.Files)
      → dispatch i k ≡ (true, k')
      → (state_of i k.procs ≡ some runnable)
        × (state_of i k'.procs ≡ some running)
        × StillRun i k.procs k'.procs
  unfolding dispatch
  chosen i k k' e = elim (Option-cases (get_elem? k.procs i)) [
    | inl n ↦ cc (rw (n, dispatch) at e)
    | inr (p, l) ↦ elim (Bool-cases (state_eq p.state runnable)) [
      | inr n ↦ cc (rw (l, n, dispatch) at e)
      | inl y ↦
          let same = ap (λ (t : Bool × Kernel deps.Files). t.1) (rw (l, y, dispatch) at e) in
          subst
            (λ (t : Kernel deps.Files).
              (state_of i k.procs ≡ some runnable)
              × (state_of i t.procs ≡ some running)
              × StillRun i k.procs t.procs)
            same
            (
              rw l (ap some (is_runnable p.state y)),
              rw (get_elem?-modify i i (λ p. record p { state = running }) k.procs, ==_refl i, l)
                  refl,
              StillRun-modify i (λ p. record p { state = running }) k.procs,
            )
    ]
  ]
    where
      is_runnable : (s : ProcState) → state_eq s runnable ≡ true → s ≡ runnable
      is_runnable unused h = cc
      is_runnable embryo h = cc
      is_runnable sleeping h = cc
      is_runnable runnable h = refl
      is_runnable running h = cc
      is_runnable zombie h = cc

  choose-Sound :
      (m : Machine) (c i : ℕ) (k : Kernel deps.Files)
      → m.cpu c ≡ none
      → dispatch i m.kernel ≡ (true, k)
      → Sound m
      → Sound (record { kernel = k; cpu = update m.cpu c (some i) })
  choose-Sound m c i k idle e s =
      let (was, now, still) = chosen i m.kernel k e in
      record {
        runs = λ d j q. elim (Bool-cases (c == d)) [
          | inl y ↦ subst (λ t. state_of t k.procs ≡ some running) (some_inj (rw y at q)) now
          | inr n ↦
              let q' : m.cpu d ≡ some j = rw n at q in
              still j
                (λ t. no_both (
                  sym (s.runs d j q')
                  ∙ subst (λ x. state_of x m.kernel.procs ≡ some runnable) t was))
                (s.runs d j q')
        ];
        once = λ d d' j q q'. elim (Bool-cases (c == d)) [
          | inl y ↦ elim (Bool-cases (c == d')) [
            | inl y' ↦ sym (==→eq c d y) ∙ ==→eq c d' y'
            | inr n' ↦
                absurd
                  (busy d' j (some_inj (rw y at q)) (rw n' at q') (s.runs d' j (rw n' at q')) was)
          ]
          | inr n ↦ elim (Bool-cases (c == d')) [
            | inl y' ↦
                absurd (busy d j (some_inj (rw y' at q')) (rw n at q) (s.runs d j (rw n at q)) was)
            | inr n' ↦ s.once d d' j (rw n at q) (rw n' at q')
          ]
        ];
      }
    where
      no_both : ◌≡◌ {A = Option ProcState} (some running) (some runnable) → ⊥
      no_both x = cc

      some_inj : {a b : ℕ} → some a ≡ some b → a ≡ b
      some_inj x = cc

      busy :
          (d j : ℕ)
          → i ≡ j
          → m.cpu d ≡ some j
          → state_of j m.kernel.procs ≡ some running
          → state_of i m.kernel.procs ≡ some runnable
          → ⊥
      busy d j t q r w =
          no_both (sym r ∙ subst (λ x. state_of x m.kernel.procs ≡ some runnable) t w)

  kill-runs :
      (pid j : ℕ) (k : Kernel deps.Files)
      → state_of j k.procs ≡ some running
      → state_of j (kill pid k).1.procs ≡ some running
  unfolding kill
  kill-runs pid j k h = elim (Option-cases (find_from (has_pid pid) 0 k.procs)) [
    | inl n ↦ rw (n, kill) h
    | inr (i, f) ↦
        rw (f, kill)
          (rw (get_elem?-modify i j kill_proc k.procs) (go (i == j) (get_elem? k.procs j) h))
  ]
    where
      go :
          (b : Bool) (o : Option Proc)
          → Option.map (λ (p : Proc). p.state) o ≡ some running
          → Option.map (λ (p : Proc). p.state) (if b then Option.map kill_proc o else o)
            ≡ some running
      go true none e = e
      go true (some p) e = ground arith
      go false o e = e

  -- A slot in a state other than running, alone changed, leaves what runs running.
  only_slot :
      (slot : ℕ) (p : Proc) (before after : List Proc)
      → get_elem? before slot ≡ some p
      → state_eq p.state running ≡ false
      → ((j : ℕ) → slot ≢ j → get_elem? after j ≡ get_elem? before j)
      → (j : ℕ) → state_of j before ≡ some running
      → state_of j after ≡ some running
  only_slot slot p before after l n others j h = elim (Bool-cases (slot == j)) [
    | inl y ↦
        let l' : get_elem? before j ≡ some p =
          ap (λ t. get_elem? before t) (sym (==→eq slot j y)) ∙ l in
        absurd (clash (rw l' at h) n)
    | inr ne ↦ ap (Option.map (λ (p : Proc). p.state)) (others j (==→ne slot j ne)) ∙ h
  ]
    where
      clash : {s : ProcState} → some s ≡ some running → state_eq s running ≡ false → ⊥
      clash e q = ground arith

  Step-Sound : {m n : Machine} → Step m n → Sound m → Sound n
  unfolding yield sleep wakeup
  Step-Sound {m} (choose c i {k} idle e) s = choose-Sound m c i k idle e s
  Step-Sound {m} (yields c i e) s =
      stops m c i (yield i m.kernel) e
        (StillRun-modify i (λ p. record p { state = runnable }) m.kernel.procs) s
  Step-Sound {m} (sleeps c i ch e) s =
      stops m c i (sleep i ch m.kernel) e
        (StillRun-modify i (λ p. record p { chan = some ch; state = sleeping }) m.kernel.procs) s
  Step-Sound {m} (wakes ch) s =
      goes_on m (wakeup ch m.kernel)
        (λ j h. Awake-wakeup1 running refl (some ch) j m.kernel.procs h) s
  Step-Sound {m} (kills pid) s =
      goes_on m (kill pid m.kernel).1 (λ j h. kill-runs pid j m.kernel h) s
  Step-Sound {m} (exits c i p {k} e x) s =
      stops m c i k e (λ j ne h. exit-others deps i p m.kernel k j running x ne refl h) s
  Step-Sound {m} (forks c i pid p {k} e x) s =
      let f = (fork_lem deps i p m.kernel pid k x).2 in
      let (q, l, u) = f.claimed.free in
      goes_on m k (only_slot f.slot q m.kernel.procs k.procs l (rw u refl) f.claimed.others) s
  Step-Sound {m} (reaps c i pid killed {k} e x) s =
      let r : Reaped i pid m.kernel.procs k.procs =
        wait_lem deps i killed m.kernel (reaped pid, k) x in
      goes_on m k
        (only_slot r.slot r.child m.kernel.procs k.procs r.was_there (dead r.child r.was_dead)
          r.others)
        s
    where
      dead : (q : Proc) → dead_child i q ≡ true → state_eq q.state running ≡ false
      dead q h = ground arith

  Reach-Sound : {k : Kernel deps.Files} {m : Machine} → Reach k m → Sound m
  Reach-Sound boot = record { runs = λ c i q. cc; once = λ c d i q. cc }
  Reach-Sound (next r st) = Step-Sound st (Reach-Sound r)

  -- However the CPUs choose processes and these yield, sleep, exit, fork, reap children, wake or
  -- kill one another: the process on a CPU is RUNNING, and it is on no other CPU.
  pub one_cpu :
      {k : Kernel deps.Files} {m : Machine}
      → Reach k m
      → (c d i : ℕ) → m.cpu c ≡ some i
      → (state_of i m.kernel.procs ≡ some running) × (m.cpu d ≡ some i → c ≡ d)
  one_cpu r c d i e = let s = Reach-Sound r in (s.runs c i e, s.once c d i e)
