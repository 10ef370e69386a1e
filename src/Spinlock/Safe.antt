-- ===== src/Spinlock/Safe.antt =====
-- What machines of CPUs at a spin lock can reach.
use mit_xv.Prelude.{
  ℕ, ◌+◌, ◌-◌, ◌<◌, ◌≡◌, refl, ap, ◌∙◌, inl, inr, true, false, ◌&&◌, none, some, arith, ◌==◌,
  if◌then◌else◌, ==_refl, Bool-cases, Option-cases, ok, panic,
}
use mit_xv.Spinlock.{Cpu, pushcli, popcli, initlock, holding, acquire_enter, release_enter}
use mit_xv.Spinlock.Nesting.{Masked}
use mit_xv.Spinlock.Mutex.{
  Place, outside, spinning, won, inside, leaving, left, has_lock, is_inside, pushed, Machine, Reach,
  boot, next, Exclusive,
}
use mit_xv.Spinlock.Steps.{Sound, Step-Sound}

Reach-Sound : {m : Machine} → Reach m → Sound m
unfolding initlock
Reach-Sound (boot cpu idle) = record {
  exclusive = record {
    locked = λ c h. cc;
    once = λ c d h. cc;
    known = λ c h. cc;
    owner = λ c h. cc;
  };
  counted = record { depth = λ c. idle c; off = λ c p. absurd (let z = idle c in omega arith) };
}
Reach-Sound (next r st) = Step-Sound st (Reach-Sound r)

-- However CPUs acquire and release the lock, access by access, and nest other calls of pushcli: at
-- most one is between its winning xchg and its unlocking store, with interrupts off.
pub mutual_exclusion :
    {m : Machine}
    → Reach m
    → (c : ℕ) → has_lock (m.place c) ≡ true
    → ((d : ℕ) → has_lock (m.place d) ≡ true → c ≡ d)
      × (m.lock.locked ≡ true)
      × ((m.cpu c).interrupts ≡ false)
mutual_exclusion {m} r c h =
    let s = Reach-Sound r in
    (
      λ d. s.exclusive.once c d h,
      s.exclusive.locked c h,
      s.counted.off c (deep (m.place c) (m.cpu c).ncli (m.nested c) h (s.counted.depth c)),
    )
  where
    deep : (p : Place) (a b : ℕ) → has_lock p ≡ true → a ≡ b + pushed p → 0 < a
    deep won a b h' e = omega arith
    deep inside a b h' e = omega arith
    deep leaving a b h' e = omega arith
    deep outside a b h' e = cc
    deep spinning a b h' e = cc
    deep left a b h' e = cc

-- None of the panics of acquire, release and popcli is reached by a CPU that calls them in turn;
-- an acquire by the CPU that is between its acquire and release does panic.
no_panic :
    {m : Machine}
    → Reach m
    → (c : ℕ)
    → (m.place c ≡ outside → acquire_enter c m.lock (m.cpu c) ≡ ok (pushcli (m.cpu c)))
      × (m.place c ≡ inside → release_enter c m.lock ≡ ok (record m.lock { cpu = none }))
      × (m.place c ≡ left → (x : Cpu) × (popcli (m.cpu c) ≡ ok x))
      × (m.place c ≡ inside → acquire_enter c m.lock (m.cpu c) ≡ panic "acquire")
unfolding acquire_enter release_enter holding popcli
no_panic {m} r c =
    let s = Reach-Sound r in
    (
      λ h. rw (not_holding h (holding-inside s.exclusive)) refl,
      λ h. rw (is_holding h s.exclusive) refl,
      λ h. pops (m.cpu c) (m.nested c) (s.counted.off c) (rw h at (s.counted.depth c)),
      λ h. rw (is_holding h s.exclusive) refl,
    )
  where
    holding-inside :
        Exclusive m.lock m.place → holding c m.lock ≡ true → is_inside (m.place c) ≡ true
    holding-inside x h = elim (Option-cases m.lock.cpu) [
      | inl n ↦ cc (rw n at h)
      | inr (d, e) ↦ x.owner c (e ∙ ap some (owner_of d (rw e at h)))
    ]
      where
        owner_of : (d : ℕ) → (m.lock.locked && (d == c)) ≡ true → d ≡ c
        owner_of d q = ground arith

    not_holding :
        m.place c ≡ outside
        → (holding c m.lock ≡ true → is_inside (m.place c) ≡ true)
        → holding c m.lock ≡ false
    not_holding h f = elim (Bool-cases (holding c m.lock)) [
      | inl y ↦ cc (rw h at (f y))
      | inr n ↦ n
    ]

    is_holding : m.place c ≡ inside → Exclusive m.lock m.place → holding c m.lock ≡ true
    is_holding h x = rw (x.known c (rw h refl), x.locked c (rw h refl), ==_refl c) refl

    pops : (y : Cpu) (a : ℕ) → Masked y → y.ncli ≡ a + 1 → (x : Cpu) × (popcli y ≡ ok x)
    pops y a masked deep =
        let off : y.interrupts ≡ false = masked (omega arith) in
        let n : (y.ncli == 0) ≡ false = ground arith in
        (
          record y {
            ncli = y.ncli - 1;
            interrupts = if (y.ncli - 1 == 0) && y.intena then true else y.interrupts;
          },
          rw (off, n) refl,
        )
