-- ===== src/Sleeplock/Mutex.antt =====
-- Processes at a sleep lock, in every interleaving of their steps.
use mit_xv.Prelude.{
  ℕ, ◌≡◌, refl, sym, ap, ◌∙◌, inl, inr, true, false, Option, none, some, ◌==◌, ==→eq, ==→ne,
  Bool-cases, update,
}
use mit_xv.Sleeplock.{Sleeplock, initsleeplock, acquiresleep, releasesleep, holdingsleep}

-- The lock, and where each process is: outside, asleep on the lock, or behind `acquiresleep`.
pub data Place : Type 0 where
  outside asleep inside : Place

pub record System : Type 0 where
  pub lk : Sleeplock
  pub place : ℕ → Place

-- A process that was woken runs on.
abbrev pub awake : Place → Place
awake outside = outside
awake asleep = outside
awake inside = inside

pub data Step : System → System → Type 0 where
  acquires :
      (s : System) (p : ℕ) (lk : Sleeplock)
      → s.place p ≡ outside
      → acquiresleep p s.lk ≡ some lk
      → Step s (record { lk = lk; place = update s.place p inside })
  waits :
      (s : System) (p : ℕ)
      → s.place p ≡ outside
      → acquiresleep p s.lk ≡ none
      → Step s (record s { place = update s.place p asleep })
  releases :
      (s : System) (p : ℕ)
      → s.place p ≡ inside
      → Step s (record { lk = releasesleep s.lk; place = λ q. awake (update s.place p outside q) })

abbrev pub initial : System
initial = record { lk = initsleeplock; place = λ p. outside }

pub data Reachable : System → Type 0 where
  starts : Reachable initial
  steps : (s s' : System) → Reachable s → Step s s' → Reachable s'

-- The lock is held just while a process is inside, the one whose pid it has, and nobody sleeps on
-- a free lock.
pub record Owned (s : System) : Type 0 where
  pub owner : (p : ℕ) → s.place p ≡ inside → (s.lk.locked ≡ true) × (s.lk.pid ≡ p)
  pub sleeper : (p : ℕ) → s.place p ≡ asleep → s.lk.locked ≡ true

acquiresleep-free :
    (p : ℕ) (lk lk' : Sleeplock)
    → acquiresleep p lk ≡ some lk'
    → (lk.locked ≡ false) × (record { locked = true; pid = p } ≡ lk')
unfolding acquiresleep
acquiresleep-free p lk lk' e = elim (Bool-cases lk.locked) [
  | inl y ↦ cc (rw y at e)
  | inr n ↦
      let e' : ◌≡◌ {A = Option Sleeplock} (some (record { locked = true; pid = p })) (some lk') =
        rw n at e in
      (n, cc)
]

acquiresleep-busy : (p : ℕ) (lk : Sleeplock) → acquiresleep p lk ≡ none → lk.locked ≡ true
unfolding acquiresleep
acquiresleep-busy p lk e = elim (Bool-cases lk.locked) [ inl y ↦ y | inr n ↦ cc (rw n at e) ]

awake-inside : (x : Place) → awake x ≡ inside → x ≡ inside
awake-inside outside e = e
awake-inside asleep e = cc
awake-inside inside e = refl

awake-asleep : (x : Place) → awake x ≡ asleep → ⊥
awake-asleep outside e = cc
awake-asleep asleep e = cc
awake-asleep inside e = cc

Step-Owned : {s s' : System} → Step s s' → Owned s → Owned s'
Step-Owned (acquires s p lk out e) o =
    let (free, is) = acquiresleep-free p s.lk lk e in
    record {
      owner = λ q h. elim (Bool-cases (p == q)) [
        | inl y ↦ (
          ap (λ (t : Sleeplock). t.locked) (sym is),
          ap (λ (t : Sleeplock). t.pid) (sym is) ∙ ==→eq p q y,
        )
        | inr n ↦ let h' : s.place q ≡ inside = rw n at h in let (l, x) = o.owner q h' in cc
      ];
      sleeper = λ q h. ap (λ (t : Sleeplock). t.locked) (sym is);
    }
Step-Owned (waits s p out e) o = record {
  owner = λ q h. elim (Bool-cases (p == q)) [
    | inl y ↦ let h' : asleep ≡ inside = rw y at h in cc
    | inr n ↦ o.owner q (rw n at h)
  ];
  sleeper = λ q h. acquiresleep-busy p s.lk e;
}
Step-Owned (releases s p ins) o = record {
  owner = λ q h. elim (Bool-cases (p == q)) [
    | inl y ↦ let h' : outside ≡ inside = awake-inside outside (rw y at h) in cc
    | inr n ↦
        let h' : s.place q ≡ inside = awake-inside (s.place q) (rw n at h) in
        let (l, x) = o.owner q h' in
        let (l', x') = o.owner p ins in absurd (==→ne p q n (sym x' ∙ x))
  ];
  sleeper = λ q h. absurd (awake-asleep (update s.place p outside q) h);
}

Reachable-Owned : {s : System} → Reachable s → Owned s
unfolding initsleeplock
Reachable-Owned starts = record { owner = λ p e. cc; sleeper = λ p e. cc }
Reachable-Owned (steps s s' r st) = Step-Owned st (Reachable-Owned r)

-- However the processes interleave at a sleep lock, at most one is behind `acquiresleep`; the lock
-- has its pid, `holdingsleep` is true for it, and no process sleeps on a lock that is free.
pub sleep_exclusion :
    (s : System)
    → Reachable s
    → ((p q : ℕ) → s.place p ≡ inside → s.place q ≡ inside → p ≡ q)
      × ((p : ℕ) → s.place p ≡ inside → (holdingsleep s.lk ≡ true) × (s.lk.pid ≡ p))
      × ((p : ℕ) → s.place p ≡ asleep → s.lk.locked ≡ true)
unfolding holdingsleep
sleep_exclusion s r =
    let o = Reachable-Owned r in
    (
      λ p q h h'. let (l, x) = o.owner p h in let (l', x') = o.owner q h' in sym x ∙ x',
      o.owner,
      o.sleeper,
    )
