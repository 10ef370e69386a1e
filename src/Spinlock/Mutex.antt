-- ===== src/Spinlock/Mutex.antt =====
-- A machine of several CPUs at one spin lock.
use mit_xv.Prelude.{ℕ, ◌+◌, ◌-◌, ◌<◌, ◌≡◌, Bool, true, false, some, update, ok}
use mit_xv.Spinlock.{
  Cpu, pushcli, popcli, Lock, initlock, acquire_enter, xchg, record_cpu, release_enter, unlock,
}
use mit_xv.Spinlock.Nesting.{Masked}

-- Where a CPU is: outside of the code; in the loop of acquire; behind it, with `lk->cpu` not yet
-- set; between acquire and release; in release before the store that unlocks; and behind that.
pub data Place : Type 0 where
  outside spinning won inside leaving left : Place

abbrev pub has_lock : Place → Bool
has_lock won = true
has_lock inside = true
has_lock leaving = true
has_lock _ = false

abbrev pub is_inside : Place → Bool
is_inside inside = true
is_inside _ = false

abbrev pub pushed : Place → ℕ
pushed outside = 0
pushed _ = 1

-- `nested` counts the calls of pushcli of a CPU that are not for this lock.
pub record Machine : Type 0 where
  pub lock : Lock
  pub cpu : ℕ → Cpu
  pub place : ℕ → Place
  pub nested : ℕ → ℕ

abbrev pub goes : Machine → ℕ → Place → Machine
goes m c p = record m { place = update m.place c p }

pub data Step (m : Machine) : Machine → Type 0 where
  enters :
      (c : ℕ) {x : Cpu}
      → m.place c ≡ outside
      → acquire_enter c m.lock (m.cpu c) ≡ ok x
      → Step m (record m { cpu = update m.cpu c x; place = update m.place c spinning })
  spins :
      (c : ℕ) {lk : Lock}
      → m.place c ≡ spinning
      → xchg m.lock ≡ (true, lk)
      → Step m (record m { lock = lk })
  wins :
      (c : ℕ) {lk : Lock}
      → m.place c ≡ spinning
      → xchg m.lock ≡ (false, lk)
      → Step m (record m { lock = lk; place = update m.place c won })
  records :
      (c : ℕ)
      → m.place c ≡ won
      → Step m (record m { lock = record_cpu c m.lock; place = update m.place c inside })
  leaves :
      (c : ℕ) {lk : Lock}
      → m.place c ≡ inside
      → release_enter c m.lock ≡ ok lk
      → Step m (record m { lock = lk; place = update m.place c leaving })
  unlocks :
      (c : ℕ)
      → m.place c ≡ leaving
      → Step m (record m { lock = unlock m.lock; place = update m.place c left })
  ends :
      (c : ℕ) {x : Cpu}
      → m.place c ≡ left
      → popcli (m.cpu c) ≡ ok x
      → Step m (record m { cpu = update m.cpu c x; place = update m.place c outside })
  nests :
      (c : ℕ)
      → Step m (record m {
        cpu = update m.cpu c (pushcli (m.cpu c));
        nested = update m.nested c (m.nested c + 1);
      })
  unnests :
      (c : ℕ) {x : Cpu}
      → 0 < m.nested c
      → popcli (m.cpu c) ≡ ok x
      → Step m (record m { cpu = update m.cpu c x; nested = update m.nested c (m.nested c - 1) })
  sets_flag :
      (c : ℕ) (flag : Bool)
      → (m.cpu c).ncli ≡ 0
      → Step m (record m { cpu = update m.cpu c (record (m.cpu c) { interrupts = flag }) })

pub data Reach : Machine → Type 0 where
  boot :
      (cpu : ℕ → Cpu)
      → ((c : ℕ) → (cpu c).ncli ≡ 0)
      → Reach (record { lock = initlock; cpu = cpu; place = λ _. outside; nested = λ _. 0 })
  next : {m n : Machine} → Reach m → Step m n → Reach n

pub record Exclusive (lock : Lock) (place : ℕ → Place) : Type 0 where
  pub locked : (c : ℕ) → has_lock (place c) ≡ true → lock.locked ≡ true
  pub once : (c d : ℕ) → has_lock (place c) ≡ true → has_lock (place d) ≡ true → c ≡ d
  pub known : (c : ℕ) → is_inside (place c) ≡ true → lock.cpu ≡ some c
  pub owner : (c : ℕ) → lock.cpu ≡ some c → is_inside (place c) ≡ true

-- On each CPU the depth is right, and interrupts are off while it is not 0.
pub record Counted (cpu : ℕ → Cpu) (place : ℕ → Place) (nested : ℕ → ℕ) : Type 0 where
  pub depth : (c : ℕ) → (cpu c).ncli ≡ nested c + pushed (place c)
  pub off : (c : ℕ) → Masked (cpu c)
