-- ===== src/Spinlock/Tests.antt =====
-- CPU 0 takes the lock and CPU 1 spins.
use mit_xv.Prelude.{ℕ, ◌≡◌, refl, true, false, some, update, ok}
use mit_xv.Spinlock.{Cpu, pushcli, popcli, initlock, holding, acquire_enter, xchg, record_cpu}
use mit_xv.Spinlock.Nesting.{pushclis, popclis}
use mit_xv.Spinlock.Mutex.{
  outside, spinning, won, inside, has_lock, Machine, enters, spins, wins, records, Reach, boot,
  next,
}
use mit_xv.Spinlock.Safe.{mutual_exclusion}

abbrev idle : Cpu
idle = record { ncli = 0; intena = false; interrupts = true }

abbrev masked : Cpu
masked = record { ncli = 1; intena = true; interrupts = false }

abbrev contended : Machine
contended = record {
  lock = record { locked = true; cpu = some 0 };
  cpu = update (update (λ _. idle) 0 masked) 1 masked;
  place = update (update (update (update (λ _. outside) 0 spinning) 0 won) 1 spinning) 0 inside;
  nested = λ _. 0;
}

contended-Reach : Reach contended
unfolding initlock acquire_enter holding pushcli xchg record_cpu
contended-Reach =
    next
      (next
        (next (next (next (boot (λ _. idle) (λ c. refl)) (enters 0 refl refl)) (wins 0 refl refl))
          (enters 1 refl refl))
        (spins 1 refl refl))
      (records 0 refl)

-- Two nested calls of pushcli: the second popcli enables the interrupts.
nesting_runs :
    (popclis 1 (pushclis 2 idle) ≡ ok masked)
    × (popclis 2 (pushclis 2 idle) ≡ ok (record idle { intena = true }))
unfolding pushclis popclis pushcli popcli
nesting_runs = (refl, refl)

mutual_exclusion_example :
    ((d : ℕ) → has_lock (contended.place d) ≡ true → 0 ≡ d)
    × (contended.lock.locked ≡ true)
    × ((contended.cpu 0).interrupts ≡ false)
mutual_exclusion_example = mutual_exclusion contended-Reach 0 refl
