-- ===== src/Sleeplock/Tests.antt =====
-- Process 4 takes the lock, and process 5 sleeps on it.
use mit_xv.Prelude.{ℕ, ◌≡◌, refl, true, none, some, update}
use mit_xv.Sleeplock.{Sleeplock, initsleeplock, acquiresleep, holdingsleep}
use mit_xv.Sleeplock.Mutex.{
  outside, asleep, inside, System, acquires, waits, initial, Reachable, starts, steps,
  sleep_exclusion,
}

abbrev held : Sleeplock
held = record { locked = true; pid = 4 }

abbrev taken : System
taken = record { lk = held; place = update (λ p. outside) 4 inside }

abbrev queued : System
queued = record taken { place = update taken.place 5 asleep }

takes : acquiresleep 4 initsleeplock ≡ some held
unfolding acquiresleep initsleeplock
takes = refl

blocks : acquiresleep 5 held ≡ none
unfolding acquiresleep
blocks = refl

queued-Reachable : Reachable queued
queued-Reachable =
    steps taken queued (steps initial taken starts (acquires initial 4 held refl takes))
      (waits taken 5 refl blocks)

sleep_exclusion_example :
    ((p q : ℕ) → queued.place p ≡ inside → queued.place q ≡ inside → p ≡ q)
    × ((p : ℕ) → queued.place p ≡ inside → (holdingsleep held ≡ true) × (4 ≡ p))
    × ((p : ℕ) → queued.place p ≡ asleep → held.locked ≡ true)
sleep_exclusion_example = sleep_exclusion queued queued-Reachable
