-- ===== src/Sleeplock.antt =====
-- sleeplock.c. What runs under the spin lock of a sleep lock is one step; acquiresleep is cut at
-- its calls of sleep.
pub mod Mutex
mod Tests
use mit_xv.Prelude.{ℕ, Bool, true, false, Option, none, some, if◌then◌else◌}

-- `struct sleeplock`
pub record Sleeplock : Type 0 where
  pub locked : Bool
  pub pid : ℕ

pub initsleeplock : Sleeplock
initsleeplock = record { locked = false; pid = 0 }

-- One run of `acquiresleep` of process `p`, from entry or wakeup: the lock, or `none` to sleep.
unfoldable pub acquiresleep : ℕ → Sleeplock → Option Sleeplock
acquiresleep p lk = if lk.locked then none else some (record { locked = true; pid = p })

-- `releasesleep`, which also wakes those that sleep on the lock
unfoldable pub releasesleep : Sleeplock → Sleeplock
releasesleep lk = record { locked = false; pid = 0 }

unfoldable pub holdingsleep : Sleeplock → Bool
holdingsleep lk = lk.locked
