-- ===== src/Log/Tests.antt =====
-- A transaction of two blocks on a log at block 2, crashed and recovered.
use mit_xv.Prelude.{
  ℕ, ◌≤◌, ◌≡◌, refl, inr, true, false, [], ◌∷◌, arith, length, replicate, update, ok,
}
use mit_xv.Log.{
  Block, Store, Log, bwrite, put_blocks, head_block, write_head, get_blocks, read_head,
  install_trans, write_log, recover_from_log, commit_blocks, commit, absorb, begin_op, log_write,
  logsize,
}
use mit_xv.Log.Recovery.{LogOk, disk_after_recovery}
use mit_xv.Log.Restart.{crash_in_recovery, recovery_restarts}
use mit_xv.Log.Atomic.{CommitOk, crash_in_commit, commit_atomic}
use mit_xv.Log.Space.{Calls, Step, Reach, boot, next, log_write-ok}

-- Block 40 is cached with 1s, block 50 with 2s; the disk holds zeros.
abbrev zeros : ℕ → Block
zeros b i = 0

abbrev cached : Store
cached = record { view = update (update zeros 40 (λ _. 1)) 50 (λ _. 2); disk = zeros; writes = [] }

abbrev two_blocks : Log
two_blocks = record {
  start = 2;
  size = 31;
  outstanding = 0;
  committing = true;
  block = 40 ∷ 50 ∷ [];
}

two_blocks-CommitOk : CommitOk two_blocks cached
unfolding get_blocks
two_blocks-CommitOk = record {
  fits = omega arith;
  homes = (inr (omega arith), (inr (omega arith), tt));
  clean = refl;
  fresh = refl;
}

-- After the header is on the disk both blocks are recovered; before, neither.
crash_run :
    (disk_after_recovery 2 (crash_in_commit 3 two_blocks cached) 50 7 ≡ 2)
    × (disk_after_recovery 2 (crash_in_commit 2 two_blocks cached) 50 7 ≡ 0)
unfolding commit commit_blocks write_log write_head head_block put_blocks install_trans bwrite
    recover_from_log read_head get_blocks
crash_run = (refl, refl)

commit_atomic_example : disk_after_recovery 2 (crash_in_commit 4 two_blocks cached) 40 ≡ (λ _. 1)
commit_atomic_example = commit_atomic two_blocks cached 4 40 two_blocks-CommitOk (inr (omega arith))

-- A disk whose log holds block 40, with 9s in the log.
abbrev crashed : ℕ → Block
crashed = update (update zeros 2 (update (update (λ _. 0) 0 1) 1 40)) 3 (λ _. 9)

crashed-LogOk : LogOk 2 31 crashed
unfolding get_blocks
crashed-LogOk = record { fits = omega arith; homes = (inr (omega arith), tt) }

recovery_restarts_example :
    disk_after_recovery 2 (crash_in_recovery 2 1 crashed) 40 ≡ disk_after_recovery 2 crashed 40
recovery_restarts_example = recovery_restarts 2 31 crashed crashed-LogOk 1 40 (inr (omega arith))

abbrev one_call : Calls
one_call = record {
  log = record { start = 2; size = 31; outstanding = 1; committing = false; block = [] };
  ops = 10 ∷ [];
}

one_call-Reach : Reach 2 31 one_call
unfolding begin_op
one_call-Reach = next boot (Step.begin refl)

log_write-ok_example :
    (log_write 40 one_call.log ≡ ok (record one_call.log { block = absorb [] 40 }))
    × (one_call.log.committing ≡ false)
    × (length (absorb [] 40) ≤ logsize)
log_write-ok_example = log_write-ok one_call-Reach (omega arith) 40 9 [] [] refl

abbrev nearly_full : Log
nearly_full = record {
  start = 2;
  size = 30;
  outstanding = 3;
  committing = false;
  block = replicate 29 7;
}
