-- ===== src/Bio/Tests.antt =====
-- A cache of two buffers over a disk of four blocks.
use mit_xv.Prelude.{ℕ, ◌*◌, ◌≡◌, refl, true, false, some, List, [], ◌∷◌, arith, update, ok}
use mit_xv.Bio.{
  Buf, Block, Cache, modify, lookup, find_cached, find_unused, bget, bread, bwrite, binit,
  binit_from, fill, recycle,
}
use mit_xv.Bio.Find.{has_id, has_key, distinct_ids}
use mit_xv.Bio.Consistent.{Consistent, one_each, view}
use mit_xv.Bio.Bget.{Got, bget-Got}
use mit_xv.Bio.Bread.{Read, bread-Read}
use mit_xv.Bio.Bwrite.{bwrite-writes}

abbrev disk : ℕ → Block
disk q i = q * 10

-- Block 2 is cached in buffer 1, clean and in use by nobody; buffer 0 was never used.
abbrev one_used : List Buf
one_used =
    record {
      id = 1;
      valid = true;
      dirty = false;
      dev = 1;
      blockno = 2;
      locked = false;
      refcnt = 0;
      bytes = λ i. 20;
    }
    ∷ record {
      id = 0;
      valid = false;
      dirty = false;
      dev = 0;
      blockno = 0;
      locked = false;
      refcnt = 0;
      bytes = λ i. 0;
    }
    ∷ []

abbrev cache : Cache
cache = record { bufs = one_used; disk = disk; disksize = 4 }

cache-Consistent : Consistent disk one_used
unfolding distinct_ids one_each has_id has_key
cache-Consistent = record {
  ids = refl;
  once = refl;
  clean = (
    record { on_disk = λ v. refl; loaded = λ v. cc; same = λ u v. refl },
    (record { on_disk = λ v. cc; loaded = λ v. cc; same = λ u v. cc }, tt),
  );
}

-- The buffer that was used longest ago is taken for a block that is not cached.
bget_runs : bget 1 3 one_used ≡ ok (0, modify 0 (recycle 1 3) one_used)
unfolding bget find_cached find_unused
bget_runs = refl

binit_order : find_unused binit ≡ some 0
unfolding binit binit_from find_unused
binit_order = refl

bget-Got_example : Got 1 3 disk one_used (0, modify 0 (recycle 1 3) one_used)
bget-Got_example =
    bget-Got 1 3 disk one_used cache-Consistent (omega arith) (0, modify 0 (recycle 1 3) one_used)
      bget_runs

abbrev with_two : Cache
with_two = record cache { bufs = modify 1 (λ b. record b { locked = true; refcnt = 1 }) one_used }

bread_runs : bread 1 2 cache ≡ ok (1, with_two)
unfolding bread bget find_cached fill lookup modify
bread_runs = refl

bread-Read_example : Read 2 cache (1, with_two)
bread-Read_example = bread-Read 2 cache (1, with_two) cache-Consistent bread_runs

-- Buffer 1 with its lock held and new data.
abbrev changed : Buf
changed = record {
  id = 1;
  valid = true;
  dirty = false;
  dev = 1;
  blockno = 2;
  locked = true;
  refcnt = 1;
  bytes = λ i. 21;
}

abbrev held : Cache
held = record { bufs = changed ∷ []; disk = disk; disksize = 4 }

held-Consistent : Consistent disk (changed ∷ [])
unfolding distinct_ids one_each has_id has_key
held-Consistent = record {
  ids = refl;
  once = refl;
  clean = (record { on_disk = λ v. refl; loaded = λ v. cc; same = λ u v. cc }, tt);
}

bwrite-writes_example :
    let bufs : List Buf = modify 1 (λ x. record x { valid = true; dirty = false }) (changed ∷ []) in
    let disk' : ℕ → Block = update disk 2 (λ i. 21) in
    (bwrite 1 held ≡ ok (record held { bufs = bufs; disk = disk' }))
    × Consistent disk' bufs
    × ((p : ℕ) → view disk' bufs p ≡ view disk (changed ∷ []) p)
    × (view disk' bufs 2 ≡ (λ i. 21))
bwrite-writes_example =
    bwrite-writes 1 2 held changed held-Consistent (unfold lookup in refl) refl refl refl
      (omega arith)

-- The same buffer with the disk's data, about to be released.
abbrev unchanged : Buf
unchanged = record changed { bytes = λ i. 20 }

unchanged-Consistent : Consistent disk (unchanged ∷ [])
unfolding distinct_ids one_each has_id has_key
unchanged-Consistent = record {
  ids = refl;
  once = refl;
  clean = (record { on_disk = λ v. refl; loaded = λ v. cc; same = λ u v. cc }, tt);
}
