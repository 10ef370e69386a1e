-- ===== src/Log/Space.antt =====
-- The reservation of log space: file-system calls that begin, log blocks and end in any order.
use mit_xv.Prelude.{
  ℕ, suc, ◌+◌, ◌*◌, ◌≤◌, ◌<◌, ◌≡◌, refl, sym, ap, ◌∙◌, ◌≢◌, inl, inr, Bool, true, false, List, [],
  ◌∷◌, ◌++◌, arith, Bool-cases, length, All, length-append, ok,
}
use mit_xv.Log.{
  Log, Store, maxopblocks, logsize, begin_op, end_op_enter, end_op_commit, log_write, absorb,
  commit,
}

-- The log with the calls in progress: for each, how many blocks it may still write.
pub record Calls : Type 0 where
  pub log : Log
  pub ops : List ℕ

unfoldable pub sum : List ℕ → ℕ
sum [] = 0
sum (x ∷ xs) = x + sum xs

sum-append : (xs ys : List ℕ) → sum (xs ++ ys) ≡ sum xs + sum ys
unfolding sum
sum-append [] ys = omega arith
sum-append (x ∷ xs) ys = omega (arith, sum-append xs ys)

-- A call writes at most `maxopblocks` blocks; `finish` is the rest of the `end_op` that commits.
pub data Step (c : Calls) : Calls → Type 0 where
  begin :
      {l : Log}
      → begin_op c.log ≡ (true, l)
      → Step c (record { log = l; ops = maxopblocks ∷ c.ops })
  write :
      {l : Log} (b m : ℕ) (xs ys : List ℕ)
      → c.ops ≡ xs ++ (suc m ∷ ys)
      → log_write b c.log ≡ ok l
      → Step c (record { log = l; ops = xs ++ (m ∷ ys) })
  leave :
      {l : Log} {commits : Bool} (m : ℕ) (xs ys : List ℕ)
      → c.ops ≡ xs ++ (m ∷ ys)
      → end_op_enter c.log ≡ ok (commits, l)
      → Step c (record { log = l; ops = xs ++ ys })
  finish :
      (s : Store) → c.log.committing ≡ true → Step c (record c { log = (end_op_commit c.log s).0 })

-- After `initlog`.
pub data Reach (start size : ℕ) : Calls → Type 0 where
  boot : Reach start size (record {
    log = record { start = start; size = size; outstanding = 0; committing = false; block = [] };
    ops = [];
  })
  next : {c d : Calls} → Reach start size c → Step c d → Reach start size d

pub record Reserved (size : ℕ) (c : Calls) : Type 0 where
  pub counted : c.log.outstanding ≡ length c.ops
  pub space : length c.log.block + sum c.ops ≤ logsize
  pub same_size : c.log.size ≡ size
  pub quiet : c.log.committing ≡ true → c.ops ≡ []
  pub each : All (λ m. m ≤ maxopblocks) c.ops

length-absorb : (bs : List ℕ) (b : ℕ) → length (absorb bs b) ≤ length bs + 1
unfolding absorb
length-absorb [] b = omega arith
length-absorb (c ∷ cs) b = ground (arith, length-absorb cs b)

sum-le : (xs : List ℕ) → All (λ m. m ≤ maxopblocks) xs → sum xs ≤ length xs * maxopblocks
unfolding sum
sum-le [] h = omega arith
sum-le (x ∷ xs) h = omega (arith, sum-le xs h.1)

-- A call in the list may be given a smaller budget, or be taken out.
All-smaller :
    (m k : ℕ) (xs ys : List ℕ)
    → k ≤ m
    → All (λ m. m ≤ maxopblocks) (xs ++ (m ∷ ys))
    → All (λ m. m ≤ maxopblocks) (xs ++ (k ∷ ys)) × All (λ m. m ≤ maxopblocks) (xs ++ ys)
All-smaller m k [] ys le h = ((omega arith, h.1), h.1)
All-smaller m k (x ∷ xs) ys le h = let r = All-smaller m k xs ys le h.1 in ((h.0, r.0), (h.0, r.1))

not-empty : (m : ℕ) (xs ys : List ℕ) → xs ++ (m ∷ ys) ≢ []
not-empty m [] ys e = cc
not-empty m (x ∷ xs) ys e = cc

module _ {size : ℕ} {c : Calls} (r : Reserved size c) where
  begin-Reserved :
      {l : Log}
      → begin_op c.log ≡ (true, l)
      → Reserved size (record { log = l; ops = maxopblocks ∷ c.ops })
  unfolding begin_op sum
  begin-Reserved {l} e = record {
    counted = ground (arith, r.counted);
    space = ground (arith, sum-le c.ops r.each);
    same_size = ground arith;
    quiet = ground arith;
    each = (omega arith, r.each);
  }

  -- `log_write` runs only while calls are in progress, so never during a commit.
  not_committing : (m : ℕ) (xs ys : List ℕ) → c.ops ≡ xs ++ (m ∷ ys) → c.log.committing ≡ false
  not_committing m xs ys e = elim (Bool-cases c.log.committing) [
    | inl y ↦ absurd (not-empty m xs ys (sym e ∙ r.quiet y))
    | inr n ↦ n
  ]

  write-Reserved :
      {l : Log} (b m : ℕ) (xs ys : List ℕ)
      → c.ops ≡ xs ++ (suc m ∷ ys)
      → log_write b c.log ≡ ok l
      → Reserved size (record { log = l; ops = xs ++ (m ∷ ys) })
  unfolding log_write sum
  write-Reserved {l} b m xs ys e w =
      let quiet = not_committing (suc m) xs ys e in
      let s : sum c.ops ≡ sum (xs ++ (m ∷ ys)) + 1 =
        rw e (omega (arith, sum-append xs (m ∷ ys), sum-append xs (suc m ∷ ys))) in
      let n : length c.ops ≡ length (xs ++ (m ∷ ys)) =
        rw e (omega (arith, length-append xs (m ∷ ys), length-append xs (suc m ∷ ys))) in
      record {
        counted = ground (arith, r.counted);
        space = ground (arith, length-absorb c.log.block b, r.space);
        same_size = ground (arith, r.same_size);
        quiet = ground arith;
        each = (All-smaller (suc m) m xs ys (omega arith) (rw e at r.each)).0;
      }

  leave-Reserved :
      {l : Log} {commits : Bool} (m : ℕ) (xs ys : List ℕ)
      → c.ops ≡ xs ++ (m ∷ ys)
      → end_op_enter c.log ≡ ok (commits, l)
      → Reserved size (record { log = l; ops = xs ++ ys })
  unfolding end_op_enter sum
  leave-Reserved {l} m xs ys e w =
      let quiet = not_committing m xs ys e in
      let s : sum (xs ++ ys) ≤ sum c.ops =
        rw e (omega (arith, sum-append xs ys, sum-append xs (m ∷ ys))) in
      let n : length c.ops ≡ length (xs ++ ys) + 1 =
        rw e (omega (arith, length-append xs ys, length-append xs (m ∷ ys))) in
      record {
        counted = ground (arith, r.counted);
        space = ground (arith, r.space);
        same_size = ground (arith, r.same_size);
        quiet = λ q. empty_of_length (xs ++ ys) (ground (arith, r.counted));
        each = (All-smaller m m xs ys (omega arith) (rw e at r.each)).1;
      }
    where
      empty_of_length : (zs : List ℕ) → length zs ≡ 0 → zs ≡ []
      empty_of_length [] h = refl
      empty_of_length (z ∷ zs) h = absurd (omega arith)

  finish-Reserved :
      (s : Store)
      → c.log.committing ≡ true
      → Reserved size (record c { log = (end_op_commit c.log s).0 })
  unfolding end_op_commit commit sum
  finish-Reserved s q = record {
    counted = r.counted;
    space = rw (r.quiet q) (omega arith);
    same_size = r.same_size;
    quiet = λ h. r.quiet q;
    each = r.each;
  }

Step-Reserved : {size : ℕ} {c d : Calls} → Step c d → Reserved size c → Reserved size d
Step-Reserved (begin e) r = begin-Reserved r e
Step-Reserved (write b m xs ys e w) r = write-Reserved r b m xs ys e w
Step-Reserved (leave m xs ys e w) r = leave-Reserved r m xs ys e w
Step-Reserved (finish s q) r = finish-Reserved r s q

Reach-Reserved : {start size : ℕ} {c : Calls} → Reach start size c → Reserved size c
unfolding sum
Reach-Reserved boot = record {
  counted = refl;
  space = omega arith;
  same_size = refl;
  quiet = λ e. refl;
  each = tt;
}
Reach-Reserved (next r st) = Step-Reserved st (Reach-Reserved r)

-- However file-system calls begin, write and end, if each logs at most 10 blocks and the log has
-- room for 30 blocks and its header, then `log_write` never panics while a call in progress has a
-- write left, it never runs during a commit, and at most 30 blocks are logged.
pub log_write-ok :
    {start size : ℕ} {c : Calls}
    → Reach start size c
    → logsize < size
    → (b m : ℕ) (xs ys : List ℕ) → c.ops ≡ xs ++ (suc m ∷ ys)
    → (log_write b c.log ≡ ok (record c.log { block = absorb c.log.block b }))
      × (c.log.committing ≡ false)
      × (length (absorb c.log.block b) ≤ logsize)
unfolding log_write sum
log_write-ok {c = c} reach big b m xs ys e =
    let r = Reach-Reserved reach in
    let s : suc (length c.log.block) ≤ logsize =
      let t : suc (length c.log.block) + sum (xs ++ (m ∷ ys)) ≤ logsize =
        omega (arith, r.space, ap sum e, sum-append xs (m ∷ ys), sum-append xs (suc m ∷ ys)) in
      omega arith in
    let n : length c.ops ≡ suc (length (xs ++ ys)) =
      ap length e ∙ omega (arith, length-append xs ys, length-append xs (suc m ∷ ys)) in
    (
      ground (arith, r.same_size, r.counted),
      not_committing r (suc m) xs ys e,
      omega (arith, length-absorb c.log.block b),
    )
