-- ===== src/Log/Atomic.antt =====
-- A crash between two disk writes of `commit` of log.c, followed by recovery.
use mit_xv.Prelude.{
  ℕ, zero, suc, ◌-◌, ◌≤◌, ◌<◌, ◌≡◌, refl, sym, ap, ◌∙◌, inl, inr, Bool, true, false, List, [], ◌∷◌,
  ◌++◌, append_assoc, arith, leb, if◌then◌else◌, leb→le, Bool-cases, length, take, length-append,
}
use mit_xv.Log.{
  Block, Store, Log, bwrite, head_block, write_head, install_trans, write_log, commit_blocks,
  commit,
}
use mit_xv.Log.Shape.{
  apply_writes, apply_writes-append, logged, log_writes, home_writes, after, after-after, Home,
  apply-no_key, apply-take-no_key, take-append_le, take-append_ge,
}
use mit_xv.Log.Recovery.{
  AllHome, clear_head, recover_writes, disk_after_recovery, home_writes-no_key,
  install_trans-writes,
}
use mit_xv.Log.Restart.{recovered_empty, either}
use mit_xv.Log.Commit.{
  has_block, lw, head, pre, committed, header-after, logged-committed, home_writes-pre,
  LogOk-committed, recovered-committed, write_log-writes, log_writes-no_key, Home-no_key,
  length-log_writes,
}

module _ (start size : ℕ) (bs : List ℕ) (s : Store) (fits : length bs < size)
    (homes : AllHome start size bs) where
  to_header :
      write_head start bs (write_log start 0 bs s) ≡ after (pre start size bs s fits homes) s
  unfolding write_head bwrite pre lw head
  to_header =
      ap (write_head start bs) (write_log-writes start size 0 bs s homes (omega arith))
      ∙ ap (λ h. after ((start, head_block bs h) ∷ []) (after w s))
          (apply-no_key start w s.view
            (log_writes-no_key start start 0 bs s.view (inl (omega arith))))
      ∙ after-after w ((start, head_block bs (s.view start)) ∷ []) s
    where
      w : List (ℕ × Block)
      w = log_writes start 0 bs s.view

  s1 : Store
  s1 = after (pre start size bs s fits homes) s

  d1 : ℕ → Block
  d1 = committed start size bs s fits homes

  same_home : home_writes start 0 bs s1.view ≡ home_writes start 0 (logged (d1 start)) d1
  unfolding s1 d1 committed
  same_home =
      home_writes-pre start size bs s fits homes s.view
      ∙ sym (home_writes-pre start size bs s fits homes s.disk)
      ∙ ap (λ t. home_writes start 0 t d1) (sym (logged-committed start size bs s fits homes))

  same_head : apply_writes (home_writes start 0 bs s1.view) s1.view start ≡ d1 start
  unfolding s1 d1 committed
  same_head =
      apply-no_key start (home_writes start 0 bs s1.view) s1.view
        (home_writes-no_key start size start 0 bs s1.view (omega arith) (omega arith) homes)
      ∙ header-after start size bs s fits homes s.view
      ∙ sym (header-after start size bs s fits homes s.disk)

  from_header :
      write_head start [] (install_trans start 0 bs s1) ≡ after (recover_writes start d1) s1
  unfolding write_head bwrite
  from_header =
      ap (write_head start []) (install_trans-writes start size 0 bs s1 homes (omega arith))
      ∙ ap (λ h. after ((start, clear_head h) ∷ []) (after (home_writes start 0 bs s1.view) s1))
          same_head
      ∙ after-after (home_writes start 0 bs s1.view) ((start, clear_head (d1 start)) ∷ []) s1
      ∙ ap (λ ws. after (ws ++ ((start, clear_head (d1 start)) ∷ [])) s1) same_home

  -- The writes of a commit: the log blocks, the header, and then those of a recovery.
  commit_all :
      write_head start [] (install_trans start 0 bs (write_head start bs (write_log start 0 bs s)))
      ≡ after (pre start size bs s fits homes ++ recover_writes start d1) s
  unfolding s1
  commit_all =
      ap (λ t. write_head start [] (install_trans start 0 bs t)) to_header
      ∙ from_header
      ∙ after-after (pre start size bs s fits homes) (recover_writes start d1) s

  early :
      (k b : ℕ)
      → k ≤ length bs
      → logged (s.disk start) ≡ []
      → Home start size b
      → disk_after_recovery start
          (apply_writes (take k (pre start size bs s fits homes ++ recover_writes start d1)) s.disk)
          b
        ≡ s.disk b
  unfolding pre lw head
  early k b le clean h =
      ap (λ ws. disk_after_recovery start (apply_writes ws s.disk) b) prefix
      ∙ (recovered_empty start size b d (omega arith) (ap logged same ∙ clean) h).1
      ∙ apply-take-no_key b k w s.disk (Home-no_key start size b bs s.view fits h)
    where
      w : List (ℕ × Block)
      w = log_writes start 0 bs s.view

      d : ℕ → Block
      d = apply_writes (take k w) s.disk

      same : d start ≡ s.disk start
      same =
          apply-take-no_key start k w s.disk
            (log_writes-no_key start start 0 bs s.view (inl (omega arith)))

      hd : List (ℕ × Block)
      hd = (start, head_block bs (s.view start)) ∷ []

      prefix : take k ((w ++ hd) ++ recover_writes start d1) ≡ take k w
      prefix =
          ap (λ t. take k t) (append_assoc w hd (recover_writes start d1))
          ∙ take-append_le k w (hd ++ recover_writes start d1)
              (omega (arith, length-log_writes start 0 bs s.view))

  late :
      (k b : ℕ)
      → length bs < k
      → Home start size b
      → disk_after_recovery start
          (apply_writes (take k (pre start size bs s fits homes ++ recover_writes start d1)) s.disk)
          b
        ≡ (if has_block b bs then s.view b else s.disk b)
  unfolding d1 committed
  late k b lt h =
      ap (λ ws. disk_after_recovery start (apply_writes ws s.disk) b)
        (take-append_ge k p (recover_writes start d1) long)
      ∙ ap (λ f. disk_after_recovery start f b)
          (apply_writes-append p (take (k - length p) (recover_writes start d1)) s.disk)
      ∙ either start size d1 (LogOk-committed start size bs s fits homes) (k - length p) b h
      ∙ recovered-committed start size bs s fits homes b h
    where
      p : List (ℕ × Block)
      p = pre start size bs s fits homes

      long : length p ≤ k
      long =
          unfold pre lw in
          omega (
            arith,
            length-append (log_writes start 0 bs s.view)
                ((start, head start size bs s fits homes) ∷ []),
            length-log_writes start 0 bs s.view,
          )

  crash_commit :
      (k b : ℕ)
      → logged (s.disk start) ≡ []
      → Home start size b
      → disk_after_recovery start
          (apply_writes (take k (pre start size bs s fits homes ++ recover_writes start d1)) s.disk)
          b
        ≡ (if leb k (length bs) then s.disk b else (if has_block b bs then s.view b else s.disk b))
  crash_commit k b clean h = elim (Bool-cases (leb k (length bs))) [
    | inl y ↦ rw y (early k b (leb→le k (length bs) y) clean h)
    | inr n ↦ rw n (late k b (ground arith) h)
  ]

-- The disk after the first `k` writes of a commit.
abbrev pub crash_in_commit : ℕ → Log → Store → ℕ → Block
crash_in_commit k l s = apply_writes (take k (commit l s).1.writes) s.disk

-- What `commit` relies on: the transaction fits in the log, its blocks are no blocks of the log,
-- and the log on the disk is empty.
pub record CommitOk (l : Log) (s : Store) : Type 0 where
  pub fits : length l.block < l.size
  pub homes : AllHome l.start l.size l.block
  pub clean : logged (s.disk l.start) ≡ []
  pub fresh : s.writes ≡ []

by_blocks :
    (start size k b : ℕ) (bs : List ℕ) (s : Store)
    → length bs < size
    → AllHome start size bs
    → logged (s.disk start) ≡ []
    → s.writes ≡ []
    → Home start size b
    → disk_after_recovery start (apply_writes (take k (commit_blocks start bs s).writes) s.disk) b
      ≡ (if leb k (length bs) then s.disk b else (if has_block b bs then s.view b else s.disk b))
unfolding commit_blocks
by_blocks start size k b [] s fits homes clean fresh h =
    ap (λ ws. disk_after_recovery start (apply_writes (take k ws) s.disk) b) fresh
    ∙ ap (λ ws. disk_after_recovery start (apply_writes ws s.disk) b) (take-nil k)
    ∙ (recovered_empty start size b s.disk (omega arith) clean h).1
    ∙ sym (same (leb k 0))
  where
    take-nil : (n : ℕ) → take {A = ℕ × Block} n [] ≡ []
    take-nil zero = refl
    take-nil (suc n) = refl

    same : (t : Bool) → (if t then s.disk b else s.disk b) ≡ s.disk b
    same true = refl
    same false = refl
by_blocks start size k b (c ∷ cs) s fits homes clean fresh h =
    ap (λ (t : Store). disk_after_recovery start (apply_writes (take k t.writes) s.disk) b)
      (commit_all start size (c ∷ cs) s fits homes)
    ∙ ap
        (λ ws.
          disk_after_recovery start
            (apply_writes
              (take k (
                ws
                ++ (pre start size (c ∷ cs) s fits homes
                    ++ recover_writes start (d1 start size (c ∷ cs) s fits homes))))
              s.disk)
            b)
        fresh
    ∙ crash_commit start size (c ∷ cs) s fits homes k b clean h

-- A crash after any number `k` of the disk writes of a commit, followed by recovery: if at most the
-- log blocks had been written, every home block is as before the transaction; from the write of
-- the header on, every block of the transaction has its new data and every other home block its
-- old data.
pub commit_atomic :
    (l : Log) (s : Store) (k b : ℕ)
    → CommitOk l s
    → Home l.start l.size b
    → disk_after_recovery l.start (crash_in_commit k l s) b ≡ (
        if leb k (length l.block)
        then s.disk b
        else (if has_block b l.block then s.view b else s.disk b))
unfolding commit
commit_atomic l s k b c h = by_blocks l.start l.size k b l.block s c.fits c.homes c.clean c.fresh h
