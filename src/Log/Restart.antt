-- ===== src/Log/Restart.antt =====
-- A crash in the middle of `recover_from_log`, and the recovery after it.
use mit_xv.Prelude.{
  ℕ, zero, suc, ◌+◌, ◌-◌, ◌≤◌, ◌<◌, ◌≡◌, refl, sym, ap, ◌∙◌, inl, inr, List, [], ◌∷◌, ◌++◌, arith,
  leb, leb→le, Bool-cases, length, take, update, update_self, update_ne,
}
use mit_xv.Log.{Block, Store, recover_from_log}
use mit_xv.Log.Shape.{
  apply_writes, apply_writes-append, logged, logged-head_block, home_writes, Home, apply-apply-take,
  apply-take-no_key, take-append_le, take-append_ge,
}
use mit_xv.Log.Recovery.{
  reboot, LogOk, clear_head, recover_writes, recover-writes, recovered, disk_after_recovery,
  disk_after_recovery-Home, home_writes-no_key, home_writes-agree, Home-ne_start,
}

-- The disk `d` after the first `k` writes of a recovery.
abbrev pub crash_in_recovery : ℕ → ℕ → (ℕ → Block) → ℕ → Block
crash_in_recovery start k d = apply_writes (take k (recover_from_log start (reboot d)).writes) d

take-nil : (n : ℕ) → take {A = ℕ × Block} n [] ≡ []
take-nil zero = refl
take-nil (suc n) = refl

-- A disk with an empty log is recovered by leaving its home blocks alone.
pub recovered_empty :
    (start size b : ℕ) (d : ℕ → Block)
    → 0 < size
    → logged (d start) ≡ []
    → Home start size b
    → LogOk start size d × (disk_after_recovery start d b ≡ d b)
recovered_empty start size b d p e h = (
  l,
  disk_after_recovery-Home start size b d l h
      ∙ ap (λ bs. apply_writes (home_writes start 0 bs d) d b) e,
)
  where
    l : LogOk start size d
    l = record { fits = rw e p; homes = rw e tt }

module _ (start size : ℕ) (d : ℕ → Block) (l : LogOk start size d) where
  hw : List (ℕ × Block)
  hw = home_writes start 0 (logged (d start)) d

  -- Between two home writes the log is as it was.
  log_kept : (k c : ℕ) → start ≤ c → c < start + size → apply_writes (take k hw) d c ≡ d c
  unfolding hw
  log_kept k c lo hi =
      apply-take-no_key c k hw d
        (home_writes-no_key start size c 0 (logged (d start)) d lo hi l.homes)

  midway :
      (k b : ℕ)
      → Home start size b
      → disk_after_recovery start (apply_writes (take k hw) d) b ≡ recovered start d b
  unfolding hw
  midway k b h =
      disk_after_recovery-Home start size b dk lk h
      ∙ ap (λ ws. apply_writes ws dk b) same_writes
      ∙ apply-apply-take b k hw d
    where
      dk : ℕ → Block
      dk = apply_writes (take k hw) d

      head : dk start ≡ d start
      head = log_kept k start (omega arith) (omega (arith, l.fits))

      lk : LogOk start size dk
      lk = record { fits = rw head l.fits; homes = rw head l.homes }

      same_writes : home_writes start 0 (logged (dk start)) dk ≡ hw
      same_writes =
          ap (λ x. home_writes start 0 (logged x) dk) head
          ∙ home_writes-agree start 0 (logged (d start)) dk d
              (λ j lo hi. log_kept k (start + j + 1) (omega arith) (omega (arith, l.fits)))

  -- After all home writes and the clearing of the header.
  finished :
      (b : ℕ)
      → Home start size b
      → disk_after_recovery start (apply_writes (recover_writes start d) d) b ≡ recovered start d b
  unfolding hw
  finished b h =
      (recovered_empty start size b done (omega (arith, l.fits)) empty h).1
      ∙ split b
      ∙ update_ne (apply_writes hw d) start (clear_head (d start)) b
          (Home-ne_start start size b (omega (arith, l.fits)) h)
    where
      done : ℕ → Block
      done = apply_writes (recover_writes start d) d

      split : (c : ℕ) → done c ≡ update (apply_writes hw d) start (clear_head (d start)) c
      split c = ap (λ f. f c) (apply_writes-append hw ((start, clear_head (d start)) ∷ []) d)

      empty : logged (done start) ≡ []
      empty =
          ap logged (split start ∙ update_self (apply_writes hw d) start (clear_head (d start)))
          ∙ logged-head_block [] (d start)

  pub either :
      (k b : ℕ)
      → Home start size b
      → disk_after_recovery start (apply_writes (take k (recover_writes start d)) d) b
        ≡ recovered start d b
  unfolding hw
  either k b h = elim (Bool-cases (leb k (length hw))) [
    | inl lo ↦
        ap (λ ws. disk_after_recovery start (apply_writes ws d) b)
          (take-append_le k hw ((start, clear_head (d start)) ∷ []) (leb→le k (length hw) lo))
        ∙ midway k b h
    | inr hi ↦
        ap (λ ws. disk_after_recovery start (apply_writes ws d) b)
          (whole (k - length hw) (ground arith) (ground arith) refl)
        ∙ finished b h
  ]
    where
      last : List (ℕ × Block)
      last = (start, clear_head (d start)) ∷ []

      whole : (m : ℕ) → 0 < m → length hw ≤ k → m ≡ k - length hw → take k (hw ++ last) ≡ hw ++ last
      whole zero p q e = absurd (omega arith)
      whole (suc m) p q e =
          take-append_ge k hw last q
          ∙ ap (λ t. hw ++ take t last) (sym e)
          ∙ ap (λ t. hw ++ ((start, clear_head (d start)) ∷ t)) (take-nil m)

  -- A recovery that is interrupted after any number of its writes, and run again from the disk that
  -- it left, ends with the home blocks of the recovery that is not interrupted.
  pub recovery_restarts :
      (k b : ℕ)
      → Home start size b
      → disk_after_recovery start (crash_in_recovery start k d) b ≡ disk_after_recovery start d b
  recovery_restarts k b h =
      ap (λ (s : Store). disk_after_recovery start (apply_writes (take k s.writes) d) b)
        (recover-writes start size d l)
      ∙ either k b h
      ∙ sym (disk_after_recovery-Home start size b d l h)
