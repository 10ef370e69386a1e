-- ===== src/Log/Recovery.antt =====
-- Recovery of log.c, and recovery that runs again after it.
use mit_xv.Prelude.{
  ℕ, suc, ◌+◌, ◌≤◌, ◌<◌, ◌≡◌, refl, sym, ap, ap₂, ◌∙◌, ◌≢◌, inl, inr, false, List, [], ◌∷◌, ◌++◌,
  append-nil, arith, ne→==, length, All, update, update_ne,
}
use mit_xv.Log.{
  Block, Store, bwrite, head_block, write_head, read_head, install_trans, recover_from_log,
}
use mit_xv.Log.Shape.{
  apply_writes, apply_writes-append, logged, home_writes, after, after-after, Home, has_key,
  apply-no_key,
}

-- The machine starts with nothing in the buffer cache.
abbrev pub reboot : (ℕ → Block) → Store
reboot d = record { view = d; disk = d; writes = [] }

abbrev pub AllHome : ℕ → ℕ → List ℕ → Type 0
AllHome start size bs = All (Home start size) bs

-- No home write hits a block of the log.
pub home_writes-no_key :
    (start size c i : ℕ) (bs : List ℕ) (v : ℕ → Block)
    → start ≤ c
    → c < start + size
    → AllHome start size bs
    → has_key c (home_writes start i bs v) ≡ false
home_writes-no_key start size c i [] v lo hi h = refl
home_writes-no_key start size c i (b ∷ bs) v lo hi h =
    rw (ne→== b c (apart h.0), home_writes-no_key start size c (i + 1) bs v lo hi h.1) refl
  where
    apart : Home start size b → b ≢ c
    apart (inl q) = omega arith
    apart (inr q) = omega arith

-- Home writes take their data from the blocks of the log alone.
pub home_writes-agree :
    (start i : ℕ) (bs : List ℕ) (v w : ℕ → Block)
    → ((j : ℕ) → i ≤ j → j < i + length bs → v (start + j + 1) ≡ w (start + j + 1))
    → home_writes start i bs v ≡ home_writes start i bs w
home_writes-agree start i [] v w h = refl
home_writes-agree start i (b ∷ bs) v w h =
    ap₂ (λ x t. (b, x) ∷ t) (h i (omega arith) (omega arith))
      (home_writes-agree start (i + 1) bs v w (λ j lo hi. h j (omega arith) (omega arith)))

pub length-home_writes :
    (start i : ℕ) (bs : List ℕ) (v : ℕ → Block) → length (home_writes start i bs v) ≡ length bs
length-home_writes start i [] v = refl
length-home_writes start i (b ∷ bs) v = ap suc (length-home_writes start (i + 1) bs v)

pub install_trans-writes :
    (start size i : ℕ) (bs : List ℕ) (s : Store)
    → AllHome start size bs
    → i + length bs < size
    → install_trans start i bs s ≡ after (home_writes start i bs s.view) s
unfolding install_trans bwrite
install_trans-writes start size i [] s h fits =
    λ j. record { view = s.view; disk = s.disk; writes = sym (append-nil s.writes) j }
install_trans-writes start size i (b ∷ bs) s h fits =
    install_trans-writes start size (i + 1) bs (bwrite b (s.view (start + i + 1)) s) h.1
      (omega arith)
    ∙ ap (λ t. after t (after ((b, s.view (start + i + 1)) ∷ []) s)) same
    ∙ after-after ((b, s.view (start + i + 1)) ∷ []) (home_writes start (i + 1) bs s.view) s
  where
    apart : (j : ℕ) → Home start size b → j < size → b ≢ start + j
    apart j (inl q) lt = omega arith
    apart j (inr q) lt = omega arith

    same :
        home_writes start (i + 1) bs (update s.view b (s.view (start + i + 1)))
        ≡ home_writes start (i + 1) bs s.view
    same =
        home_writes-agree start (i + 1) bs (update s.view b (s.view (start + i + 1))) s.view
          (λ j lo hi.
            update_ne s.view b (s.view (start + i + 1)) (start + j + 1)
              (λ e. apart (j + 1) h.0 (omega arith) (omega arith)))

-- The header block with no entry, over the header block `h`.
abbrev pub clear_head : Block → Block
clear_head h = head_block [] h

abbrev pub recover_writes : ℕ → (ℕ → Block) → List (ℕ × Block)
recover_writes start d =
    home_writes start 0 (logged (d start)) d ++ ((start, clear_head (d start)) ∷ [])

-- The log of the disk `d`, as its header block tells: it fits, and its blocks are home blocks.
pub record LogOk (start size : ℕ) (d : ℕ → Block) : Type 0 where
  pub fits : length (logged (d start)) < size
  pub homes : AllHome start size (logged (d start))

pub recover-writes :
    (start size : ℕ) (d : ℕ → Block)
    → LogOk start size d
    → recover_from_log start (reboot d) ≡ after (recover_writes start d) (reboot d)
unfolding recover_from_log read_head write_head bwrite
recover-writes start size d l =
    ap (write_head start []) (
      install_trans-writes start size 0 (logged (d start)) (reboot d) l.homes
        (omega (arith, l.fits)))
    ∙ ap (λ h. after ((start, clear_head h) ∷ []) (after hw (reboot d))) kept
    ∙ after-after hw ((start, clear_head (d start)) ∷ []) (reboot d)
  where
    hw : List (ℕ × Block)
    hw = home_writes start 0 (logged (d start)) d

    kept : apply_writes hw d start ≡ d start
    kept = apply-no_key start hw d (
        home_writes-no_key start size start 0 (logged (d start)) d (omega arith)
          (omega (arith, l.fits)) l.homes)

-- What a complete recovery of the disk `d` leaves in a home block.
abbrev pub recovered : ℕ → (ℕ → Block) → ℕ → Block
recovered start d b = apply_writes (home_writes start 0 (logged (d start)) d) d b

abbrev pub disk_after_recovery : ℕ → (ℕ → Block) → ℕ → Block
disk_after_recovery start d = (recover_from_log start (reboot d)).disk

pub Home-ne_start : (start size b : ℕ) → 0 < size → Home start size b → start ≢ b
Home-ne_start start size b p (inl q) = omega arith
Home-ne_start start size b p (inr q) = omega arith

pub disk_after_recovery-Home :
    (start size b : ℕ) (d : ℕ → Block)
    → LogOk start size d
    → Home start size b
    → disk_after_recovery start d b ≡ recovered start d b
disk_after_recovery-Home start size b d l h =
    ap (λ (s : Store). s.disk b) (recover-writes start size d l)
    ∙ ap (λ f. f b) (apply_writes-append hw ((start, clear_head (d start)) ∷ []) d)
    ∙ update_ne (apply_writes hw d) start (clear_head (d start)) b
        (Home-ne_start start size b (omega (arith, l.fits)) h)
  where
    hw : List (ℕ × Block)
    hw = home_writes start 0 (logged (d start)) d
