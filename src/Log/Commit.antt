-- ===== src/Log/Commit.antt =====
-- `commit`: its writes to the disk, and a crash between any two of them.
use mit_xv.Prelude.{
  ℕ, suc, ◌+◌, ◌≤◌, ◌<◌, ◌≡◌, refl, sym, ap, ap₂, ◌∙◌, ◌≢◌, ◌⊎◌, inl, inr, Bool, true, false, ◌||◌,
  List, [], ◌∷◌, ◌++◌, append-nil, arith, ◌==◌, if◌then◌else◌, ==→eq, ne→==, Bool-cases, length,
  update, update_self, update_ne,
}
use mit_xv.Log.{Block, Store, bwrite, head_block, write_log}
use mit_xv.Log.Shape.{
  apply_writes, apply_writes-append, logged, logged-head_block, log_writes, home_writes, after,
  after-after, Home, has_key, apply-no_key,
}
use mit_xv.Log.Recovery.{AllHome, LogOk, recovered, home_writes-agree, Home-ne_start}

-- The blocks of a transaction with their cached data.
abbrev pub pairs : List ℕ → (ℕ → Block) → List (ℕ × Block)
pairs [] v = []
pairs (b ∷ bs) v = (b, v b) ∷ pairs bs v

abbrev pub has_block : ℕ → List ℕ → Bool
has_block b [] = false
has_block b (c ∷ cs) = (c == b) || has_block b cs

apply-pairs :
    (b : ℕ) (bs : List ℕ) (v d : ℕ → Block)
    → apply_writes (pairs bs v) d b ≡ (if has_block b bs then v b else d b)
apply-pairs b [] v d = refl
apply-pairs b (c ∷ cs) v d = apply-pairs b cs v (update d c (v c)) ∙ last (Bool-cases (c == b))
  where
    here : c ≡ b → (if has_block b cs then v b else v c) ≡ v b
    here e = rw e same
      where
        same : (if has_block b cs then v b else v b) ≡ v b
        same = elim (Bool-cases (has_block b cs)) [ inl y ↦ rw y | inr n ↦ rw n ]

    last :
        ((c == b) ≡ true) ⊎ ((c == b) ≡ false)
        → (if has_block b cs then v b else update d c (v c) b)
          ≡ (if (c == b) || has_block b cs then v b else d b)
    last (inl y) = rw y (here (==→eq c b y))
    last (inr n) = rw n

-- Log block `c` is written by no later entry.
pub log_writes-no_key :
    (start c i : ℕ) (bs : List ℕ) (v : ℕ → Block)
    → (c ≤ start + i) ⊎ (start + i + length bs < c)
    → has_key c (log_writes start i bs v) ≡ false
log_writes-no_key start c i [] v h = refl
log_writes-no_key start c i (b ∷ bs) v (inl h) =
    rw
      (
        ne→== (start + i + 1) c (omega arith),
        log_writes-no_key start c (i + 1) bs v (inl (omega arith)),
      )
      refl
log_writes-no_key start c i (b ∷ bs) v (inr h) =
    rw
      (
        ne→== (start + i + 1) c (omega arith),
        log_writes-no_key start c (i + 1) bs v (inr (omega arith)),
      )
      refl

pub Home-no_key :
    (start size b : ℕ) (bs : List ℕ) (v : ℕ → Block)
    → length bs < size
    → Home start size b
    → has_key b (log_writes start 0 bs v) ≡ false
Home-no_key start size b bs v f (inl q) = log_writes-no_key start b 0 bs v (inl (omega arith))
Home-no_key start size b bs v f (inr q) = log_writes-no_key start b 0 bs v (inr (omega arith))

log_writes-agree :
    (start size i c : ℕ) (x : Block) (bs : List ℕ) (v : ℕ → Block)
    → start ≤ c
    → c < start + size
    → AllHome start size bs
    → log_writes start i bs (update v c x) ≡ log_writes start i bs v
log_writes-agree start size i c x [] v lo hi h = refl
log_writes-agree start size i c x (b ∷ bs) v lo hi h =
    ap₂ (λ y t. (start + i + 1, y) ∷ t) (update_ne v c x b (λ e. apart h.0 e))
      (log_writes-agree start size (i + 1) c x bs v lo hi h.1)
  where
    apart : Home start size b → c ≢ b
    apart (inl q) = omega arith
    apart (inr q) = omega arith

pub write_log-writes :
    (start size i : ℕ) (bs : List ℕ) (s : Store)
    → AllHome start size bs
    → i + length bs < size
    → write_log start i bs s ≡ after (log_writes start i bs s.view) s
unfolding write_log bwrite
write_log-writes start size i [] s h fits =
    λ j. record { view = s.view; disk = s.disk; writes = sym (append-nil s.writes) j }
write_log-writes start size i (b ∷ bs) s h fits =
    write_log-writes start size (i + 1) bs (bwrite (start + i + 1) (s.view b) s) h.1 (omega arith)
    ∙ ap (λ t. after t (after ((start + i + 1, s.view b) ∷ []) s))
        (log_writes-agree start size (i + 1) (start + i + 1) (s.view b) bs s.view (omega arith)
          (omega arith) h.1)
    ∙ after-after ((start + i + 1, s.view b) ∷ []) (log_writes start (i + 1) bs s.view) s

-- The log holds the cached data of the transaction's blocks.
home_writes-log_writes :
    (start i : ℕ) (bs : List ℕ) (v d : ℕ → Block)
    → home_writes start i bs (apply_writes (log_writes start i bs v) d) ≡ pairs bs v
home_writes-log_writes start i [] v d = refl
home_writes-log_writes start i (b ∷ bs) v d =
    ap₂ (λ y t. (b, y) ∷ t)
      (apply-no_key (start + i + 1) (log_writes start (i + 1) bs v) (update d (start + i + 1) (v b))
          (log_writes-no_key start (start + i + 1) (i + 1) bs v (inl (omega arith)))
        ∙ update_self d (start + i + 1) (v b))
      (home_writes-log_writes start (i + 1) bs v (update d (start + i + 1) (v b)))

pub length-log_writes :
    (start i : ℕ) (bs : List ℕ) (v : ℕ → Block) → length (log_writes start i bs v) ≡ length bs
length-log_writes start i [] v = refl
length-log_writes start i (b ∷ bs) v = ap suc (length-log_writes start (i + 1) bs v)

module _ (start size : ℕ) (bs : List ℕ) (s : Store) (fits : length bs < size)
    (homes : AllHome start size bs) where
  unfoldable pub lw : List (ℕ × Block)
  lw = log_writes start 0 bs s.view

  unfoldable pub head : Block
  head = head_block bs (s.view start)

  -- Up to the write that commits.
  unfoldable pub pre : List (ℕ × Block)
  pre = lw ++ ((start, head) ∷ [])

  -- The disk at the commit point.
  unfoldable pub committed : ℕ → Block
  committed = apply_writes pre s.disk

  pub header-after : (d : ℕ → Block) → apply_writes pre d start ≡ head
  unfolding pre
  header-after d =
      ap (λ f. f start) (apply_writes-append lw ((start, head) ∷ []) d)
      ∙ update_self (apply_writes lw d) start head

  pub logged-committed : logged (committed start) ≡ bs
  unfolding committed head
  logged-committed = ap logged (header-after s.disk) ∙ logged-head_block bs (s.view start)

  pub home_writes-pre :
      (d : ℕ → Block) → home_writes start 0 bs (apply_writes pre d) ≡ pairs bs s.view
  unfolding pre lw
  home_writes-pre d =
      home_writes-agree start 0 bs (apply_writes pre d) (apply_writes lw d) (λ j lo hi.
        ap (λ f. f (start + j + 1)) (apply_writes-append lw ((start, head) ∷ []) d)
        ∙ update_ne (apply_writes lw d) start head (start + j + 1) (omega arith))
      ∙ home_writes-log_writes start 0 bs s.view d

  pub LogOk-committed : LogOk start size committed
  LogOk-committed = record { fits = rw logged-committed fits; homes = rw logged-committed homes }

  pub recovered-committed :
      (b : ℕ)
      → Home start size b
      → recovered start committed b ≡ (if has_block b bs then s.view b else s.disk b)
  unfolding committed pre lw
  recovered-committed b h =
      ap (λ t. apply_writes (home_writes start 0 t committed) committed b) logged-committed
      ∙ ap (λ ws. apply_writes ws committed b) (home_writes-pre s.disk)
      ∙ apply-pairs b bs s.view committed
      ∙ ap (λ x. if has_block b bs then s.view b else x)
          (ap (λ f. f b) (apply_writes-append lw ((start, head) ∷ []) s.disk)
            ∙ update_ne (apply_writes lw s.disk) start head b
                (Home-ne_start start size b (omega arith) h)
            ∙ apply-no_key b lw s.disk (Home-no_key start size b bs s.view fits h))
