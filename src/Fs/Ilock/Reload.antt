-- ===== src/Fs/Ilock/Reload.antt =====
-- iupdate and then ilock of fs.c, for the inode that was written and for the others.
use mit_xv.Prelude.{
  ℕ, zero, suc, ◌+◌, ◌*◌, ◌%◌, ◌≤◌, ◌<◌, ◌≡◌, refl, ap, ap₂, ◌∙◌, ◌≢◌, inl, inr, true, false, ◌∷◌,
  arith, ltb, ◌==◌, ltb→lt, ltb→le, ==→eq, ne→==, Bool-cases, ok,
}
use mit_xv.Fs.{Superblock, Blocks, write_block}
use mit_xv.Fs.Icache.{Inode}
use mit_xv.Fs.Inode.{ipb, iblock}
use mit_xv.Fs.Ilock.{load_short, load_words, load_dinode, fetch, lock, ilock}
use mit_xv.Fs.Ilock.Dinode.{Beside, load_short-same, load_word-same}

load_words-same :
    (n : ℕ) (f g : ℕ → ℕ) (o : ℕ)
    → ((k : ℕ) → o ≤ k → k < o + 4 * n → f k ≡ g k)
    → load_words n f o ≡ load_words n g o
unfolding load_words
load_words-same zero f g o e = refl
load_words-same (suc n) f g o e =
    ap₂ (λ x xs. x ∷ xs) (load_word-same f g o (λ k lo hi. e k lo (omega arith)))
      (load_words-same n f g (o + 4) (λ k lo hi. e k (omega arith) (omega arith)))

pub load_dinode-same :
    (f g : ℕ → ℕ) (o : ℕ) (c : Inode)
    → ((k : ℕ) → o ≤ k → k < o + 64 → f k ≡ g k)
    → load_dinode f o c ≡ load_dinode g o c
unfolding load_dinode
load_dinode-same f g o c e =
    rw
      (
        load_short-same f g o (e o (omega arith) (omega arith))
            (e (o + 1) (omega arith) (omega arith)),
        short 2 (omega arith),
        short 4 (omega arith),
        short 6 (omega arith),
        load_word-same f g (o + 8) (λ k lo hi. e k (omega arith) (omega arith)),
        load_words-same 13 f g (o + 12) (λ k lo hi. e k (omega arith) (omega arith)),
      )
      refl
  where
    short : (i : ℕ) → i + 2 ≤ 64 → load_short f (o + i) ≡ load_short g (o + i)
    short i le =
        load_short-same f g (o + i) (e (o + i) (omega arith) (omega arith))
          (e (o + i + 1) (omega arith) (omega arith))

-- The disk inode `i`, read for the cached inode `c`.
abbrev pub dinode : Superblock → Blocks → ℕ → Inode → Inode
dinode sb d i c = load_dinode (d.blocks (iblock sb i)) (i % ipb * 64) c

-- A write of the bytes of one disk inode leaves the others.
pub dinode-write :
    (sb : Superblock) (d : Blocks) (i j : ℕ) (bytes : ℕ → ℕ) (c : Inode)
    → i ≢ j
    → ((k : ℕ) → Beside (i % ipb * 64) 64 k → bytes k ≡ d.blocks (iblock sb i) k)
    → dinode sb (write_block (iblock sb i) bytes d) j c ≡ dinode sb d j c
dinode-write sb d i j bytes c ne beside = elim (Bool-cases (iblock sb i == iblock sb j)) [
  | inr n ↦ rw n refl
  | inl y ↦
      let e = ==→eq (iblock sb i) (iblock sb j) y in
      rw y (
        load_dinode-same bytes (d.blocks (iblock sb j)) (j % ipb * 64) c
          (λ k lo hi. beside k (apart k e lo hi) ∙ ap (λ t. d.blocks t k) e))
]
  where
    apart :
        (k : ℕ)
        → iblock sb i ≡ iblock sb j
        → j % ipb * 64 ≤ k
        → k < j % ipb * 64 + 64
        → Beside (i % ipb * 64) 64 k
    apart k e lo hi =
        let d : i % ipb ≢ j % ipb = (λ z. ne (omega arith)) in
        elim (Bool-cases (ltb (i % ipb) (j % ipb))) [
          | inl y ↦ let h = ltb→lt (i % ipb) (j % ipb) y in inr (omega arith)
          | inr n ↦ let h = ltb→le (i % ipb) (j % ipb) n in inl (omega arith)
        ]

-- `ilock` of an inode that is not valid.
pub ilock-loads :
    (sb : Superblock) (d : Blocks) (c e : Inode)
    → 0 < c.ref
    → c.valid ≡ false
    → dinode sb d c.inum (lock c) ≡ e
    → e.type ≢ 0
    → ilock sb d c ≡ ok (record e { valid = true })
unfolding ilock fetch
ilock-loads sb d c e held stale loads typed =
    let r : ltb c.ref 1 ≡ false = ground arith in rw (loads, r, stale, ne→== e.type 0 typed) refl
