-- ===== src/Fs/Ilock/Dinode.antt =====
-- iupdate and ilock of fs.c: how a disk inode is written and read.
use mit_xv.Prelude.{
  ℕ, suc, ◌+◌, ◌*◌, ◌/◌, ◌%◌, ◌≤◌, ◌<◌, ◌≡◌, refl, sym, ap, ap₂, ◌∙◌, ◌⊎◌, inl, inr, List, [], ◌∷◌,
  arith, length, All, u32_mod,
}
use mit_xv.Fs.Icache.{Inode}
use mit_xv.Fs.Inode.{put_short, put_word, put_words, put_dinode}
use mit_xv.Fs.Ilock.{load_short, load_word, load_words, load_dinode}

-- Before or after `n` bytes at `o`.
abbrev pub Beside : ℕ → ℕ → ℕ → Type 0
Beside o n k = (k < o) ⊎ (o + n ≤ k)

pub put_short-Beside : (f : ℕ → ℕ) (o v k : ℕ) → Beside o 2 k → put_short f o v k ≡ f k
unfolding put_short
put_short-Beside f o v k (inl lt) = ground arith
put_short-Beside f o v k (inr le) = ground arith

pub load_short-put_short : (f : ℕ → ℕ) (o v : ℕ) → v < 65536 → load_short (put_short f o v) o ≡ v
unfolding load_short put_short
load_short-put_short f o v h = ground arith

put_word-Beside : (f : ℕ → ℕ) (o v k : ℕ) → Beside o 4 k → put_word f o v k ≡ f k
unfolding put_word
put_word-Beside f o v k b =
    put_short-Beside (put_short f o (v % 65536)) (o + 2) (v / 65536 % 65536) k (far b)
    ∙ put_short-Beside f o (v % 65536) k (near b)
  where
    far : Beside o 4 k → Beside (o + 2) 2 k
    far (inl lt) = inl (omega arith)
    far (inr le) = inr (omega arith)

    near : Beside o 4 k → Beside o 2 k
    near (inl lt) = inl lt
    near (inr le) = inr (omega arith)

pub load_short-same :
    (f g : ℕ → ℕ) (o : ℕ) → f o ≡ g o → f (o + 1) ≡ g (o + 1) → load_short f o ≡ load_short g o
unfolding load_short
load_short-same f g o e e' = rw (e, e') refl

pub load_word-same :
    (f g : ℕ → ℕ) (o : ℕ)
    → ((k : ℕ) → o ≤ k → k < o + 4 → f k ≡ g k)
    → load_word f o ≡ load_word g o
unfolding load_word
load_word-same f g o e =
    ap₂ (λ x y. x + y * 65536)
      (load_short-same f g o (e o (omega arith) (omega arith))
        (e (o + 1) (omega arith) (omega arith)))
      (load_short-same f g (o + 2) (e (o + 2) (omega arith) (omega arith))
        (e (o + 2 + 1) (omega arith) (omega arith)))

load_word-put_word : (f : ℕ → ℕ) (o v : ℕ) → v < u32_mod → load_word (put_word f o v) o ≡ v
unfolding load_word put_word
load_word-put_word f o v h =
    let low : load_short (put_short (put_short f o (v % 65536)) (o + 2) (v / 65536 % 65536)) o
        ≡ v % 65536 =
      load_short-same (put_short (put_short f o (v % 65536)) (o + 2) (v / 65536 % 65536))
        (put_short f o (v % 65536)) o
        (put_short-Beside (put_short f o (v % 65536)) (o + 2) (v / 65536 % 65536) o
          (inl (omega arith)))
        (put_short-Beside (put_short f o (v % 65536)) (o + 2) (v / 65536 % 65536) (o + 1)
          (inl (omega arith)))
      ∙ load_short-put_short f o (v % 65536) (omega arith) in
    let high =
      load_short-put_short (put_short f o (v % 65536)) (o + 2) (v / 65536 % 65536) (omega arith) in
    rw (low, high) (omega arith)

put_words-Beside :
    (vs : List ℕ) (f : ℕ → ℕ) (o k : ℕ) → Beside o (4 * length vs) k → put_words f o vs k ≡ f k
unfolding put_words
put_words-Beside [] f o k b = refl
put_words-Beside (v ∷ vs) f o k b =
    put_words-Beside vs (put_word f o v) (o + 4) k (far b) ∙ put_word-Beside f o v k (near b)
  where
    far : Beside o (4 * suc (length vs)) k → Beside (o + 4) (4 * length vs) k
    far (inl lt) = inl (omega arith)
    far (inr le) = inr (omega arith)

    near : Beside o (4 * suc (length vs)) k → Beside o 4 k
    near (inl lt) = inl lt
    near (inr le) = inr (omega arith)

load_words-put_words :
    (vs : List ℕ) (f : ℕ → ℕ) (o : ℕ)
    → All (λ v. v < u32_mod) vs
    → load_words (length vs) (put_words f o vs) o ≡ vs
unfolding load_words put_words
load_words-put_words [] f o h = refl
load_words-put_words (v ∷ vs) f o (small, h) =
    ap₂ (λ x xs. x ∷ xs)
      (load_word-same (put_words (put_word f o v) (o + 4) vs) (put_word f o v) o
          (λ k lo hi. put_words-Beside vs (put_word f o v) (o + 4) k (inl hi))
        ∙ load_word-put_word f o v small)
      (load_words-put_words vs (put_word f o v) (o + 4) h)

-- The fields fit in those of a disk inode.
pub record Fits (ip : Inode) : Type 0 where
  pub type : ip.type < 65536
  pub major : ip.major < 65536
  pub minor : ip.minor < 65536
  pub nlink : ip.nlink < 65536
  pub size : ip.size < u32_mod
  pub count : length ip.addrs ≡ 13
  pub addrs : All (λ a. a < u32_mod) ip.addrs

load_short-before :
    (g : ℕ → ℕ) (q v p : ℕ) → p + 2 ≤ q → load_short (put_short g q v) p ≡ load_short g p
load_short-before g q v p le =
    load_short-same (put_short g q v) g p (put_short-Beside g q v p (inl (omega arith)))
      (put_short-Beside g q v (p + 1) (inl (omega arith)))

module _ (f : ℕ → ℕ) (o : ℕ) (ip : Inode) (fits : Fits ip) where
  abbrev with_type : ℕ → ℕ
  with_type = put_short f o ip.type

  abbrev with_major : ℕ → ℕ
  with_major = put_short with_type (o + 2) ip.major

  abbrev with_minor : ℕ → ℕ
  with_minor = put_short with_major (o + 4) ip.minor

  abbrev with_nlink : ℕ → ℕ
  with_nlink = put_short with_minor (o + 6) ip.nlink

  abbrev with_size : ℕ → ℕ
  with_size = put_word with_nlink (o + 8) ip.size

  low_short : (p : ℕ) → p + 2 ≤ o + 8 → load_short (put_dinode f o ip) p ≡ load_short with_nlink p
  unfolding put_dinode
  low_short p le =
      load_short-same (put_words with_size (o + 12) ip.addrs) with_nlink p (same p (omega arith))
        (same (p + 1) (omega arith))
    where
      same : (k : ℕ) → k < o + 8 → put_words with_size (o + 12) ip.addrs k ≡ with_nlink k
      same k lt =
          put_words-Beside ip.addrs with_size (o + 12) k (inl (omega arith))
          ∙ put_word-Beside with_nlink (o + 8) ip.size k (inl lt)

  pub load-put_dinode :
      (c : Inode)
      → load_dinode (put_dinode f o ip) o c
        ≡ record ip { dev = c.dev; inum = c.inum; ref = c.ref; locked = c.locked; valid = c.valid }
  unfolding load_dinode put_dinode
  load-put_dinode c = rw (type, major, minor, nlink, size, addrs) refl
    where
      type : load_short (put_dinode f o ip) o ≡ ip.type
      type =
          low_short o (omega arith)
          ∙ load_short-before with_minor (o + 6) ip.nlink o (omega arith)
          ∙ load_short-before with_major (o + 4) ip.minor o (omega arith)
          ∙ load_short-before with_type (o + 2) ip.major o (omega arith)
          ∙ load_short-put_short f o ip.type fits.type

      major : load_short (put_dinode f o ip) (o + 2) ≡ ip.major
      major =
          low_short (o + 2) (omega arith)
          ∙ load_short-before with_minor (o + 6) ip.nlink (o + 2) (omega arith)
          ∙ load_short-before with_major (o + 4) ip.minor (o + 2) (omega arith)
          ∙ load_short-put_short with_type (o + 2) ip.major fits.major

      minor : load_short (put_dinode f o ip) (o + 4) ≡ ip.minor
      minor =
          low_short (o + 4) (omega arith)
          ∙ load_short-before with_minor (o + 6) ip.nlink (o + 4) (omega arith)
          ∙ load_short-put_short with_major (o + 4) ip.minor fits.minor

      nlink : load_short (put_dinode f o ip) (o + 6) ≡ ip.nlink
      nlink =
          low_short (o + 6) (omega arith)
          ∙ load_short-put_short with_minor (o + 6) ip.nlink fits.nlink

      size : load_word (put_dinode f o ip) (o + 8) ≡ ip.size
      size =
          load_word-same (put_words with_size (o + 12) ip.addrs) with_size (o + 8)
            (λ k lo hi. put_words-Beside ip.addrs with_size (o + 12) k (inl (omega arith)))
          ∙ load_word-put_word with_nlink (o + 8) ip.size fits.size

      addrs : load_words 13 (put_dinode f o ip) (o + 12) ≡ ip.addrs
      addrs =
          ap (λ n. load_words n (put_words with_size (o + 12) ip.addrs) (o + 12)) (sym fits.count)
          ∙ load_words-put_words ip.addrs with_size (o + 12) fits.addrs

  -- The bytes of other disk inodes stay.
  pub put_dinode-Beside : (k : ℕ) → Beside o 64 k → put_dinode f o ip k ≡ f k
  unfolding put_dinode
  put_dinode-Beside k b =
      put_words-Beside ip.addrs with_size (o + 12) k (words b)
      ∙ put_word-Beside with_nlink (o + 8) ip.size k (at 8 4 (omega arith) b)
      ∙ put_short-Beside with_minor (o + 6) ip.nlink k (at 6 2 (omega arith) b)
      ∙ put_short-Beside with_major (o + 4) ip.minor k (at 4 2 (omega arith) b)
      ∙ put_short-Beside with_type (o + 2) ip.major k (at 2 2 (omega arith) b)
      ∙ put_short-Beside f o ip.type k (first b)
    where
      at : (i n : ℕ) → i + n ≤ 64 → Beside o 64 k → Beside (o + i) n k
      at i n le (inl lt) = inl (omega arith)
      at i n le (inr ge) = inr (omega arith)

      first : Beside o 64 k → Beside o 2 k
      first (inl lt) = inl lt
      first (inr ge) = inr (omega arith)

      words : Beside o 64 k → Beside (o + 12) (4 * length ip.addrs) k
      words (inl lt) = inl (omega arith)
      words (inr ge) = let h = fits.count in inr (omega arith)
