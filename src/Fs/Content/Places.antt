-- ===== src/Fs/Content/Places.antt =====
-- Where block_of finds the block of a file, and what a new block changes there.
use mit_xv.Prelude.{
  ℕ, ◌+◌, ◌-◌, ◌≤◌, ◌<◌, ◌≡◌, refl, sym, ap, ◌∙◌, subst, ◌≢◌, ◌⊎◌, inl, inr, true, false, arith,
  ltb, ◌==◌, if◌then◌else◌, ltb→lt, ltb→le, lt→ltb, ==→eq, ==→ne, ==_refl, ne→==, Bool-cases,
  length, get_or, set, length-set, get_or-set_self, get_or-set_ne, u32_mod,
}
use mit_xv.Fs.{Superblock, Blocks, bblock, write_block}
use mit_xv.Fs.Bitmap.{is_used}
use mit_xv.Fs.Alloc.{Allocated}
use mit_xv.Fs.Icache.{Inode}
use mit_xv.Fs.Bmap.{ndirect, nindirect, maxfile, get_word, set_word}
use mit_xv.Fs.Bmap.Words.{get_word-set_word, get_word-zero}
use mit_xv.Fs.Content.{indirect, entry, block_of, Live, Sound}
use mit_xv.Fs.Content.Grown.{Grown}

pub block_of-direct :
    (d : Blocks) (ip : Inode) (j : ℕ) → j < ndirect → block_of d ip j ≡ get_or ip.addrs j 0
unfolding block_of
block_of-direct d ip j lt = rw (lt→ltb j ndirect lt) refl

pub block_of-table : (d : Blocks) (ip : Inode) → block_of d ip maxfile ≡ indirect ip
unfolding block_of
block_of-table d ip = refl

pub block_of-entry :
    (d : Blocks) (ip : Inode) (j : ℕ)
    → ndirect ≤ j
    → j < maxfile
    → block_of d ip j ≡ entry d (indirect ip) (j - ndirect)
unfolding block_of
block_of-entry d ip j le lt =
    let n : ltb j ndirect ≡ false = ground arith in
    let m : (j == maxfile) ≡ false = ground arith in rw (n, m) refl

-- A place is direct, an entry of the indirect block, or the indirect block's own.
pub place-cases :
    (j : ℕ) → j ≤ maxfile → (j < ndirect) ⊎ (((ndirect ≤ j) × (j < maxfile)) ⊎ (j ≡ maxfile))
place-cases j le = elim (Bool-cases (ltb j ndirect)) [
  | inl y ↦ inl (ltb→lt j ndirect y)
  | inr n ↦ elim (Bool-cases (ltb j maxfile)) [
    | inl y' ↦ inr (inl (ltb→le j ndirect n, ltb→lt j maxfile y'))
    | inr n' ↦ let h = ltb→le j maxfile n' in inr (inr (omega arith))
  ]
]

module _ (sb : Superblock) (d : Blocks) (ip : Inode) (a : ℕ) (d' : Blocks) (s : Sound sb d ip)
    (al : Allocated sb d a d') where
  Live-untouched : (q : ℕ) → Live sb d q → d'.blocks q ≡ d.blocks q
  Live-untouched q l =
      al.others q (λ e. clash (subst (λ t. is_used sb d t ≡ false) e al.was_free) l.used)
        (l.no_map a al.fits)
    where
      clash : is_used sb d q ≡ false → is_used sb d q ≡ true → ⊥
      clash u v = cc

  table-Live : indirect ip ≢ 0 → Live sb d (indirect ip)
  table-Live ne =
      subst (λ t. Live sb d t) (block_of-table d ip)
        (s.live maxfile (omega arith) (λ e. ne (sym (block_of-table d ip) ∙ e)))

  entry-untouched : (i : ℕ) → entry d' (indirect ip) i ≡ entry d (indirect ip) i
  entry-untouched i = elim (Bool-cases (indirect ip == 0)) [
    | inl z ↦ rw z refl
    | inr n ↦ rw n (
        ap (λ t. get_word t i)
          (Live-untouched (indirect ip) (table-Live (==→ne (indirect ip) 0 n))))
  ]

  pub direct-Grown :
      (i : ℕ)
      → i < ndirect
      → get_or ip.addrs i 0 ≡ 0
      → Grown sb d ip i a d' (record ip { addrs = set ip.addrs i a })
  direct-Grown i lt z = record {
    place = omega arith;
    fits = al.fits;
    was_free = al.was_free;
    now_used = al.now_used;
    zeroed = al.zeroed;
    others = λ q l ne. Live-untouched q l;
    shape = length-set ip.addrs i a ∙ s.shape;
    was_hole = block_of-direct d ip i lt ∙ z;
    now = λ j le. elim (place-cases j le) [
      | inl dj ↦ block_of-direct d' ip' j dj ∙ elim (Bool-cases (i == j)) [
        | inl y ↦ rw y (
            subst (λ t. get_or (set ip.addrs i a) t 0 ≡ a) (==→eq i j y)
              (get_or-set_self ip.addrs i a 0 (in_list)))
        | inr n ↦
            rw n (get_or-set_ne ip.addrs i j a 0 (==→ne i j n) ∙ sym (block_of-direct d ip j dj))
      ]
      | inr (inl (lo, hi)) ↦
          block_of-entry d' ip' j lo hi
          ∙ ap (λ t. entry d' t (j - ndirect)) same_table
          ∙ entry-untouched (j - ndirect)
          ∙ sym (else_here j (omega arith) (block_of-entry d ip j lo hi))
      | inr (inr e) ↦
          subst (λ t. block_of d' ip' t ≡ (if i == t then a else block_of d ip t)) (sym e)
            (block_of-table d' ip'
              ∙ same_table
              ∙ sym (else_here maxfile (omega arith) (block_of-table d ip)))
    ];
    same = refl;
  }
    where
      ip' : Inode
      ip' = record ip { addrs = set ip.addrs i a }

      in_list : i < length ip.addrs
      in_list = let h = s.shape in omega arith

      same_table : indirect ip' ≡ indirect ip
      same_table = get_or-set_ne ip.addrs i ndirect a 0 (λ e. omega arith)

      else_here :
          (j : ℕ) {v : ℕ}
          → i < j
          → block_of d ip j ≡ v
          → (if i == j then a else block_of d ip j) ≡ v
      else_here j l e = let n : (i == j) ≡ false = ground arith in rw n e

  pub table-Grown :
      a ≢ 0
      → indirect ip ≡ 0
      → Grown sb d ip maxfile a d' (record ip { addrs = set ip.addrs ndirect a })
  table-Grown nz z = record {
    place = omega arith;
    fits = al.fits;
    was_free = al.was_free;
    now_used = al.now_used;
    zeroed = al.zeroed;
    others = λ q l ne. Live-untouched q l;
    shape = length-set ip.addrs ndirect a ∙ s.shape;
    was_hole = block_of-table d ip ∙ z;
    now = λ j le. elim (place-cases j le) [
      | inl dj ↦
          block_of-direct d' ip' j dj
          ∙ get_or-set_ne ip.addrs ndirect j a 0 (λ e. omega arith)
          ∙ sym (else_here j (omega arith) (block_of-direct d ip j dj))
      | inr (inl (lo, hi)) ↦
          block_of-entry d' ip' j lo hi
          ∙ ap (λ t. entry d' t (j - ndirect)) new_table
          ∙ rw (ne→== a 0 nz) (get_word-zero (d'.blocks a) (j - ndirect) al.zeroed)
          ∙ sym (else_here j hi (block_of-entry d ip j lo hi ∙ no_entry (j - ndirect)))
      | inr (inr e) ↦
          subst (λ t. block_of d' ip' t ≡ (if maxfile == t then a else block_of d ip t)) (sym e)
            (block_of-table d' ip' ∙ new_table)
    ];
    same = refl;
  }
    where
      ip' : Inode
      ip' = record ip { addrs = set ip.addrs ndirect a }

      new_table : indirect ip' ≡ a
      new_table = let h = s.shape in get_or-set_self ip.addrs ndirect a 0 (omega arith)

      no_entry : (i : ℕ) → entry d (indirect ip) i ≡ 0
      no_entry i = let e : (indirect ip == 0) ≡ true = ground arith in rw e refl

      else_here :
          (j : ℕ) {v : ℕ}
          → j < maxfile
          → block_of d ip j ≡ v
          → (if maxfile == j then a else block_of d ip j) ≡ v
      else_here j l e = let n : (maxfile == j) ≡ false = ground arith in rw n e

  pub entry-Grown :
      (i : ℕ)
      → i < nindirect
      → indirect ip ≢ 0
      → get_word (d.blocks (indirect ip)) i ≡ 0
      → Grown sb d ip
          (ndirect + i)
          a
          (write_block (indirect ip) (set_word (d'.blocks (indirect ip)) i a) d')
          ip
  entry-Grown i lt nz z = record {
    place = omega arith;
    fits = al.fits;
    was_free = al.was_free;
    now_used = λ c l.
        rw (ne→== (indirect ip) (bblock sb c) (λ e. table.no_map c l (sym e))) (al.now_used c l);
    zeroed = λ k. rw (ne→== (indirect ip) a table_ne) (al.zeroed k);
    others = λ q l ne. rw (ne→== (indirect ip) q ne) (Live-untouched q l);
    shape = s.shape;
    was_hole = block_of-entry d ip (ndirect + i) (omega arith) (omega arith) ∙ was_entry;
    now = λ j le. elim (place-cases j le) [
      | inl dj ↦
          block_of-direct d'' ip j dj
          ∙ sym (else_here j (λ e. omega arith) (block_of-direct d ip j dj))
      | inr (inl (lo, hi)) ↦ block_of-entry d'' ip j lo hi ∙ now_entry j lo hi
      | inr (inr e) ↦
          subst (λ t. block_of d'' ip t ≡ (if ndirect + i == t then a else block_of d ip t)) (sym e)
            (block_of-table d'' ip
              ∙ sym (else_here maxfile (λ x. omega arith) (block_of-table d ip)))
    ];
    same = refl;
  }
    where
      d'' : Blocks
      d'' = write_block (indirect ip) (set_word (d'.blocks (indirect ip)) i a) d'

      table : Live sb d (indirect ip)
      table = table-Live nz

      table_ne : indirect ip ≢ a
      table_ne e = clash (subst (λ t. is_used sb d t ≡ false) (sym e) al.was_free) table.used
        where
          clash : is_used sb d (indirect ip) ≡ false → is_used sb d (indirect ip) ≡ true → ⊥
          clash u v = cc

      was_entry : entry d (indirect ip) (ndirect + i - ndirect) ≡ 0
      was_entry =
          let e : ndirect + i - ndirect ≡ i = omega arith in rw (e, ne→== (indirect ip) 0 nz) z

      else_here :
          (j : ℕ) {v : ℕ}
          → ndirect + i ≢ j
          → block_of d ip j ≡ v
          → (if ndirect + i == j then a else block_of d ip j) ≡ v
      else_here j l e = rw (ne→== (ndirect + i) j l) e

      word : (j : ℕ) → entry d'' (indirect ip) j ≡ (if i == j then a else entry d (indirect ip) j)
      word j =
          let small : a < u32_mod = (let h = al.fits in let h' = s.disk.small in omega arith) in
          rw (ne→== (indirect ip) 0 nz, ==_refl (indirect ip))
            (get_word-set_word (d'.blocks (indirect ip)) i j a small
              ∙ ap (λ t. if i == j then a else get_word t j) (Live-untouched (indirect ip) table))

      now_entry :
          (j : ℕ)
          → ndirect ≤ j
          → j < maxfile
          → entry d'' (indirect ip) (j - ndirect)
            ≡ (if ndirect + i == j then a else block_of d ip j)
      now_entry j lo hi =
          word (j - ndirect)
          ∙ ap (λ t. if i == j - ndirect then a else t) (sym (block_of-entry d ip j lo hi))
          ∙ ap (λ t. if t then a else block_of d ip j) same_test
        where
          same_test : (i == j - ndirect) ≡ (ndirect + i == j)
          same_test = ground arith
