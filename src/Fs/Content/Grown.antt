-- ===== src/Fs/Content/Grown.antt =====
-- An inode of fs.c that is given a new block by balloc.
use mit_xv.Prelude.{
  ℕ, ◌*◌, ◌/◌, ◌%◌, ◌≤◌, ◌<◌, ◌≡◌, refl, sym, ap, ◌∙◌, subst, ◌≢◌, inl, inr, true, false, ◌||◌,
  arith, ◌==◌, if◌then◌else◌, ==→eq, ==→ne, ==_refl, ne→==, Bool-cases, length,
}
use mit_xv.Fs.{bsize, Superblock, Blocks, bblock}
use mit_xv.Fs.Bitmap.{is_used}
use mit_xv.Fs.Icache.{Inode}
use mit_xv.Fs.Bmap.{maxfile}
use mit_xv.Fs.Content.{indirect, block_of, content, Live, Usable, Sound, SameInode, Kept}

-- The inode has the new block `a` at place `i`.
pub record Grown (sb : Superblock) (d : Blocks) (ip : Inode) (i a : ℕ) (d' : Blocks) (ip' : Inode)
    : Type 0 where
  pub place : i ≤ maxfile
  pub fits : a < sb.size
  pub was_free : is_used sb d a ≡ false
  pub now_used : (c : ℕ) → c < sb.size → is_used sb d' c ≡ (is_used sb d c || (a == c))
  pub zeroed : (k : ℕ) → d'.blocks a k ≡ 0
  pub others : (q : ℕ) → Live sb d q → indirect ip ≢ q → d'.blocks q ≡ d.blocks q
  pub shape : length ip'.addrs ≡ 13
  pub was_hole : block_of d ip i ≡ 0
  pub now : (j : ℕ) → j ≤ maxfile → block_of d' ip' j ≡ (if i == j then a else block_of d ip j)
  pub same : SameInode ip ip'

block_of-maxfile : (d : Blocks) (ip : Inode) → block_of d ip maxfile ≡ indirect ip
unfolding block_of
block_of-maxfile d ip = refl

module _ (sb : Superblock) (d : Blocks) (ip : Inode) (i a : ℕ) (d' : Blocks) (ip' : Inode)
    (s : Sound sb d ip) (g : Grown sb d ip i a d' ip') where
  used_still : (c : ℕ) → c < sb.size → is_used sb d c ≡ true → is_used sb d' c ≡ true
  used_still c lt u = g.now_used c lt ∙ rw u refl

  not_new : (q : ℕ) → is_used sb d q ≡ true → a ≢ q
  not_new q u e =
      let f : is_used sb d q ≡ false = subst (λ t. is_used sb d t ≡ false) e g.was_free in cc

  pub new_ne : a ≢ 0
  new_ne = not_new 0 s.disk.boot

  pub now_here : block_of d' ip' i ≡ a
  now_here = g.now i g.place ∙ rw (==_refl i) refl

  pub now_else : (j : ℕ) → j ≤ maxfile → i ≢ j → block_of d' ip' j ≡ block_of d ip j
  now_else j le ne = g.now j le ∙ rw (ne→== i j ne) refl

  Live-still : (q : ℕ) → Live sb d q → Live sb d' q
  Live-still q l = record { fits = l.fits; used = used_still q l.fits l.used; no_map = l.no_map }

  new-Live : Live sb d' a
  new-Live = record {
    fits = g.fits;
    used = g.now_used a g.fits ∙ rw (g.was_free, ==_refl a) refl;
    no_map = λ c lt e. not_new (bblock sb c) (s.disk.owns c lt) (sym e);
  }

  disk_still : Usable sb d'
  disk_still = record {
    small = s.disk.small;
    boot = let lt = g.fits in used_still 0 (omega arith) s.disk.boot;
    maps_fit = s.disk.maps_fit;
    owns = λ c lt. used_still (bblock sb c) (s.disk.maps_fit c lt) (s.disk.owns c lt);
  }

  Sound-still : Sound sb d' ip'
  Sound-still = record {
    disk = disk_still;
    shape = g.shape;
    live = λ j le ne. elim (Bool-cases (i == j)) [
      | inl y ↦
          subst (λ t. Live sb d' t)
            (sym (subst (λ t. block_of d' ip' t ≡ a) (==→eq i j y) now_here)) new-Live
      | inr n ↦
          let e = now_else j le (==→ne i j n) in
          subst (λ t. Live sb d' t) (sym e)
            (Live-still (block_of d ip j) (s.live j le (λ z. ne (e ∙ z))))
    ];
    distinct = λ j k le le' ne e. elim (Bool-cases (i == j)) [
      | inl y ↦ elim (Bool-cases (i == k)) [
        | inl y' ↦ sym (==→eq i j y) ∙ ==→eq i k y'
        | inr n' ↦ absurd (
            fresh k le' (
              sym (subst (λ t. block_of d' ip' t ≡ a) (==→eq i j y) now_here)
              ∙ e
              ∙ now_else k le' (==→ne i k n')))
      ]
      | inr n ↦
          let f = now_else j le (==→ne i j n) in
          elim (Bool-cases (i == k)) [
            | inl y' ↦ absurd (
                fresh j le
                  (sym (subst (λ t. block_of d' ip' t ≡ a) (==→eq i k y') now_here) ∙ sym e ∙ f))
            | inr n' ↦
                s.distinct j k le le' (λ z. ne (f ∙ z)) (sym f ∙ e ∙ now_else k le' (==→ne i k n'))
          ]
    ];
  }
    where
      fresh : (j : ℕ) → j ≤ maxfile → a ≢ block_of d ip j
      fresh j le e = not_new (block_of d ip j) ((s.live j le (λ z. new_ne (e ∙ z))).used) e

  content_still : (k : ℕ) → k < maxfile * bsize → content d' ip' k ≡ content d ip k
  unfolding content
  content_still k lt = elim (Bool-cases (i == k / bsize)) [
    | inl y ↦
        let e : block_of d' ip' (k / bsize) ≡ a =
          subst (λ t. block_of d' ip' t ≡ a) (==→eq i (k / bsize) y) now_here in
        let o : block_of d ip (k / bsize) ≡ 0 =
          subst (λ t. block_of d ip t ≡ 0) (==→eq i (k / bsize) y) g.was_hole in
        rw (e, o, ne→== a 0 new_ne) (g.zeroed (k % bsize))
    | inr n ↦
        let le : k / bsize ≤ maxfile = omega arith in
        let e = now_else (k / bsize) le (==→ne i (k / bsize) n) in
        elim (Bool-cases (block_of d ip (k / bsize) == 0)) [
          | inl z ↦ rw (e, z) refl
          | inr ne ↦
              let bytes =
                g.others (block_of d ip (k / bsize))
                  (s.live (k / bsize) le (==→ne (block_of d ip (k / bsize)) 0 ne))
                  (λ q. no_table (sym q) (==→ne (block_of d ip (k / bsize)) 0 ne)) in
              rw (e, ne) (ap (λ (f : ℕ → ℕ). f (k % bsize)) bytes)
        ]
  ]
    where
      no_table : block_of d ip (k / bsize) ≡ indirect ip → block_of d ip (k / bsize) ≢ 0 → ⊥
      no_table e ne =
          let same : k / bsize ≡ maxfile =
            s.distinct (k / bsize) maxfile (omega arith) (omega arith) ne
              (e ∙ sym (block_of-maxfile d ip)) in
          omega arith

  pub Grown-Kept : Kept sb d ip d' ip'
  Grown-Kept = record {
    sound = Sound-still;
    content_kept = content_still;
    blocks_kept =
        λ j le ne. now_else j le (λ e. ne (subst (λ t. block_of d ip t ≡ 0) e g.was_hole));
    foreign = λ q f. (
      record {
        live = Live-still q f.live;
        not_owned = λ j le e. elim (Bool-cases (i == j)) [
          | inl y ↦
              not_new q f.live.used
                (sym (subst (λ t. block_of d' ip' t ≡ a) (==→eq i j y) now_here) ∙ e)
          | inr n ↦ f.not_owned j le (sym (now_else j le (==→ne i j n)) ∙ e)
        ];
      },
      g.others q f.live (λ e. f.not_owned maxfile (omega arith) (block_of-maxfile d ip ∙ e)),
    );
    same = g.same;
  }
