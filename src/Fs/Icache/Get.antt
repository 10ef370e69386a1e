-- ===== src/Fs/Icache/Get.antt =====
-- iget of fs.c on a cache with at most one entry for an inode.
use mit_xv.Prelude.{
  ℕ, ◌+◌, ◌≡◌, refl, sym, ap, ◌∙◌, subst, ◌≢◌, ◌⊎◌, inl, inr, Bool, true, false, none, some, List,
  arith, ◌==◌, ==→eq, ==→ne, ==_refl, ne→==, Bool-cases, Option-cases, get_elem?, ok, panic,
}
use mit_xv.Fs.Icache.{Inode, is_inode, scan_inodes, change, hold, recycle, iget}
use mit_xv.Fs.Icache.Scan.{
  get_elem?-change, Slot, NoSlot, scan_inodes-Slot, scan_inodes-NoSlot, is_free, scan_inodes-free,
  scan_inodes-full,
}

-- Two entries in use do not stand for the same inode.
abbrev pub Unique : List Inode → Type 0
Unique ips =
    (dev inum j k : ℕ) → Slot (is_inode dev inum) j ips → Slot (is_inode dev inum) k ips → j ≡ k

-- `iget` gave entry `i`.
pub record Got (dev inum : ℕ) (before : List Inode) (i : ℕ) (after : List Inode) : Type 0 where
  pub entry : Inode
  pub there : get_elem? before i ≡ some entry
  pub now_there :
      (is_inode dev inum entry ≡ true) × (get_elem? after i ≡ some (hold entry))
      ⊎ (is_free entry ≡ true)
        × NoSlot (is_inode dev inum) before
        × (get_elem? after i ≡ some (recycle dev inum entry))
  pub others : (j : ℕ) → i ≢ j → get_elem? after j ≡ get_elem? before j
  pub unique : Unique after

module _ (dev inum : ℕ) (ips : List Inode) (unique : Unique ips) where
  at_self :
      (i : ℕ) (f : Inode → Inode) (ip : Inode)
      → get_elem? ips i ≡ some ip
      → get_elem? (change i f ips) i ≡ some (f ip)
  at_self i f ip l = get_elem?-change i i f ips ∙ rw (==_refl i, l) refl

  at_other : (i j : ℕ) (f : Inode → Inode) → i ≢ j → get_elem? (change i f ips) j ≡ get_elem? ips j
  at_other i j f ne = get_elem?-change i j f ips ∙ rw (ne→== i j ne) refl

  -- A test that the change of entry `i` does not make true was true before.
  Slot-before :
      (i j : ℕ) (f : Inode → Inode) (ip : Inode) (test : Inode → Bool)
      → get_elem? ips i ≡ some ip
      → (test (f ip) ≡ true → test ip ≡ true)
      → Slot test j (change i f ips)
      → Slot test j ips
  Slot-before i j f ip test l back (q, at, ok_) = elim (Bool-cases (i == j)) [
    | inl y ↦
        let same : i ≡ j = ==→eq i j y in
        let at' : some (f ip) ≡ some q =
          sym (at_self i f ip l) ∙ ap (get_elem? (change i f ips)) same ∙ at in
        let eq : f ip ≡ q = cc in
        (ip, ap (get_elem? ips) (sym same) ∙ l, back (subst (λ t. test t ≡ true) (sym eq) ok_))
    | inr n ↦ (q, sym (at_other i j f (==→ne i j n)) ∙ at, ok_)
  ]

  hit : (i : ℕ) → Slot (is_inode dev inum) i ips → Got dev inum ips i (change i hold ips)
  hit i (ip, l, y) = record {
    entry = ip;
    there = l;
    now_there = inl (y, at_self i hold ip l);
    others = λ j ne. at_other i j hold ne;
    unique = λ d n j k s t.
        unique d n j k (Slot-before i j hold ip (is_inode d n) l (λ h. ground arith) s)
          (Slot-before i k hold ip (is_inode d n) l (λ h. ground arith) t);
  }

  miss :
      (i : ℕ)
      → NoSlot (is_inode dev inum) ips
      → Slot is_free i ips
      → Got dev inum ips i (change i (recycle dev inum) ips)
  miss i absent (ip, l, y) = record {
    entry = ip;
    there = l;
    now_there = inr (y, absent, at_self i (recycle dev inum) ip l);
    others = λ j ne. at_other i j (recycle dev inum) ne;
    unique = λ d n j k s t. elim (Bool-cases (i == j)) [
      | inl a ↦ elim (Bool-cases (i == k)) [
        | inl b ↦ sym (==→eq i j a) ∙ ==→eq i k b
        | inr b ↦ absurd (clash d n k (here d n j a s) (==→ne i k b) t)
      ]
      | inr a ↦ elim (Bool-cases (i == k)) [
        | inl b ↦ absurd (clash d n j (here d n k b t) (==→ne i j a) s)
        | inr b ↦ unique d n j k (old d n j (==→ne i j a) s) (old d n k (==→ne i k b) t)
      ]
    ];
  }
    where
      old :
          (d n j : ℕ)
          → i ≢ j
          → Slot (is_inode d n) j (change i (recycle dev inum) ips)
          → Slot (is_inode d n) j ips
      old d n j ne (q, at, h) = (q, sym (at_other i j (recycle dev inum) ne) ∙ at, h)

      -- The new entry stands for the inode that was asked for.
      here :
          (d n j : ℕ)
          → (i == j) ≡ true
          → Slot (is_inode d n) j (change i (recycle dev inum) ips)
          → (dev ≡ d) × (inum ≡ n)
      here d n j a (q, at, h) =
          let at' : some (recycle dev inum ip) ≡ some q =
            sym (at_self i (recycle dev inum) ip l)
            ∙ ap (get_elem? (change i (recycle dev inum) ips)) (==→eq i j a)
            ∙ at in
          let eq : recycle dev inum ip ≡ q = cc in
          let h' : is_inode d n (recycle dev inum ip) ≡ true =
            subst (λ t. is_inode d n t ≡ true) (sym eq) h in
          (ground arith, ground arith)

      clash :
          (d n j : ℕ)
          → (dev ≡ d) × (inum ≡ n)
          → i ≢ j
          → Slot (is_inode d n) j (change i (recycle dev inum) ips)
          → ⊥
      clash d n j (p, r) ne s =
          let (q, at, h) = old d n j ne s in
          let no : is_inode dev inum q ≡ false = absent j q at in
          let yes_ : is_inode dev inum q ≡ true =
            subst (λ t. is_inode t inum q ≡ true) (sym p)
              (subst (λ t. is_inode d t q ≡ true) (sym r) h) in
          cc

  -- On a cache without two entries for an inode, `iget` gives the entry of the inode with one more
  -- reference, or makes a free one its entry, with one reference and not valid, if there is none;
  -- no other entry changes, and there are still no two for an inode. It panics only when the inode
  -- is not cached and every entry is in use.
  pub iget_lem :
      ((i : ℕ) × (after : List Inode) × (iget dev inum ips ≡ ok (i, after))
        × Got dev inum ips i after)
      ⊎ (iget dev inum ips ≡ panic "iget: no inodes")
        × NoSlot (is_inode dev inum) ips
        × NoSlot is_free ips
  unfolding iget
  iget_lem = elim (Option-cases (scan_inodes dev inum 0 none ips).0) [
    | inr (k, e) ↦
        let (d, q, s) = scan_inodes-Slot dev inum 0 k none ips e in
        let same : d ≡ k = omega arith in
        rw (e, iget)
          (inl (
            k,
            change k hold ips,
            refl,
            hit k (subst (λ t. Slot (is_inode dev inum) t ips) same s),
          ))
    | inl e ↦ elim (Option-cases (scan_inodes dev inum 0 none ips).1) [
      | inl f ↦
          rw (e, f, iget)
            (inr (
              refl,
              scan_inodes-NoSlot dev inum 0 none ips e,
              (scan_inodes-full dev inum 0 none ips e f).1,
            ))
      | inr (k, f) ↦
          rw (e, f, iget)
            (inl (
              k,
              change k (recycle dev inum) ips,
              refl,
              miss k (scan_inodes-NoSlot dev inum 0 none ips e)
                  (free k (scan_inodes-free dev inum 0 k none ips e f)),
            ))
    ]
  ]
    where
      free :
          (k : ℕ)
          → (none ≡ some k) ⊎ ((d : ℕ) × (k ≡ 0 + d) × Slot is_free d ips)
          → Slot is_free k ips
      free k (inl h) = cc
      free k (inr (d, q, s)) =
          let same : d ≡ k = omega arith in subst (λ t. Slot is_free t ips) same s
