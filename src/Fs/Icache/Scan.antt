-- ===== src/Fs/Icache/Scan.antt =====
-- The scan of iget of fs.c over the cache of inodes.
use mit_xv.Prelude.{
  ℕ, zero, suc, ◌+◌, ◌≡◌, refl, subst, ◌⊎◌, inl, inr, Bool, true, false, Option, none, some, List,
  [], ◌∷◌, arith, ◌==◌, if◌then◌else◌, Bool-cases, get_elem?,
}
use mathlib.Core.Option
use mit_xv.Fs.Icache.{Inode, is_inode, scan_inodes, change}

pub get_elem?-change :
    (i j : ℕ) (f : Inode → Inode) (ips : List Inode)
    → get_elem? (change i f ips) j
      ≡ (if i == j then Option.map f (get_elem? ips j) else get_elem? ips j)
unfolding change
get_elem?-change i j f [] = ground arith
get_elem?-change zero zero f (ip ∷ ips) = ground arith
get_elem?-change zero (suc j) f (ip ∷ ips) = ground arith
get_elem?-change (suc i) zero f (ip ∷ ips) = ground arith
get_elem?-change (suc i) (suc j) f (ip ∷ ips) =
    let s : (suc i == suc j) ≡ (i == j) = ground arith in rw s (get_elem?-change i j f ips)

-- Slot `k` of the inodes has one that passes the test.
abbrev pub Slot : (Inode → Bool) → ℕ → List Inode → Type 0
Slot test k ips = (ip : Inode) × (get_elem? ips k ≡ some ip) × (test ip ≡ true)

-- No inode passes the test.
abbrev pub NoSlot : (Inode → Bool) → List Inode → Type 0
NoSlot test ips = (k : ℕ) (ip : Inode) → get_elem? ips k ≡ some ip → test ip ≡ false

pub scan_inodes-Slot :
    (dev inum i k : ℕ) (empty : Option ℕ) (ips : List Inode)
    → (scan_inodes dev inum i empty ips).0 ≡ some k
    → (d : ℕ) × (k ≡ i + d) × Slot (is_inode dev inum) d ips
unfolding scan_inodes
scan_inodes-Slot dev inum i k empty [] e = cc
scan_inodes-Slot dev inum i k empty (ip ∷ ips) e = elim (Bool-cases (is_inode dev inum ip)) [
  | inl y ↦
      let e' : some i ≡ some k = rw y at e in
      let same : i ≡ k = cc in (0, omega arith, (ip, refl, y))
  | inr n ↦
      let (d, q, s) =
        scan_inodes-Slot dev inum (i + 1) k
          (elim empty [ some x ↦ some x | none ↦ if ip.ref == 0 then some i else none ]) ips
          (rw n at e) in
      (suc d, omega arith, s)
]

pub scan_inodes-NoSlot :
    (dev inum i : ℕ) (empty : Option ℕ) (ips : List Inode)
    → (scan_inodes dev inum i empty ips).0 ≡ none
    → NoSlot (is_inode dev inum) ips
unfolding scan_inodes
scan_inodes-NoSlot dev inum i empty [] e k q l = cc
scan_inodes-NoSlot dev inum i empty (ip ∷ ips) e k q l = elim (Bool-cases (is_inode dev inum ip)) [
  | inl y ↦ cc (rw y at e)
  | inr n ↦
      at k l
        (scan_inodes-NoSlot dev inum (i + 1)
          (elim empty [ some x ↦ some x | none ↦ if ip.ref == 0 then some i else none ]) ips
          (rw n at e))
        n
]
  where
    at :
        (k : ℕ)
        → get_elem? (ip ∷ ips) k ≡ some q
        → NoSlot (is_inode dev inum) ips
        → is_inode dev inum ip ≡ false
        → is_inode dev inum q ≡ false
    at zero l rest n = let same : ip ≡ q = cc in subst (λ t. is_inode dev inum t ≡ false) same n
    at (suc k) l rest n = rest k q l

abbrev pub is_free : Inode → Bool
is_free ip = ip.ref == 0

-- The free slot that the scan remembers is its first one.
pub scan_inodes-free :
    (dev inum i k : ℕ) (empty : Option ℕ) (ips : List Inode)
    → (scan_inodes dev inum i empty ips).0 ≡ none
    → (scan_inodes dev inum i empty ips).1 ≡ some k
    → (empty ≡ some k) ⊎ ((d : ℕ) × (k ≡ i + d) × Slot is_free d ips)
unfolding scan_inodes
scan_inodes-free dev inum i k empty [] e f = inl f
scan_inodes-free dev inum i k empty (ip ∷ ips) e f = elim (Bool-cases (is_inode dev inum ip)) [
  | inl y ↦ cc (rw y at e)
  | inr n ↦ first empty (
      scan_inodes-free dev inum (i + 1) k
        (elim empty [ some x ↦ some x | none ↦ if ip.ref == 0 then some i else none ]) ips
        (rw n at e) (rw n at f))
]
  where
    first :
        (o : Option ℕ)
        → ((elim o [ some x ↦ some x | none ↦ if ip.ref == 0 then some i else none ]) ≡ some k)
          ⊎ ((d : ℕ) × (k ≡ i + 1 + d) × Slot is_free d ips)
        → (o ≡ some k) ⊎ ((d : ℕ) × (k ≡ i + d) × Slot is_free d (ip ∷ ips))
    first o (inr (d, q, s)) = inr (suc d, omega arith, s)
    first (some x) (inl h) = inl h
    first none (inl h) = elim (Bool-cases (ip.ref == 0)) [
      | inl y ↦
          let h' : some i ≡ some k = rw y at h in
          let same : i ≡ k = cc in inr (0, omega arith, (ip, refl, y))
      | inr n ↦ cc (rw n at h)
    ]

pub scan_inodes-full :
    (dev inum i : ℕ) (empty : Option ℕ) (ips : List Inode)
    → (scan_inodes dev inum i empty ips).0 ≡ none
    → (scan_inodes dev inum i empty ips).1 ≡ none
    → (empty ≡ none) × NoSlot is_free ips
unfolding scan_inodes
scan_inodes-full dev inum i empty [] e f = (f, λ k q l. cc)
scan_inodes-full dev inum i empty (ip ∷ ips) e f = elim (Bool-cases (is_inode dev inum ip)) [
  | inl y ↦ cc (rw y at e)
  | inr n ↦ first empty (
      scan_inodes-full dev inum (i + 1)
        (elim empty [ some x ↦ some x | none ↦ if ip.ref == 0 then some i else none ]) ips
        (rw n at e) (rw n at f))
]
  where
    first :
        (o : Option ℕ)
        → ((elim o [ some x ↦ some x | none ↦ if ip.ref == 0 then some i else none ]) ≡ none)
          × NoSlot is_free ips
        → (o ≡ none) × NoSlot is_free (ip ∷ ips)
    first (some x) (h, rest) = cc
    first none (h, rest) = elim (Bool-cases (ip.ref == 0)) [
      | inl y ↦ cc (rw y at h)
      | inr n ↦ (refl, λ k q l. at k q l n)
    ]
      where
        at :
            (k : ℕ) (q : Inode)
            → get_elem? (ip ∷ ips) k ≡ some q
            → is_free ip ≡ false
            → is_free q ≡ false
        at zero q l n = let same : ip ≡ q = cc in subst (λ t. is_free t ≡ false) same n
        at (suc k) q l n = rest k q l
