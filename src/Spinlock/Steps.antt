-- ===== src/Spinlock/Steps.antt =====
-- The steps of a machine of CPUs at a spin lock, against its invariant.
use mit_xv.Prelude.{
  ℕ, ◌+◌, ◌-◌, ◌<◌, ◌≡◌, refl, sym, ap, ap₂, ◌∙◌, subst, ◌≢◌, inl, inr, Bool, true, none, arith,
  ◌==◌, ==→eq, ==→ne, ==_refl, Bool-cases, update, update_self, update_ne, ok,
}
use mit_xv.Spinlock.{Cpu, pushcli, popcli, Lock, acquire_enter, xchg, release_enter}
use mit_xv.Spinlock.Nesting.{Masked, Masked-pushcli, Masked-popcli}
use mit_xv.Spinlock.Mutex.{
  Place, outside, spinning, won, inside, leaving, left, pushed, Machine, Step, enters, spins, wins,
  records, leaves, unlocks, ends, nests, unnests, sets_flag, Exclusive, Counted,
}
use mit_xv.Spinlock.Exclusion.{
  keeps_place, wins-Exclusive, records-Exclusive, leaves-Exclusive, unlocks-Exclusive,
}

popcli-ok : (c x : Cpu) → popcli c ≡ ok x → (c.ncli ≡ x.ncli + 1)
unfolding popcli
popcli-ok c x e = ground arith

-- CPU `c` alone changed.
module _ {cpu cpu' : ℕ → Cpu} {place place' : ℕ → Place} {nested nested' : ℕ → ℕ} (c : ℕ) where
  counts :
      Counted cpu place nested
      → (cpu' c).ncli ≡ nested' c + pushed (place' c)
      → Masked (cpu' c)
      → ((d : ℕ) → c ≢ d → (cpu' d ≡ cpu d) × (place' d ≡ place d) × (nested' d ≡ nested d))
      → Counted cpu' place' nested'
  counts k depth masked same = record {
    depth = λ d. elim (Bool-cases (c == d)) [
      | inl y ↦ subst (λ t. (cpu' t).ncli ≡ nested' t + pushed (place' t)) (==→eq c d y) depth
      | inr n ↦
          let (x, p, q) = same d (==→ne c d n) in
          ap (λ (t : Cpu). t.ncli) x ∙ k.depth d ∙ ap₂ (λ a b. a + pushed b) (sym q) (sym p)
    ];
    off = λ d. elim (Bool-cases (c == d)) [
      | inl y ↦ subst (λ t. Masked (cpu' t)) (==→eq c d y) masked
      | inr n ↦ subst Masked (sym (same d (==→ne c d n)).0) (k.off d)
    ];
  }

pub record Sound (m : Machine) : Type 0 where
  pub exclusive : Exclusive m.lock m.place
  pub counted : Counted m.cpu m.place m.nested

-- A step of CPU `c` that changes only its place, between places of the same depth.
moves :
    (m : Machine) (c : ℕ) (p : Place)
    → pushed p ≡ pushed (m.place c)
    → Counted m.cpu m.place m.nested
    → Counted m.cpu (update m.place c p) m.nested
moves m c p same k =
    counts c k
      (k.depth c ∙ ap (λ t. m.nested c + t) (sym (ap pushed (update_self m.place c p) ∙ same)))
      (k.off c) (λ d ne. (refl, update_ne m.place c p d ne, refl))

pub Step-Sound : {m n : Machine} → Step m n → Sound m → Sound n
unfolding acquire_enter xchg release_enter pushcli
Step-Sound {m} (enters c {x} here e) s =
    let x' : pushcli (m.cpu c) ≡ x = ground arith in
    record {
      exclusive = keeps_place m.lock m.place c s.exclusive spinning (rw here refl) (rw here refl);
      counted =
          counts c s.counted
            (rw (==_refl c) (
              ap (λ (t : Cpu). t.ncli) (sym x')
              ∙ pushed_once (m.cpu c) (m.nested c) (rw here at (s.counted.depth c))))
            (subst Masked (x' ∙ sym (update_self m.cpu c x)) (Masked-pushcli (m.cpu c)))
            (λ d ne. (update_ne m.cpu c x d ne, update_ne m.place c spinning d ne, refl));
    }
  where
    pushed_once : (y : Cpu) (k : ℕ) → y.ncli ≡ k + 0 → (pushcli y).ncli ≡ k + 1
    pushed_once y k h = rest y.ncli k h
      where
        rest : (a b : ℕ) → a ≡ b + 0 → a + 1 ≡ b + 1
        rest a b h' = omega arith
Step-Sound {m} (spins c {lk} here e) s = record {
  exclusive = subst (λ t. Exclusive t m.place) (taken e) s.exclusive;
  counted = s.counted;
}
  where
    taken : xchg m.lock ≡ (true, lk) → m.lock ≡ lk
    taken q =
        let l : m.lock.locked ≡ true = ap (λ (t : Bool × Lock). t.0) q in
        relock l ∙ ap (λ (t : Bool × Lock). t.1) q
      where
        relock : m.lock.locked ≡ true → m.lock ≡ record m.lock { locked = true }
        relock l i = record { locked = l i; cpu = m.lock.cpu }
Step-Sound {m} (wins c {lk} here e) s = record {
  exclusive =
      subst (λ t. Exclusive t (update m.place c won)) (ap (λ (t : Bool × Lock). t.1) e)
        (wins-Exclusive m.lock m.place c s.exclusive here (ap (λ (t : Bool × Lock). t.0) e));
  counted = moves m c won (rw here refl) s.counted;
}
Step-Sound {m} (records c here) s = record {
  exclusive = records-Exclusive m.lock m.place c s.exclusive here;
  counted = moves m c inside (rw here refl) s.counted;
}
Step-Sound {m} (leaves c {lk} here e) s = record {
  exclusive =
      subst (λ t. Exclusive t (update m.place c leaving)) (freed e)
        (leaves-Exclusive m.lock m.place c s.exclusive here);
  counted = moves m c leaving (rw here refl) s.counted;
}
  where
    freed : release_enter c m.lock ≡ ok lk → record m.lock { cpu = none } ≡ lk
    freed q = ground arith
Step-Sound {m} (unlocks c here) s = record {
  exclusive = unlocks-Exclusive m.lock m.place c s.exclusive here;
  counted = moves m c left (rw here refl) s.counted;
}
Step-Sound {m} (ends c {x} here e) s = record {
  exclusive = keeps_place m.lock m.place c s.exclusive outside (rw here refl) (rw here refl);
  counted =
      counts c s.counted
        (rw (==_refl c) (
          less x.ncli (m.nested c)
            (sym (popcli-ok (m.cpu c) x e) ∙ rw here at (s.counted.depth c))))
        (subst Masked (sym (update_self m.cpu c x)) (Masked-popcli (m.cpu c) x (s.counted.off c) e))
        (λ d ne. (update_ne m.cpu c x d ne, update_ne m.place c outside d ne, refl));
}
  where
    less : (a b : ℕ) → a + 1 ≡ b + 1 → a ≡ b + 0
    less a b h = omega arith
Step-Sound {m} (nests c) s = record {
  exclusive = s.exclusive;
  counted =
      counts c s.counted
        (rw (==_refl c) (deeper (m.cpu c) (m.nested c) (pushed (m.place c)) (s.counted.depth c)))
        (subst Masked (sym (update_self m.cpu c (pushcli (m.cpu c)))) (Masked-pushcli (m.cpu c)))
        (λ d ne. (
          update_ne m.cpu c (pushcli (m.cpu c)) d ne,
          refl,
          update_ne m.nested c (m.nested c + 1) d ne,
        ));
}
  where
    deeper : (y : Cpu) (a b : ℕ) → y.ncli ≡ a + b → (pushcli y).ncli ≡ a + 1 + b
    deeper y a b h = rest y.ncli h
      where
        rest : (k : ℕ) → k ≡ a + b → k + 1 ≡ a + 1 + b
        rest k q = omega arith
Step-Sound {m} (unnests c {x} pos e) s = record {
  exclusive = s.exclusive;
  counted =
      counts c s.counted
        (rw (==_refl c) (
          less x.ncli (m.nested c) (pushed (m.place c)) pos
            (sym (popcli-ok (m.cpu c) x e) ∙ s.counted.depth c)))
        (subst Masked (sym (update_self m.cpu c x)) (Masked-popcli (m.cpu c) x (s.counted.off c) e))
        (λ d ne. (update_ne m.cpu c x d ne, refl, update_ne m.nested c (m.nested c - 1) d ne));
}
  where
    less : (k a b : ℕ) → 0 < a → k + 1 ≡ a + b → k ≡ a - 1 + b
    less k a b p h = omega arith
Step-Sound {m} (sets_flag c flag z) s = record {
  exclusive = s.exclusive;
  counted =
      counts c s.counted (rw (==_refl c) (s.counted.depth c))
        (subst Masked (sym (update_self m.cpu c (record (m.cpu c) { interrupts = flag })))
          (idle (m.cpu c) z))
        (λ d ne. (update_ne m.cpu c (record (m.cpu c) { interrupts = flag }) d ne, refl, refl));
}
  where
    idle : (y : Cpu) → y.ncli ≡ 0 → Masked (record y { interrupts = flag })
    idle y h p = absurd (omega arith)
