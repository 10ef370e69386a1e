-- ===== src/Spinlock/Exclusion.antt =====
-- The steps of a CPU at a spin lock, against who holds it and the depths.
use mit_xv.Prelude.{
  ℕ, ◌≡◌, refl, sym, ap, ◌∙◌, subst, inl, inr, true, false, none, some, ◌==◌, ==→eq, ==→ne, ==_refl,
  Bool-cases, update,
}
use mit_xv.Spinlock.{Lock, record_cpu, unlock}
use mit_xv.Spinlock.Mutex.{
  Place, outside, spinning, won, inside, leaving, left, has_lock, is_inside, Exclusive,
}

module _ (lock : Lock) (place : ℕ → Place) (c : ℕ) (s : Exclusive lock place) where
  pub keeps_place :
      (p : Place)
      → has_lock p ≡ has_lock (place c)
      → is_inside p ≡ is_inside (place c)
      → Exclusive lock (update place c p)
  keeps_place p h i = record {
    locked = λ d q. s.locked d (rw (lock_same d) at q);
    once = λ d e q r. s.once d e (rw (lock_same d) at q) (rw (lock_same e) at r);
    known = λ d q. s.known d (rw (inside_same d) at q);
    owner = λ d q. rw (inside_same d) (s.owner d q);
  }
    where
      lock_same : (d : ℕ) → has_lock (update place c p d) ≡ has_lock (place d)
      lock_same d = elim (Bool-cases (c == d)) [
        | inl y ↦ rw y (h ∙ ap (λ t. has_lock (place t)) (==→eq c d y))
        | inr n ↦ rw n refl
      ]

      inside_same : (d : ℕ) → is_inside (update place c p d) ≡ is_inside (place d)
      inside_same d = elim (Bool-cases (c == d)) [
        | inl y ↦ rw y (i ∙ ap (λ t. is_inside (place t)) (==→eq c d y))
        | inr n ↦ rw n refl
      ]

  pub wins-Exclusive :
      place c ≡ spinning
      → lock.locked ≡ false
      → Exclusive (record lock { locked = true }) (update place c won)
  wins-Exclusive here free = record {
    locked = λ d q. refl;
    once = λ d e q r. elim (Bool-cases (c == d)) [
      | inl y ↦ elim (Bool-cases (c == e)) [
        | inl y' ↦ sym (==→eq c d y) ∙ ==→eq c e y'
        | inr n' ↦ absurd (nobody e (rw n' at r))
      ]
      | inr n ↦ absurd (nobody d (rw n at q))
    ];
    known = λ d q. elim (Bool-cases (c == d)) [
      | inl y ↦ cc (rw y at q)
      | inr n ↦ s.known d (rw n at q)
    ];
    owner = λ d q. elim (Bool-cases (c == d)) [
      | inl y ↦
          absurd
            (not_in (subst (λ t. is_inside (place t) ≡ true) (sym (==→eq c d y)) (s.owner d q)))
      | inr n ↦ rw n (s.owner d q)
    ];
  }
    where
      nobody : (d : ℕ) → has_lock (place d) ≡ true → ⊥
      nobody d h = let l = s.locked d h in cc

      not_in : is_inside (place c) ≡ true → ⊥
      not_in h = cc (rw here at h)

  pub records-Exclusive : place c ≡ won → Exclusive (record_cpu c lock) (update place c inside)
  unfolding record_cpu
  records-Exclusive here = record {
    locked = λ d q. s'.locked d (was d q);
    once = λ d e q r. s'.once d e (was d q) (was e r);
    known = λ d q. ap some (s.once c d (rw here refl) (lockish d q));
    owner = λ d q. rw (subst (λ t. (c == t) ≡ true) (some_inj q) (==_refl c)) refl;
  }
    where
      some_inj : {a b : ℕ} → some a ≡ some b → a ≡ b
      some_inj e = cc

      s' : Exclusive lock place
      s' = s

      was : (d : ℕ) → has_lock (update place c inside d) ≡ true → has_lock (place d) ≡ true
      was d q = elim (Bool-cases (c == d)) [
        | inl y ↦ subst (λ t. has_lock (place t) ≡ true) (==→eq c d y) (rw here refl)
        | inr n ↦ rw n at q
      ]

      lockish : (d : ℕ) → is_inside (update place c inside d) ≡ true → has_lock (place d) ≡ true
      lockish d q = elim (Bool-cases (c == d)) [
        | inl y ↦ subst (λ t. has_lock (place t) ≡ true) (==→eq c d y) (rw here refl)
        | inr n ↦ is_inside-has_lock (place d) (rw n at q)
      ]
        where
          is_inside-has_lock : (p : Place) → is_inside p ≡ true → has_lock p ≡ true
          is_inside-has_lock inside h = refl
          is_inside-has_lock outside h = cc
          is_inside-has_lock spinning h = cc
          is_inside-has_lock won h = cc
          is_inside-has_lock leaving h = cc
          is_inside-has_lock left h = cc

  pub leaves-Exclusive :
      place c ≡ inside → Exclusive (record lock { cpu = none }) (update place c leaving)
  leaves-Exclusive here = record {
    locked = λ d q. s.locked d (was d q);
    once = λ d e q r. s.once d e (was d q) (was e r);
    known = λ d q. elim (Bool-cases (c == d)) [
      | inl y ↦ cc (rw y at q)
      | inr n ↦ absurd (alone d n (rw n at q))
    ];
    owner = λ d q. cc;
  }
    where
      was : (d : ℕ) → has_lock (update place c leaving d) ≡ true → has_lock (place d) ≡ true
      was d q = elim (Bool-cases (c == d)) [
        | inl y ↦ subst (λ t. has_lock (place t) ≡ true) (==→eq c d y) (rw here refl)
        | inr n ↦ rw n at q
      ]

      alone : (d : ℕ) → (c == d) ≡ false → is_inside (place d) ≡ true → ⊥
      alone d n h =
          let k = s.known d h in
          let k' = s.known c (rw here refl) in
          let e : some c ≡ some d = sym k' ∙ k in let same : c ≡ d = cc in ==→ne c d n same

  pub unlocks-Exclusive : place c ≡ leaving → Exclusive (unlock lock) (update place c left)
  unfolding unlock
  unlocks-Exclusive here = record {
    locked = λ d q. absurd (nobody d q);
    once = λ d e q r. absurd (nobody d q);
    known = λ d q. elim (Bool-cases (c == d)) [
      | inl y ↦ cc (rw y at q)
      | inr n ↦ s.known d (rw n at q)
    ];
    owner = λ d q. elim (Bool-cases (c == d)) [
      | inl y ↦
          absurd
            (not_in (subst (λ t. is_inside (place t) ≡ true) (sym (==→eq c d y)) (s.owner d q)))
      | inr n ↦ rw n (s.owner d q)
    ];
  }
    where
      nobody : (d : ℕ) → has_lock (update place c left d) ≡ true → ⊥
      nobody d q = elim (Bool-cases (c == d)) [
        | inl y ↦ cc (rw y at q)
        | inr n ↦ ==→ne c d n (s.once c d (rw here refl) (rw n at q))
      ]

      not_in : is_inside (place c) ≡ true → ⊥
      not_in h = cc (rw here at h)
