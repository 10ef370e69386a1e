-- ===== src/CString/Names.antt =====
-- safestrcpy and strlen of string.c.
use mit_xv.Prelude.{
  ℕ, zero, suc, ◌+◌, ◌≤◌, ◌<◌, ◌≡◌, refl, sym, ap, ◌∙◌, ◌≢◌, ◌⊎◌, inl, inr, true, false, some,
  arith, ◌==◌, ==→eq, ==→ne, Bool-cases, update, update_self, update_ne,
}
use mit_xv.CString.{Mem, copy_name, safestrcpy, strlen_from}
use mit_xv.CString.Moves.{in_region}
use mit_xv.CString.Strings.{apart, no_nul}

-- `out` has at `s` the first `len` bytes of the string that `m` has at `t`, none of them 0, and
-- then a 0; `last` is the index of the last byte of the array.
pub record Copied (s t last : ℕ) (m out : Mem) : Type 0 where
  pub len : ℕ
  pub fits : len ≤ last
  pub ends : out (s + len) ≡ 0
  pub same : (i : ℕ) → i < len → (out (s + i) ≡ m (t + i)) × (m (t + i) ≢ 0)
  pub whole : (len ≡ last) ⊎ (m (t + len) ≡ 0)
  pub others : (a : ℕ) → in_region s (last + 1) a ≡ false → out a ≡ m a

copy_name-Copied :
    (last s t : ℕ) (m : Mem)
    → apart s t (last + 1) ≡ true
    → Copied s t last m (copy_name s t last m)
unfolding copy_name
copy_name-Copied zero s t m h = record {
  len = 0;
  fits = omega arith;
  ends = rw (==→plus) refl;
  same = λ i lt. absurd (omega arith);
  whole = inl refl;
  others = λ a o. update_ne m s 0 a (λ e. ground arith);
}
  where
    ==→plus : (s == s + 0) ≡ true
    ==→plus = ground arith
copy_name-Copied (suc last) s t m h = elim (Bool-cases (m t == 0)) [
  | inl y ↦
      rw (y, copy_name)
        (record {
          len = 0;
          fits = omega arith;
          ends = stop (==→eq (m t) 0 y);
          same = λ i lt. absurd (omega arith);
          whole = inr (at_zero ∙ ==→eq (m t) 0 y);
          others = λ a o.
              update_ne (update m s (m t)) (s + 1) 0 a (λ e. ground arith)
              ∙ update_ne m s (m t) a (λ e. ground arith);
        })
  | inr k ↦
      let rest = copy_name-Copied last (s + 1) (t + 1) (update m s (m t)) (ground arith) in
      rw (k, copy_name)
        (record {
          len = suc rest.len;
          fits = let f = rest.fits in omega arith;
          ends =
              ap (copy_name (s + 1) (t + 1) last (update m s (m t))) (right s rest.len) ∙ rest.ends;
          same = λ i lt.
              copied (copy_name (s + 1) (t + 1) last (update m s (m t))) rest.len rest.fits i
                (==→ne (m t) 0 k) (rest.others s (ground arith)) lt rest.same;
          whole = ends_whole rest.len rest.fits rest.whole;
          others = λ a o. rest.others a (ground arith) ∙ update_ne m s (m t) a (λ e. ground arith);
        })
]
  where
    right : (x i : ℕ) → x + suc i ≡ x + 1 + i
    right x i = omega arith

    at_zero : m (t + 0) ≡ m t
    at_zero = ap m (omega arith)

    stop : m t ≡ 0 → update (update m s (m t)) (s + 1) 0 (s + 0) ≡ 0
    stop z =
        let e : (s + 1 == s + 0) ≡ false = ground arith in
        let e' : (s == s + 0) ≡ true = ground arith in rw (e, e') z

    away : (i : ℕ) → i ≤ last → update m s (m t) (t + 1 + i) ≡ m (t + 1 + i)
    away i lt = update_ne m s (m t) (t + 1 + i) (λ e. ground arith)

    copied :
        (out : Mem) (len : ℕ)
        → len ≤ last
        → (i : ℕ) → m t ≢ 0
        → out s ≡ update m s (m t) s
        → i < suc len
        → ((j : ℕ)
            → j < len
            → (out (s + 1 + j) ≡ update m s (m t) (t + 1 + j)) × (update m s (m t) (t + 1 + j) ≢ 0))
        → (out (s + i) ≡ m (t + i)) × (m (t + i) ≢ 0)
    copied out len fits zero live here lt rest =
        let z : s + 0 ≡ s = omega arith in
        let z' : t + 0 ≡ t = omega arith in (rw (z, z') (here ∙ update_self m s (m t)), rw z' live)
    copied out len fits (suc j) live here lt rest =
        let (e, ne) = rest j (omega arith) in
        let a = away j (omega arith) in
        (rw (right s j, right t j) (e ∙ a), rw (right t j) (λ q. ne (a ∙ q)))

    ends_whole :
        (len : ℕ)
        → len ≤ last
        → (len ≡ last) ⊎ (update m s (m t) (t + 1 + len) ≡ 0)
        → (suc len ≡ suc last) ⊎ (m (t + suc len) ≡ 0)
    ends_whole len fits (inl e) = inl (ap suc e)
    ends_whole len fits (inr e) = inr (rw (right t len) (sym (away len fits) ∙ e))

-- `safestrcpy` to an array of `last + 1` bytes that does not overlap the source leaves a string
-- that ends with a 0 in the array: all of the source or as much as fits; no other byte changes.
pub safestrcpy_lem :
    (last s t : ℕ) (m : Mem)
    → apart s t (last + 1) ≡ true
    → Copied s t last m (safestrcpy s t (suc last) m)
unfolding safestrcpy
safestrcpy_lem last s t m h = copy_name-Copied last s t m h

strlen_from-first :
    (k fuel s n : ℕ) (m : Mem)
    → k < fuel
    → no_nul k (s + n) m ≡ true
    → m (s + n + k) ≡ 0
    → strlen_from fuel s n m ≡ some (n + k)
unfolding strlen_from no_nul
strlen_from-first k zero s n m lt live z = absurd (omega arith)
strlen_from-first zero (suc fuel) s n m lt live z =
    let e : s + n + 0 ≡ s + n = omega arith in
    let e' : n + 0 ≡ n = omega arith in
    let z' : (m (s + n) == 0) ≡ true = ground (arith, rw e at z) in rw (z', e') refl
strlen_from-first (suc k) (suc fuel) s n m lt live z =
    let e : s + n + suc k ≡ s + (n + 1) + k = omega arith in
    let e' : n + suc k ≡ n + 1 + k = omega arith in
    let e'' : s + n + 1 ≡ s + (n + 1) = omega arith in
    let go : (m (s + n) == 0) ≡ false = ground arith in
    let rest : no_nul k (s + n + 1) m ≡ true = ground arith in
    rw (go, e') (strlen_from-first k fuel s (n + 1) m (omega arith) (rw e'' at rest) (rw e at z))

-- `strlen` ends at the first 0 behind `s`, and returns its distance.
pub strlen_lem :
    (k s : ℕ) (m : Mem) → no_nul k s m ≡ true → m (s + k) ≡ 0 → strlen_from (suc k) s 0 m ≡ some k
strlen_lem k s m live z =
    let e : s + 0 ≡ s = omega arith in
    strlen_from-first k (suc k) s 0 m (omega arith) (rw e live) (rw e z) ∙ ap some (omega arith)
