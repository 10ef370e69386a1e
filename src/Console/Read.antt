-- ===== src/Console/Read.antt =====
-- consoleread of console.c on what has been typed for readers.
use mit_xv.Prelude.{
  ℕ, zero, suc, ◌%◌, ◌≤◌, ◌<◌, ◌≡◌, refl, ap, ◌≢◌, ◌⊎◌, inl, inr, Bool, true, false, List, [], ◌∷◌,
  ◌++◌, arith, ltb, ◌==◌, ==→eq, ==→ne, ne→==, Bool-cases, length, All, add32,
}
use mit_xv.Console.{input_buf, Input, ReadEnd, got, read_failed, read_sleeps, also, consoleread}
use mit_xv.Console.Ring.{window, Holds}

-- How a run with `n` of `target` bytes left ended, from `ready` with `rest` left in the ring.
pub data Ended (n target : ℕ) (killed : Bool) (ready rest : List ℕ) : ReadEnd → Type 0 where
  returns :
      (cs : List ℕ)
      → length cs ≤ n
      → All (λ c. c ≢ 4) cs
      → (ready ≡ cs ++ rest) ⊎ ((n ≡ target) × (cs ≡ []) × (ready ≡ 4 ∷ rest))
      → Ended n target killed ready rest (got cs)
  fails : killed ≡ true → rest ≡ [] → Ended n target killed ready rest read_failed
  sleeps :
      (cs : List ℕ)
      → killed ≡ false
      → length cs < n
      → ready ≡ cs
      → rest ≡ []
      → Ended n target killed ready rest (read_sleeps cs)

pub record HasRead (n target : ℕ) (killed : Bool) (ready line : List ℕ) (out : ReadEnd × Input)
    : Type 0 where
  pub rest : List ℕ
  pub holds : Holds out.1 rest line
  pub ended : Ended n target killed ready rest out.0

takes :
    (i : Input) (c : ℕ) (cs line : List ℕ)
    → Holds i (c ∷ cs) line
    → Holds (record i { r = add32 i.r 1 }) cs line
      × ((i.r == i.w) ≡ false)
      × (i.buf (i.r % input_buf) ≡ c)
unfolding window
takes i c cs line h =
    let r_word = h.r_word in
    let w_at = h.w_at in
    let e_at = h.e_at in
    let fits = h.fits in
    let front = h.is_ready in
    (
      record {
        r_word = omega arith;
        w_at = omega arith;
        e_at = omega arith;
        is_ready = tail front;
        is_line = h.is_line;
        fits = omega arith;
        open_line = h.open_line;
      },
      ne→== i.r i.w (λ q. omega arith),
      head front,
    )
  where
    head : {x y : ℕ} {xs ys : List ℕ} → x ∷ xs ≡ y ∷ ys → x ≡ y
    head e = cc

    tail : {x y : ℕ} {xs ys : List ℕ} → x ∷ xs ≡ y ∷ ys → xs ≡ ys
    tail e = cc

none_ready : (i : Input) (line : List ℕ) → Holds i [] line → (i.r == i.w) ≡ true
none_ready i line h = let r_word = h.r_word in let w_at = h.w_at in ground arith

-- One more byte in front of a run that is not the first.
one_more :
    (n target c : ℕ) (killed : Bool) (cs rest : List ℕ) (out : ReadEnd)
    → suc n ≤ target
    → c ≢ 4
    → Ended n target killed cs rest out
    → Ended (suc n) target killed (c ∷ cs) rest (also c out)
one_more n target c killed cs rest out le ne (returns ds l no_eof (inl e)) =
    returns (c ∷ ds) (omega arith) (ne, no_eof) (inl (ap (λ t. c ∷ t) e))
one_more n target c killed cs rest out le ne (returns ds l no_eof (inr (same, z, e))) =
    absurd (omega arith)
one_more n target c killed cs rest out le ne (fails k z) = fails k z
one_more n target c killed cs rest out le ne (sleeps ds k l e z) =
    sleeps (c ∷ ds) k (omega arith) (ap (λ t. c ∷ t) e) z

-- A run of consoleread returns bytes from the front of what is ready, no C('D') among them, and
-- the others stay; a C('D') in front is taken by a run that returns no byte, and else stays. It
-- sleeps only when all that was ready has been read, and fails only when the process is killed.
pub consoleread-HasRead :
    (killed : Bool) (n target : ℕ) (i : Input) (ready line : List ℕ)
    → n ≤ target
    → Holds i ready line
    → HasRead n target killed ready line (consoleread killed target n i)
unfolding consoleread
consoleread-HasRead killed zero target i ready line le h = record {
  rest = ready;
  holds = h;
  ended = returns [] (omega arith) tt (inl refl);
}
consoleread-HasRead true (suc n) target i [] line le h =
    rw (none_ready i line h) (record { rest = []; holds = h; ended = fails refl refl })
consoleread-HasRead false (suc n) target i [] line le h =
    rw (none_ready i line h)
      (record { rest = []; holds = h; ended = sleeps [] refl (omega arith) refl refl })
consoleread-HasRead killed (suc n) target i (c ∷ cs) line le h =
    let (h', ne, byte) = takes i c cs line h in
    rw (ne, byte)
      (elim (Bool-cases (c == 4)) [
        | inl y ↦ rw y (elim (Bool-cases (ltb (suc n) target)) [
          | inl later ↦
              rw later (record {
                rest = c ∷ cs;
                holds = h;
                ended = returns [] (omega arith) tt (inl refl);
              })
          | inr first ↦ rw first (record {
            rest = cs;
            holds = h';
            ended =
                returns [] (omega arith) tt
                  (inr (ground arith, refl, ap (λ t. t ∷ cs) (==→eq c 4 y)));
          })
        ])
        | inr not_eof ↦ rw not_eof (elim (Bool-cases (c == 10)) [
          | inl y ↦ rw y (record {
            rest = cs;
            holds = h';
            ended = returns (c ∷ []) (omega arith) (==→ne c 4 not_eof, tt) (inl refl);
          })
          | inr n' ↦
              let r =
                consoleread-HasRead killed n target (record i { r = add32 i.r 1 }) cs line
                  (omega arith) h' in
              rw n' (record {
                rest = r.rest;
                holds = r.holds;
                ended =
                    one_more n target c killed cs r.rest
                      (consoleread killed target n (record i { r = add32 i.r 1 })).0 le
                      (==→ne c 4 not_eof) r.ended;
              })
        ])
      ])
