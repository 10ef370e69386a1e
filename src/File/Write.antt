-- ===== src/File/Write.antt =====
-- filewrite of file.c: the transactions that a write is cut into.
use mit_xv.Prelude.{
  ℕ, zero, suc, ◌+◌, ◌-◌, ◌≤◌, ◌<◌, min, ◌≡◌, refl, ap, ◌⊎◌, inl, inr, true, Option, none, some,
  arith, ltb, ◌==◌, ltb→lt, ==_refl, Bool-cases, ok,
}
use mit_xv.File.{fd_inode, File, write_kind, max_write, write_from, filewrite}

module _ {ℓ} {S : Type ℓ} (writei : ℕ → ℕ → ℕ → S → Option ℕ × S) where
  -- Calls of writei that succeed, one behind the other, from byte `i` up to byte `j`.
  pub data Writes : ℕ → ℕ → S → ℕ → S → Type ℓ where
    done : {i off : ℕ} {s : S} → Writes i off s i s
    more :
        {i off : ℕ} {s : S} (w j : ℕ) {t : S}
        → 0 < w
        → w ≤ max_write
        → (writei i off w s).0 ≡ some w
        → Writes (i + w) (off + w) (writei i off w s).1 j t
        → Writes i off s j t

  -- All bytes have been written; or a call for the next ones failed.
  pub record Wrote (n i off : ℕ) (s : S) (out : Option ℕ × ℕ × S) : Type ℓ where
    pub upto : ℕ
    pub range : (i ≤ upto) × (upto ≤ n)
    pub state : S
    pub calls : Writes i off s upto state
    pub new_off : out.1 + i ≡ off + upto
    pub end :
        (out.0 ≡ some n) × (upto ≡ n) × (out.2 ≡ state)
        ⊎ (out.0 ≡ none)
          × ((w : ℕ) × (0 < w)
              × (w ≤ max_write)
              × (upto + w ≤ n)
              × (writei upto out.1 w state ≡ (none, out.2)))

  -- `writei` of at most `max_write` bytes writes all of them or fails.
  abbrev pub WritesAll : Type ℓ
  WritesAll =
      (i off w : ℕ) (s : S) → ((writei i off w s).0 ≡ none) ⊎ ((writei i off w s).0 ≡ some w)

  write_from-Wrote :
      WritesAll
      → (k n i off : ℕ) (s : S) → i ≤ n
      → n < i + k
      → (out : Option ℕ × ℕ × S) × (write_from writei k n i off s ≡ ok out) × Wrote n i off s out
  unfolding write_from
  write_from-Wrote law zero n i off s le fuel = absurd (omega arith)
  write_from-Wrote law (suc k) n i off s le fuel = elim (Bool-cases (ltb i n)) [
    | inr full ↦
        let same : i ≡ n = ground arith in
        let e : (i == n) ≡ true = ground arith in
        (
          (some n, off, s),
          rw (full, e) refl,
          record {
            upto = i;
            range = (omega arith, le);
            state = s;
            calls = done;
            new_off = refl;
            end = inl (refl, same, refl);
          },
        )
    | inl room ↦
        let lt : i < n = ltb→lt i n room in
        let small : min (n - i) max_write ≤ max_write = omega arith in
        let some_left : 0 < min (n - i) max_write = omega arith in
        let fits : i + min (n - i) max_write ≤ n = omega arith in
        elim (law i off (min (n - i) max_write) s) [
          | inl f ↦ (
            (none, off, (writei i off (min (n - i) max_write) s).1),
            rw (room, f) refl,
            record {
              upto = i;
              range = (omega arith, le);
              state = s;
              calls = done;
              new_off = refl;
              end = inr (
                refl,
                (
                  min (n - i) max_write,
                  some_left,
                  small,
                  fits,
                  pair (writei i off (min (n - i) max_write) s) f,
                ),
              );
            },
          )
          | inr f ↦
              let (out, e, r) =
                write_from-Wrote law k n (i + min (n - i) max_write) (off + min (n - i) max_write)
                  (writei i off (min (n - i) max_write) s).1 fits (omega arith) in
              let (lo, hi) = r.range in
              let o = r.new_off in
              (
                out,
                rw (room, f, ==_refl (min (n - i) max_write)) e,
                record {
                  upto = r.upto;
                  range = (omega arith, hi);
                  state = r.state;
                  calls = more (min (n - i) max_write) r.upto some_left small f r.calls;
                  new_off = omega arith;
                  end = r.end;
                },
              )
        ]
  ]
    where
      pair : (p : Option ℕ × S) → p.0 ≡ none → p ≡ (none, p.1)
      pair (o, t) e = ap (λ x. (x, t)) e

  pub write_from-start :
      WritesAll
      → (n off : ℕ) (s : S)
      → (out : Option ℕ × ℕ × S) × (write_from writei (suc n) n 0 off s ≡ ok out)
        × Wrote n 0 off s out
  write_from-start law n off s = write_from-Wrote law (suc n) n 0 off s (omega arith) (omega arith)

-- `filewrite` of `n` bytes to a writable file that is an inode ends, with consecutive calls of
-- writei for at most 1536 bytes each: all succeed and it returns `n`, or one fails and it returns
-- -1; the offset of the file has moved by the bytes written. For a writei that writes all its bytes
-- or fails.
pub filewrite-Wrote {ℓ} :
    {S : Type ℓ} (pipewrite : ℕ → ℕ → S → Option ℕ × S) (writei : ℕ → ℕ → ℕ → ℕ → S → Option ℕ × S)
    (f : File)
    → f.writable ≡ true
    → f.kind ≡ fd_inode
    → WritesAll (writei f.ip)
    → (n : ℕ) (s : S)
    → (out : Option ℕ × ℕ × S) × (filewrite pipewrite writei f n s
        ≡ ok (out.0, record f { off = out.1 }, out.2))
      × Wrote (writei f.ip) n 0 f.off s out
unfolding filewrite write_kind
filewrite-Wrote pipewrite writei f w k law n s =
    let (out, e, r) = write_from-start (writei f.ip) law n f.off s in (out, rw (w, k, e) refl, r)
