-- ===== src/Sysfile/Refs.antt =====
-- Reference counts of open files and the descriptors that refer to them.
use mit_xv.Prelude.{
  ℕ, ◌+◌, ◌<◌, ◌≡◌, refl, ap, ◌∙◌, ◌≢◌, ◌⊎◌, inl, inr, true, false, Option, none, some, List, arith,
  ◌==◌, if◌then◌else◌, Option-cases, length, get_elem?, set, length-set, ok,
}
use mit_xv.File.{File, Closes, closes_nothing}
use mit_xv.Sysfile.{Fds, argfd, fdalloc, dup_file, sys_dup, close_file, sys_close}
use mit_xv.Sysfile.Counts.{
  uses, ref_of, Counted, uses-set, Given, fdalloc_from-Given, dup_at-ref, close_at-ref, uses-pos,
  argfd-opens,
}

module _ (others : ℕ → ℕ) (fd : ℕ) (s : Fds) (counted : Counted others s) where
  held : (f : ℕ) → argfd fd s ≡ some f → 0 < ref_of s.files f
  held f e =
      let h = counted.counts f in
      let u = uses-pos f fd s.ofile (argfd-opens fd f s e) in omega arith

  dup-Counted :
      (f k : ℕ) (fds' : List (Option ℕ)) (files' : List File)
      → Given f s.ofile k fds'
      → ((g : ℕ) → ref_of files' g ≡ ref_of s.files g + (if g == f then 1 else 0))
      → Counted others (record { ofile = fds'; files = files' })
  dup-Counted f k fds' files' h refs = record {
    counts = λ g.
        let a = refs g in
        let b = counted.counts g in
        let c = uses-set g k none (some f) s.ofile h.was_free in
        let d : uses g fds' ≡ uses g (set s.ofile k (some f)) = ap (uses g) h.after in omega arith;
    size = ap length h.after ∙ length-set s.ofile k (some f) ∙ counted.size;
  }

  -- `sys_dup` of an open descriptor gives the first free descriptor to the same file, and the
  -- reference counts still match the descriptors; it returns -1 and changes nothing when the
  -- descriptor is not open or none is free. It never panics.
  pub sys_dup_lem :
      ((f k : ℕ) × (s' : Fds) × (argfd fd s ≡ some f)
        × (sys_dup fd s ≡ ok (some k, s'))
        × Given f s.ofile k s'.ofile
        × Counted others s')
      ⊎ (sys_dup fd s ≡ ok (none, s))
        × ((argfd fd s ≡ none) ⊎ ((k : ℕ) → get_elem? s.ofile k ≢ some none))
  unfolding sys_dup dup_file fdalloc
  sys_dup_lem = elim (Option-cases (argfd fd s)) [
    | inl e ↦ rw e (inr (refl, inl refl))
    | inr (f, e) ↦ elim (fdalloc_from-Given 0 f s.ofile) [
      | inr (r, full) ↦ rw (e, dup_file, r) (inr (refl, inr full))
      | inl (k, fds', r, h) ↦
          let (files', d, refs) = dup_at-ref f s.files (held f e) in
          let z : 0 + k ≡ k = omega arith in
          rw (e, dup_file, r, d, z)
            (inl (
              f,
              k,
              record { ofile = fds'; files = files' },
              refl,
              refl,
              h,
              dup-Counted f k fds' files' h refs,
            ))
    ]
  ]

  close-Counted :
      (f : ℕ) (files' : List File)
      → get_elem? s.ofile fd ≡ some (some f)
      → ((g : ℕ) → ref_of files' g + (if g == f then 1 else 0) ≡ ref_of s.files g)
      → Counted others (record { ofile = set s.ofile fd none; files = files' })
  close-Counted f files' at refs = record {
    counts = λ g.
        let a = refs g in
        let b = counted.counts g in let c = uses-set g fd (some f) none s.ofile at in omega arith;
    size = length-set s.ofile fd none ∙ counted.size;
  }

  -- `sys_close` of an open descriptor frees it and drops one reference, so that the counts still
  -- match the descriptors, and goes on to close the pipe or the inode only if it was the last; it
  -- returns -1 and changes nothing when the descriptor is not open. It never panics.
  pub sys_close_lem :
      ((f : ℕ) × (c : Closes) × (s' : Fds) × (argfd fd s ≡ some f)
        × (sys_close fd s ≡ ok (true, c, s'))
        × Counted others s'
        × (s'.ofile ≡ set s.ofile fd none)
        × (1 < uses f s.ofile + others f → c ≡ closes_nothing))
      ⊎ (sys_close fd s ≡ ok (false, closes_nothing, s)) × (argfd fd s ≡ none)
  unfolding sys_close close_file
  sys_close_lem = elim (Option-cases (argfd fd s)) [
    | inl e ↦ rw e (inr (refl, refl))
    | inr (f, e) ↦
        let (c, files', d, refs, last) = close_at-ref f s.files (held f e) in
        let m = counted.counts f in
        rw (e, close_file, d)
          (inl (
            f,
            c,
            record { ofile = set s.ofile fd none; files = files' },
            refl,
            refl,
            close-Counted f files' (argfd-opens fd f s e) refs,
            refl,
            λ h. last (omega arith),
          ))
  ]
