-- ===== src/File/Tests.antt =====
-- A writei that counts its bytes, and the count; a pipe end with two references; and reads.
use mit_xv.Prelude.{ℕ, ◌+◌, ◌-◌, min, ◌≡◌, refl, inr, true, false, Option, none, some, [], ◌∷◌, ok}
use mit_xv.File.{
  fd_none, fd_pipe, fd_inode, File, filealloc, filealloc_from, filedup, fileclose, closes_nothing,
  closes_pipe, write_from, write_kind, filewrite, read_on, read_kind, fileread, stat_kind, filestat,
}
use mit_xv.File.Write.{Wrote, filewrite-Wrote}

abbrev counts : ℕ → ℕ → ℕ → ℕ → ℕ → Option ℕ × ℕ
counts ip i off w s = (some w, s + w)

abbrev no_pipe : ℕ → ℕ → ℕ → Option ℕ × ℕ
no_pipe p n s = (none, s)

abbrev shared : File
shared = record {
  kind = fd_pipe;
  ref = 2;
  readable = false;
  writable = true;
  pipe = 7;
  ip = 0;
  off = 0;
}

close_runs :
    (fileclose shared ≡ ok (closes_nothing, record shared { ref = 1 }))
    × (fileclose (record shared { ref = 1 })
        ≡ ok (closes_pipe 7 true, record shared { ref = 0; kind = fd_none }))
unfolding fileclose
close_runs = (refl, refl)

dup_runs : filedup shared ≡ ok (record shared { ref = 3 })
unfolding filedup
dup_runs = refl

alloc_runs :
    filealloc (shared ∷ record shared { ref = 0 } ∷ [])
    ≡ (some 1, shared ∷ record shared { ref = 1 } ∷ [])
unfolding filealloc filealloc_from
alloc_runs = refl

abbrev opened : File
opened = record shared { kind = fd_inode; off = 10 }

write_runs :
    filewrite no_pipe counts opened 3500 0 ≡ ok (some 3500, record opened { off = 3510 }, 3500)
unfolding filewrite write_kind write_from
write_runs = refl

-- A readi of a file of 12 bytes.
abbrev remaining : ℕ → ℕ → ℕ → ℕ → Option ℕ × ℕ
remaining ip off n s = (some (min n (12 - off)), s)

read_runs :
    (fileread no_pipe remaining (record opened { readable = true }) 5 0
      ≡ ok (some 2, record opened { readable = true; off = 12 }, 0))
    × (fileread no_pipe remaining opened 5 0 ≡ ok (none, opened, 0))
    × (fileread no_pipe remaining (record shared { readable = true }) 5 0
        ≡ ok (none, record shared { readable = true }, 0))
unfolding fileread read_kind read_on
read_runs = (refl, refl, refl)

stat_runs :
    (filestat (λ (ip s : ℕ). (ip, s + 1)) opened 0 ≡ (some 0, 1))
    × (filestat (λ (ip s : ℕ). (ip, s + 1)) shared 0 ≡ (none, 0))
unfolding filestat stat_kind
stat_runs = (refl, refl)

filewrite-Wrote_example :
    (out : Option ℕ × ℕ × ℕ) × (filewrite no_pipe counts opened 3500 0
      ≡ ok (out.0, record opened { off = out.1 }, out.2))
    × Wrote (counts 0) 3500 0 10 0 out
filewrite-Wrote_example =
    filewrite-Wrote no_pipe counts opened refl refl (λ i off w s. inr refl) 3500 0
