-- ===== src/Fs/Dir/Lookup.antt =====
-- The search of dirlookup of fs.c for a name.
use mit_xv.Prelude.{
  ℕ, ◌+◌, ◌-◌, ◌%◌, ◌≤◌, ◌<◌, min, String, ◌≡◌, refl, sym, ◌∙◌, fun_ext, ◌⊎◌, inl, inr, Bool, true,
  false, not, ◌&&◌, Option, none, some, arith, ◌==◌, Outcome, ok,
}
use mit_xv.Fs.{Superblock}
use mit_xv.Fs.Icache.{Inode}
use mit_xv.Fs.Content.{content}
use mit_xv.Fs.Inode.{Io, Device, copy_bytes}
use mit_xv.Fs.Inode.Copies.{copy_bytes-in, copy_bytes-out, range-cases}
use mit_xv.Fs.Inode.Read.{IsFile, loaded, readi_lem}
use mit_xv.Fs.Ilock.{load_short}
use mit_xv.Fs.Dir.{dirent_size, is_named, read_entry}

-- The second of two copies to one place stays.
copy_bytes-over :
    (to : ℕ → ℕ) (t : ℕ) (from : ℕ → ℕ) (a b n : ℕ)
    → copy_bytes (copy_bytes to t from a n) t from b n ≡ copy_bytes to t from b n
copy_bytes-over to t from a b n = fun_ext at_byte
  where
    at_byte :
        (j : ℕ) → copy_bytes (copy_bytes to t from a n) t from b n j ≡ copy_bytes to t from b n j
    at_byte j = elim (range-cases t n j) [
      | inl lt ↦
          copy_bytes-out (copy_bytes to t from a n) t from b n j (inl lt)
          ∙ copy_bytes-out to t from a n j (inl lt)
          ∙ sym (copy_bytes-out to t from b n j (inl lt))
      | inr (inl (lo, hi)) ↦
          copy_bytes-in (copy_bytes to t from a n) t from b n j lo hi
          ∙ sym (copy_bytes-in to t from b n j lo hi)
      | inr (inr le) ↦
          copy_bytes-out (copy_bytes to t from a n) t from b n j (inr le)
          ∙ copy_bytes-out to t from a n j (inr le)
          ∙ sym (copy_bytes-out to t from b n j (inr le))
    ]

module _ (sb : Superblock) (de : ℕ) where
  -- The entry at `off` of the directory, in memory.
  abbrev pub entry_memory : Io → ℕ → ℕ → ℕ
  entry_memory s off = (loaded sb s de off dirent_size).memory

  abbrev pub entry_inum : Io → ℕ → ℕ
  entry_inum s off = load_short (entry_memory s off) de

  -- The entry at `off` is in use, and for the name.
  abbrev pub entry_matches : ℕ → Io → ℕ → Bool
  entry_matches name s off = not (entry_inum s off == 0) && is_named name de (entry_memory s off)

module _ (devsw : ℕ → Option Device) (sb : Superblock) (de : ℕ) where
  pub read_entry_lem :
      (off : ℕ) (message : String) (s : Io)
      → IsFile sb s.disk s.inode
      → off + dirent_size ≤ s.inode.size
      → read_entry devsw sb de off message s ≡ ok (loaded sb s de off dirent_size)
  unfolding read_entry
  read_entry_lem off message s file le =
      let short = file.short in
      let r =
        (readi_lem sb devsw de off dirent_size s file (omega arith) (omega arith)).0 (omega arith)
          (omega arith) in
      let e : min dirent_size (s.inode.size - off) ≡ dirent_size = omega arith in rw (r, e) refl

  module _ (name : ℕ) (s : Io) (file : IsFile sb s.disk s.inode)
      (whole : s.inode.size % dirent_size ≡ 0) where
    -- The memory after some entries have been read.
    abbrev pub Later : (ℕ → ℕ) → Type 0
    Later m =
        (off : ℕ) → entry_memory sb de (record s { memory = m }) off ≡ entry_memory sb de s off

    pub Later-loaded : (off : ℕ) → Later (entry_memory sb de s off)
    Later-loaded off b = copy_bytes-over s.memory de (content s.disk s.inode) off b dirent_size

    -- The first entry of the name, from `off` on.
    pub record FirstEntry (off e : ℕ) : Type 0 where
      pub place : (off ≤ e) × (e < s.inode.size) × (e % dirent_size ≡ 0)
      pub matches : entry_matches sb de name s e ≡ true
      pub before :
          (b : ℕ) → off ≤ b → b < e → b % dirent_size ≡ 0 → entry_matches sb de name s b ≡ false

    -- No entry of the name, from `off` on.
    abbrev pub NoEntry : ℕ → Type 0
    NoEntry off =
        (b : ℕ)
        → off ≤ b
        → b < s.inode.size
        → b % dirent_size ≡ 0
        → entry_matches sb de name s b ≡ false

    -- What the loop returns.
    abbrev pub Finds : ℕ → Outcome (Option (ℕ × ℕ) × Io) → Type 0
    Finds off call =
        ((e : ℕ) × (call ≡ ok (some (e, entry_inum sb de s e), loaded sb s de e dirent_size))
          × FirstEntry off e)
        ⊎ ((m : ℕ → ℕ) × (call ≡ ok (none, record s { memory = m })) × NoEntry off)
