-- ===== src/Fs/Dir/Tests.antt =====
-- The file of the tests of readi, as a directory of one entry.
use mit_xv.Prelude.{ℕ, ◌≡◌, refl, Option, none, some, ok, panic}
use mit_xv.CString.{strncmp}
use mit_xv.Fs.Icache.{Inode}
use mit_xv.Fs.Bmap.{bmap, slot_block}
use mit_xv.Fs.Inode.{Io, Device, readi, read_blocks, readi_loop, copy_out, copy_bytes}
use mit_xv.Fs.Inode.Tests.{sb, disk, file}
use mit_xv.Fs.Ilock.{load_short}
use mit_xv.Fs.Dir.{find_entry, read_entry}

abbrev dir : Inode
dir = record file { type = 1; size = 16 }

abbrev devsw : ℕ → Option Device
devsw i = none

-- The name at 67 is that of the entry.
abbrev state : Io
state = record { memory = λ a. a; disk = disk; inode = dir }

-- The offset and the inode number of the entry of the name.
abbrev found : Option (ℕ × ℕ)
found = elim (find_entry 2 devsw sb 67 500 0 state) [ ok (r, s) ↦ r | panic m ↦ none ]

find_entry_runs : found ≡ some (0, 16961)
unfolding find_entry read_entry readi read_blocks readi_loop bmap slot_block copy_out copy_bytes
    load_short strncmp
find_entry_runs = refl
