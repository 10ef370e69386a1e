-- ===== src/Lib.antt =====
-- xv6, a small Unix for x86 machines with several processors: its kernel in C.
--
-- The parts of the kernel and how they interact. Processes (proc.c) run on CPUs that choose them
-- under one spin lock (spinlock.c), and sleep on and wake addresses. Their memory comes in pages
-- (kalloc.c). System calls reach files, whose blocks go through the buffer cache (bio.c) to the
-- disk (memide.c); a write-ahead log (log.c) between them makes the changes of a system call
-- atomic. Pipes (pipe.c) connect processes. The address space of a process is a table of pages
-- (vm.c), which traps (trap.c) and system calls (sysproc.c) extend. User programs call the kernel
-- through a small library (ulib.c, printf.c).
--
-- Each module keeps the names of the C functions.
--   Prelude      names and lemmas that the others share: Outcome is the result of code that may
--                panic, add32 and sub32 are the operations of `uint`
--   Kalloc       kalloc.c: kfree, kalloc, freerange on the words of memory. Pages: the free list
--                as a list of pages; Range: freerange; Owners: the pages and those who hold them
--   Spinlock     spinlock.c: pushcli, popcli, and acquire and release cut at their accesses to the
--                lock. Nesting: matched calls; Mutex: CPUs at a lock; Exclusion, Steps, Safe: what
--                all their interleavings keep
--   Proc         proc.c and proc.h. Switch: sched, yield, sleep, wakeup, kill, scheduler; Life:
--                allocproc, fork, exit, wait; Kill, Wait, Fork, Exit, Orphans: what these do; Cpus:
--                the processes on several CPUs
--   Bio          bio.c and memide.c: bget, bread, bwrite, brelse, iderw. Consistent: the invariant
--                of the cache; Bget, Bread, Bwrite, Brelse: the operations
--   Log          log.c: begin_op, end_op, log_write, commit, recovery. Commit, Atomic, Recovery,
--                Restart: crashes between the writes to the disk; Space: the reservation of blocks;
--                Absorb: the blocks of a transaction
--   Fs           fs.c and fs.h: balloc and bfree on the bitmap. Bitmap: the bits; Scan: the search
--                of balloc; Alloc: what the two do; Icache: iget and idup, with their scan in
--                Icache/Scan and what iget does in Icache/Get; Path: skipelem; Bmap: bmap; Content:
--                the blocks of a file and who owns them, with a round of bmap in Content/Step; Inode:
--                iupdate, readi, writei, with a round of writei in Inode/Chunk; Ilock: ilock, iput,
--                itrunc, ialloc; Dir: dirlookup and dirlink
--   File         file.c: filealloc, filedup, fileclose, filestat, fileread, filewrite. Write: the
--                transactions of a write
--   CString      string.c. Moves: memset and memmove; Strings, Names: the functions on strings
--   Sleeplock    sleeplock.c. Mutex: processes at a sleep lock
--   Vm           vm.c: walkpgdir, mappages, allocuvm, deallocuvm, freevm, with setupkvm, copyuvm and
--                copyout in Copy. Walk, Table, Map: what a page directory maps; Release, Range,
--                FreePage, Dealloc: what deallocuvm takes away; Grow, Grown, Undo, Steps, Alloc:
--                what allocuvm adds, and takes back
--   Trap         trap.c and sysproc.c: alarms, page faults, sbrk and sleep. Ticks: the alarm; Fault:
--                page faults
--   Sysfile      sysfile.c: file descriptors, dup, close and pipe. Counts: reference counts;
--                Refs: what dup and close do to them
--   Syscall      syscall.c: the arguments of system calls and their dispatch. Bounds: they lie in
--                the memory of the process
--   Console      console.c: consoleintr and consoleread. Ring: the ring of 128 bytes; Edit, Typing:
--                what typing does; Read: what readers get
--   Pipe         pipe.c: pipewrite, piperead, pipeclose. Window: the ring and its 32-bit counters;
--                Write, Read, Fifo, Wakeups: what the operations do
--   User         grep.c, wc.c, printf.c and ulib.c. Grep: what a pattern matches; Wc: counts; Print:
--                printint and atoi
--
-- Code that sleeps in a loop is modelled as one run of it, from entry or wakeup to return or sleep,
-- with what is left to do as its result. What runs under a spin lock is one step, but for the
-- spin lock itself. The write of a block to the disk is atomic, and a crash falls between writes.
-- The log sees of the buffer cache what bread returns for each block, the view of Bio/Consistent,
-- and bwrite. The calls of proc.c to the files and the page tables are the fields of a record that
-- fork, exit and wait take. The free list of kalloc.c is a list of pages in Proc and Vm. In Fs/Ilock
-- acquiresleep returns when no other process has the lock. The functions of `devsw`, the word of the
-- null pointer's page and the addresses that the linker chooses are parameters.
--
-- Fuel: the loop of freerange has a unit for each page of the address range and one more, and the
-- outer loop of balloc one for each bitmap block; with it both end. strlen has one for each byte up
-- to the first 0, and the loops over the elements of a path and over the chunks of filewrite one for
-- each byte and one more. The loops of readi and writei have a unit for each 512 bytes and two more,
-- the scan of a directory one for each 16 bytes and one more, that of deallocuvm one for each page of
-- the old size, that of copyout one for each page of the bytes and two more, and printint has 32
-- digits. The other loops are structural.
--
-- Not modelled: `nextpid` and reference counts that overflow an int; the contents of stacks and of
-- saved contexts; locks of which only the mutual exclusion matters; the fields that serve
-- debugging. Of fs.c, namex and namei; of sysfile.c, the calls that read, write, open, link, unlink
-- and create files; of vm.c, the segments and the loading of programs; exec.c, the devices, the boot
-- code, mkfs.c, the shell, umalloc.c and the test programs are not modelled.
pub mod Prelude
pub mod Pipe
pub mod Log
pub mod Bio
pub mod Proc
pub mod Kalloc
pub mod Spinlock
pub mod CString
pub mod Syscall
pub mod Fs
pub mod Console
pub mod File
pub mod Vm
pub mod User
pub mod Trap
pub mod Sysfile
pub mod Sleeplock
