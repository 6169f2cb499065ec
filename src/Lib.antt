-- ===== src/Lib.antt =====
-- A model of parts of this kernel, xv6 for x86-64 with page deduplication and copy-on-write, and the
-- theorems that make those parts correct.
--
-- The parts and how they interact
--
-- * Machine (memlayout.h, mmu.h, and the frame records and kmem of kalloc.c): RAM as a function from
--   word numbers to 8-byte words, the direct map V2P and P2V, the count and the checksum of each
--   frame, and kmem. A command takes a Machine and returns, panics, faults or runs out of fuel; an
--   access outside RAM or outside frameinfo faults.
-- * Kalloc (kalloc.c): each function is a command of the same name. The free list is threaded through
--   the first word of the free pages, as in the source; Kalloc/FreeList relates it to a list.
-- * Vm (vm.c): walkpgdir on the four levels of page tables in RAM, uva2ka, clearpteu, dedup and
--   copyonwrite. They call Kalloc for frames and counts. `merge`, `share_entries`, `protect_entry`
--   and `dedup_page` are the statements of dedup's loop, `copy_page` those of copyonwrite.
-- * Strings (string.c, stosb and stosl of x86.h): over a memory of bytes.
-- * Pipe (pipe.c): the ring and its two 32-bit counters. A run of pipewrite or piperead goes from
--   acquire or from its wakeup to its return or its sleep; Pipe/System interleaves the runs of a writer
--   and a reader, closes and kills.
-- * Log (log.c, bwrite of bio.c): a block is a function from word numbers to words, the disk and the
--   buffer cache are functions from block numbers to blocks. Each function that writes the disk also
--   returns the disk after each write: the states that a crash can leave. Log/Space interleaves
--   begin_op, log_write and end_op of any number of operations; mkfs makes the log LOGSIZE blocks
--   long, and an operation is taken to write at most MAXOPBLOCKS - 1 different blocks.
-- * Proc (proc.c, proc.h): the process table under ptable.lock, each function as one step but fork,
--   which is two. A pointer into the table is a number from 1 to NPROC, 0 is null, and the channels
--   of other files lie above NPROC. Proc/Invariant interleaves all of them.
-- * Bio (bio.c, sleeplock.c, memide.c): the buffers and their list from bcache.head.next on. A process
--   that sleeps in bget sleeps in acquiresleep, with its reference counted. Log sees this cache as
--   the function that Bio/Coherence's Shows describes.
-- * Fs (fs.c, and the loops of strncmp and strncpy on names): the disk as the cache and the log show
--   it, with the bitmap, the inodes and the bytes of the blocks as three maps, and the list of the
--   blocks given to log_write. Fs holds balloc, bfree and bmap, Fs/Content readi and writei, Fs/Trunc
--   itrunc, Fs/Icache the inode cache, Fs/Path skipelem, Fs/Dir dirlookup and dirlink. An inode is
--   passed along with the disk, as its caller holds it locked. The panic of a call is its only other
--   end. The table devsw of devices is a parameter.
-- * File (file.c, sysfile.c): the table of open files and the descriptors of one process.
-- * Syscall (syscall.c): the registers, size and memory of the process that calls.
-- * Locks (spinlock.c): pushcli and popcli.
-- * Grep (grep.c, strchr of ulib.c): texts and patterns without their ending zero. grep takes what
--   read returns as a list of pieces, which may hold zeros: strchr stops at the first.
-- * Printf (printf.c, ulib.c): numbers printed and read.
--
-- Integers are natural numbers with the wrap-around of their width written out: 64-bit addresses and
-- words, 32-bit counts and counters. Flag bits are set and cleared by arithmetic on the bit. Pids do
-- not run out.
--
-- Bounds and fuel
--
-- * freerange and kfreepagecount take one round for each frame of RAM and one to see the end: the
--   pages of a range that ends below PHYSTOP, and the free list, have at most as many.
-- * dedup takes one round for each page below the rounded end and one to see it.
-- * strlen takes its fuel from the caller: a text shorter than the fuel is measured.
-- * balloc takes one round for each bitmap block and one to see the end; readi and writei take one for
--   each byte at most, since a round passes a byte; dirlookup and dirlink one for each entry and one
--   to see the end; grep's search for lines one for each byte of its buffer and one more.
-- * print_d takes as many rounds as its buffer has places, and an int has ten digits at most.
-- * All other loops go down on a count of the source.
--
-- What is not modelled
--
-- * initlog, which reads the superblock and then runs recover_from_log; pipealloc's file slots.
-- * Spinning on a lock that another cpu holds: a section between acquire and release runs as one.
-- * The set-up of segments and of the kernel's own tables in vm.c, and for now mappages, the growth
--   and the copying of address spaces.
-- * A disk write is atomic: a crash leaves a block as it was before or after it.
-- * What proc.c does to address spaces, stacks and open files; several cpus.
-- * Of fs.c namex, stati, readsb and iinit; of file.c reading and writing, and a second process; of
--   sysfile.c the other calls; of syscall.c the dispatch.
-- * exec.c, trap.c, sh.c, umalloc.c and the other user programs; devices, boot and assembly, which are
--   input and output on ports and registers.
pub mod Base
pub mod Bio
pub mod File
pub mod Fs
pub mod Grep
pub mod Kalloc
pub mod Machine
pub mod Locks
pub mod Log
pub mod Pipe
pub mod Printf
pub mod Proc
pub mod Strings
pub mod Syscall
pub mod Vm
