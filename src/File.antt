-- ===== src/File.antt =====
-- file.c and the descriptors of sysfile.c, for one process: the table of open files with their
-- reference counts, and the descriptors that refer to it. A file is a number from 1 to NFILE, 0 is a
-- null pointer. Counts are the bit patterns of an int. What fileclose closes for good, a pipe or an
-- inode, comes back as its kind: neither call touches the table.
pub mod Counted
pub mod Calls
mod Tests
use cs461_hw.Base.{
  ℕ, zero, suc, ◌+◌, ◌-◌, ◌%◌, ◌^◌, Bool, true, false, not, ◌&&◌, ◌||◌, Option, none, some, ◌==◌,
  ltb, leb, if◌then◌else◌,
}
use cs461_hw.Fs.{Out, ok, panic, ◌>>=◌}
use cs461_hw.Fs.Icache.{is_positive, increment, decrement}

abbrev pub nofile : ℕ
nofile = 16

abbrev pub nfile : ℕ
nfile = 100

pub data Kind : Type 0 where
  fd_none : Kind
  fd_pipe : Kind
  fd_inode : Kind

-- `ref` and `kind` are fields of the files; the others of struct file do not bear on the counts. `ofile`
-- is the field of the running process.
pub record Files : Type 0 where
  pub ref : ℕ → ℕ
  pub kind : ℕ → Kind
  pub ofile : ℕ → ℕ

abbrev pub set_ref : Files → (f n : ℕ) → Files
set_ref s f n = record s { ref = λ g. if g == f then n else s.ref g }

abbrev pub set_kind : Files → ℕ → Kind → Files
set_kind s f k = record s { kind = λ g. if g == f then k else s.kind g }

abbrev pub set_ofile : Files → (fd f : ℕ) → Files
set_ofile s fd f = record s { ofile = λ d. if d == fd then f else s.ofile d }

-- The first of `n` files from `f` on without references, or 0.
pub free_file : (n f : ℕ) → (ref : ℕ → ℕ) → ℕ
free_file zero f ref = 0
free_file (suc n) f ref = let rest = free_file n (suc f) ref in if ref f == 0 then f else rest

pub filealloc : Files → ℕ × Files
filealloc s = let f = free_file nfile 1 s.ref in if f == 0 then (0, s) else (f, set_ref s f 1)

pub filedup : Files → ℕ → Out Files
filedup s f = if not (is_positive (s.ref f)) then panic else ok (set_ref s f (increment (s.ref f)))

-- With the state comes what is closed: fd_pipe for pipeclose, fd_inode for iput, fd_none for neither.
pub fileclose : Files → ℕ → Out (Files × Kind)
fileclose s f =
    if not (is_positive (s.ref f))
    then panic
    else if is_positive (decrement (s.ref f))
    then ok (set_ref s f (decrement (s.ref f)), fd_none)
    else ok (set_kind (set_ref s f 0) f fd_none, s.kind f)

-- None is -1. The descriptor is the bit pattern of an int.
pub argfd : Files → (fd : ℕ) → Option ℕ
argfd s fd =
    if leb (2 ^ 31) fd || leb nofile fd || (s.ofile fd == 0) then none else some (s.ofile fd)

-- The first of `n` descriptors from `fd` on that is free.
pub free_fd : (n fd : ℕ) → (ofile : ℕ → ℕ) → Option ℕ
free_fd zero fd ofile = none
free_fd (suc n) fd ofile =
    let rest = free_fd n (suc fd) ofile in if ofile fd == 0 then some fd else rest

abbrev pub take_fd : Files → ℕ → Option ℕ → Option (ℕ × Files)
take_fd s f none = none
take_fd s f (some fd) = some (fd, set_ofile s fd f)

pub fdalloc : Files → ℕ → Option (ℕ × Files)
fdalloc s f = take_fd s f (free_fd nofile 0 s.ofile)

-- The results of the calls: none for -1.
abbrev pub Result : Type 0
Result = Out (Option ℕ × Files)

pub dup_to : Files → (f : ℕ) → Option (ℕ × Files) → Result
dup_to s f none = ok (none, s)
dup_to s f (some r) = do t ← filedup r.1 f; ok (some r.0, t)

pub dup_of : Files → Option ℕ → Result
dup_of s none = ok (none, s)
dup_of s (some f) = dup_to s f (fdalloc s f)

pub sys_dup : Files → (fd : ℕ) → Result
sys_dup s fd = dup_of s (argfd s fd)

pub close_of : Files → (fd : ℕ) → Option ℕ → Result
close_of s fd none = ok (none, s)
close_of s fd (some f) = do r ← fileclose (set_ofile s fd 0) f; ok (some 0, r.0)

pub sys_close : Files → (fd : ℕ) → Result
sys_close s fd = close_of s fd (argfd s fd)

-- The part of sys_open that takes a file and a descriptor, once the inode is found.
pub open_to : Files → (f : ℕ) → Option (ℕ × Files) → Result
open_to s f none = do r ← fileclose s f; ok (none, r.0)
open_to s f (some r) = ok (some r.0, set_kind r.1 f fd_inode)

pub open_file : Files → Result
open_file s =
    let r = filealloc s in if r.0 == 0 then ok (none, r.1) else open_to r.1 r.0 (fdalloc r.1 r.0)
