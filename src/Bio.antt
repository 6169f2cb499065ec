-- ===== src/Bio.antt =====
-- bio.c: the buffer cache, with sleeplock.c and the disk of memide.c. `order` is the list of the
-- buffers from bcache.head.next on, as indices of bcache.buf; a section under bcache.lock runs as one.
pub mod Search
pub mod Coherence
pub mod Calls
pub mod Disk
pub mod Write
pub mod Release
mod Tests
use cs461_hw.Base.{
  ℕ, zero, suc, ◌+◌, ◌-◌, ◌%◌, ◌^◌, Bool, true, false, not, ◌&&◌, ◌||◌, List, [], ◌∷◌, Option, none,
  some, ◌==◌, ltb, leb, if◌then◌else◌,
}

abbrev pub Block : Type 0
Block = ℕ → ℕ

-- `valid` and `dirty` are B_VALID and B_DIRTY; `locked` is that of the sleeplock; `bytes` is data.
pub record Buf : Type 0 where
  pub dev : ℕ
  pub blockno : ℕ
  pub refcnt : ℕ
  pub valid : Bool
  pub dirty : Bool
  pub locked : Bool
  pub bytes : Block

pub record Cache : Type 0 where
  pub buf : ℕ → Buf
  pub order : List ℕ
  pub disk : ℕ → Block
  pub disksize : ℕ

abbrev pub set_buf : Cache → ℕ → Buf → Cache
set_buf c i b = record c { buf = λ j. if i == j then b else c.buf j }

-- What a call does: it returns a buffer, sleeps for its sleeplock, or panics.
pub data Result : Type 0 where
  done : ℕ → Cache → Result
  asleep : Cache → Result
  panic : Result

abbrev pub is_cached : Buf → (dev blockno : ℕ) → Bool
is_cached b dev blockno = (b.dev == dev) && (b.blockno == blockno)

abbrev pub is_unused : Buf → Bool
is_unused b = (b.refcnt == 0) && not b.dirty

-- The search along `next`.
pub find_cached : List ℕ → (ℕ → Buf) → (dev blockno : ℕ) → Option ℕ
find_cached [] buf dev blockno = none
find_cached (i ∷ is) buf dev blockno =
    let rest = find_cached is buf dev blockno in
    if is_cached (buf i) dev blockno then some i else rest

-- The search along `prev`: it meets the buffers behind `i` first.
pub find_unused : List ℕ → (ℕ → Buf) → Option ℕ
find_unused [] buf = none
find_unused (i ∷ is) buf = elim (find_unused is buf) [
  | some j ↦ some j
  | none ↦ if is_unused (buf i) then some i else none
]

-- acquiresleep, and the return of the buffer.
pub acquiresleep : Cache → ℕ → Result
acquiresleep c i =
    if (c.buf i).locked then asleep c else done i (set_buf c i (record (c.buf i) { locked = true }))

-- It does not ask who holds the lock.
abbrev holdingsleep : Cache → ℕ → Bool
holdingsleep c i = (c.buf i).locked

-- A process that sleeps in bget goes on with acquiresleep.
pub bget : Cache → (dev blockno : ℕ) → Result
bget c dev blockno = elim (find_cached c.order c.buf dev blockno) [
  | some i ↦
      let b = c.buf i in
      acquiresleep (set_buf c i (record b { refcnt = (b.refcnt + 1) % 2 ^ 32 })) i
  | none ↦ elim (find_unused c.order c.buf) [
    | some i ↦
        let b = record (c.buf i) {
          dev = dev;
          blockno = blockno;
          valid = false;
          dirty = false;
          refcnt = 1;
        } in
        acquiresleep (set_buf c i b) i
    | none ↦ panic
  ]
]

pub iderw : Cache → ℕ → Option Cache
iderw c i =
    let b = c.buf i in
    if not (holdingsleep c i) || (b.valid && not b.dirty)
    then none
    else if not (b.dev == 1) || leb c.disksize b.blockno
    then none
    else if b.dirty
    then some (record (set_buf c i (record b { dirty = false; valid = true })) {
      disk = λ n. if b.blockno == n then b.bytes else c.disk n;
    })
    else some (set_buf c i (record b { bytes = c.disk b.blockno; valid = true }))

-- The end of bread, with the buffer locked.
pub fill : Result → Result
fill (done i c) =
    if (c.buf i).valid then done i c else elim (iderw c i) [ some c' ↦ done i c' | none ↦ panic ]
fill (asleep c) = asleep c
fill panic = panic

pub bread : Cache → (dev blockno : ℕ) → Result
bread c dev blockno = fill (bget c dev blockno)

pub bwrite : Cache → ℕ → Option Cache
bwrite c i =
    if not (holdingsleep c i)
    then none
    else iderw (set_buf c i (record (c.buf i) { dirty = true })) i

-- The list without `i`.
pub unlink : ℕ → List ℕ → List ℕ
unlink i [] = []
unlink i (j ∷ js) = let rest = unlink i js in if i == j then rest else j ∷ rest

pub brelse : Cache → ℕ → Option Cache
brelse c i =
    let b = c.buf i in
    let n = (b.refcnt + 2 ^ 32 - 1) % 2 ^ 32 in
    let c' = set_buf c i (record b { locked = false; refcnt = n }) in
    if not (holdingsleep c i)
    then none
    else some (if n == 0 then record c' { order = i ∷ unlink i c.order } else c')

-- A buffer of zeros, as the loader leaves it.
abbrev pub blank : Buf
blank = record {
  dev = 0;
  blockno = 0;
  refcnt = 0;
  valid = false;
  dirty = false;
  locked = false;
  bytes = λ _. 0;
}

-- The list that binit builds of `n` buffers: the last is the first.
abbrev binit_order : ℕ → List ℕ
binit_order zero = []
binit_order (suc n) = n ∷ binit_order n

abbrev pub binit : (ℕ → Block) → (disksize nbuf : ℕ) → Cache
binit disk size n = record { buf = λ _. blank; order = binit_order n; disk = disk; disksize = size }
