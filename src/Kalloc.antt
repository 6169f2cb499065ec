-- ===== src/Kalloc.antt =====
-- kalloc.c: the page allocator, whose free list is threaded through the free pages, and the
-- reference counts and checksums of the frames.
pub mod Pages
pub mod FreeList
pub mod Free
pub mod Alloc
pub mod Count
pub mod Same
mod Tests
pub mod Range
pub mod Counts
use cs461_hw.Base.{
  ℕ, zero, suc, ◌+◌, ◌-◌, ◌/◌, ◌%◌, ◌^◌, Bool, true, false, not, ◌&&◌, ◌||◌, ◌==◌, ltb, leb,
  if◌then◌else◌,
}
use cs461_hw.Machine.{
  pgsize, page_words, phystop, nframes, v2p, p2v, pgindex, pgroundup, Machine, Run, out_of_fuel,
  Cmd, pure, ◌>>=◌, ◌>>◌, when, halt, get, put, load64, store64, memset_page, get_refs, set_refs,
  get_checksum, set_checksum, acquire, release,
}
use cs461_hw.Machine.Words.{sum_words, same_words}

abbrev set_freelist : ℕ → Cmd (Unit {0})
set_freelist p = do k ← get; put (record k { freelist = p })

-- `if(kmem.use_lock) acquire(&kmem.lock)`, and the same for release.
abbrev acquire_used : Cmd (Unit {0})
acquire_used = do k ← get; when k.use_lock acquire

abbrev release_used : Cmd (Unit {0})
release_used = do k ← get; when k.use_lock release

pub kfree : ℕ → Cmd (Unit {0})
unfolding memset_page store64 acquire release
kfree v = do
  k ← get
  when (not ((v % pgsize) == 0) || ltb v k.kernel_end || leb phystop (v2p v)) halt
  memset_page v 1
  acquire_used
  k ← get
  store64 v k.freelist
  set_freelist v
  release_used

-- The last statement runs for `r == 0` too.
pub kalloc : Cmd ℕ
unfolding load64 set_refs acquire release
kalloc = do
  acquire_used
  k ← get
  let r = k.freelist
  when (not (r == 0)) (do next ← load64 r; set_freelist next)
  release_used
  set_refs (pgindex (v2p r)) 1
  pure r

pub krelease : ℕ → Cmd (Unit {0})
unfolding get_refs set_refs
krelease v = do
  let frame = v2p v
  n ← get_refs (pgindex frame)
  set_refs (pgindex frame) ((n + 2 ^ 32 - 1) % 2 ^ 32)
  n ← get_refs (pgindex frame)
  when (n == 0) (kfree (p2v frame))

pub kretain : ℕ → Cmd (Unit {0})
unfolding get_refs set_refs
kretain v = do n ← get_refs (pgindex (v2p v)); set_refs (pgindex (v2p v)) ((n + 1) % 2 ^ 32)

pub krefcount : ℕ → Cmd ℕ
unfolding get_refs
krefcount v = get_refs (pgindex (v2p v))

-- `freerange` from the rounded start on; `fuel` bounds the rounds.
freerange_loop : ℕ → ℕ → ℕ → Cmd (Unit {0})
freerange_loop zero p vend = λ _. out_of_fuel
freerange_loop (suc fuel) p vend =
    let rest = freerange_loop fuel ((p + pgsize) % 2 ^ 64) vend in
    if leb ((p + pgsize) % 2 ^ 64) vend then (do kfree p; rest) else pure tt

-- One round for each frame of RAM, and one to see the end.
pub freerange : ℕ → ℕ → Cmd (Unit {0})
freerange vstart vend = freerange_loop (suc nframes) (pgroundup vstart) vend

-- memset(frameinfo, 0, …) clears both fields; initlock leaves the lock free.
pub kinit1 : ℕ → ℕ → Cmd (Unit {0})
kinit1 vstart vend = do
  k ← get
  put (record k {
    refs = λ _. 0;
    checksum = λ _. 0;
    freelist = 0;
    use_lock = false;
    lock_held = false;
  })
  freerange vstart vend

pub kinit2 : ℕ → ℕ → Cmd (Unit {0})
kinit2 vstart vend = do freerange vstart vend; k ← get; put (record k { use_lock = true })

-- The checksum of the words of a frame, by its physical address.
pub update_checksum : ℕ → Cmd (Unit {0})
unfolding set_checksum
update_checksum frame = do
  set_checksum (pgindex frame) 0
  k ← get
  set_checksum (pgindex frame) (sum_words k.mem (v2p (p2v frame) / 8) page_words 0)

pub frames_are_identical : ℕ → ℕ → Cmd Bool
unfolding get_checksum
frames_are_identical frame1 frame2 = do
  a ← get_checksum (pgindex frame1)
  b ← get_checksum (pgindex frame2)
  k ← get
  pure ((a == b) && same_words k.mem (v2p (p2v frame1) / 8) (v2p (p2v frame2) / 8) page_words)

count_loop : ℕ → ℕ → ℕ → Cmd ℕ
count_loop zero list i = λ _. out_of_fuel
count_loop (suc fuel) list i =
    let rest = (do next ← load64 list; count_loop fuel next ((i + 1) % 2 ^ 32)) in
    if list == 0 then pure i else rest

-- One round for each frame of RAM, and one to see the end of the list.
pub kfreepagecount : Cmd ℕ
unfolding load64 acquire release
kfreepagecount = do acquire; k ← get; n ← count_loop (suc nframes) k.freelist 0; release; pure n
