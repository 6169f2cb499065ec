-- ===== src/Machine.antt =====
-- memlayout.h, mmu.h and the data of kalloc.c: physical memory, kernel addresses, frame records,
-- and commands over them. A command ends with a value and a new machine, in `panic`, or in a
-- `fault`: an access to memory outside RAM or outside the frame table.
pub mod Words
use cs461_hw.Base.{
  ℕ, ◌+◌, ◌-◌, ◌*◌, ◌/◌, ◌%◌, ◌^◌, Bool, true, false, not, ◌&&◌, ◌==◌, ltb, leb, if◌then◌else◌,
}
use Words.{write, fill, copy_frame}

-- PGSIZE of mmu.h.
abbrev pub pgsize : ℕ
pgsize = 4096

-- The 8-byte words of a page.
abbrev pub page_words : ℕ
page_words = 512

-- PHYSTOP of memlayout.h.
abbrev pub phystop : ℕ
phystop = 0xE000000

-- The length of `frameinfo`, PHYSTOP / PGSIZE.
abbrev pub nframes : ℕ
nframes = 0xE000

-- KERNBASE of memlayout.h.
abbrev pub kernbase : ℕ
kernbase = 0xFFFF800000000000

-- V2P and P2V on 64-bit addresses: subtraction and addition wrap.
unfoldable pub v2p : ℕ → ℕ
v2p a = (a + 2 ^ 64 - kernbase) % 2 ^ 64

unfoldable pub p2v : ℕ → ℕ
p2v a = (a + kernbase) % 2 ^ 64

-- PGINDEX of mmu.h.
abbrev pub pgindex : ℕ → ℕ
pgindex physaddr = physaddr / pgsize

-- PGROUNDDOWN and PGROUNDUP of mmu.h: the mask clears the low twelve bits.
abbrev pub pgrounddown : ℕ → ℕ
pgrounddown a = a - a % pgsize

abbrev pub pgroundup : ℕ → ℕ
pgroundup sz = pgrounddown ((sz + (pgsize - 1)) % 2 ^ 64)

-- `mem` gives the 8-byte word at each physical word number; `refs` holds the bit patterns of
-- the `int` counts and `checksum` the sums of `frameinfo`; `freelist`, `use_lock` and `lock_held`
-- are `kmem`, its lock as the running cpu sees it; `kernel_end` is the linker's symbol `end`.
pub record Machine : Type 0 where
  pub mem : ℕ → ℕ
  pub refs : ℕ → ℕ
  pub checksum : ℕ → ℕ
  pub freelist : ℕ
  pub use_lock : Bool
  pub lock_held : Bool
  pub kernel_end : ℕ

pub data Run (A : Type 0) : Type 0 where
  ok : A → Machine → Run A
  panic : Run A
  fault : Run A
  out_of_fuel : Run A

abbrev pub Cmd : Type 0 → Type 0
Cmd A = Machine → Run A

abbrev pub pure : {A : Type 0} → A → Cmd A
pure = ok

module _ {A B : Type 0} where
  abbrev and_then : Run A → (A → Cmd B) → Run B
  and_then (ok a k) f = f a k
  and_then panic f = panic
  and_then fault f = fault
  and_then out_of_fuel f = out_of_fuel

  infixl 5 ◌>>=◌ ◌>>◌
  abbrev pub ◌>>=◌ : Cmd A → (A → Cmd B) → Cmd B
  m >>= f = λ k. and_then (m k) f

  abbrev pub ◌>>◌ : Cmd A → Cmd B → Cmd B
  m >> n = m >>= λ _. n

-- `if (b) m`, for a statement.
abbrev pub when : Bool → Cmd (Unit {0}) → Cmd (Unit {0})
when b m = if b then m else pure tt

abbrev pub halt : {A : Type 0} → Cmd A
halt k = panic

abbrev pub get : Cmd Machine
get k = ok k k

abbrev pub put : Machine → Cmd (Unit {0})
put k _ = ok tt k

-- The direct map of kvmalloc covers RAM: a kernel address is good if it leads below PHYSTOP.
-- Words are aligned.
abbrev pub in_ram : ℕ → Bool
in_ram v = ltb (v2p v) phystop && ((v2p v % 8) == 0)

unfoldable pub load64 : ℕ → Cmd ℕ
load64 v k = if in_ram v then ok (k.mem (v2p v / 8)) k else fault

unfoldable pub store64 : ℕ → ℕ → Cmd (Unit {0})
store64 v x k = if in_ram v then ok tt (record k { mem = write k.mem (v2p v / 8) x }) else fault

-- A page-aligned page of RAM.
abbrev pub is_page : ℕ → Bool
is_page v = ltb (v2p v) phystop && ((v2p v % pgsize) == 0)

-- memset(v, c, PGSIZE) on a page: each byte `c`, so each word c * 0x0101010101010101.
unfoldable pub memset_page : ℕ → ℕ → Cmd (Unit {0})
memset_page v c k =
    if is_page v
    then ok tt (record k { mem = fill k.mem (pgindex (v2p v)) (c * 0x0101_0101_0101_0101) })
    else fault

-- memmove(dst, src, PGSIZE) between pages.
unfoldable pub memmove_page : ℕ → ℕ → Cmd (Unit {0})
memmove_page dst src k =
    if is_page dst && is_page src
    then ok tt (record k { mem = copy_frame k.mem (pgindex (v2p dst)) (pgindex (v2p src)) })
    else fault

-- The fields of `frameinfo[i]`.
unfoldable pub get_refs : ℕ → Cmd ℕ
get_refs i k = if ltb i nframes then ok (k.refs i) k else fault

unfoldable pub set_refs : ℕ → ℕ → Cmd (Unit {0})
set_refs i n k = if ltb i nframes then ok tt (record k { refs = write k.refs i n }) else fault

unfoldable pub get_checksum : ℕ → Cmd ℕ
get_checksum i k = if ltb i nframes then ok (k.checksum i) k else fault

unfoldable pub set_checksum : ℕ → ℕ → Cmd (Unit {0})
set_checksum i n k =
    if ltb i nframes then ok tt (record k { checksum = write k.checksum i n }) else fault

-- acquire and release of spinlock.c on kmem.lock: a cpu that holds it may not take it again.
unfoldable pub acquire : Cmd (Unit {0})
acquire k = if k.lock_held then panic else ok tt (record k { lock_held = true })

unfoldable pub release : Cmd (Unit {0})
release k = if k.lock_held then ok tt (record k { lock_held = false }) else panic
