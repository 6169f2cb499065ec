-- ===== src/Fs.antt =====
-- fs.c: the bitmap of blocks, the block map of an inode, and its content. The disk is seen through
-- the buffer cache and the log: bread gives the newest content of a block, log_write records it.
-- Bitmap blocks are read as bits, inode blocks as struct dinode, all others as bytes; mkfs keeps the
-- three regions apart.
pub mod Bitmap
pub mod Slots
pub mod Spare
pub mod Words
pub mod Map
pub mod Content
pub mod Trunc
pub mod Icache
pub mod Path
pub mod Dir
mod Tests
pub mod Balloc
use cs461_hw.Base.{
  ℕ, zero, suc, ◌+◌, ◌-◌, ◌*◌, ◌/◌, ◌%◌, ◌^◌, min, Bool, true, false, not, ◌&&◌, ◌||◌, List, [],
  ◌∷◌, ◌++◌, Option, none, some, ◌==◌, ltb, leb, if◌then◌else◌, length, take, drop,
}

abbrev pub bsize : ℕ
bsize = 512

abbrev pub ndirect : ℕ
ndirect = 12

abbrev pub nindirect : ℕ
nindirect = 128

abbrev pub maxfile : ℕ
maxfile = ndirect + nindirect

-- Bitmap bits and inodes of a block.
abbrev pub bpb : ℕ
bpb = bsize * 8

abbrev pub ipb : ℕ
ipb = 8

abbrev pub t_dir : ℕ
t_dir = 1

abbrev pub t_dev : ℕ
t_dev = 3

pub record Superblock : Type 0 where
  pub size : ℕ
  pub ninodes : ℕ
  pub inodestart : ℕ
  pub bmapstart : ℕ

-- struct dinode, and the copy of it in struct inode.
pub record Dinode : Type 0 where
  pub type : ℕ
  pub major : ℕ
  pub minor : ℕ
  pub nlink : ℕ
  pub size : ℕ
  pub addrs : ℕ → ℕ

-- `logged` are the blocks of the calls of log_write, the last first.
pub record Fs : Type 0 where
  pub sb : Superblock
  pub bits : ℕ → ℕ → Bool
  pub dinodes : ℕ → ℕ → Dinode
  pub bytes : ℕ → ℕ → ℕ
  pub logged : List ℕ

pub data Out (A : Type 0) : Type 0 where
  ok : A → Out A
  panic : Out A

module _ {A B : Type 0} where
  infixl 5 ◌>>=◌
  abbrev pub ◌>>=◌ : Out A → (A → Out B) → Out B
  (ok a) >>= f = f a
  panic >>= f = panic

-- IBLOCK and BBLOCK.
abbrev pub iblock : ℕ → Superblock → ℕ
iblock i sb = i / ipb + sb.inodestart

abbrev pub bblock : ℕ → Superblock → ℕ
bblock b sb = b / bpb + sb.bmapstart

abbrev pub log_write : Fs → ℕ → Fs
log_write fs b = record fs { logged = b ∷ fs.logged }

abbrev pub set_bit : Fs → (block bit : ℕ) → Bool → Fs
set_bit fs block bit x = record fs {
  bits = λ c k. if (c == block) && (k == bit) then x else fs.bits c k;
}

abbrev pub set_bytes : Fs → ℕ → (ℕ → ℕ) → Fs
set_bytes fs b x = record fs { bytes = λ c. if c == b then x else fs.bytes c }

pub bzero : Fs → ℕ → Fs
bzero fs bno = log_write (set_bytes fs bno (λ i. 0)) bno

-- The inner loop of balloc: the first clear bit of `n` from `bi` on.
pub clear_bit : (n bi : ℕ) → (ℕ → Bool) → Option ℕ
clear_bit zero bi bits = none
clear_bit (suc n) bi bits =
    let rest = clear_bit n (suc bi) bits in if bits bi then rest else some bi

-- The body of the outer loop at block `b`: the bit found is set and its block zeroed.
pub take_bit : Fs → (b : ℕ) → (rest : Out (ℕ × Fs)) → Option ℕ → Out (ℕ × Fs)
take_bit fs b rest none = rest
take_bit fs b rest (some bi) =
    let block = bblock b fs.sb in
    ok (b + bi, bzero (log_write (set_bit fs block bi true) block) (b + bi))

-- The outer loop from block `b` on. The fuel bounds the bitmap blocks.
pub balloc_from : ℕ → (b : ℕ) → Fs → Out (ℕ × Fs)
balloc_from zero b fs = panic
balloc_from (suc fuel) b fs =
    let rest = balloc_from fuel (b + bpb) fs in
    let bits = fs.bits (bblock b fs.sb) in
    if ltb b fs.sb.size
    then take_bit fs b rest (clear_bit (min bpb (fs.sb.size - b)) 0 bits)
    else panic

pub balloc : Fs → Out (ℕ × Fs)
balloc fs = balloc_from (fs.sb.size / bpb + 1) 0 fs

-- The superblock that bfree reads again is the one in memory.
pub bfree : Fs → ℕ → Out Fs
bfree fs b =
    let block = bblock b fs.sb in
    if fs.bits block (b % bpb)
    then ok (log_write (set_bit fs block (b % bpb) false) block)
    else panic

-- The words of a block of indirect addresses, the low byte first.
unfoldable pub word : (ℕ → ℕ) → ℕ → ℕ
word x i = x (4 * i) + 2 ^ 8 * x (4 * i + 1) + 2 ^ 16 * x (4 * i + 2) + 2 ^ 24 * x (4 * i + 3)

unfoldable pub set_word : (ℕ → ℕ) → (i v : ℕ) → ℕ → ℕ
set_word x i v j = if j / 4 == i then v / 2 ^ (8 * (j % 4)) % 2 ^ 8 else x j

abbrev pub set_addr : Dinode → (i addr : ℕ) → Dinode
set_addr ip i addr = record ip { addrs = λ k. if k == i then addr else ip.addrs k }

-- `if((addr = ip->addrs[i]) == 0) ip->addrs[i] = addr = balloc(ip->dev)`. The in-memory inode is
-- passed along with the disk.
pub map_addr : Dinode → Fs → (i : ℕ) → Out (ℕ × Dinode × Fs)
map_addr ip fs i =
    if ip.addrs i == 0
    then (do r ← balloc fs; ok (r.0, set_addr ip i r.0, r.1))
    else ok (ip.addrs i, ip, fs)

-- The entry `bn` of the indirect block `block`, allocated if it is 0.
pub map_entry : Dinode → Fs → (block bn : ℕ) → Out (ℕ × Dinode × Fs)
map_entry ip fs block bn =
    let addr = word (fs.bytes block) bn in
    if addr == 0
    then (do
      r ← balloc fs
      ok (r.0, ip, log_write (set_bytes r.1 block (set_word (r.1.bytes block) bn r.0)) block))
    else ok (addr, ip, fs)

pub bmap : Dinode → Fs → (bn : ℕ) → Out (ℕ × Dinode × Fs)
bmap ip fs bn =
    if ltb bn ndirect
    then map_addr ip fs bn
    else if ltb (bn - ndirect) nindirect
    then (do r ← map_addr ip fs ndirect; map_entry r.1 r.2 r.0 (bn - ndirect))
    else panic
