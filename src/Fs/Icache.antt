-- ===== src/Fs/Icache.antt =====
-- fs.c: the inode cache. A pointer to an inode is the number of its slot. Reference counts are the
-- bit patterns of an int. A section under icache.lock runs as one.
pub mod Scan
pub mod Counts
use cs461_hw.Base.{
  ℕ, zero, suc, ◌+◌, ◌-◌, ◌/◌, ◌%◌, ◌^◌, Bool, true, false, not, ◌&&◌, ◌||◌, Option, none, some,
  ◌==◌, ltb, if◌then◌else◌,
}
use cs461_hw.Fs.{ipb, Superblock, Dinode, Fs, Out, ok, panic, ◌>>=◌, iblock, log_write}
use cs461_hw.Fs.Content.{iupdate}
use cs461_hw.Fs.Trunc.{itrunc}

-- NINODE of param.h.
abbrev pub ninode : ℕ
ninode = 50

-- struct inode: `holder` is the process that holds its sleep-lock, `valid` the flag I_VALID, `copy`
-- the fields of the disk inode.
pub record Inode : Type 0 where
  pub dev : ℕ
  pub inum : ℕ
  pub ref : ℕ
  pub valid : Bool
  pub holder : Option ℕ
  pub copy : Dinode

pub record Icache : Type 0 where
  pub inode : ℕ → Inode
  pub fs : Fs

abbrev pub set_inode : Icache → ℕ → Inode → Icache
set_inode c k p = record c { inode = λ j. if j == k then p else c.inode j }

-- `ref > 0`, `ref++` and `ref--` of an int.
abbrev pub is_positive : ℕ → Bool
is_positive x = ltb 0 x && ltb x (2 ^ 31)

abbrev pub increment : ℕ → ℕ
increment x = (x + 1) % 2 ^ 32

abbrev pub decrement : ℕ → ℕ
decrement x = (x + (2 ^ 32 - 1)) % 2 ^ 32

-- What the loop of iget ends with: a slot that has the inode, the first free slot, or neither.
pub data Search : Type 0 where
  cached : ℕ → Search
  empty : ℕ → Search
  full : Search

abbrev pub is_cached : Inode → (dev inum : ℕ) → Bool
is_cached p dev inum = is_positive p.ref && (p.dev == dev) && (p.inum == inum)

-- `if(empty == 0 && ip->ref == 0) empty = ip;`
abbrev pub remember : Search → (k ref : ℕ) → Search
remember full k ref = if ref == 0 then empty k else full
remember (empty j) k ref = empty j
remember (cached j) k ref = cached j

-- The loop over `n` slots from `k` on.
pub search_from : (n k : ℕ) → (ℕ → Inode) → (dev inum : ℕ) → Search → Search
search_from zero k inode dev inum s = s
search_from (suc n) k inode dev inum s =
    let rest = search_from n (suc k) inode dev inum (remember s k (inode k).ref) in
    if is_cached (inode k) dev inum then cached k else rest

pub take_slot : Icache → (dev inum : ℕ) → Search → Out (ℕ × Icache)
take_slot c dev inum (cached k) =
    ok (k, set_inode c k (record (c.inode k) { ref = increment (c.inode k).ref }))
take_slot c dev inum (empty k) =
    ok (k, set_inode c k (record (c.inode k) { dev = dev; inum = inum; ref = 1; valid = false }))
take_slot c dev inum full = panic

pub iget : Icache → (dev inum : ℕ) → Out (ℕ × Icache)
iget c dev inum = take_slot c dev inum (search_from ninode 0 c.inode dev inum full)

pub idup : Icache → (k : ℕ) → Icache
idup c k = set_inode c k (record (c.inode k) { ref = increment (c.inode k).ref })

-- ilock by process `pid`. None: it sleeps, since another holds the lock.
ilock : Icache → (k pid : ℕ) → Out (Option Icache)
ilock c k pid =
    let p = c.inode k in
    let dip = c.fs.dinodes (iblock p.inum c.fs.sb) (p.inum % ipb) in
    if not (is_positive p.ref) then panic else elim p.holder [
      | some other ↦ ok none
      | none ↦
          if p.valid
          then ok (some (set_inode c k (record p { holder = some pid })))
          else if dip.type == 0
          then panic
          else ok (some (set_inode c k (record p { holder = some pid; valid = true; copy = dip })))
    ]

abbrev holds : Option ℕ → (pid : ℕ) → Bool
holds none pid = false
holds (some p) pid = p == pid

iunlock : Icache → (k pid : ℕ) → Out Icache
iunlock c k pid =
    let p = c.inode k in
    if not (holds p.holder pid) || not (is_positive p.ref)
    then panic
    else ok (set_inode c k (record p { holder = none }))

-- The inode without links and other references is truncated and freed on the disk.
free_inode : Icache → (k : ℕ) → Out Icache
free_inode c k = do
  r ← itrunc (c.inode k).inum (c.inode k).copy c.fs
  ok
      (record (set_inode c k
        (record (c.inode k) { valid = false; copy = record r.0 { type = 0 } })) {
          fs = iupdate (c.inode k).inum (record r.0 { type = 0 }) r.1;
        })

abbrev pub drop_ref : Icache → (k : ℕ) → Icache
drop_ref c k = set_inode c k (record (c.inode k) { ref = decrement (c.inode k).ref })

pub iput : Icache → (k : ℕ) → Out Icache
iput c k =
    let p = c.inode k in
    if (p.ref == 1) && p.valid && (p.copy.nlink == 0)
    then (do r ← free_inode c k; ok (drop_ref r k))
    else ok (drop_ref c k)

iunlockput : Icache → (k pid : ℕ) → Out Icache
iunlockput c k pid = do r ← iunlock c k pid; iput r k

-- The loop of ialloc over `n` inodes from `inum` on.
abbrev fresh_dinode : (type : ℕ) → Dinode
fresh_dinode type = record {
  type = type;
  major = 0;
  minor = 0;
  nlink = 0;
  size = 0;
  addrs = λ i. 0;
}

free_inum : (n inum : ℕ) → Fs → Option ℕ
free_inum zero inum fs = none
free_inum (suc n) inum fs =
    let rest = free_inum n (suc inum) fs in
    if (fs.dinodes (iblock inum fs.sb) (inum % ipb)).type == 0 then some inum else rest

ialloc : Icache → (dev type : ℕ) → Out (ℕ × Icache)
ialloc c dev type = elim (free_inum (c.fs.sb.ninodes - 1) 1 c.fs) [
  | none ↦ panic
  | some inum ↦ iget (record c { fs = iupdate inum (fresh_dinode type) c.fs }) dev inum
]
