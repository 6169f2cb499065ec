-- ===== src/Vm.antt =====
-- vm.c: four-level page tables in physical memory, the mappings of a process, page merging (dedup)
-- and copy-on-write.
pub mod Tables
pub mod Entries
pub mod Cow
pub mod Merge
pub mod Dedup
mod Tests
use Prim.Native.Nat.{bit_or}
use cs461_hw.Base.{
  ℕ, zero, suc, ◌+◌, ◌-◌, ◌*◌, ◌/◌, ◌%◌, ◌^◌, Bool, true, false, not, ◌&&◌, ◌||◌, Option, none,
  some, ◌==◌, ltb, leb, if◌then◌else◌,
}
use cs461_hw.Machine.{
  pgsize, nframes, kernbase, v2p, p2v, pgrounddown, pgroundup, Machine, Run, out_of_fuel, Cmd, pure,
  ◌>>=◌, ◌>>◌, when, halt, load64, store64, memset_page, memmove_page,
}
use cs461_hw.Kalloc.{kalloc, krelease, kretain, update_checksum, frames_are_identical}

-- The flags of mmu.h.
abbrev pub pte_p : ℕ
pte_p = 0x001

abbrev pub pte_w : ℕ
pte_w = 0x002

abbrev pub pte_u : ℕ
pte_u = 0x004

abbrev pub pte_cow : ℕ
pte_cow = 0x200

-- `pte & flag`, `pte | flag` and `pte & ~flag` for a flag of one bit.
abbrev pub has : ℕ → ℕ → Bool
has pte flag = ((pte / flag) % 2) == 1

unfoldable pub set_flag : ℕ → ℕ → ℕ
set_flag pte flag = if has pte flag then pte else pte + flag

unfoldable pub clear_flag : ℕ → ℕ → ℕ
clear_flag pte flag = if has pte flag then pte - flag else pte

-- PTE_ADDR and PTE_FLAGS.
abbrev pub pte_addr : ℕ → ℕ
pte_addr pte = pte - pte % 4096

abbrev pte_flags : ℕ → ℕ
pte_flags pte = pte % 4096

-- PMX, PDPX, PDX and PTX: nine bits of the address each.
abbrev pub pmx : ℕ → ℕ
pmx va = (va / 2 ^ 39) % 512

abbrev pub pdpx : ℕ → ℕ
pdpx va = (va / 2 ^ 30) % 512

abbrev pub pdx : ℕ → ℕ
pdx va = (va / 2 ^ 21) % 512

abbrev pub ptx : ℕ → ℕ
ptx va = (va / 2 ^ 12) % 512

-- One level of walkpgdir: the table that the entry at `entry` leads to, made if `alloc`; `none` is
-- its `return 0`.
pub next_table : ℕ → Bool → Cmd (Option ℕ)
next_table entry alloc = do
  e ← load64 entry
  if has e pte_p
      then pure (some (p2v (pte_addr e)))
      else if alloc
      then (do
        t ← kalloc
        if t == 0 then pure none else do
          memset_page t 0
          store64 entry (set_flag (set_flag (set_flag (v2p t) pte_p) pte_w) pte_u)
          pure (some t))
      else pure none

-- The address of the entry for `va`, or 0.
pub walkpgdir : ℕ → ℕ → Bool → Cmd ℕ
walkpgdir pml4 va alloc = do
  pdp ← next_table (pml4 + pmx va * 8) alloc
  elim pdp [
    | none ↦ pure 0
    | some pdp ↦ do
      pd ← next_table (pdp + pdpx va * 8) alloc
      elim pd [
        | none ↦ pure 0
        | some pd ↦ do
          pgtab ← next_table (pd + pdx va * 8) alloc
          elim pgtab [ none ↦ pure 0 | some pgtab ↦ pure (pgtab + ptx va * 8) ]
      ]
  ]

-- The frame's kernel address, or 0. A null entry is read like any other address.
pub uva2ka : ℕ → ℕ → Cmd ℕ
uva2ka pgdir uva = do
  pte ← walkpgdir pgdir uva false
  e ← load64 pte
  if not (has e pte_p)
      then pure 0
      else if not (has e pte_u)
      then pure 0
      else pure (p2v (pte_addr e))

clearpteu : ℕ → ℕ → Cmd (Unit {0})
clearpteu pgdir uva = do
  pte ← walkpgdir pgdir uva false
  when (pte == 0) halt
  e ← load64 pte
  store64 pte (clear_flag e pte_u)

-- The part of copyonwrite for a page marked copy-on-write.
pub copy_page : ℕ → ℕ → Cmd (Unit {0})
copy_page pte kernel_va = do
  tmp_mem ← kalloc
  memmove_page tmp_mem kernel_va
  store64 pte (set_flag (set_flag (set_flag (v2p tmp_mem) pte_p) pte_u) pte_w)

-- `pgdir` is proc->pgdir.
pub copyonwrite : ℕ → ℕ → Cmd ℕ
copyonwrite pgdir v = do
  let round = pgrounddown v
  kernel_va ← uva2ka pgdir round
  when (not (kernel_va == 0)) (do
    pte ← walkpgdir pgdir round false
    e ← load64 pte
    when (has e pte_cow) (copy_page pte kernel_va)
    krelease kernel_va)
  pure 1

-- The statements of dedup on two entries whose frames hold the same words: the second entry gets
-- the first one's frame, both are marked copy-on-write and not writable, and the second frame loses
-- a reference to the first.
pub share_entries : ℕ → ℕ → Cmd (Unit {0})
share_entries pte1 pte2 = do
  e ← load64 pte1
  store64 pte1 (set_flag e pte_cow)
  when (not (pte2 == 0)) (do
    e ← load64 pte1
    store64 pte2 (set_flag (set_flag (set_flag e pte_p) pte_u) pte_cow)
    e ← load64 pte2
    store64 pte2 (clear_flag e pte_w))

pub protect_entry : ℕ → Cmd (Unit {0})
protect_entry pte1 = do e ← load64 pte1; when (has e pte_w) (store64 pte1 (clear_flag e pte_w))

pub merge : ℕ → ℕ → ℕ → ℕ → Cmd (Unit {0})
merge pte1 pte2 kernel_va kernel_off = do
  share_entries pte1 pte2
  krelease kernel_va
  protect_entry pte1
  kretain kernel_off

-- The body of dedup's loop.
pub dedup_page : ℕ → ℕ → ℕ → Cmd (Unit {0})
dedup_page pgdir addr2 addr = do
  kernel_va ← uva2ka pgdir addr
  when (not (kernel_va == 0)) (do
    update_checksum (v2p kernel_va)
    when (ltb addr2 addr) (do
      kernel_off ← uva2ka pgdir (addr - pgsize)
      when (not (kernel_off == 0)) (do
        same ← frames_are_identical (v2p kernel_off) (v2p kernel_va)
        when same (do
          pte1 ← walkpgdir pgdir (addr - pgsize) false
          pte2 ← walkpgdir pgdir addr false
          merge pte1 pte2 kernel_va kernel_off))))

dedup_loop : ℕ → ℕ → ℕ → ℕ → ℕ → Cmd (Unit {0})
dedup_loop zero pgdir addr2 addr addr_end = λ _. out_of_fuel
dedup_loop (suc fuel) pgdir addr2 addr addr_end =
    let rest = dedup_loop fuel pgdir addr2 ((addr + pgsize) % 2 ^ 64) addr_end in
    if ltb addr addr_end then (do dedup_page pgdir addr2 addr; rest) else pure tt

-- A round for each page between the ends, and one to see the end.
dedup : ℕ → ℕ → ℕ → Cmd (Unit {0})
dedup pgdir vstart vend =
    let addr_end = pgroundup vend in
    dedup_loop (suc (addr_end / pgsize)) pgdir ((pgrounddown vstart + pgsize) % 2 ^ 64)
      (pgrounddown vstart) addr_end
