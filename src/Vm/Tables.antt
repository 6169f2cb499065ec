-- ===== src/Vm/Tables.antt =====
-- Walks through page tables that are there: which words they read, and what they return.
use cs461_hw.Base.{ℕ, ◌+◌, ◌*◌, ◌<◌, ◌≡◌, Bool, true, false, some, arith}
use cs461_hw.Machine.{nframes, Machine, ok, load64, store64}
use cs461_hw.Machine.Words.{write}
use cs461_hw.Kalloc.Pages.{page_va, v2p-word, in_ram-word, p2v-frame}
use cs461_hw.Vm.{pte_p, pte_u, has, pte_addr, pmx, pdpx, pdx, ptx, next_table, walkpgdir, uva2ka}

-- The entry `e` is present and leads to frame `t`.
pub record Leads (e t : ℕ) : Type 0 where
  pub present : has e pte_p ≡ true
  pub frame : pte_addr e ≡ t * 4096
  pub ram : t < nframes

-- From the table in frame `t1` the walk for `va` leads through `t2` and `t3` to the page table `t4`.
pub record Walk (m : ℕ → ℕ) (va t1 t2 t3 t4 : ℕ) : Type 0 where
  pub ram : t1 < nframes
  pub to_pdp : Leads (m (t1 * 512 + pmx va)) t2
  pub to_pd : Leads (m (t2 * 512 + pdpx va)) t3
  pub to_pt : Leads (m (t3 * 512 + pdx va)) t4

-- The address of the entry for `va` in the page table `t4`, and its word number.
abbrev pub pte_va : ℕ → ℕ → ℕ
pte_va t4 va = page_va t4 + ptx va * 8

abbrev pub pte_word : ℕ → ℕ → ℕ
pte_word t4 va = t4 * 512 + ptx va

module _ (k : Machine) (t i : ℕ) (h : t < nframes) (hi : i < 512) where
  pub load64-word : load64 (page_va t + i * 8) k ≡ ok (k.mem (t * 512 + i)) k
  unfolding load64
  load64-word = rw (in_ram-word t i h hi, v2p-word t i h hi)

  pub store64-word :
      (x : ℕ)
      → store64 (page_va t + i * 8) x k ≡ ok tt (record k { mem = write k.mem (t * 512 + i) x })
  unfolding store64
  store64-word x = rw (in_ram-word t i h hi, v2p-word t i h hi)

  next_table-Leads :
      (u : ℕ) (alloc : Bool)
      → Leads (k.mem (t * 512 + i)) u
      → next_table (page_va t + i * 8) alloc k ≡ ok (some (page_va u)) k
  unfolding next_table
  next_table-Leads u alloc l = rw (load64-word, l.present, l.frame, p2v-frame u l.ram)

module _ (k : Machine) (va t1 t2 t3 t4 : ℕ) (w : Walk k.mem va t1 t2 t3 t4) where
  pub walkpgdir-Walk : (alloc : Bool) → walkpgdir (page_va t1) va alloc k ≡ ok (pte_va t4 va) k
  unfolding walkpgdir
  walkpgdir-Walk alloc = rw (next_table-Leads k t1 (pmx va) w.ram (omega arith) t2 alloc w.to_pdp) (
      rw (next_table-Leads k t2 (pdpx va) w.to_pdp.ram (omega arith) t3 alloc w.to_pd)
        (rw (next_table-Leads k t3 (pdx va) w.to_pd.ram (omega arith) t4 alloc w.to_pt)))

  pub load64-pte : load64 (pte_va t4 va) k ≡ ok (k.mem (pte_word t4 va)) k
  load64-pte = load64-word k t4 (ptx va) w.to_pt.ram (omega arith)

  store64-pte :
      (x : ℕ)
      → store64 (pte_va t4 va) x k ≡ ok tt (record k { mem = write k.mem (pte_word t4 va) x })
  store64-pte x = store64-word k t4 (ptx va) w.to_pt.ram (omega arith) x

-- A user page: its walk, and an entry that is present, open to the user and leads to frame `f`.
pub record Maps (m : ℕ → ℕ) (va t1 t2 t3 t4 f : ℕ) : Type 0 where
  pub walk : Walk m va t1 t2 t3 t4
  pub leads : Leads (m (pte_word t4 va)) f
  pub user : has (m (pte_word t4 va)) pte_u ≡ true

pub uva2ka-Maps :
    (k : Machine) (va t1 t2 t3 t4 f : ℕ)
    → Maps k.mem va t1 t2 t3 t4 f
    → uva2ka (page_va t1) va k ≡ ok (page_va f) k
unfolding uva2ka
uva2ka-Maps k va t1 t2 t3 t4 f p = rw (walkpgdir-Walk k va t1 t2 t3 t4 p.walk false) (
    rw (load64-pte k va t1 t2 t3 t4 p.walk)
      (rw (p.leads.present, p.user, p.leads.frame, p2v-frame f p.leads.ram)))

-- A walk survives every change that spares the three entries that it reads.
pub Walk-same :
    (m m' : ℕ → ℕ) (va t1 t2 t3 t4 : ℕ)
    → m' (t1 * 512 + pmx va) ≡ m (t1 * 512 + pmx va)
    → m' (t2 * 512 + pdpx va) ≡ m (t2 * 512 + pdpx va)
    → m' (t3 * 512 + pdx va) ≡ m (t3 * 512 + pdx va)
    → Walk m va t1 t2 t3 t4
    → Walk m' va t1 t2 t3 t4
Walk-same m m' va t1 t2 t3 t4 a b c w = record {
  ram = w.ram;
  to_pdp = rw a w.to_pdp;
  to_pd = rw b w.to_pd;
  to_pt = rw c w.to_pt;
}
