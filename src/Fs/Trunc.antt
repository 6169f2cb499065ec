-- ===== src/Fs/Trunc.antt =====
-- fs.c: itrunc, which frees the blocks of a file.
pub mod Range
pub mod File
use cs461_hw.Base.{ℕ, zero, suc, ◌==◌, if◌then◌else◌}
use cs461_hw.Fs.{ndirect, nindirect, Dinode, Fs, Out, ok, panic, ◌>>=◌, set_addr, word, bfree}
use cs461_hw.Fs.Content.{iupdate}

-- `if(addr) bfree(dev, addr);`
pub free_block : Fs → (addr : ℕ) → Out Fs
free_block fs addr = if addr == 0 then ok fs else bfree fs addr

-- The loop over the direct blocks, `n` of them from `i` on. To store 0 over 0 changes nothing.
pub free_direct : (n i : ℕ) → Dinode → Fs → Out (Dinode × Fs)
free_direct zero i ip fs = ok (ip, fs)
free_direct (suc n) i ip fs = do
  r ← free_block fs (ip.addrs i)
  free_direct n (suc i) (set_addr ip i 0) r

-- The loop over the words of the indirect block, whose data is `a`.
pub free_entries : (n j : ℕ) → (a : ℕ → ℕ) → Fs → Out Fs
free_entries zero j a fs = ok fs
free_entries (suc n) j a fs = do r ← free_block fs (word a j); free_entries n (suc j) a r

pub free_indirect : Dinode → Fs → Out (Dinode × Fs)
free_indirect ip fs =
    let block = ip.addrs ndirect in
    if block == 0 then ok (ip, fs) else (do
      r ← free_entries nindirect 0 (fs.bytes block) fs
      s ← bfree r block
      ok (set_addr ip ndirect 0, s))

pub itrunc : (inum : ℕ) → Dinode → Fs → Out (Dinode × Fs)
itrunc inum ip fs = do
  r ← free_direct ndirect 0 ip fs
  s ← free_indirect r.0 r.1
  ok (record s.0 { size = 0 }, iupdate inum (record s.0 { size = 0 }) s.1)
