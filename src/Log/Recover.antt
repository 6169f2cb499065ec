-- ===== src/Log/Recover.antt =====
-- recover_from_log: what it makes of an empty header and of a committed transaction.
use cs461_hw.Base.{
  ℕ, ◌+◌, ◌-◌, ◌≤◌, ◌<◌, ◌≡◌, ◌≢◌, ◌⊎◌, inl, inr, refl, ap, sym, ◌∙◌, true, false, ◌==◌, ltb,
  if◌then◌else◌, arith, ==_refl, ==_of_ne, lt→ltb, le→leb,
}
use cs461_hw.Log.{
  Disk, Log, bwrite, install_trans, write_log, read_head, write_head, recover_from_log, crash,
}
use cs461_hw.Log.Install.{
  install_loop-copy_loop, write_loop-copy_loop, SameHead, Copies, copy_loop-Copies,
}

-- A block outside the log's region of the disk.
abbrev pub IsHome : Log → ℕ → Type 0
IsHome s b = (b < s.begin) ⊎ (s.begin + s.size ≤ b)

-- The logged blocks fit the region, lie outside it, and are distinct.
pub record IsLog (s : Log) : Type 0 where
  pub fits : s.n < s.size
  pub home : (i : ℕ) → i < s.n → IsHome s (s.block i)
  pub distinct : (i j : ℕ) → i < s.n → j < s.n → s.block i ≡ s.block j → i ≡ j

-- The disk after a reboot with `d` on the disk.
abbrev pub recovered : Log → Disk → Disk
recovered s d = (recover_from_log (crash s d)).0.disk

-- On every home block, `d` is the disk before the transaction, or the one after it.
abbrev pub IsOld : Log → Disk → Type 0
IsOld s d = (b : ℕ) → IsHome s b → d b ≡ s.disk b

pub record IsNew (s : Log) (d : Disk) : Type 0 where
  pub logged : (i : ℕ) → i < s.n → d (s.block i) ≡ s.cache (s.block i)
  pub others : (b : ℕ) → IsHome s b → ((i : ℕ) → i < s.n → s.block i ≢ b) → d b ≡ s.disk b

-- The log region of `d` holds the header of `s` and its blocks: the transaction is committed.
pub record IsCommitted (s : Log) (d : Disk) : Type 0 where
  pub count : d s.begin 0 ≡ s.n
  pub blocks : (i : ℕ) → i < s.n → d s.begin (i + 1) ≡ s.block i
  pub copies : (i : ℕ) → i < s.n → d (s.begin + i + 1) ≡ s.cache (s.block i)
  pub others : (b : ℕ) → IsHome s b → ((i : ℕ) → i < s.n → s.block i ≢ b) → d b ≡ s.disk b

pub home_ne_begin : (s : Log) (b : ℕ) → IsLog s → IsHome s b → s.begin ≢ b
home_ne_begin s b v (inl h) e = omega arith
home_ne_begin s b v (inr h) e = omega (arith, v.fits)

pub home_ne_log : (s : Log) (b i : ℕ) → IsLog s → i < s.n → IsHome s b → s.begin + i + 1 ≢ b
home_ne_log s b i v l (inl h) e = omega arith
home_ne_log s b i v l (inr h) e = omega (arith, v.fits)

pub write_head_other : (s : Log) (b : ℕ) → s.begin ≢ b → (write_head s).disk b ≡ s.disk b
unfolding write_head bwrite
write_head_other s b ne = rw (==_of_ne s.begin b ne)

pub write_head_cache : (s : Log) (b : ℕ) → s.begin ≢ b → (write_head s).cache b ≡ s.cache b
unfolding write_head bwrite
write_head_cache s b ne = rw (==_of_ne s.begin b ne)

pub write_head_count : (s : Log) → (write_head s).disk s.begin 0 ≡ s.n
unfolding write_head bwrite
write_head_count s = rw (==_refl s.begin)

pub write_head_block : (s : Log) (i : ℕ) → i < s.n → (write_head s).disk s.begin (i + 1) ≡ s.block i
unfolding write_head bwrite
write_head_block s i h =
    let word : (i + 1 == 0) ≡ false = ground arith in
    let index : i + 1 - 1 ≡ i = omega arith in
    rw (==_refl s.begin) (rw (word, le→leb (i + 1) s.n (omega arith), index))

pub write_head-SameHead : (s : Log) → SameHead s (write_head s)
unfolding write_head bwrite
write_head-SameHead s = record {
  n = refl;
  block = refl;
  begin = refl;
  size = refl;
  outstanding = refl;
}

pub IsLog-same : (s t : Log) → SameHead s t → IsLog s → IsLog t
IsLog-same s t h v = record {
  fits = rw (h.n, h.size) v.fits;
  home = λ i l. rw (h.block, h.begin, h.size) (v.home i (rw h.n at l));
  distinct = λ i j l q e. v.distinct i j (rw h.n at l) (rw h.n at q) (rw h.block at e);
}

pub install-Copies :
    (s : Log) → IsLog s → Copies s.block (λ i. s.begin + i + 1) 0 s.n s (install_trans s)
unfolding install_trans
install-Copies s v = rw (install_loop-copy_loop s.n 0 s) (
    copy_loop-Copies s.block (λ i. s.begin + i + 1) s.n
      (λ i j l h e. home_ne_log s (s.block i) j v h (v.home i l) (sym e)) v.distinct s.n 0 s
      (omega arith))

pub write-Copies : (s : Log) → IsLog s → Copies (λ i. s.begin + i + 1) s.block 0 s.n s (write_log s)
unfolding write_log
write-Copies s v = rw (write_loop-copy_loop s.n 0 s) (
    copy_loop-Copies (λ i. s.begin + i + 1) s.block s.n
      (λ i j l h e. home_ne_log s (s.block j) i v l (v.home j h) e) (λ i j l h e. omega arith) s.n 0
      s (omega arith))

-- Behind the installation recovery writes no block but the header.
recover_disk :
    (s : Log) (b : ℕ)
    → (install_trans (read_head s)).0.begin ≢ b
    → (recover_from_log s).0.disk b ≡ (install_trans (read_head s)).0.disk b
unfolding recover_from_log
recover_disk s b ne = write_head_other (record (install_trans (read_head s)).0 { n = 0 }) b ne

read-IsLog :
    (s : Log) (d : Disk)
    → IsLog s
    → (d s.begin 0 ≡ s.n)
    → ((i : ℕ) → i < s.n → d s.begin (i + 1) ≡ s.block i)
    → IsLog (read_head (crash s d))
      × ((read_head (crash s d)).n ≡ s.n)
      × ((i : ℕ) → i < s.n → (read_head (crash s d)).block i ≡ s.block i)
unfolding read_head crash
read-IsLog s d v count blocks =
    let same = λ (i : ℕ) (l : i < s.n).
      let inside : ltb i (d s.begin 0) ≡ true = rw count (lt→ltb i s.n l) in blocks' i l inside in
    (
      record {
        fits = rw count v.fits;
        home = λ i l. rw (same i (rw count at l)) (v.home i (rw count at l));
        distinct = λ i j l h e.
            v.distinct i j (rw count at l) (rw count at h)
              (sym (same i (rw count at l)) ∙ e ∙ same j (rw count at h));
      },
      count,
      same,
    )
  where
    blocks' :
        (i : ℕ)
        → i < s.n
        → ltb i (d s.begin 0) ≡ true
        → (if ltb i (d s.begin 0) then d s.begin (i + 1) else s.block i) ≡ s.block i
    blocks' i l e = rw e (blocks i l)

-- An empty header: recovery keeps every home block.
pub recover_empty :
    (s : Log) (d : Disk) (b : ℕ) → IsLog s → d s.begin 0 ≡ 0 → IsHome s b → recovered s d b ≡ d b
unfolding read_head crash
recover_empty s d b v z h =
    let none : (read_head (crash s d)).n ≡ 0 = z in
    let v' : IsLog (read_head (crash s d)) = record {
      fits = rw none (omega (arith, v.fits));
      home = λ i l. absurd (omega arith);
      distinct = λ i j l q e. absurd (omega arith);
    } in
    let c = install-Copies (read_head (crash s d)) v' in
    recover_disk (crash s d) b (rw c.head.begin (home_ne_begin s b v h))
    ∙ c.spared b (λ i l q e. omega arith)

-- A committed transaction: recovery installs it, however much of it was installed before.
pub recover-IsNew : (s : Log) (d : Disk) → IsLog s → IsCommitted s d → IsNew s (recovered s d)
unfolding read_head crash
recover-IsNew s d v c =
    let (v', count, same) = read-IsLog s d v c.count c.blocks in
    let r = install-Copies (read_head (crash s d)) v' in
    record {
      logged = λ i l.
          recover_disk (crash s d) (s.block i)
            (rw r.head.begin (home_ne_begin s (s.block i) v (v.home i l)))
          ∙ ap (λ b. (install_trans (read_head (crash s d))).0.disk b) (sym (same i l))
          ∙ r.here i (omega arith) (omega arith)
          ∙ c.copies i l;
      others = λ b h sp.
          recover_disk (crash s d) b (rw r.head.begin (home_ne_begin s b v h))
          ∙ r.spared b (λ i l q e. sp i (omega arith) (sym (same i (omega arith)) ∙ e))
          ∙ c.others b h sp;
    }
