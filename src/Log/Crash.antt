-- ===== src/Log/Crash.antt =====
-- Crashes inside commit: what recovery makes of every state that the disk goes through.
use cs461_hw.Base.{
  ℕ, ◌+◌, ◌<◌, ◌≡◌, ◌≢◌, ◌⊎◌, inl, inr, refl, ap, sym, ◌∙◌, ltb, arith, All, All-map, All-append,
  Bool-cases, ltb→ge,
}
use cs461_hw.Log.{Block, Disk, Log, install_trans, write_log, write_head, commit}
use cs461_hw.Log.Install.{SameHead, Spared, Copies}
use cs461_hw.Log.Recover.{
  IsHome, IsLog, recovered, IsOld, IsNew, IsCommitted, home_ne_begin, home_ne_log, write_head_other,
  write_head_cache, write_head_count, write_head_block, write_head-SameHead, IsLog-same,
  install-Copies, write-Copies, recover_empty, recover-IsNew,
}

-- A state of the disk from which recovery leaves the old blocks or the new ones.
abbrev pub IsSafe : Log → Disk → Type 0
IsSafe s d = IsOld s (recovered s d) ⊎ IsNew s (recovered s d)

module _ (s : Log) (v : IsLog s) (z : s.disk s.begin 0 ≡ 0) where
  abbrev logged : Log
  logged = (write_log s).0

  abbrev headed : Log
  headed = write_head logged

  abbrev w : Copies (λ i. s.begin + i + 1) s.block 0 s.n s (write_log s)
  w = write-Copies s v

  -- The header is no block of the log.
  begin-Spared : Spared (λ i. s.begin + i + 1) 0 s.n s.begin
  begin-Spared i l h e = omega arith

  home-Spared : (b : ℕ) → IsHome s b → Spared (λ i. s.begin + i + 1) 0 s.n b
  home-Spared b h i l q = home_ne_log s b i v (omega arith) h

  -- While the log is written the header on the disk is empty.
  writing-IsSafe : All (IsSafe s) (write_log s).1
  writing-IsSafe =
      All-map (write_log s).1
        (λ d same. inl (λ b h.
          recover_empty s d b v (ap (λ (x : Block). x 0) (same s.begin begin-Spared) ∙ z) h
          ∙ same b (home-Spared b h)))
        w.crashes

  headed_same : (b : ℕ) → s.begin ≢ b → headed.disk b ≡ logged.disk b
  headed_same b ne = write_head_other logged b (rw w.head.begin ne)

  headed-IsCommitted : IsCommitted s headed.disk
  headed-IsCommitted = record {
    count = ap (λ (i : ℕ). headed.disk i 0) (sym w.head.begin) ∙ write_head_count logged ∙ w.head.n;
    blocks = λ i l.
        ap (λ (j : ℕ). headed.disk j (i + 1)) (sym w.head.begin)
        ∙ write_head_block logged i (rw w.head.n l)
        ∙ ap (λ (f : ℕ → ℕ). f i) w.head.block;
    copies = λ i l.
        headed_same (s.begin + i + 1) (λ e. omega arith) ∙ w.here i (omega arith) (omega arith);
    others = λ b h sp. headed_same b (home_ne_begin s b v h) ∙ w.spared b (home-Spared b h);
  }

  headed-SameHead : SameHead s headed
  headed-SameHead =
      let h = write_head-SameHead logged in
      record {
        n = h.n ∙ w.head.n;
        block = h.block ∙ w.head.block;
        begin = h.begin ∙ w.head.begin;
        size = h.size ∙ w.head.size;
        outstanding = h.outstanding ∙ w.head.outstanding;
      }

  abbrev c :
      Copies headed.block (λ i. headed.begin + i + 1) 0 headed.n headed (install_trans headed)
  c = install-Copies headed (IsLog-same s headed headed-SameHead v)

  -- No logged block: the installation spares it.
  here-Spared : (b : ℕ) → ((i : ℕ) → i < s.n → s.block i ≢ b) → Spared headed.block 0 headed.n b
  here-Spared b sp i l h e =
      let inside : i < headed.n = omega arith in
      sp i (rw headed-SameHead.n at inside)
        (ap (λ (f : ℕ → ℕ). f i) (sym headed-SameHead.block) ∙ e)

  kept-IsCommitted :
      (d : Disk)
      → ((b : ℕ) → Spared headed.block 0 headed.n b → d b ≡ headed.disk b)
      → IsCommitted s d
  kept-IsCommitted d same =
      let keep = λ (b : ℕ) (sp : (i : ℕ) → i < s.n → s.block i ≢ b). same b (here-Spared b sp) in
      let header = keep s.begin (λ i l e. home_ne_begin s (s.block i) v (v.home i l) (sym e)) in
      let h = headed-IsCommitted in
      record {
        count = ap (λ (x : Block). x 0) header ∙ h.count;
        blocks = λ i l. ap (λ (x : Block). x (i + 1)) header ∙ h.blocks i l;
        copies = λ i l.
            keep (s.begin + i + 1) (λ j q e. home_ne_log s (s.block j) i v l (v.home j q) (sym e))
            ∙ h.copies i l;
        others = λ b home sp. keep b sp ∙ h.others b home sp;
      }

  installing-IsSafe : All (IsSafe s) (install_trans headed).1
  installing-IsSafe =
      All-map (install_trans headed).1
        (λ d same. inr (recover-IsNew s d v (kept-IsCommitted d same))) c.crashes

  abbrev cleared : Log
  cleared = write_head (record (install_trans headed).0 { n = 0 })

  cleared_same : (b : ℕ) → s.begin ≢ b → cleared.disk b ≡ (install_trans headed).0.disk b
  cleared_same b ne =
      write_head_other (record (install_trans headed).0 { n = 0 }) b
        (rw (c.head.begin ∙ headed-SameHead.begin) ne)

  cleared_count : cleared.disk s.begin 0 ≡ 0
  cleared_count =
      ap (λ (i : ℕ). cleared.disk i 0) (sym (c.head.begin ∙ headed-SameHead.begin))
      ∙ write_head_count (record (install_trans headed).0 { n = 0 })

  cleared-IsNew : IsNew s cleared.disk
  cleared-IsNew = record {
    logged = λ i l.
        cleared_same (s.block i) (home_ne_begin s (s.block i) v (v.home i l))
        ∙ ap (λ (f : ℕ → ℕ). (install_trans headed).0.disk (f i)) (sym headed-SameHead.block)
        ∙ c.here i (omega arith) (rw headed-SameHead.n (omega arith))
        ∙ ap (λ (j : ℕ). headed.cache (j + i + 1)) headed-SameHead.begin
        ∙ write_head_cache logged (s.begin + i + 1) (rw w.head.begin (λ e. omega arith))
        ∙ w.here_cache i (omega arith) (omega arith);
    others = λ b h sp.
        cleared_same b (home_ne_begin s b v h)
        ∙ c.spared b (here-Spared b sp)
        ∙ headed-IsCommitted.others b h sp;
  }

  cleared-IsSafe : IsSafe s cleared.disk
  cleared-IsSafe = inr (record {
    logged = λ i l.
        recover_empty s cleared.disk (s.block i) v cleared_count (v.home i l)
        ∙ cleared-IsNew.logged i l;
    others =
        λ b h sp. recover_empty s cleared.disk b v cleared_count h ∙ cleared-IsNew.others b h sp;
  })

-- commit of a valid log whose header on the disk is empty: at whatever point between its writes the
-- machine crashes, recovery leaves either every home block as it was before the transaction, or every
-- logged block as it was in the cache and every other home block as it was. When commit ends, the
-- disk holds the new blocks and the log is empty, on the disk and in memory.
pub commit-IsSafe :
    (s : Log)
    → IsLog s
    → s.disk s.begin 0 ≡ 0
    → All (IsSafe s) (commit s).1
      × IsNew s (commit s).0.disk
      × ((commit s).0.disk s.begin 0 ≡ 0)
      × ((commit s).0.n ≡ 0)
unfolding commit
commit-IsSafe s v z = elim (Bool-cases (ltb 0 s.n)) [
  | inl e ↦ rw e (
    All-append (IsSafe s) (write_log s).1 _ (writing-IsSafe s v z) (
      inr (recover-IsNew s (headed s v z).disk v (headed-IsCommitted s v z)),
      All-append (IsSafe s) (install_trans (headed s v z)).1 _ (installing-IsSafe s v z)
          (cleared-IsSafe s v z, tt),
    ),
    cleared-IsNew s v z,
    cleared_count s v z,
    (write_head-SameHead (record (install_trans (headed s v z)).0 { n = 0 })).n,
  )
  | inr e ↦
      let none : s.n ≡ 0 = omega (arith, ltb→ge 0 s.n e) in
      rw e (tt, record { logged = λ i l. absurd (omega arith); others = λ b h sp. refl }, z, none)
]

-- commit empties the log and keeps where it lies and who is in it.
pub commit_empty :
    (s : Log)
    → IsLog s
    → s.disk s.begin 0 ≡ 0
    → ((commit s).0.begin ≡ s.begin)
      × ((commit s).0.size ≡ s.size)
      × ((commit s).0.outstanding ≡ s.outstanding)
unfolding commit
commit_empty s v z = elim (Bool-cases (ltb 0 s.n)) [
  | inl e ↦
      let h = write_head-SameHead (record (install_trans (headed s v z)).0 { n = 0 }) in
      let i = (c s v z).head in
      let g = headed-SameHead s v z in
      rw e (
        h.begin ∙ i.begin ∙ g.begin,
        h.size ∙ i.size ∙ g.size,
        h.outstanding ∙ i.outstanding ∙ g.outstanding,
      )
  | inr e ↦ rw e (refl, refl, refl)
]
