-- ===== src/Log/Tests.antt =====
-- A small log in use, and the theorems of log.c at it.
use cs461_hw.Base.{
  ℕ, ◌*◌, ◌<◌, zero, suc, ◌+◌, ◌≡◌, ◌≤◌, refl, true, false, List, [], ◌∷◌, ◌==◌, if◌then◌else◌,
  arith, All, inr, ◌⊎◌,
}
use cs461_hw.Log.{
  Disk, set_block, Log, bwrite, install_trans, install_loop, read_head, write_loop, copy_block,
  find_block, commit, crash, recover_from_log, write_log, write_head, log_write, begin_op,
  end_op_start,
}
use cs461_hw.Log.Recover.{IsLog, IsNew}
use cs461_hw.Log.Crash.{IsSafe, commit-IsSafe}
use cs461_hw.Log.System.{running, Reach, start, later, begins, writes, ends, IsFresh, IsSound}
use cs461_hw.Log.Space.{Reach-IsSound, crash-IsSafe}

-- Block b holds b * 100 + i at word i; the header, block 2, is empty.
abbrev old : Disk
old b i = if b == 2 then 0 else b * 100 + i

-- Blocks 50 and 60 are changed in the cache and in the log.
abbrev two : Log
two = record {
  disk = old;
  cache = λ b i. if b == 50 then 7 else if b == 60 then 8 else old b i;
  dirty = λ b. false;
  begin = 2;
  size = 40;
  outstanding = 1;
  committing = false;
  n = 2;
  block = λ i. if i == 0 then 50 else 60;
}

two-IsLog : IsLog two
two-IsLog = record {
  fits = omega arith;
  home = λ i h. home i h;
  distinct = λ i j h g e. distinct i j h g e;
}
  where
    home : (i : ℕ) → i < 2 → (two.block i < 2) ⊎ (42 ≤ two.block i)
    home zero h = inr (omega arith)
    home (suc i) h = inr (grind arith)

    distinct : (i j : ℕ) → i < 2 → j < 2 → two.block i ≡ two.block j → i ≡ j
    distinct i j h g e = ground arith

commit-IsSafe_example :
    All (IsSafe two) (commit two).1
    × IsNew two (commit two).0.disk
    × ((commit two).0.disk 2 0 ≡ 0)
    × ((commit two).0.n ≡ 0)
commit-IsSafe_example = commit-IsSafe two two-IsLog refl

-- The header is on the disk and nothing installed: recovery installs block 50.
recovers : (recover_from_log (crash two (write_head (write_log two).0).disk)).0.disk 50 3 ≡ 7
unfolding recover_from_log crash write_head write_log bwrite install_trans install_loop read_head
    write_loop copy_block
recovers = refl

abbrev empty : Log
empty = record two { size = 30; outstanding = 0; n = 0 }

empty-IsFresh : IsFresh empty
empty-IsFresh = record {
  empty = refl;
  large = omega arith;
  nobody = refl;
  unlocked = refl;
  clear = refl;
}

abbrev begun : Log
begun = record empty { outstanding = 1 }

abbrev wrote : Log
wrote = record begun {
  cache = set_block begun.cache 50 (λ i. 9);
  n = 1;
  block = λ j. if 0 == j then 50 else two.block j;
  dirty = λ c. if 50 == c then true else false;
}

-- One operation begins, writes block 50, and ends.
begun-Reach : Reach (running empty []) (running begun ([] ∷ []))
unfolding begin_op
begun-Reach = later (running empty []) (running begun ([] ∷ [])) start (begins empty [])

wrote-Reach : Reach (running empty []) (running wrote ((50 ∷ []) ∷ []))
unfolding log_write find_block
wrote-Reach =
    later (running begun ([] ∷ [])) (running wrote ((50 ∷ []) ∷ [])) begun-Reach
      (writes begun [] [] [] 50 (λ i. 9) (inr (omega arith)) (omega arith))

abbrev ended : Log
ended = record wrote { outstanding = 0; committing = true }

ended-Reach : Reach (running empty []) (running ended [])
unfolding end_op_start
ended-Reach =
    later (running wrote ((50 ∷ []) ∷ [])) (running ended []) wrote-Reach
      (ends wrote [] [] (50 ∷ []))

Reach-IsSound_example : IsSound (running wrote ((50 ∷ []) ∷ []))
Reach-IsSound_example =
    Reach-IsSound empty (running wrote ((50 ∷ []) ∷ [])) empty-IsFresh wrote-Reach

crash-IsSafe_example : (◌≡◌ {A = List (List ℕ)} [] []) × All (IsSafe ended) (commit ended).1
crash-IsSafe_example = crash-IsSafe empty ended [] empty-IsFresh ended-Reach refl
