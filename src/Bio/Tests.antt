-- ===== src/Bio/Tests.antt =====
-- A small buffer cache, and the theorems of bio.c at it.
use cs461_hw.Base.{◌+◌, ◌*◌, ◌≡◌, refl, true, [], ◌∷◌, arith}
use cs461_hw.Bio.{Buf, Cache, set_buf, blank, binit, bread, unlink}
use cs461_hw.Bio.Coherence.{IsCache, set_buf-IsCache}
use cs461_hw.Bio.Calls.{Locked}
use cs461_hw.Bio.Disk.{binit-IsCache, Read, bread-Read}

abbrev small : Cache
small = binit (λ b i. b * 100 + i) 50 3

small-IsCache : IsCache small
small-IsCache = (binit-IsCache small.disk 50 3).0

bread-Read_example : Read small 7 (bread small 1 7)
bread-Read_example = bread-Read small 7 small-IsCache (omega arith)

-- Block 7 in buffer 0, changed and not yet written.
abbrev newer : Buf
newer = record blank {
  dev = 1;
  blockno = 7;
  refcnt = 1;
  valid = true;
  dirty = true;
  locked = true;
  bytes = λ i. 5;
}

abbrev changed : Cache
changed = set_buf small 0 newer

changed-IsCache : IsCache changed
changed-IsCache =
    set_buf-IsCache small 0 newer small-IsCache
      (record { filled = λ e. refl; clean = λ d e f. absurd (ground arith) })
      (λ b j l f g. absurd (ground arith))

changed-Locked : Locked changed 0 1 7
changed-Locked = record { listed = refl; locked = refl; dev = refl; block = refl }

-- The released buffer is at the front.
moved : unlink 1 (2 ∷ 1 ∷ 0 ∷ []) ≡ 2 ∷ 0 ∷ []
unfolding unlink
moved = refl
