-- ===== src/Kalloc/Tests.antt =====
-- kalloc.c run on small machines, and its theorems at them.
use cs461_hw.Base.{
  ℕ, ◌+◌, ◌*◌, ◌/◌, ◌≡◌, ◌≢◌, ◌↔◌, refl, Bool, true, false, [], ◌∷◌, arith, ◌==◌, if◌then◌else◌,
}
use cs461_hw.Machine.{Machine, ok}
use cs461_hw.Machine.Words.{SameFrame}
use cs461_hw.Kalloc.{kfree, kalloc, krelease, update_checksum, frames_are_identical}
use cs461_hw.Kalloc.Pages.{page_va}
use cs461_hw.Kalloc.FreeList.{IsFreeList}
use cs461_hw.Kalloc.Alloc.{kalloc-kfree}
use cs461_hw.Kalloc.Counts.{Released, krelease-Released}
use cs461_hw.Kalloc.Range.{Covers}
use cs461_hw.Kalloc.Same.{frames_are_identical_iff}

-- Frames 40 and 41 are free; the kernel ends below frame 16; each frame in use has two references.
abbrev small : Machine
small = record {
  mem = λ i. if i == 40 * 512 then page_va 41 else if i == 41 * 512 then 0 else i / 512;
  refs = λ f. if f == 40 then 0 else if f == 41 then 0 else 2;
  checksum = λ _. 0;
  freelist = page_va 40;
  use_lock = true;
  lock_held = false;
  kernel_end = page_va 16;
}

small-IsFreeList : IsFreeList small (40 ∷ 41 ∷ [])
small-IsFreeList = record {
  chain = (refl, (refl, refl));
  frames = ((omega arith, omega arith), ((omega arith, omega arith), tt));
  distinct = ((omega arith, tt), (tt, tt));
  unlocked = refl;
}

-- No page is free.
abbrev full : Machine
full = record small { freelist = 0 }

full-IsFreeList : IsFreeList full []
full-IsFreeList = record { chain = refl; frames = tt; distinct = tt; unlocked = refl }

kalloc-kfree_example :
    (k' k'' : Machine) × (kfree (page_va 30) small ≡ ok tt k')
    × (kalloc k' ≡ ok (page_va 30) k'')
    × IsFreeList k'' (40 ∷ 41 ∷ [])
    × (k''.freelist ≡ small.freelist)
    × ((i : ℕ) → i / 512 ≢ 30 → k''.mem i ≡ small.mem i)
kalloc-kfree_example =
    kalloc-kfree small 30 (40 ∷ 41 ∷ []) small-IsFreeList (omega arith, omega arith)
      (omega arith, (omega arith, tt))

krelease-Released_example :
    (k' : Machine) × (krelease (page_va 30) small ≡ ok tt k') × Released small k' 30 (40 ∷ 41 ∷ [])
krelease-Released_example =
    krelease-Released small 30 (40 ∷ 41 ∷ []) small-IsFreeList (omega arith, omega arith)
      (omega arith, (omega arith, tt)) (omega arith) (omega arith)

-- From inside frame 49 to inside frame 53: the whole pages are 50, 51 and 52.
ends : Covers (page_va 49 + 100) (page_va 53 + 100) 50 3
ends = record { start = refl; low = omega arith; high = omega arith; ram = omega arith }

frames_are_identical_iff_example :
    (k1 k2 : Machine) × (b : Bool) × (update_checksum (30 * 4096) small ≡ ok tt k1)
    × (update_checksum (31 * 4096) k1 ≡ ok tt k2)
    × (frames_are_identical (30 * 4096) (31 * 4096) k2 ≡ ok b k2)
    × ((b ≡ true) ↔ SameFrame small.mem 30 31)
    × ((h : ℕ) → 30 ≢ h → 31 ≢ h → k2.checksum h ≡ small.checksum h)
    × (k2.mem ≡ small.mem)
    × (k2.refs ≡ small.refs)
    × (k2.freelist ≡ small.freelist)
    × (k2.use_lock ≡ small.use_lock)
    × (k2.lock_held ≡ small.lock_held)
    × (k2.kernel_end ≡ small.kernel_end)
frames_are_identical_iff_example = frames_are_identical_iff small 30 31 (omega arith) (omega arith)
