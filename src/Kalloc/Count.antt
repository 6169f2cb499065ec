-- ===== src/Kalloc/Count.antt =====
-- kfreepagecount: the length of the free list.
use cs461_hw.Base.{
  ℕ, zero, suc, ◌+◌, ◌*◌, ◌%◌, ◌^◌, ◌<◌, ◌≡◌, ◌∙◌, ap, true, false, List, [], ◌∷◌, arith, ◌==◌, All,
  length,
}
use cs461_hw.Machine.{nframes, Machine, ok}
use cs461_hw.Kalloc.{count_loop, kfreepagecount}
use cs461_hw.Kalloc.Pages.{page_va, load64-page_va}
use cs461_hw.Kalloc.FreeList.{Chain, IsFrame, IsFreeList, length-le}

count_loop-length :
    (k : Machine) (fuel p i kernel_end : ℕ) (fs : List ℕ)
    → Chain k.mem p fs
    → All (IsFrame kernel_end) fs
    → length fs < fuel
    → i + length fs < 2 ^ 32
    → count_loop fuel p i k ≡ ok (i + length fs) k
unfolding count_loop
count_loop-length k zero p i e fs c b h small = absurd (omega arith)
count_loop-length k (suc fuel) p i e [] c b h small = rw c (ap (λ n. ok n k) (omega arith))
count_loop-length k (suc fuel) p i e (f ∷ fs) c b h small =
    let step : (i + 1) % 2 ^ 32 ≡ i + 1 = omega arith in
    let sum : i + 1 + length fs ≡ i + length (f ∷ fs) = omega arith in
    let more : (page_va f == 0) ≡ false = ground arith in
    rw (c.0, more, load64-page_va k f b.0.1, step)
      (count_loop-length k fuel (k.mem (f * 512)) (i + 1) e fs c.1 b.1 (omega arith) (omega arith)
        ∙ ap (λ n. ok n k) sum)

-- kfreepagecount ends, returns the number of free pages, and leaves the machine as it was.
kfreepagecount-length :
    (k : Machine) (fs : List ℕ) → IsFreeList k fs → kfreepagecount k ≡ ok (length fs) k
unfolding kfreepagecount
kfreepagecount-length k fs v =
    let few = length-le k fs v in
    rw v.unlocked (
      rw
        (count_loop-length (record k { lock_held = true }) (suc nframes) k.freelist 0 k.kernel_end
          fs v.chain v.frames (omega arith) (omega arith))
        (ap (λ n. ok n (record k { lock_held = false })) (omega arith)))
