-- ===== src/Kalloc/Range.antt =====
-- freerange, kinit1 and kinit2: the pages of a range go on the free list; the loop ends.
use cs461_hw.Base.{
  All-map, ℕ, zero, suc, ◌+◌, ◌/◌, ◌%◌, ◌^◌, ◌≤◌, ◌<◌, ◌≡◌, ◌≢◌, ◌⊎◌, inl, inr, refl, true, false,
  List, [], ◌∷◌, arith, All, le→leb, leb_of_lt, ◌∙◌, ap, length,
}
use cs461_hw.Machine.{pgsize, nframes, pgroundup, Machine, ok}
use cs461_hw.Kalloc.{freerange_loop, freerange, kinit1, kinit2}
use cs461_hw.Kalloc.Pages.{page_va}
use cs461_hw.Kalloc.FreeList.{IsFrame, IsFreeList}
use cs461_hw.Kalloc.Free.{freed, kfree-ok, freed-IsFreeList, freed_away}

-- The `n` frames from `f` on, in front of `fs`, the last first.
abbrev push_frames : ℕ → ℕ → List ℕ → List ℕ
push_frames f zero fs = fs
push_frames f (suc n) fs = push_frames (suc f) n (f ∷ fs)

-- The range from `vstart` to `vend` holds the whole pages of the `n` frames from `f` on.
pub record Covers (vstart vend f n : ℕ) : Type 0 where
  pub start : pgroundup vstart ≡ page_va f
  pub low : page_va (f + n) ≤ vend
  pub high : vend < page_va (f + n + 1)
  pub ram : f + n ≤ nframes

length-push_frames : (f n : ℕ) (fs : List ℕ) → length (push_frames f n fs) ≡ n + length fs
length-push_frames f zero fs = omega arith
length-push_frames f (suc n) fs = omega (arith, length-push_frames (suc f) n (f ∷ fs))

-- What the loop leaves: the pages are on the list; other memory and the rest stay.
record Freed (k : Machine) (f n : ℕ) (fs : List ℕ) (k' : Machine) : Type 0 where
  list : IsFreeList k' (push_frames f n fs)
  outside : (i : ℕ) → ((i / 512 < f) ⊎ (f + n ≤ i / 512)) → k'.mem i ≡ k.mem i
  same_refs : k'.refs ≡ k.refs
  same_end : k'.kernel_end ≡ k.kernel_end
  same_use : k'.use_lock ≡ k.use_lock

next_page : (f : ℕ) → f < nframes → (page_va f + pgsize) % 2 ^ 64 ≡ page_va (suc f)
next_page f h = omega arith

next_page_top : (f : ℕ) → f ≤ nframes → (page_va f + pgsize) % 2 ^ 64 ≡ page_va f + pgsize
next_page_top f h = omega arith

freerange_loop-Freed :
    (fuel n f vend : ℕ) (fs : List ℕ) (k : Machine)
    → n < fuel
    → page_va (f + n) ≤ vend
    → vend < page_va (f + n + 1)
    → f + n ≤ nframes
    → k.kernel_end ≤ page_va f
    → IsFreeList k fs
    → All (λ g. (g < f) ⊎ (f + n ≤ g)) fs
    → (k' : Machine) × (freerange_loop fuel (page_va f) vend k ≡ ok tt k') × Freed k f n fs k'
unfolding freerange_loop
freerange_loop-Freed zero n f vend fs k h lo hi ram low v new = absurd (omega arith)
freerange_loop-Freed (suc fuel) zero f vend fs k h lo hi ram low v new = (
  k,
  rw (next_page_top f (omega arith), leb_of_lt (page_va f + pgsize) vend (omega arith)),
  record { list = v; outside = λ i h. refl; same_refs = refl; same_end = refl; same_use = refl },
)
freerange_loop-Freed (suc fuel) (suc n) f vend fs k h lo hi ram low v new =
    let p : IsFrame k.kernel_end f = (low, omega arith) in
    let away : All (λ g. f ≢ g) fs =
      All-map fs (λ g d e. elim d [ inl a ↦ omega arith | inr b ↦ omega arith ]) new in
    let (k', run, r) =
      freerange_loop-Freed fuel n (suc f) vend (f ∷ fs) (freed k f) (omega arith) (omega arith)
        (omega arith) (omega arith) (omega arith) (freed-IsFreeList k f fs v p away)
        (
          inl (omega arith),
          All-map fs (λ g d. elim d [ inl a ↦ inl (omega arith) | inr b ↦ inr (omega arith) ]) new,
        ) in
    (
      k',
      rw (next_page f (omega arith), le→leb (page_va (suc f)) vend (omega arith))
          (rw (kfree-ok k f p v.unlocked) run),
      record {
        list = r.list;
        outside = λ i h.
            r.outside i (elim h [ inl a ↦ inl (omega arith) | inr b ↦ inr (omega arith) ])
            ∙ freed_away k f i (elim h [ inl a ↦ λ e. omega arith | inr b ↦ λ e. omega arith ]);
        same_refs = r.same_refs;
        same_end = r.same_end;
        same_use = r.same_use;
      },
    )

-- freerange ends and puts the whole pages of its range on the free list, in order, so that the last
-- is the head; memory outside those pages and all reference counts stay.
freerange_lem :
    (k : Machine) (vstart vend f n : ℕ) (fs : List ℕ)
    → Covers vstart vend f n
    → k.kernel_end ≤ page_va f
    → IsFreeList k fs
    → All (λ g. (g < f) ⊎ (f + n ≤ g)) fs
    → (k' : Machine) × (freerange vstart vend k ≡ ok tt k')
      × IsFreeList k' (push_frames f n fs)
      × ((i : ℕ) → ((i / 512 < f) ⊎ (f + n ≤ i / 512)) → k'.mem i ≡ k.mem i)
      × (k'.refs ≡ k.refs)
unfolding freerange
freerange_lem k vstart vend f n fs c low v new =
    let (k', run, r) =
      freerange_loop-Freed (suc nframes) n f vend fs k (omega (arith, c.ram)) c.low c.high c.ram low
        v new in
    (k', rw c.start run, r.list, r.outside, r.same_refs)

-- kinit1 ends with exactly the whole pages of its range free, none of them referenced, and locking
-- off, whatever the state of the allocator before.
kinit1_lem :
    (k : Machine) (vstart vend f n : ℕ)
    → Covers vstart vend f n
    → k.kernel_end ≤ page_va f
    → (k' : Machine) × (kinit1 vstart vend k ≡ ok tt k')
      × IsFreeList k' (push_frames f n [])
      × (length (push_frames f n []) ≡ n)
      × ((g : ℕ) → k'.refs g ≡ 0)
      × (k'.use_lock ≡ false)
unfolding kinit1 freerange
kinit1_lem k vstart vend f n c low =
    let (k', run, r) =
      freerange_loop-Freed (suc nframes) n f vend []
        (record k {
          refs = λ _. 0;
          checksum = λ _. 0;
          freelist = 0;
          use_lock = false;
          lock_held = false;
        })
        (omega (arith, c.ram)) c.low c.high c.ram low
        (record { chain = refl; frames = tt; distinct = tt; unlocked = refl }) tt in
    (
      k',
      rw c.start run,
      r.list,
      omega (arith, length-push_frames f n []),
      λ g. ap (λ h. h g) r.same_refs,
      r.same_use,
    )

-- kinit2 adds the whole pages of its range to the free list and turns locking on.
kinit2_lem :
    (k : Machine) (vstart vend f n : ℕ) (fs : List ℕ)
    → Covers vstart vend f n
    → k.kernel_end ≤ page_va f
    → IsFreeList k fs
    → All (λ g. (g < f) ⊎ (f + n ≤ g)) fs
    → (k' : Machine) × (kinit2 vstart vend k ≡ ok tt k')
      × IsFreeList k' (push_frames f n fs)
      × (k'.use_lock ≡ true)
unfolding kinit2
kinit2_lem k vstart vend f n fs c low v new =
    let (k', run, list, _, _) = freerange_lem k vstart vend f n fs c low v new in
    (
      record k' { use_lock = true },
      rw run,
      record {
        chain = list.chain;
        frames = list.frames;
        distinct = list.distinct;
        unlocked = list.unlocked;
      },
      refl,
    )
