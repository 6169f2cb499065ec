-- ===== src/Kalloc/Free.antt =====
-- kfree: what it does to the free list, and when it panics.
use cs461_hw.Base.{
  ℕ, ◌*◌, ◌/◌, ◌%◌, ◌≡◌, ◌≢◌, inl, inr, refl, true, false, List, ◌∷◌, arith, ◌==◌, ltb, leb, All,
  Bool-cases, ==_refl, if◌then◌else◌,
}
use cs461_hw.Machine.{pgsize, phystop, v2p, Machine, ok, acquire, release}
use cs461_hw.Machine.Words.{write, fill}
use cs461_hw.Kalloc.{kfree}
use cs461_hw.Kalloc.Pages.{page_va, v2p-page_va, memset_page-page_va, store64-page_va}
use cs461_hw.Kalloc.FreeList.{IsFrame, IsFreeList, Chain-away}

abbrev junk : ℕ
junk = 1 * 0x0101_0101_0101_0101

-- The machine after kfree of frame `f`: the frame is filled with junk, and its first word leads to
-- the old list.
abbrev pub freed : Machine → ℕ → Machine
freed k f = record k { mem = write (fill k.mem f junk) (f * 512) k.freelist; freelist = page_va f }

kfree_guard :
    (k : Machine) (f : ℕ)
    → IsFrame k.kernel_end f
    → ((page_va f % pgsize == 0) ≡ true)
      × (ltb (page_va f) k.kernel_end ≡ false)
      × (leb phystop (v2p (page_va f)) ≡ false)
kfree_guard k f p = (ground arith, ground arith, rw (v2p-page_va f p.1) (ground arith))

pub kfree-ok :
    (k : Machine) (f : ℕ)
    → IsFrame k.kernel_end f
    → k.lock_held ≡ false
    → kfree (page_va f) k ≡ ok tt (freed k f)
unfolding kfree acquire release
kfree-ok k f p free =
    let g = kfree_guard k f p in
    rw (g.0, g.1, g.2, memset_page-page_va k f p.1 1)
      (elim (Bool-cases k.use_lock) [
        | inl u ↦ rw (u, free) (rw (store64-page_va _ f p.1))
        | inr u ↦ rw u (rw (store64-page_va _ f p.1))
      ])

freed_word :
    (k : Machine) (f i : ℕ)
    → (freed k f).mem i
      ≡ (if f * 512 == i then k.freelist else if i / 512 == f then junk else k.mem i)
freed_word k f i = refl

pub freed_away : (k : Machine) (f i : ℕ) → i / 512 ≢ f → (freed k f).mem i ≡ k.mem i
freed_away k f i h = ground arith

pub freed-IsFreeList :
    (k : Machine) (f : ℕ) (fs : List ℕ)
    → IsFreeList k fs
    → IsFrame k.kernel_end f
    → All (λ g. f ≢ g) fs
    → IsFreeList (freed k f) (f ∷ fs)
freed-IsFreeList k f fs v p new = record {
  chain = (
    refl,
    rw (freed_word k f (f * 512), ==_refl (f * 512))
        (Chain-away k.mem (freed k f).mem k.freelist f fs (freed_away k f) new v.chain),
  );
  frames = (p, v.frames);
  distinct = (new, v.distinct);
  unlocked = v.unlocked;
}

-- kfree of a frame that is in RAM, above the kernel and not yet free succeeds: the frame becomes
-- the head of the free list, the rest of the list is as before, and no word of another frame and
-- no reference count changes.
kfree-push :
    (k : Machine) (f : ℕ) (fs : List ℕ)
    → IsFreeList k fs
    → IsFrame k.kernel_end f
    → All (λ g. f ≢ g) fs
    → (k' : Machine) × (kfree (page_va f) k ≡ ok tt k')
      × IsFreeList k' (f ∷ fs)
      × ((i : ℕ) → i / 512 ≢ f → k'.mem i ≡ k.mem i)
      × (k'.refs ≡ k.refs)
kfree-push k f fs v p new =
    (freed k f, kfree-ok k f p v.unlocked, freed-IsFreeList k f fs v p new, freed_away k f, refl)
