-- ===== src/Kalloc/Alloc.antt =====
-- kalloc: it takes the head of the free list; with no free page it leaves the frame table.
use cs461_hw.Base.{
  ℕ, ◌*◌, ◌/◌, ◌≡◌, ◌≢◌, inl, inr, refl, false, List, [], ◌∷◌, arith, ◌==◌, All, Bool-cases,
  ==_refl,
}
use cs461_hw.Machine.{v2p, Machine, ok, fault, acquire, release, set_refs}
use cs461_hw.Machine.Words.{write}
use cs461_hw.Kalloc.{kfree, kalloc}
use cs461_hw.Kalloc.Pages.{page_va, load64-page_va, set_refs-page_va}
use cs461_hw.Kalloc.FreeList.{IsFrame, IsFreeList}
use cs461_hw.Kalloc.Free.{freed, kfree-ok, freed-IsFreeList, freed_away}

-- The machine after kalloc has returned frame `f`.
abbrev pub taken : Machine → ℕ → Machine
taken k f = record k { freelist = k.mem (f * 512); refs = write k.refs f 1 }

page_va_ne_zero : (f : ℕ) → (page_va f == 0) ≡ false
page_va_ne_zero f = ground arith

pub kalloc-ok :
    (k : Machine) (f : ℕ) (fs : List ℕ)
    → IsFreeList k (f ∷ fs)
    → kalloc k ≡ ok (page_va f) (taken k f)
unfolding kalloc acquire release
kalloc-ok k f fs v = elim (Bool-cases k.use_lock) [
  | inl u ↦
      rw (u, v.unlocked, v.chain.0, page_va_ne_zero f)
        (rw (load64-page_va _ f v.frames.0.1) (rw (set_refs-page_va _ f v.frames.0.1 1)))
  | inr u ↦
      rw (u, v.chain.0, page_va_ne_zero f)
        (rw (load64-page_va _ f v.frames.0.1) (rw (set_refs-page_va _ f v.frames.0.1 1)))
]

taken-IsFreeList :
    (k : Machine) (f : ℕ) (fs : List ℕ) → IsFreeList k (f ∷ fs) → IsFreeList (taken k f) fs
taken-IsFreeList k f fs v = record {
  chain = v.chain.1;
  frames = v.frames.1;
  distinct = v.distinct.1;
  unlocked = v.unlocked;
}

-- With a free page, kalloc returns the head of the free list, which then holds the others; the
-- page has one reference, and no other count and no word of memory changes.
kalloc-pop :
    (k : Machine) (f : ℕ) (fs : List ℕ)
    → IsFreeList k (f ∷ fs)
    → (k' : Machine) × (kalloc k ≡ ok (page_va f) k')
      × IsFreeList k' fs
      × (k'.refs f ≡ 1)
      × ((g : ℕ) → g ≢ f → k'.refs g ≡ k.refs g)
      × (k'.mem ≡ k.mem)
kalloc-pop k f fs v = (
  taken k f,
  kalloc-ok k f fs v,
  taken-IsFreeList k f fs v,
  rw (==_refl f),
  λ g h. ground arith,
  refl,
)

-- With no free page, kalloc does not return 0: it writes the count of frame 2^35, outside the
-- table of 57344 frames.
kalloc_exhausted : (k : Machine) → IsFreeList k [] → kalloc k ≡ fault
unfolding kalloc acquire release v2p set_refs
kalloc_exhausted k v = elim (Bool-cases k.use_lock) [
  | inl u ↦ rw (u, v.unlocked, v.chain)
  | inr u ↦ rw (u, v.chain)
]

-- kalloc directly after kfree returns the page that was freed, and leaves the list as it was.
pub kalloc-kfree :
    (k : Machine) (f : ℕ) (fs : List ℕ)
    → IsFreeList k fs
    → IsFrame k.kernel_end f
    → All (λ g. f ≢ g) fs
    → (k' k'' : Machine) × (kfree (page_va f) k ≡ ok tt k')
      × (kalloc k' ≡ ok (page_va f) k'')
      × IsFreeList k'' fs
      × (k''.freelist ≡ k.freelist)
      × ((i : ℕ) → i / 512 ≢ f → k''.mem i ≡ k.mem i)
kalloc-kfree k f fs v p new =
    let v' = freed-IsFreeList k f fs v p new in
    (
      freed k f,
      taken (freed k f) f,
      kfree-ok k f p v.unlocked,
      kalloc-ok (freed k f) f fs v',
      taken-IsFreeList (freed k f) f fs v',
      rw (==_refl (f * 512)),
      freed_away k f,
    )
