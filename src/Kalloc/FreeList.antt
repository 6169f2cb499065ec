-- ===== src/Kalloc/FreeList.antt =====
-- The free list of kalloc.c: a chain of pages through the first words of the pages themselves.
use cs461_hw.Base.{
  All-map, ℕ, ◌*◌, ◌/◌, ◌≤◌, ◌<◌, ◌≡◌, ◌≢◌, false, List, [], ◌∷◌, arith, All, Distinct, length,
  length-le_of_Distinct, ==_of_ne,
}
use cs461_hw.Machine.{nframes, Machine}
use cs461_hw.Machine.Words.{write}
use cs461_hw.Kalloc.Pages.{page_va}

-- From `p` the first words of the frames lead through all of `fs`, and end at 0.
abbrev pub Chain : (ℕ → ℕ) → ℕ → List ℕ → Type 0
Chain m p [] = p ≡ 0
Chain m p (f ∷ fs) = (p ≡ page_va f) × Chain m (m (f * 512)) fs

-- A frame that kfree accepts: whole in RAM, not below the end of the kernel.
abbrev pub IsFrame : ℕ → ℕ → Type 0
IsFrame kernel_end f = (kernel_end ≤ page_va f) × (f < nframes)

-- The free frames of `k` are `fs`, in the order of the list; no lock is held.
pub record IsFreeList (k : Machine) (fs : List ℕ) : Type 0 where
  pub chain : Chain k.mem k.freelist fs
  pub frames : All (IsFrame k.kernel_end) fs
  pub distinct : Distinct fs
  pub unlocked : k.lock_held ≡ false

pub Chain-same :
    (m m' : ℕ → ℕ) (p : ℕ) (fs : List ℕ)
    → Chain m p fs
    → All (λ f. m' (f * 512) ≡ m (f * 512)) fs
    → Chain m' p fs
Chain-same m m' p [] c s = c
Chain-same m m' p (f ∷ fs) c s = (c.0, rw s.0 (Chain-same m m' (m (f * 512)) fs c.1 s.1))

-- Writing over a frame that is not on the list leaves the chain.
pub Chain-away :
    (m m' : ℕ → ℕ) (p f : ℕ) (fs : List ℕ)
    → ((i : ℕ) → i / 512 ≢ f → m' i ≡ m i)
    → All (λ g. f ≢ g) fs
    → Chain m p fs
    → Chain m' p fs
Chain-away m m' p f fs same away c =
    Chain-same m m' p fs c (All-map fs (λ g ne. same (g * 512) (λ e. ne (omega arith))) away)

pub length-le : (k : Machine) (fs : List ℕ) → IsFreeList k fs → length fs ≤ nframes
length-le k fs v = length-le_of_Distinct nframes fs (All-map fs (λ f b. b.1) v.frames) v.distinct

-- A store to a word of a frame that is not on the list.
pub IsFreeList-write :
    (k : Machine) (w x : ℕ) (fs : List ℕ)
    → IsFreeList k fs
    → All (λ f. w / 512 ≢ f) fs
    → IsFreeList (record k { mem = write k.mem w x }) fs
IsFreeList-write k w x fs v away = record {
  chain =
      Chain-away k.mem (write k.mem w x) k.freelist (w / 512) fs
        (λ i ne. rw (==_of_ne w i (λ e. ne (omega arith)))) away v.chain;
  frames = v.frames;
  distinct = v.distinct;
  unlocked = v.unlocked;
}

pub IsFreeList-refs :
    (k : Machine) (r : ℕ → ℕ) (fs : List ℕ)
    → IsFreeList k fs
    → IsFreeList (record k { refs = r }) fs
IsFreeList-refs k r fs v = record {
  chain = v.chain;
  frames = v.frames;
  distinct = v.distinct;
  unlocked = v.unlocked;
}
