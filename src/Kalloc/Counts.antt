-- ===== src/Kalloc/Counts.antt =====
-- krelease, kretain and krefcount: reference counts of frames.
use cs461_hw.Base.{
  ℕ, ◌+◌, ◌-◌, ◌/◌, ◌%◌, ◌^◌, ◌≤◌, ◌<◌, ◌≡◌, ◌≢◌, ◌⊎◌, inl, inr, refl, false, List, ◌∷◌, arith,
  ◌==◌, All, Bool-cases, ==_refl, ==_of_ne, ne_of_==, ==_iff, if◌then◌else◌, fun_ext, ◌∙◌, ap,
}
use cs461_hw.Machine.{nframes, Machine, ok}
use cs461_hw.Machine.Words.{write}
use cs461_hw.Kalloc.{kfree, krelease, kretain, krefcount}
use cs461_hw.Kalloc.Pages.{page_va, v2p-page_va, p2v-frame, get_refs-page_va, set_refs-page_va}
use cs461_hw.Kalloc.FreeList.{IsFrame, IsFreeList}
use cs461_hw.Kalloc.Free.{freed, kfree-ok, freed-IsFreeList, freed_away}

-- `frameinfo[f].refs = n`.
abbrev pub counted : Machine → ℕ → ℕ → Machine
counted k f n = record k { refs = write k.refs f n }

counted-IsFreeList :
    (k : Machine) (f n : ℕ) (fs : List ℕ) → IsFreeList k fs → IsFreeList (counted k f n) fs
counted-IsFreeList k f n fs v = record {
  chain = v.chain;
  frames = v.frames;
  distinct = v.distinct;
  unlocked = v.unlocked;
}

pub kretain-ok :
    (k : Machine) (f : ℕ)
    → f < nframes
    → kretain (page_va f) k ≡ ok tt (counted k f ((k.refs f + 1) % 2 ^ 32))
unfolding kretain
kretain-ok k f h = rw (get_refs-page_va k f h) (rw (set_refs-page_va k f h _))

-- Before the test of krelease.
krelease_step :
    (k : Machine) (f n : ℕ)
    → f < nframes
    → (k.refs f + 2 ^ 32 - 1) % 2 ^ 32 ≡ n
    → krelease (page_va f) k
      ≡ (if n == 0 then kfree (page_va f) (counted k f n) else ok tt (counted k f n))
unfolding krelease
krelease_step k f n h e = rw (get_refs-page_va k f h) (
    rw e (
      rw (set_refs-page_va k f h n) (
        rw (get_refs-page_va (counted k f n) f h)
          (rw (==_refl f, v2p-page_va f h, p2v-frame f h) (ground arith)))))

krelease_to :
    (k : Machine) (f n : ℕ)
    → f < nframes
    → k.refs f ≡ n + 1
    → 1 ≤ n
    → n + 1 < 2 ^ 32
    → krelease (page_va f) k ≡ ok tt (counted k f n)
krelease_to k f n h e lo hi = rw (krelease_step k f n h (omega arith), ==_of_ne n 0 (omega arith))

krelease_shared :
    (k : Machine) (f : ℕ)
    → f < nframes
    → 1 < k.refs f
    → k.refs f < 2 ^ 32
    → krelease (page_va f) k ≡ ok tt (counted k f (k.refs f - 1))
krelease_shared k f h lo hi =
    krelease_to k f (k.refs f - 1) h (omega arith) (omega arith) (omega arith)

krelease_last :
    (k : Machine) (f : ℕ)
    → IsFrame k.kernel_end f
    → k.lock_held ≡ false
    → k.refs f ≡ 1
    → krelease (page_va f) k ≡ ok tt (freed (counted k f 0) f)
krelease_last k f p free e =
    rw (krelease_step k f 0 p.1 (rw e refl)) (kfree-ok (counted k f 0) f p free)

-- Everything but memory, the counts and the free list.
pub record SameRest (k k' : Machine) : Type 0 where
  pub checksum : k'.checksum ≡ k.checksum
  pub use_lock : k'.use_lock ≡ k.use_lock
  pub lock_held : k'.lock_held ≡ k.lock_held
  pub kernel_end : k'.kernel_end ≡ k.kernel_end

-- What a release of frame `f` leaves.
pub record Released (k k' : Machine) (f : ℕ) (fs : List ℕ) : Type 0 where
  pub fewer : k'.refs f ≡ k.refs f - 1
  pub others : (g : ℕ) → f ≢ g → k'.refs g ≡ k.refs g
  pub list : IsFreeList k' (if k.refs f == 1 then f ∷ fs else fs)
  pub same : (i : ℕ) → ((1 < k.refs f) ⊎ (i / 512 ≢ f)) → k'.mem i ≡ k.mem i
  pub rest : SameRest k k'

-- krelease of a frame with a count of at least 1 lowers that count by one and no other. If
-- references are left, memory and the free list stay as they were; with the last one gone the frame
-- becomes the head of the free list, and no other frame changes.
pub krelease-Released :
    (k : Machine) (f : ℕ) (fs : List ℕ)
    → IsFreeList k fs
    → IsFrame k.kernel_end f
    → All (λ g. f ≢ g) fs
    → 1 ≤ k.refs f
    → k.refs f < 2 ^ 32
    → (k' : Machine) × (krelease (page_va f) k ≡ ok tt k') × Released k k' f fs
krelease-Released k f fs v p new lo hi = elim (Bool-cases (k.refs f == 1)) [
  | inl e ↦
      let one : k.refs f ≡ 1 = (==_iff (k.refs f) 1).0 e in
      (
        freed (counted k f 0) f,
        krelease_last k f p v.unlocked one,
        record {
          fewer = ground arith;
          others = λ g h. ground arith;
          list = rw e (freed-IsFreeList (counted k f 0) f fs (counted-IsFreeList k f 0 fs v) p new);
          same = λ i h. elim h [
            | inl l ↦ absurd (omega arith)
            | inr away ↦ freed_away (counted k f 0) f i away
          ];
          rest = record { checksum = refl; use_lock = refl; lock_held = refl; kernel_end = refl };
        },
      )
  | inr e ↦
      let more : k.refs f ≢ 1 = ne_of_== (k.refs f) 1 e in
      (
        counted k f (k.refs f - 1),
        krelease_shared k f p.1 (omega arith) hi,
        record {
          fewer = ground arith;
          others = λ g h. ground arith;
          list = rw e (counted-IsFreeList k f (k.refs f - 1) fs v);
          same = λ i h. refl;
          rest = record { checksum = refl; use_lock = refl; lock_held = refl; kernel_end = refl };
        },
      )
]

write_back : (r : ℕ → ℕ) (f a : ℕ) → write (write r f a) f (r f) ≡ r
write_back r f a = fun_ext λ g. ground arith

-- krelease after kretain of a frame in use restores the whole machine.
krelease-kretain :
    (k : Machine) (f : ℕ)
    → f < nframes
    → 1 ≤ k.refs f
    → k.refs f + 1 < 2 ^ 32
    → (k' : Machine) × (kretain (page_va f) k ≡ ok tt k')
      × (krefcount (page_va f) k' ≡ ok (k.refs f + 1) k')
      × (krelease (page_va f) k' ≡ ok tt k)
unfolding krefcount
krelease-kretain k f h lo hi =
    let n : ℕ = k.refs f + 1 in
    (
      counted k f n,
      kretain-ok k f h ∙ ap (λ m. ok tt (counted k f m)) (omega arith),
      rw (get_refs-page_va (counted k f n) f h) (rw (==_refl f)),
      krelease_to (counted k f n) f (k.refs f) h (rw (==_refl f)) lo hi
          ∙ ap (λ r. ok tt (record k { refs = r })) (write_back k.refs f n),
    )
