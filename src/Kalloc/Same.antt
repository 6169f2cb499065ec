-- ===== src/Kalloc/Same.antt =====
-- update_checksum and frames_are_identical: when two frames count as equal.
use cs461_hw.Base.{
  ℕ, zero, suc, ◌+◌, ◌*◌, ◌/◌, ◌%◌, ◌^◌, ◌<◌, ◌≡◌, ◌≢◌, ◌↔◌, refl, ◌∙◌, ap, sym, fun_ext, Bool,
  true, ◌&&◌, arith, ◌==◌, ==_iff, lt→ltb, ==_refl, ==_of_ne, Bool-cases, inl, inr,
}
use cs461_hw.Machine.{
  nframes, page_words, pgindex, v2p, p2v, Machine, ok, set_checksum, get_checksum,
}
use cs461_hw.Machine.Words.{write, SameFrame, sum_words, same_words}
use cs461_hw.Kalloc.{update_checksum, frames_are_identical}
use cs461_hw.Kalloc.Pages.{p2v-frame, word-page_va}

-- The sum that update_checksum computes of frame `f`.
abbrev pub frame_sum : (ℕ → ℕ) → ℕ → ℕ
frame_sum m f = sum_words m (f * 512) page_words 0

suc_index : (a i : ℕ) → a + 1 + i ≡ a + suc i
suc_index a i = omega arith

zero_index : (a : ℕ) → a + 0 ≡ a
zero_index a = omega arith

same_words→eq :
    (m : ℕ → ℕ) (n a b i : ℕ) → same_words m a b n ≡ true → i < n → m (a + i) ≡ m (b + i)
unfolding same_words
same_words→eq m zero a b i e h = absurd (omega arith)
same_words→eq m (suc n) a b zero e h = rw (zero_index a, zero_index b) (ground arith)
same_words→eq m (suc n) a b (suc i) e h =
    rw (← suc_index a i, ← suc_index b i)
      (same_words→eq m n (a + 1) (b + 1) i (ground arith) (omega arith))

eq→same_words :
    (m : ℕ → ℕ) (n a b : ℕ) → ((i : ℕ) → i < n → m (a + i) ≡ m (b + i)) → same_words m a b n ≡ true
unfolding same_words
eq→same_words m zero a b h = refl
eq→same_words m (suc n) a b h =
    let first : m a ≡ m b = rw (zero_index a, zero_index b) at (h 0 (omega arith)) in
    rw (first, ==_refl (m b))
      (eq→same_words m n (a + 1) (b + 1)
        (λ i l. rw (suc_index a i, suc_index b i) (h (suc i) (omega arith))))

sum_words-same :
    (m : ℕ → ℕ) (n a b acc : ℕ)
    → ((i : ℕ) → i < n → m (a + i) ≡ m (b + i))
    → sum_words m a n acc ≡ sum_words m b n acc
unfolding sum_words
sum_words-same m zero a b acc h = refl
sum_words-same m (suc n) a b acc h =
    let first : m a ≡ m b = rw (zero_index a, zero_index b) at (h 0 (omega arith)) in
    rw first (
      sum_words-same m n (a + 1) (b + 1) ((acc + m b) % 2 ^ 64)
        (λ i l. rw (suc_index a i, suc_index b i) (h (suc i) (omega arith))))

frame_index : (f : ℕ) → f < nframes → pgindex (f * 4096) ≡ f
frame_index f h = omega arith

frame_address : (f : ℕ) → f < nframes → v2p (p2v (f * 4096)) / 8 ≡ f * 512
frame_address f h = rw (p2v-frame f h) (word-page_va f h)

-- `frameinfo[f].checksum = c`.
abbrev pub summed : Machine → ℕ → Machine
summed k f = record k { checksum = write k.checksum f (frame_sum k.mem f) }

write_twice : (c : ℕ → ℕ) (f a b : ℕ) → write (write c f a) f b ≡ write c f b
write_twice c f a b = fun_ext λ i. ground arith

pub update_checksum-ok :
    (k : Machine) (f : ℕ) → f < nframes → update_checksum (f * 4096) k ≡ ok tt (summed k f)
unfolding update_checksum set_checksum
update_checksum-ok k f h =
    rw (frame_index f h, lt→ltb f nframes h, frame_address f h)
      (rw (lt→ltb f nframes h) (
        ap (λ c. ok tt (record k { checksum = c }))
          (write_twice k.checksum f 0 (frame_sum k.mem f))))

pub frames_are_identical-ok :
    (k : Machine) (f g : ℕ)
    → f < nframes
    → g < nframes
    → frames_are_identical (f * 4096) (g * 4096) k
      ≡ ok ((k.checksum f == k.checksum g) && same_words k.mem (f * 512) (g * 512) page_words) k
unfolding frames_are_identical get_checksum
frames_are_identical-ok k f g h l = rw (
  frame_index f h,
  frame_index g l,
  lt→ltb f nframes h,
  lt→ltb g nframes l,
  frame_address f h,
  frame_address g l,
)

-- With both checksums up to date, the test is the equality of the frames: a checksum that matches
-- never hides a difference, and equal frames have equal checksums.
pub identical_iff :
    (k : Machine) (f g : ℕ)
    → k.checksum f ≡ frame_sum k.mem f
    → k.checksum g ≡ frame_sum k.mem g
    → (((k.checksum f == k.checksum g) && same_words k.mem (f * 512) (g * 512) page_words) ≡ true)
      ↔ SameFrame k.mem f g
identical_iff k f g cf cg = (
  λ e i h. same_words→eq k.mem page_words (f * 512) (g * 512) i (ground arith) h,
  λ all.
      both
        ((==_iff _ _).1 (cf ∙ sum_words-same k.mem page_words (f * 512) (g * 512) 0 all ∙ sym cg))
        (eq→same_words k.mem page_words (f * 512) (g * 512) all),
)
  where
    both : {a b : Bool} → a ≡ true → b ≡ true → (a && b) ≡ true
    both p q = rw (p, q)

-- Checksums of two frames updated one after the other, then frames_are_identical: the calls end and
-- answer true exactly if the frames hold the same words. Memory, the counts, the free list with its
-- lock, and the checksums of all other frames stay as they were.
pub frames_are_identical_iff :
    (k : Machine) (f g : ℕ)
    → f < nframes
    → g < nframes
    → (k1 k2 : Machine) × (b : Bool) × (update_checksum (f * 4096) k ≡ ok tt k1)
      × (update_checksum (g * 4096) k1 ≡ ok tt k2)
      × (frames_are_identical (f * 4096) (g * 4096) k2 ≡ ok b k2)
      × ((b ≡ true) ↔ SameFrame k.mem f g)
      × ((h : ℕ) → f ≢ h → g ≢ h → k2.checksum h ≡ k.checksum h)
      × (k2.mem ≡ k.mem)
      × (k2.refs ≡ k.refs)
      × (k2.freelist ≡ k.freelist)
      × (k2.use_lock ≡ k.use_lock)
      × (k2.lock_held ≡ k.lock_held)
      × (k2.kernel_end ≡ k.kernel_end)
frames_are_identical_iff k f g h l =
    let k1 : Machine = summed k f in
    let k2 : Machine = summed k1 g in
    (
      k1,
      k2,
      _,
      update_checksum-ok k f h,
      update_checksum-ok k1 g l,
      frames_are_identical-ok k2 f g h l,
      identical_iff k2 f g (old f g (frame_sum k.mem g) k1.checksum (rw (==_refl f)))
          (rw (==_refl g)),
      λ h' a b. rw (==_of_ne g h' b, ==_of_ne f h' a) refl,
      refl,
      refl,
      refl,
      refl,
      refl,
      refl,
    )
  where
    old :
        (f g s : ℕ) (c : ℕ → ℕ)
        → c f ≡ frame_sum k.mem f
        → write c g (frame_sum k.mem g) f ≡ frame_sum k.mem f
    old f g s c e = elim (Bool-cases (g == f)) [ inl q ↦ rw (q, (==_iff g f).0 q) | inr q ↦ rw q e ]
