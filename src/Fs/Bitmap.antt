-- ===== src/Fs/Bitmap.antt =====
-- The bitmap behind balloc and bfree: each changes the bit of one block.
use cs461_hw.Base.{
  ℕ, ◌+◌, ◌/◌, ◌%◌, ◌≡◌, ◌≢◌, ◌<◌, inl, inr, refl, sym, ap, ◌∙◌, Bool, true, false, ◌∷◌, ◌==◌,
  if◌then◌else◌, arith, Bool-cases, if_refl, if_false, ==_iff, ==_refl, ==_of_ne, ne_of_==,
}
use cs461_hw.Fs.{bpb, Fs, Out, ok, panic, bblock, log_write, set_bit, bzero, balloc, bfree}
use cs461_hw.Fs.Balloc.{used, allocated, Allocates, balloc-Allocates}

pub used-set_bit :
    (fs : Fs) (b c : ℕ) (x : Bool)
    → used (set_bit fs (bblock b fs.sb) (b % bpb) x) c ≡ (if c == b then x else used fs c)
used-set_bit fs b c x = elim (Bool-cases (c == b)) [
  | inl e ↦
      let same : c ≡ b = (==_iff c b).0 e in
      rw (e, same, ==_refl (b / bpb + fs.sb.bmapstart), ==_refl (b % bpb)) refl
  | inr e ↦
      let apart : c ≢ b = ne_of_== c b e in
      rw e (elim (Bool-cases (c / bpb + fs.sb.bmapstart == b / bpb + fs.sb.bmapstart)) [
        | inr q ↦ rw q refl
        | inl q ↦
            let block : c / bpb + fs.sb.bmapstart ≡ b / bpb + fs.sb.bmapstart =
              (==_iff (c / bpb + fs.sb.bmapstart) (b / bpb + fs.sb.bmapstart)).0 q in
            rw (q, ==_of_ne (c % bpb) (b % bpb) (λ s. apart (omega arith))) refl
      ])
]

pub used-allocated :
    (fs : Fs) (b c : ℕ) → used (allocated fs b) c ≡ (if c == b then true else used fs c)
unfolding bzero
used-allocated fs b c = used-set_bit fs b c true

pub bytes-allocated :
    (fs : Fs) (b c : ℕ) → (allocated fs b).bytes c ≡ (if c == b then (λ i. 0) else fs.bytes c)
unfolding bzero
bytes-allocated fs b c = refl

pub sb-allocated : (fs : Fs) (b : ℕ) → (allocated fs b).sb ≡ fs.sb
unfolding bzero
sb-allocated fs b = refl

-- The disk behind the release of block `b`.
abbrev pub freed : Fs → ℕ → Fs
freed fs b = log_write (set_bit fs (bblock b fs.sb) (b % bpb) false) (bblock b fs.sb)

pub bfree_used : (fs : Fs) (b : ℕ) → used fs b ≡ true → bfree fs b ≡ ok (freed fs b)
unfolding bfree
bfree_used fs b h = rw h refl

-- The disk `fs'` behind the allocation of block `b`: its bit is set and its bytes are 0; every other
-- block keeps its bit and its bytes, and no inode and nothing of the superblock changes.
pub record IsTaken (fs fs' : Fs) (b : ℕ) : Type 0 where
  pub bit : used fs' b ≡ true
  pub zeroed : (i : ℕ) → fs'.bytes b i ≡ 0
  pub other_bits : (c : ℕ) → c ≢ b → used fs' c ≡ used fs c
  pub other_bytes : (c i : ℕ) → c ≢ b → fs'.bytes c i ≡ fs.bytes c i
  pub dinodes : fs'.dinodes ≡ fs.dinodes
  pub sb : fs'.sb ≡ fs.sb
  pub logged : fs'.logged ≡ b ∷ bblock b fs.sb ∷ fs.logged

allocated-IsTaken : (fs : Fs) (b : ℕ) → IsTaken fs (allocated fs b) b
unfolding bzero
allocated-IsTaken fs b = record {
  bit = used-allocated fs b b ∙ if_refl true (used fs b) b;
  zeroed = λ i. rw (==_refl b) refl;
  other_bits = λ c ne. used-allocated fs b c ∙ if_false true (used fs c) (c == b) (==_of_ne c b ne);
  other_bytes = λ c i ne. rw (==_of_ne c b ne) refl;
  dinodes = refl;
  sb = refl;
  logged = refl;
}

-- How balloc ends: with the first free block, or in a panic if there is none.
abbrev pub Takes : Fs → Out (ℕ × Fs) → Type 0
Takes fs (ok (b, fs')) =
    (b < fs.sb.size) × (used fs b ≡ false) × ((c : ℕ) → c < b → used fs c ≡ true) × IsTaken fs fs' b
Takes fs panic = (c : ℕ) → c < fs.sb.size → used fs c ≡ true

Allocates-Takes : (fs : Fs) (r : Out (ℕ × Fs)) → Allocates fs r → Takes fs r
Allocates-Takes fs panic all = all
Allocates-Takes fs (ok (b, fs')) a = (a.0, a.1, a.2, rw a.3 (allocated-IsTaken fs b))

-- balloc takes the first block of the disk whose bit is clear: it sets that bit and no other, fills
-- that block with zeros and changes no other, nor an inode or the superblock, and passes the bitmap
-- block and then the block to log_write. It panics exactly if no bit below the disk's size is clear.
pub balloc-Takes : (fs : Fs) → Takes fs (balloc fs)
balloc-Takes fs = Allocates-Takes fs (balloc fs) (balloc-Allocates fs)

-- With a free block balloc returns one.
abbrev pub Returns : Fs → Out (ℕ × Fs) → Type 0
Returns fs r = (b : ℕ) × ((r ≡ ok (b, allocated fs b)) × ((b < fs.sb.size) × (used fs b ≡ false)))

Returns-of :
    (fs : Fs) (r : Out (ℕ × Fs)) (c : ℕ)
    → c < fs.sb.size
    → used fs c ≡ false
    → Allocates fs r
    → Returns fs r
Returns-of fs panic c l h all = absurd (cc (all c l, h))
Returns-of fs (ok r) c l h all = (r.0, (ap (λ x. ok (r.0, x)) all.3, (all.0, all.1)))

pub balloc-Returns : (fs : Fs) (c : ℕ) → c < fs.sb.size → used fs c ≡ false → Returns fs (balloc fs)
balloc-Returns fs c l h = Returns-of fs (balloc fs) c l h (balloc-Allocates fs)

-- With a free block balloc returns a block, and bfree of that block then succeeds and gives the
-- bitmap that was there before.
balloc-bfree :
    (fs : Fs) (c : ℕ)
    → c < fs.sb.size
    → used fs c ≡ false
    → (b : ℕ) × ((fs' : Fs) × ((fs'' : Fs) × ((balloc fs ≡ ok (b, fs'))
            × ((bfree fs' b ≡ ok fs'') × ((k : ℕ) → used fs'' k ≡ used fs k)))))
balloc-bfree fs c l h =
    let (b, (e, (inside, free))) = balloc-Returns fs c l h in
    let taken : used (allocated fs b) b ≡ true =
      used-allocated fs b b ∙ if_refl true (used fs b) b in
    (
      b,
      (
        allocated fs b,
        (
          freed (allocated fs b) b,
          (
            e,
            (
              bfree_used (allocated fs b) b taken,
              λ k. used-set_bit (allocated fs b) b k false ∙ (elim (Bool-cases (k == b)) [
                | inl q ↦ let same : k ≡ b = (==_iff k b).0 q in rw (q, same) (sym free)
                | inr q ↦
                    ap (λ x. if x then false else used (allocated fs b) k) q
                    ∙ used-allocated fs b k
                    ∙ if_false true (used fs k) (k == b) q
              ]),
            ),
          ),
        ),
      ),
    )

-- bfree of a block that is free already panics.
bfree_free : (fs : Fs) (b : ℕ) → used fs b ≡ false → bfree fs b ≡ panic
unfolding bfree
bfree_free fs b h = rw h refl
