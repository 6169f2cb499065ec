-- ===== src/Fs/Balloc.antt =====
-- balloc and bfree on the bitmap.
use cs461_hw.Base.{
  ℕ, zero, suc, ◌+◌, ◌-◌, ◌*◌, ◌/◌, ◌%◌, ◌≡◌, ◌≤◌, ◌<◌, inl, inr, refl, sym, ap, ◌∙◌, min, Bool,
  true, false, Option, none, some, ltb, arith, Bool-cases, ltb→lt, ltb→ge,
}
use native.Mathlib.Decide.{dec_lt}
use cs461_hw.Fs.{
  bpb, Fs, Out, ok, panic, bblock, log_write, set_bit, bzero, clear_bit, take_bit, balloc_from,
  balloc,
}

-- The bit of block `b`.
abbrev pub used : Fs → ℕ → Bool
used fs b = fs.bits (bblock b fs.sb) (b % bpb)

-- What clear_bit finds among `n` bits from `bi` on.
abbrev Clear : (n bi : ℕ) (bits : ℕ → Bool) → Option ℕ → Type 0
Clear n bi bits (some k) =
    (bi ≤ k) × (k < bi + n) × (bits k ≡ false) × ((j : ℕ) → bi ≤ j → j < k → bits j ≡ true)
Clear n bi bits none = (j : ℕ) → bi ≤ j → j < bi + n → bits j ≡ true

Clear-later :
    (n bi : ℕ) (bits : ℕ → Bool) (r : Option ℕ)
    → bits bi ≡ true
    → Clear n (suc bi) bits r
    → Clear (suc n) bi bits r
Clear-later n bi bits none e c = λ j l m. elim (dec_lt bi j) [
  | yes k ↦ c j (omega arith) (omega arith)
  | no k ↦ let here : bi ≡ j = omega arith in rw (sym here) e
]
Clear-later n bi bits (some k) e c = (
  omega (arith, c.0),
  omega (arith, c.1),
  c.2,
  λ j l m. elim (dec_lt bi j) [
    | yes q ↦ c.3 j (omega arith) m
    | no q ↦ let here : bi ≡ j = omega arith in rw (sym here) e
  ],
)

clear_bit-Clear : (n bi : ℕ) (bits : ℕ → Bool) → Clear n bi bits (clear_bit n bi bits)
unfolding clear_bit
clear_bit-Clear zero bi bits = λ j l m. absurd (omega arith)
clear_bit-Clear (suc n) bi bits = elim (Bool-cases (bits bi)) [
  | inl e ↦
      rw e (Clear-later n bi bits (clear_bit n (suc bi) bits) e (clear_bit-Clear n (suc bi) bits))
  | inr e ↦ rw e (omega arith, omega arith, e, λ j l m. absurd (omega arith))
]

-- The disk behind the allocation of block `b`.
abbrev pub allocated : Fs → ℕ → Fs
allocated fs b =
    let block = bblock b fs.sb in bzero (log_write (set_bit fs block (b % bpb) true) block) b

-- How balloc ends: with the first free block, or in a panic if there is none.
abbrev pub Allocates : Fs → Out (ℕ × Fs) → Type 0
Allocates fs (ok (b, fs')) =
    (b < fs.sb.size)
    × (used fs b ≡ false)
    × ((c : ℕ) → c < b → used fs c ≡ true)
    × (fs' ≡ allocated fs b)
Allocates fs panic = (c : ℕ) → c < fs.sb.size → used fs c ≡ true

-- The bitmap block of a multiple `b` of bpb has the bits of the blocks from `b` on.
module _ (fs : Fs) (b q : ℕ) (e : b ≡ bpb * q) where
  same_block : (k : ℕ) → k < bpb → (b + k) / bpb ≡ b / bpb
  same_block k h = omega arith

  same_bit : (k : ℕ) → k < bpb → (b + k) % bpb ≡ k
  same_bit k h = omega arith

  used_at : (k : ℕ) → k < bpb → used fs (b + k) ≡ fs.bits (bblock b fs.sb) k
  used_at k h =
      ap (λ x. fs.bits (x + fs.sb.bmapstart) ((b + k) % bpb)) (same_block k h)
      ∙ ap (fs.bits (bblock b fs.sb)) (same_bit k h)

  abbrev n : ℕ
  n = min bpb (fs.sb.size - b)

  -- A block from `b` on, by its distance.
  used_from :
      (c m : ℕ)
      → m ≤ bpb
      → b ≤ c
      → c < b + m
      → ((j : ℕ) → 0 ≤ j → j < m → fs.bits (bblock b fs.sb) j ≡ true)
      → used fs c ≡ true
  used_from c m h l g all =
      let same : b + (c - b) ≡ c = omega arith in
      ap (used fs) (sym same)
      ∙ used_at (c - b) (omega arith)
      ∙ all (c - b) (omega arith) (omega arith)

  take_bit-Allocates :
      (rest : Out (ℕ × Fs)) (r : Option ℕ)
      → Clear n 0 (fs.bits (bblock b fs.sb)) r
      → b < fs.sb.size
      → ((c : ℕ) → c < b → c < fs.sb.size → used fs c ≡ true)
      → (((c : ℕ) → c < b + bpb → c < fs.sb.size → used fs c ≡ true) → Allocates fs rest)
      → Allocates fs (take_bit fs b rest r)
  unfolding take_bit
  take_bit-Allocates rest none c h before later = later (λ k l m. elim (dec_lt k b) [
    | yes low ↦ before k low m
    | no high ↦
        used_from k n (omega arith) (omega arith) (omega arith) (λ j l m. c j l (omega arith))
  ])
  take_bit-Allocates rest (some bi) c h before later =
      let small : bi < bpb = omega (arith, c.1) in
      (
        omega (arith, c.1),
        used_at bi small ∙ c.2,
        λ k l. elim (dec_lt k b) [
          | yes low ↦ before k low (omega (arith, c.1))
          | no high ↦ used_from k bi (omega arith) (omega arith) (omega arith) c.3
        ],
        rw (same_block bi small, same_bit bi small) refl,
      )

balloc_from-Allocates :
    (fuel b q : ℕ) (fs : Fs)
    → b ≡ bpb * q
    → fs.sb.size ≤ b + bpb * fuel
    → ((c : ℕ) → c < b → c < fs.sb.size → used fs c ≡ true)
    → Allocates fs (balloc_from fuel b fs)
unfolding balloc_from
balloc_from-Allocates zero b q fs e h before = λ c l. before c (omega arith) l
balloc_from-Allocates (suc fuel) b q fs e h before =
    let bits = fs.bits (bblock b fs.sb) in
    elim (Bool-cases (ltb b fs.sb.size)) [
      | inr out ↦ rw out (λ c l. before c (omega (arith, ltb→ge b fs.sb.size out)) l)
      | inl inside ↦ rw inside (
          take_bit-Allocates fs b q e (balloc_from fuel (b + bpb) fs)
            (clear_bit (min bpb (fs.sb.size - b)) 0 bits)
            (clear_bit-Clear (min bpb (fs.sb.size - b)) 0 bits) (ltb→lt b fs.sb.size inside) before
            (λ all.
              balloc_from-Allocates fuel (b + bpb) (suc q) fs (omega arith) (omega arith) all))
    ]

-- balloc ends with the first free block of the disk and the disk `allocated`, or in a panic if every
-- block is in use.
pub balloc-Allocates : (fs : Fs) → Allocates fs (balloc fs)
unfolding balloc
balloc-Allocates fs =
    balloc_from-Allocates (fs.sb.size / bpb + 1) 0 0 fs (omega arith) (omega arith)
      (λ c l m. absurd (omega arith))
