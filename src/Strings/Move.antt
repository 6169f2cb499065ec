-- ===== src/Strings/Move.antt =====
-- memmove: overlapping ranges are copied as if through a buffer.
use cs461_hw.Base.{
  ℕ, zero, suc, ◌+◌, ◌-◌, ◌≤◌, ◌≡◌, ◌≢◌, ◌⊎◌, true, false, inl, inr, arith, ◌==◌, ltb,
  if◌then◌else◌, Bool-cases, ◌∙◌, ==_of_ne,
}
use cs461_hw.Strings.{Memory, put, forward, backward, memmove}
use cs461_hw.Strings.Set.{in_range}

-- What address `a` holds once the `n` bytes at `s` have been copied to `d`.
abbrev moved : Memory → ℕ → ℕ → ℕ → ℕ → ℕ
moved m d s n a = if in_range d n a then m (s + (a - d)) else m a

forward_lem :
    (m : Memory) (d s n a : ℕ) → (d ≤ s) ⊎ (s + n ≤ d) → forward m d s n a ≡ moved m d s n a
unfolding forward
forward_lem m d s zero a h = ground arith
forward_lem m d s (suc n) a h =
    forward_lem (put m d (m s)) (d + 1) (s + 1) n a
      (elim h [ inl l ↦ inl (omega arith) | inr r ↦ inr (omega arith) ])
    ∙ elim (Bool-cases (in_range (d + 1) n a)) [
      | inl e ↦
          let inside : in_range d (suc n) a ≡ true = ground arith in
          let other : d ≢ s + 1 + (a - (d + 1)) =
            λ q. elim h [ inl l ↦ ground arith | inr r ↦ ground arith ] in
          let index : s + 1 + (a - (d + 1)) ≡ s + (a - d) = ground arith in
          rw (e, inside, ==_of_ne _ _ other) (rw index)
      | inr e ↦ rw e (forward_first m d s n a e)
    ]
  where
    forward_first :
        (m : Memory) (d s n a : ℕ)
        → in_range (d + 1) n a ≡ false
        → put m d (m s) a ≡ moved m d s (suc n) a
    forward_first m d s n a e = elim (Bool-cases (d == a)) [
      | inl q ↦
          let index : s + (a - d) ≡ s = ground arith in
          let inside : in_range d (suc n) a ≡ true = ground arith in rw (q, inside, index)
      | inr q ↦ let outside : in_range d (suc n) a ≡ false = ground arith in rw (q, outside)
    ]

backward_lem : (m : Memory) (d s n a : ℕ) → s ≤ d → backward m (d + n) (s + n) n a ≡ moved m d s n a
unfolding backward
backward_lem m d s zero a h = ground arith
backward_lem m d s (suc n) a h =
    let top : d + suc n - 1 ≡ d + n = omega arith in
    let top' : s + suc n - 1 ≡ s + n = omega arith in
    rw (top, top')
      (backward_lem (put m (d + n) (m (s + n))) d s n a h ∙ elim (Bool-cases (in_range d n a)) [
        | inl e ↦
            let inside : in_range d (suc n) a ≡ true = ground arith in
            let other : d + n ≢ s + (a - d) = λ q. ground arith in
            rw (e, inside, ==_of_ne _ _ other)
        | inr e ↦ rw e (backward_last m d s n a e)
      ])
  where
    backward_last :
        (m : Memory) (d s n a : ℕ)
        → in_range d n a ≡ false
        → put m (d + n) (m (s + n)) a ≡ moved m d s (suc n) a
    backward_last m d s n a e = elim (Bool-cases ((d + n) == a)) [
      | inl q ↦
          let index : s + (a - d) ≡ s + n = ground arith in
          let inside : in_range d (suc n) a ≡ true = ground arith in rw (q, inside, index)
      | inr q ↦ let outside : in_range d (suc n) a ≡ false = ground arith in rw (q, outside)
    ]

-- After memmove the `n` addresses from `dst` on hold what the `n` from `src` on held before, and no
-- other address changes, however the two ranges overlap.
pub memmove-moved : (m : Memory) (dst src n a : ℕ) → memmove m dst src n a ≡ moved m dst src n a
unfolding memmove
memmove-moved m dst src n a = elim (Bool-cases (ltb src dst)) [
  | inl l ↦ elim (Bool-cases (ltb dst (src + n))) [
    | inl r ↦ rw (l, r) (backward_lem m dst src n a (ground arith))
    | inr r ↦ rw (l, r) (forward_lem m dst src n a (inr (ground arith)))
  ]
  | inr l ↦ rw l (forward_lem m dst src n a (inl (ground arith)))
]
