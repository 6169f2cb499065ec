-- ===== src/Syscall/Pointer.antt =====
-- argptr: it tests the low half of a pointer and hands over the whole.
use cs461_hw.Base.{
  ℕ, ◌+◌, ◌*◌, ◌%◌, ◌^◌, ◌≡◌, ◌≤◌, ◌<◌, ◌⊎◌, inl, inr, refl, sym, ap, ◌∙◌, false, Option, none,
  some, ltb, leb, if◌then◌else◌, arith, Bool-cases, le→leb, leb_of_lt, ltb→lt, ltb→ge,
}
use native.Mathlib.Decide.{dec_le}
use cs461_hw.Syscall.{User, fetcharg, argaddr, argptr, bad_pointer}

-- A pointer below 4 GB is handed over exactly if its block lies below the size of the process.
abbrev pub Bounded : User → (i size : ℕ) → Option ℕ → Type 0
Bounded u i size (some p) = (p ≡ i) × (i < u.sz) × (i + size ≤ u.sz)
Bounded u i size none = (2 ^ 31 ≤ size) ⊎ ((u.sz ≤ i) ⊎ (u.sz < i + size))

argptr_tests :
    (u : User) (n size i : ℕ)
    → fetcharg u n ≡ some i
    → argptr u n size ≡ some (if bad_pointer u i size then none else some i)
unfolding argptr argaddr
argptr_tests u n size i e = rw e refl

tests-Bounded :
    (u : User) (i size : ℕ)
    → u.sz ≤ 2 ^ 31
    → i < 2 ^ 32
    → Bounded u i size (if bad_pointer u i size then none else some i)
unfolding bad_pointer
tests-Bounded u i size small low = elim (dec_le (2 ^ 31) size) [
  | yes negative ↦ rw (le→leb (2 ^ 31) size negative) (inl negative)
  | no positive ↦
      let nonneg : leb (2 ^ 31) size ≡ false = leb_of_lt (2 ^ 31) size (omega arith) in
      let half : i % 2 ^ 32 ≡ i = omega arith in
      elim (dec_le u.sz i) [
        | yes out ↦ rw (nonneg, half, le→leb u.sz i out) (inr (inl out))
        | no inside ↦
            let start : leb u.sz i ≡ false = leb_of_lt u.sz i (omega arith) in
            let whole : (i + size) % 2 ^ 32 ≡ i + size = omega arith in
            elim (Bool-cases (ltb u.sz (i + size))) [
              | inl q ↦ rw (nonneg, half, start, whole, q) (inr (inr (ltb→lt u.sz (i + size) q)))
              | inr q ↦
                  rw (nonneg, half, start, whole, q) (refl, omega arith, ltb→ge u.sz (i + size) q)
            ]
      ]
]

-- For a process of at most 2 GB and a pointer below 4 GB, argptr hands over the pointer if the whole
-- block lies in the process, and returns -1 if it does not or the size is negative.
pub argptr-Bounded :
    (u : User) (n size i : ℕ)
    → u.sz ≤ 2 ^ 31
    → fetcharg u n ≡ some i
    → i < 2 ^ 32
    → (r : Option ℕ) × ((argptr u n size ≡ some r) × Bounded u i size r)
argptr-Bounded u n size i small e low = (
  (if bad_pointer u i size then none else some i),
  (argptr_tests u n size i e, tests-Bounded u i size small low),
)

-- The high half of a pointer is not tested: whatever argptr hands over for `i`, it hands over the
-- pointer 2^32 * k bytes further on for that one, which lies outside a process of at most 4 GB.
pub argptr_high :
    (u v : User) (n size i k : ℕ)
    → fetcharg u n ≡ some i
    → fetcharg v n ≡ some (i + 2 ^ 32 * k)
    → v.sz ≡ u.sz
    → u.sz ≤ 2 ^ 32
    → 0 < k
    → argptr u n size ≡ some (some i)
    → (argptr v n size ≡ some (some (i + 2 ^ 32 * k))) × (v.sz ≤ i + 2 ^ 32 * k)
unfolding bad_pointer
argptr_high u v n size i k e e' same small h accepted =
    let j : ℕ = i + 2 ^ 32 * k in
    let half : j % 2 ^ 32 ≡ i % 2 ^ 32 = omega arith in
    let tests : bad_pointer v j size ≡ bad_pointer u i size = rw (same, half) refl in
    let passed : bad_pointer u i size ≡ false = elim (Bool-cases (bad_pointer u i size)) [
      | inl q ↦ absurd (
          cc (
            sym (argptr_tests u n size i e) ∙ accepted,
            ap (λ b. some (if b then none else some i)) q,
          ))
      | inr q ↦ q
    ] in
    (
      argptr_tests v n size j e' ∙ ap (λ b. some (if b then none else some j)) (tests ∙ passed),
      omega (arith, same),
    )
