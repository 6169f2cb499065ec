-- ===== src/Strings/Set.antt =====
-- memset: both branches write the same byte to the same range.
use cs461_hw.Base.{
  ℕ, zero, suc, ◌+◌, ◌*◌, ◌/◌, ◌%◌, ◌^◌, ◌<◌, ◌≡◌, refl, Bool, ◌&&◌, inl, inr, arith, ◌==◌, ltb,
  leb, if◌then◌else◌, Bool-cases, ◌∙◌,
}
use cs461_hw.Strings.{Memory, put, put_word, stosb, stosl, memset}

-- Whether `a` is one of the `n` addresses from `d` on.
abbrev pub in_range : ℕ → ℕ → ℕ → Bool
in_range d n a = leb d a && ltb a (d + n)

stosb_lem : (m : Memory) (d c n a : ℕ) → stosb m d c n a ≡ (if in_range d n a then c % 256 else m a)
unfolding stosb
stosb_lem m d c zero a = ground arith
stosb_lem m d c (suc n) a = ground (arith, stosb_lem (put m d (c % 256)) (d + 1) c n a)

four :
    (m : Memory) (d b n a : ℕ)
    → (if in_range (d + 4) (n * 4) a
        then b
        else put (put (put (put m d b) (d + 1) b) (d + 2) b) (d + 3) b a)
      ≡ (if in_range d (suc n * 4) a then b else m a)
four m d b n a = ground arith

stosl_lem :
    (m : Memory) (d b n a : ℕ)
    → b < 256
    → stosl m d (b * 2 ^ 24 + b * 2 ^ 16 + b * 2 ^ 8 + b) n a
      ≡ (if in_range d (n * 4) a then b else m a)
unfolding stosl
stosl_lem m d b zero a h = ground arith
stosl_lem m d b (suc n) a h =
    let w : ℕ = b * 2 ^ 24 + b * 2 ^ 16 + b * 2 ^ 8 + b in
    let low : w % 256 ≡ b = omega arith in
    let second : w / 2 ^ 8 % 256 ≡ b = omega arith in
    let third : w / 2 ^ 16 % 256 ≡ b = omega arith in
    let high : w / 2 ^ 24 % 256 ≡ b = omega arith in
    stosl_lem (put_word m d w) (d + 4) b n a h ∙ rw (low, second, third, high) (four m d b n a)

-- memset stores the low byte of `c` at the `n` addresses from `dst` on and changes no other, whether
-- it stores words or bytes.
memset_lem :
    (m : Memory) (dst c n a : ℕ) → memset m dst c n a ≡ (if in_range dst n a then c % 256 else m a)
unfolding memset
memset_lem m dst c n a = elim (Bool-cases (((dst % 4) == 0) && ((n % 4) == 0))) [
  | inl e ↦
      let whole : n / 4 * 4 ≡ n = ground arith in
      rw e (stosl_lem m dst (c % 256) (n / 4) a (omega arith) ∙ rw whole refl)
  | inr e ↦ rw e (stosb_lem m dst c n a)
]
