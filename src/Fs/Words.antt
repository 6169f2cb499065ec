-- ===== src/Fs/Words.antt =====
-- The words of an indirect block: one written is read back, and the others stay.
use cs461_hw.Base.{ℕ, ◌+◌, ◌*◌, ◌/◌, ◌%◌, ◌^◌, ◌≡◌, ◌≢◌, ◌<◌, refl, ◌∙◌, arith, ==_refl, ==_of_ne}
use cs461_hw.Fs.{word, set_word}

-- The byte `k` of word `i`.
byte_at : (x : ℕ → ℕ) (i v k : ℕ) → k < 4 → set_word x i v (4 * i + k) ≡ v / 2 ^ (8 * k) % 2 ^ 8
unfolding set_word
byte_at x i v k h =
    let index : (4 * i + k) / 4 ≡ i = omega arith in
    let offset : (4 * i + k) % 4 ≡ k = omega arith in rw (index, ==_refl i, offset) refl

byte_away : (x : ℕ → ℕ) (i v j k : ℕ) → k < 4 → j ≢ i → set_word x i v (4 * j + k) ≡ x (4 * j + k)
unfolding set_word
byte_away x i v j k h ne =
    let index : (4 * j + k) / 4 ≡ j = omega arith in rw (index, ==_of_ne j i ne) refl

pub word-set_word : (x : ℕ → ℕ) (i v : ℕ) → v < 2 ^ 32 → word (set_word x i v) i ≡ v
unfolding word
word-set_word x i v h =
    let start : 4 * i + 0 ≡ 4 * i = omega arith in
    let b0 : set_word x i v (4 * i) ≡ v % 2 ^ 8 =
      rw start at (byte_at x i v 0 (omega arith)) ∙ omega arith in
    let b1 : set_word x i v (4 * i + 1) ≡ v / 2 ^ 8 % 2 ^ 8 = byte_at x i v 1 (omega arith) in
    let b2 : set_word x i v (4 * i + 2) ≡ v / 2 ^ 16 % 2 ^ 8 = byte_at x i v 2 (omega arith) in
    let b3 : set_word x i v (4 * i + 3) ≡ v / 2 ^ 24 % 2 ^ 8 = byte_at x i v 3 (omega arith) in
    rw (b0, b1, b2, b3) (omega arith)

pub word-set_word_away : (x : ℕ → ℕ) (i v j : ℕ) → j ≢ i → word (set_word x i v) j ≡ word x j
unfolding word
word-set_word_away x i v j ne =
    let start : 4 * j + 0 ≡ 4 * j = omega arith in
    let b0 : set_word x i v (4 * j) ≡ x (4 * j) =
      rw start at (byte_away x i v j 0 (omega arith) ne) in
    rw
      (
        b0,
        byte_away x i v j 1 (omega arith) ne,
        byte_away x i v j 2 (omega arith) ne,
        byte_away x i v j 3 (omega arith) ne,
      )
      refl

pub word_zero : (i : ℕ) → word (λ j. 0) i ≡ 0
unfolding word
word_zero i = refl
