-- ===== src/Machine/Words.antt =====
-- Memory as a function from word numbers: writes to a word and to a frame, and sums and
-- comparisons of frames.
use cs461_hw.Base.{
  ℕ, zero, suc, ◌+◌, ◌*◌, ◌/◌, ◌%◌, ◌^◌, ◌<◌, ◌≡◌, Bool, true, ◌&&◌, ◌==◌, if◌then◌else◌,
}

abbrev pub write : (ℕ → ℕ) → ℕ → ℕ → ℕ → ℕ
write m i v j = if i == j then v else m j

-- Every word of frame `f` becomes `v`.
abbrev pub fill : (ℕ → ℕ) → ℕ → ℕ → ℕ → ℕ
fill m f v i = if i / 512 == f then v else m i

-- Every word of frame `dst` becomes that of frame `src`.
abbrev pub copy_frame : (ℕ → ℕ) → ℕ → ℕ → ℕ → ℕ
copy_frame m dst src i = if i / 512 == dst then m (src * 512 + i % 512) else m i

-- The sum of the `n` words from word `w` on, modulo 2^64, added to `acc` in order.
unfoldable pub sum_words : (ℕ → ℕ) → ℕ → ℕ → ℕ → ℕ
sum_words m w zero acc = acc
sum_words m w (suc n) acc = sum_words m (w + 1) n ((acc + m w) % 2 ^ 64)

-- memcmp(…) == 0 on the `n` words from `a` and from `b` on.
unfoldable pub same_words : (ℕ → ℕ) → ℕ → ℕ → ℕ → Bool
same_words m a b zero = true
same_words m a b (suc n) = (m a == m b) && same_words m (a + 1) (b + 1) n

-- Two frames hold the same words.
abbrev pub SameFrame : (ℕ → ℕ) → ℕ → ℕ → Type 0
SameFrame m f g = (i : ℕ) → i < 512 → m (f * 512 + i) ≡ m (g * 512 + i)
