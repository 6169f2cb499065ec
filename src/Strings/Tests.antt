-- ===== src/Strings/Tests.antt =====
-- string.c on small memories.
use cs461_hw.Base.{ℕ, zero, suc, ◌+◌, ◌<◌, ◌≡◌, ◌≢◌, refl, some, arith, ◌==◌, ltb, if◌then◌else◌}
use cs461_hw.Strings.{Memory, memmove, strlen}
use cs461_hw.Strings.Move.{memmove-moved}
use cs461_hw.Strings.Copy.{IsText, strlen-len}

-- "ab" at 10, and zeros behind it.
abbrev text : Memory
text a = if a == 10 then 97 else if a == 11 then 98 else if ltb a 10 then 7 else 0

text-IsText : IsText text 10 5 2
text-IsText = record { body = λ i h l. body i l; end = λ _. refl }
  where
    body : (i : ℕ) → i < 2 → text (10 + i) ≢ 0
    body zero l = omega arith
    body (suc zero) l = omega arith
    body (suc (suc i)) l = absurd (omega arith)

memmove-moved_example : memmove text 11 10 4 12 ≡ 98
memmove-moved_example = memmove-moved text 11 10 4 12

strlen-len_example : strlen 5 text 10 ≡ some 2
strlen-len_example =
    strlen-len text 10 2 5 (λ i l. text-IsText.body i (omega arith) l) refl (omega arith)
