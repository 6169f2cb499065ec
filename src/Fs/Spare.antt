-- ===== src/Fs/Spare.antt =====
-- Free blocks that are left on the disk.
use cs461_hw.Base.{
  ℕ, ◌+◌, ◌≡◌, ◌≤◌, ◌<◌, ◌∙◌, List, [], ◌∷◌, All, length, Distinct, All-map, remove, remove-All,
  remove-Distinct, length-remove, arith, true, false, if◌then◌else◌, if_false, ◌==◌, ==_of_ne,
}
use cs461_hw.Fs.{Fs}
use cs461_hw.Fs.Balloc.{used}

-- At least `k` blocks are free.
pub Spare : ℕ → Fs → Type 0
Spare k fs =
    (xs : List ℕ) × ((k ≤ length xs)
      × (Distinct xs × All (λ c. (c < fs.sb.size) × (used fs c ≡ false)) xs))

pub Spare-one : (fs : Fs) → Spare 1 fs → (c : ℕ) × ((c < fs.sb.size) × (used fs c ≡ false))
unfolding Spare
Spare-one fs ([], (h, _)) = absurd (omega arith)
Spare-one fs (c ∷ xs, (h, (d, a))) = (c, a.0)

pub Spare-le : (fs : Fs) (j k : ℕ) → j ≤ k → Spare k fs → Spare j fs
unfolding Spare
Spare-le fs j k l (xs, (h, rest)) = (xs, (omega arith, rest))

-- When one block is taken, one less is left.
pub Spare-left :
    (fs fs' : Fs) (b k : ℕ)
    → fs'.sb ≡ fs.sb
    → ((c : ℕ) → used fs' c ≡ (if c == b then true else used fs c))
    → Spare (1 + k) fs
    → Spare k fs'
unfolding Spare
Spare-left fs fs' b k e bitmap (xs, (h, (d, a))) = (
  remove b xs,
  (
    omega (arith, length-remove b xs d),
    (
      remove-Distinct b xs d,
      remove-All b xs
          (λ c ne free. (
            rw e (free.0),
            bitmap c ∙ if_false true (used fs c) (c == b) (==_of_ne c b ne) ∙ free.1,
          ))
          a,
    ),
  ),
)

pub Spare-same :
    (fs fs' : Fs) (k : ℕ)
    → fs'.sb ≡ fs.sb
    → ((c : ℕ) → used fs' c ≡ used fs c)
    → Spare k fs
    → Spare k fs'
unfolding Spare
Spare-same fs fs' k e bitmap (xs, (h, (d, a))) =
    (xs, (h, (d, All-map xs (λ c free. (rw e (free.0), bitmap c ∙ free.1)) a)))

pub Spare-of :
    (fs : Fs) (k : ℕ) (xs : List ℕ)
    → k ≤ length xs
    → Distinct xs
    → All (λ c. (c < fs.sb.size) × (used fs c ≡ false)) xs
    → Spare k fs
unfolding Spare
Spare-of fs k xs h d a = (xs, (h, (d, a)))
