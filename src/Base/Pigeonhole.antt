-- ===== src/Base/Pigeonhole.antt =====
-- A list of distinct numbers below `n` has at most `n` members.
use Prim.Native.Nat.{ℕ, zero, suc, ◌≤◌, ◌<◌}
use mathlib.Core.Path.{◌≡◌, refl}
use mathlib.Core.Logic.{◌≢◌, inl, inr}
use mathlib.Core.List.{List, [], ◌∷◌}
use native.Mathlib.Omega.{arith}
use cs461_hw.Base.Tests.{◌==◌, if◌then◌else◌, Bool-cases, ==_iff, ne_of_==}
use cs461_hw.Base.Lists.{length, All}

abbrev pub Below : ℕ → List ℕ → Type 0
Below n xs = All (λ x. x < n) xs

abbrev pub Distinct : List ℕ → Type 0
Distinct [] = Unit
Distinct (x ∷ xs) = All (λ y. x ≢ y) xs × Distinct xs

pub remove : ℕ → List ℕ → List ℕ
remove v [] = []
remove v (x ∷ xs) = if x == v then remove v xs else x ∷ remove v xs

pub remove-All {ℓ κ} :
    {P : ℕ → Type ℓ} {Q : ℕ → Type κ} (v : ℕ) (xs : List ℕ)
    → ((x : ℕ) → x ≢ v → P x → Q x)
    → All P xs
    → All Q (remove v xs)
unfolding remove
remove-All v [] h a = tt
remove-All v (x ∷ xs) h a = elim (Bool-cases (x == v)) [
  | inl e ↦ rw e (remove-All v xs h a.1)
  | inr e ↦ rw e (h x (ne_of_== x v e) a.0, remove-All v xs h a.1)
]

remove-Below : (v n : ℕ) (xs : List ℕ) → Below (suc n) xs → v ≡ n → Below n (remove v xs)
unfolding remove
remove-Below v n [] b e = tt
remove-Below v n (x ∷ xs) b e = ground (arith, remove-Below v n xs b.1 e)

remove-All_ne : (v x : ℕ) (xs : List ℕ) → All (λ y. x ≢ y) xs → All (λ y. x ≢ y) (remove v xs)
unfolding remove
remove-All_ne v x [] d = tt
remove-All_ne v x (y ∷ xs) d = elim (Bool-cases (y == v)) [
  | inl e ↦ rw e (remove-All_ne v x xs d.1)
  | inr e ↦ rw e (d.0, remove-All_ne v x xs d.1)
]

pub remove-Distinct : (v : ℕ) (xs : List ℕ) → Distinct xs → Distinct (remove v xs)
unfolding remove
remove-Distinct v [] d = tt
remove-Distinct v (x ∷ xs) d = elim (Bool-cases (x == v)) [
  | inl e ↦ rw e (remove-Distinct v xs d.1)
  | inr e ↦ rw e (remove-All_ne v x xs d.0, remove-Distinct v xs d.1)
]

remove-absent : (v : ℕ) (xs : List ℕ) → All (λ y. v ≢ y) xs → length (remove v xs) ≡ length xs
unfolding remove
remove-absent v [] d = refl
remove-absent v (x ∷ xs) d = ground (arith, remove-absent v xs d.1, d.0)

pub length-remove : (v : ℕ) (xs : List ℕ) → Distinct xs → length xs ≤ suc (length (remove v xs))
unfolding remove
length-remove v [] d = omega arith
length-remove v (x ∷ xs) d = elim (Bool-cases (x == v)) [
  | inl e ↦
      let e' : x ≡ v = (==_iff x v).0 e in rw e (omega (arith, remove-absent v xs (rw e' at d.0)))
  | inr e ↦ rw e (omega (arith, length-remove v xs d.1))
]

pub length-le_of_Distinct : (n : ℕ) (xs : List ℕ) → Below n xs → Distinct xs → length xs ≤ n
length-le_of_Distinct zero [] b d = omega arith
length-le_of_Distinct zero (x ∷ xs) b d = absurd (omega (arith, b.0))
length-le_of_Distinct (suc n) xs b d = omega (
  arith,
  length-remove n xs d,
  length-le_of_Distinct n (remove n xs) (remove-Below n n xs b refl) (remove-Distinct n xs d),
)
