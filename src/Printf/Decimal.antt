-- ===== src/Printf/Decimal.antt =====
-- atoi reads what print_d writes.
use cs461_hw.Base.{
  ℕ, zero, suc, ◌+◌, ◌-◌, ◌*◌, ◌/◌, ◌%◌, ◌^◌, ◌≡◌, ◌≢◌, ◌<◌, ◌⊎◌, inl, inr, refl, ap, ◌∙◌, List, [],
  ◌∷◌, ◌==◌, arith, Bool-cases, ==_iff, ne_of_==, lt→ltb, le→leb, leb_of_lt,
}
use cs461_hw.Printf.{digit, decimal, print_d, atoi_from, atoi}

-- The buffer has a place for every digit of `x`.
abbrev Enough : (fuel x : ℕ) → Type 0
Enough zero x = x < 0
Enough (suc fuel) x = (x / 10 ≡ 0) ⊎ Enough fuel (x / 10)

Enough-next :
    (fuel c : ℕ) → ((y : ℕ) → y < c → Enough fuel y) → (x : ℕ) → x < 10 * c → Enough (suc fuel) x
Enough-next fuel c h x l = inr (h (x / 10) (omega arith))

Enough-more : (fuel x : ℕ) → Enough fuel x → Enough (suc fuel) x
Enough-more zero x e = absurd (omega (arith, e))
Enough-more (suc fuel) x (inl e) = inl e
Enough-more (suc fuel) x (inr e) = inr (Enough-more fuel (x / 10) e)

ten_digits : (x : ℕ) → x < 2 ^ 32 → Enough 10 x
ten_digits x l =
    Enough-next 9 (10 ^ 9)
      (Enough-next 8 (10 ^ 8) (
        Enough-next 7 (10 ^ 7) (
          Enough-next 6 (10 ^ 6) (
            Enough-next 5 (10 ^ 5) (
              Enough-next 4 (10 ^ 4) (
                Enough-next 3 (10 ^ 3)
                  (Enough-next 2 (10 ^ 2) (Enough-next 1 10 (λ y h. inl (omega arith))))))))))
      x (omega arith)

more_places : (k fuel x : ℕ) → Enough fuel x → Enough (k + fuel) x
more_places zero fuel x e = let same : 0 + fuel ≡ fuel = omega arith in rw same e
more_places (suc k) fuel x e =
    let next : suc k + fuel ≡ suc (k + fuel) = omega arith in
    rw next (Enough-more (k + fuel) x (more_places k fuel x e))

-- One digit read.
atoi_digit :
    (n d : ℕ) (s : List ℕ)
    → d < 10
    → n * 10 + d < 2 ^ 32
    → atoi_from n (digit d ∷ s) ≡ atoi_from (n * 10 + d) s
unfolding atoi_from
atoi_digit n d s l h =
    let value : (n * 10 + (48 + d) - 48) % 2 ^ 32 ≡ n * 10 + d = omega arith in
    rw (lt→ltb d 10 l, le→leb 48 (48 + d) (omega arith), le→leb (48 + d) 57 (omega arith), value)
      refl

-- All digits, with what comes behind them.
atoi-decimal :
    (fuel x : ℕ) (buf : List ℕ)
    → Enough fuel x
    → x < 2 ^ 32
    → atoi_from 0 (decimal fuel x buf) ≡ atoi_from x buf
unfolding decimal
atoi-decimal zero x buf e l = absurd (omega (arith, e))
atoi-decimal (suc fuel) x buf e l = elim (Bool-cases (x / 10 == 0)) [
  | inl q ↦
      let small : x / 10 ≡ 0 = (==_iff (x / 10) 0).0 q in
      let value : 0 * 10 + x % 10 ≡ x = omega (arith, small) in
      rw q (atoi_digit 0 (x % 10) buf (omega arith) (omega arith) ∙ ap (λ n. atoi_from n buf) value)
  | inr q ↦
      let value : x / 10 * 10 + x % 10 ≡ x = omega arith in
      let rest : Enough fuel (x / 10) = left_over fuel x (ne_of_== (x / 10) 0 q) e in
      rw q (
        atoi-decimal fuel (x / 10) (digit (x % 10) ∷ buf) rest (omega arith)
        ∙ atoi_digit (x / 10) (x % 10) buf (omega arith) (omega arith)
        ∙ ap (λ n. atoi_from n buf) value)
]
  where
    left_over : (fuel x : ℕ) → x / 10 ≢ 0 → Enough (suc fuel) x → Enough fuel (x / 10)
    left_over fuel x ne (inl e) = absurd (ne e)
    left_over fuel x ne (inr e) = e

atoi_end : (x : ℕ) → atoi_from x [] ≡ x
unfolding atoi_from
atoi_end x = refl

-- atoi of what print_d writes for an int that is not negative is that int.
pub atoi-print_d : (v : ℕ) → v < 2 ^ 31 → atoi (print_d v) ≡ v
unfolding atoi print_d
atoi-print_d v l = rw (leb_of_lt (2 ^ 31) v l) (
    atoi-decimal 16 v [] (more_places 6 10 v (ten_digits v (omega arith))) (omega arith)
    ∙ atoi_end v)
