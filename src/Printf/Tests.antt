-- ===== src/Printf/Tests.antt =====
-- Numbers printed and read, and the witness.
use cs461_hw.Base.{◌≡◌, ◌^◌, ◌-◌, refl, arith, [], ◌∷◌}
use cs461_hw.Printf.{decimal, print_d, hexadecimal, print_x32, atoi}
use cs461_hw.Printf.Decimal.{atoi-print_d}

print_407 : print_d 407 ≡ 52 ∷ 48 ∷ 55 ∷ []
unfolding print_d decimal
print_407 = refl

-- -2
print_negative : print_d (2 ^ 32 - 2) ≡ 45 ∷ 50 ∷ []
unfolding print_d decimal
print_negative = refl

print_beef : print_x32 0xBEEF ≡ 48 ∷ 48 ∷ 48 ∷ 48 ∷ 98 ∷ 101 ∷ 101 ∷ 102 ∷ []
unfolding print_x32 hexadecimal
print_beef = refl

atoi-print_d_example : atoi (print_d 407) ≡ 407
atoi-print_d_example = atoi-print_d 407 (omega arith)
