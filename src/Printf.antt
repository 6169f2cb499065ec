-- ===== src/Printf.antt =====
-- printf.c and ulib.c of the user library: how numbers are printed and read. An int is the bit pattern
-- of 32 bits.
pub mod Decimal
mod Tests
use cs461_hw.Base.{
  ℕ, zero, suc, ◌+◌, ◌-◌, ◌*◌, ◌/◌, ◌%◌, ◌^◌, Bool, ◌&&◌, List, [], ◌∷◌, ◌==◌, ltb, leb,
  if◌then◌else◌,
}

-- The table of digits.
abbrev pub digit : ℕ → ℕ
digit d = if ltb d 10 then 48 + d else 87 + d

-- The loop of print_d, with the digits stored so far, the last one first. The fuel is the length of
-- the buffer.
pub decimal : (fuel x : ℕ) → (buf : List ℕ) → List ℕ
decimal zero x buf = buf
decimal (suc fuel) x buf =
    let next = digit (x % 10) ∷ buf in
    let rest = decimal fuel (x / 10) next in if x / 10 == 0 then next else rest

-- What print_d writes: the buffer from its end.
pub print_d : ℕ → List ℕ
print_d v = if leb (2 ^ 31) v then 45 ∷ decimal 16 (2 ^ 32 - v) [] else decimal 16 v []

-- The loop of print_x64 and print_x32 on a word of `w` bits.
pub hexadecimal : (w n x : ℕ) → List ℕ
hexadecimal w zero x = []
hexadecimal w (suc n) x = digit (x / 2 ^ (w - 4)) ∷ hexadecimal w n (x * 2 ^ 4 % 2 ^ w)

pub print_x32 : ℕ → List ℕ
print_x32 x = hexadecimal 32 8 x

print_x64 : ℕ → List ℕ
print_x64 x = hexadecimal 64 16 x

-- The loop of atoi with `n` read.
pub atoi_from : (n : ℕ) → List ℕ → ℕ
atoi_from n [] = n
atoi_from n (c ∷ s) =
    let rest = atoi_from ((n * 10 + c - 48) % 2 ^ 32) s in if leb 48 c && leb c 57 then rest else n

pub atoi : List ℕ → ℕ
atoi s = atoi_from 0 s
