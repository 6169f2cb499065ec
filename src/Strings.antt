-- ===== src/Strings.antt =====
-- string.c over a memory of bytes: addresses are numbers, and no range wraps round the end of the
-- address space. A loop over text of unknown length takes fuel.
pub mod Set
pub mod Move
pub mod Compare
pub mod Copy
mod Tests
use cs461_hw.Base.{
  ℕ, zero, suc, ◌+◌, ◌-◌, ◌*◌, ◌/◌, ◌%◌, ◌^◌, Bool, true, false, not, ◌&&◌, Option, none, some,
  ◌==◌, ltb, if◌then◌else◌,
}
use cs461_hw.Base.Int.{ℤ, pos, negsuc, sub_ℕ}

abbrev pub Memory : Type 0
Memory = ℕ → ℕ

abbrev pub put : Memory → ℕ → ℕ → Memory
put m a v b = if a == b then v else m b

-- stosb and stosl of x86.h: `n` bytes, and `n` 32-bit words with the low byte first.
pub stosb : Memory → ℕ → ℕ → ℕ → Memory
stosb m d c zero = m
stosb m d c (suc n) = stosb (put m d (c % 256)) (d + 1) c n

abbrev put_word : Memory → ℕ → ℕ → Memory
put_word m d w =
    put (put (put (put m d (w % 256)) (d + 1) (w / 2 ^ 8 % 256)) (d + 2) (w / 2 ^ 16 % 256)) (d + 3)
      (w / 2 ^ 24 % 256)

pub stosl : Memory → ℕ → ℕ → ℕ → Memory
stosl m d w zero = m
stosl m d w (suc n) = stosl (put_word m d w) (d + 4) w n

-- `n` is below 2^31, since stosb and stosl take an int. The bytes of the word do not overlap, so `|`
-- is a sum.
pub memset : Memory → ℕ → ℕ → ℕ → Memory
memset m dst c n =
    let b = c % 256 in
    if ((dst % 4) == 0) && ((n % 4) == 0)
    then stosl m dst (b * 2 ^ 24 + b * 2 ^ 16 + b * 2 ^ 8 + b) (n / 4)
    else stosb m dst c n

pub memcmp : Memory → ℕ → ℕ → ℕ → ℤ
memcmp m s1 s2 zero = pos 0
memcmp m s1 s2 (suc n) =
    let rest = memcmp m (s1 + 1) (s2 + 1) n in if m s1 == m s2 then rest else sub_ℕ (m s1) (m s2)

-- `while(n-- > 0) *d++ = *s++;`
pub forward : Memory → ℕ → ℕ → ℕ → Memory
forward m d s zero = m
forward m d s (suc n) = forward (put m d (m s)) (d + 1) (s + 1) n

-- `while(n-- > 0) *--d = *--s;`
pub backward : Memory → ℕ → ℕ → ℕ → Memory
backward m d s zero = m
backward m d s (suc n) = backward (put m (d - 1) (m (s - 1))) (d - 1) (s - 1) n

pub memmove : Memory → ℕ → ℕ → ℕ → Memory
memmove m dst src n =
    if ltb src dst && ltb dst (src + n)
    then backward m (dst + n) (src + n) n
    else forward m dst src n

memcpy : Memory → ℕ → ℕ → ℕ → Memory
memcpy m dst src n = memmove m dst src n

pub strncmp : Memory → ℕ → ℕ → ℕ → ℤ
strncmp m p q zero = pos 0
strncmp m p q (suc n) =
    let rest = strncmp m (p + 1) (q + 1) n in
    if not (m p == 0) && (m p == m q) then rest else sub_ℕ (m p) (m q)

-- `while(n-- > 0) *s++ = 0;`
pub zeros : Memory → ℕ → ℕ → Memory
zeros m s zero = m
zeros m s (suc n) = zeros (put m s 0) (s + 1) n

-- The first loop of strncpy with `n` rounds left, then the second.
pub strncpy_loop : Memory → ℕ → ℕ → ℕ → Memory
strncpy_loop m s t zero = m
strncpy_loop m s t (suc n) =
    let rest = strncpy_loop (put m s (m t)) (s + 1) (t + 1) n in
    if m t == 0 then zeros (put m s (m t)) (s + 1) n else rest

-- An `int` count: at most 0 copies nothing.
pub strncpy : Memory → ℕ → ℕ → ℤ → Memory
strncpy m s t (pos n) = strncpy_loop m s t n
strncpy m s t (negsuc n) = m

-- The loop of safestrcpy and its last store; `n` rounds are left after the first decrement.
pub safestrcpy_loop : Memory → ℕ → ℕ → ℕ → Memory
safestrcpy_loop m s t zero = put m s 0
safestrcpy_loop m s t (suc n) =
    let rest = safestrcpy_loop (put m s (m t)) (s + 1) (t + 1) n in
    if m t == 0 then put (put m s (m t)) (s + 1) 0 else rest

pub safestrcpy : Memory → ℕ → ℕ → ℤ → Memory
safestrcpy m s t (pos zero) = m
safestrcpy m s t (pos (suc n)) = safestrcpy_loop m s t n
safestrcpy m s t (negsuc n) = m

strlen_loop : ℕ → Memory → ℕ → ℕ → Option ℕ
strlen_loop zero m s n = none
strlen_loop (suc fuel) m s n =
    let rest = strlen_loop fuel m s (n + 1) in if m (s + n) == 0 then some n else rest

-- `none` is a text longer than the fuel. The text is shorter than 2^31, since its length is an int.
pub strlen : ℕ → Memory → ℕ → Option ℕ
strlen fuel m s = strlen_loop fuel m s 0
