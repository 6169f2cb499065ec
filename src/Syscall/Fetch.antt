-- ===== src/Syscall/Fetch.antt =====
-- What the process hands over by address is read below its size only.
use cs461_hw.Base.{
  ℕ, zero, suc, ◌+◌, ◌-◌, ◌%◌, ◌^◌, ◌≡◌, ◌≢◌, ◌≤◌, ◌<◌, inl, inr, refl, ◌||◌, Option, none, some,
  ◌==◌, ltb, leb, if◌then◌else◌, arith, Bool-cases, ==_iff, ne_of_==, le→leb, leb_of_lt, ltb→lt,
  ltb→ge,
}
use native.Mathlib.Decide.{dec_le}
use cs461_hw.Syscall.{User, load, fetchint, fetchaddr, scan, fetchstr}

-- A word of `n` bytes at `addr` lies below the size of the process and is what is there, or it does
-- not and nothing is fetched.
abbrev pub Fetched : User → (addr n : ℕ) → Option ℕ → Type 0
Fetched u addr n (some v) = (addr + n ≤ u.sz) × (v ≡ load u.mem addr n)
Fetched u addr n none = u.sz < addr + n

fetch_word :
    (u : User) (addr n : ℕ)
    → 0 < n
    → n < 2 ^ 4
    → u.sz + n ≤ 2 ^ 64
    → Fetched u addr n
        (if leb u.sz addr || ltb u.sz ((addr + n) % 2 ^ 64) then none else some (load u.mem addr n))
fetch_word u addr n h k small = elim (dec_le u.sz addr) [
  | yes out ↦ rw (le→leb u.sz addr out) (omega arith)
  | no inside ↦
      let whole : (addr + n) % 2 ^ 64 ≡ addr + n = omega arith in
      elim (Bool-cases (ltb u.sz (addr + n))) [
        | inl q ↦ rw (leb_of_lt u.sz addr (omega arith), whole, q) (ltb→lt u.sz (addr + n) q)
        | inr q ↦ rw (leb_of_lt u.sz addr (omega arith), whole, q) (ltb→ge u.sz (addr + n) q, refl)
      ]
]

-- fetchint and fetchaddr of any address, in a process whose size is at least 8 below 2^64: they read a
-- word that lies below the size of the process, and return -1 for every other.
pub fetch-Fetched :
    (u : User) (addr : ℕ)
    → u.sz + 8 ≤ 2 ^ 64
    → Fetched u addr 4 (fetchint u addr) × Fetched u addr 8 (fetchaddr u addr)
unfolding fetchint fetchaddr
fetch-Fetched u addr small = (
  fetch_word u addr 4 (omega arith) (omega arith) (omega arith),
  fetch_word u addr 8 (omega arith) (omega arith) small,
)

-- The string that starts at `s` ends `len` bytes on, or has no end among `n` bytes.
abbrev pub Ends : (ℕ → ℕ) → (n s : ℕ) → Option ℕ → Type 0
Ends mem n s (some len) = (len < n) × (mem (s + len) ≡ 0) × ((j : ℕ) → j < len → mem (s + j) ≢ 0)
Ends mem n s none = (j : ℕ) → j < n → mem (s + j) ≢ 0

-- The same with `k` bytes passed.
abbrev EndsPast : (ℕ → ℕ) → (n s k : ℕ) → Option ℕ → Type 0
EndsPast mem n s k (some len) =
    (k ≤ len)
    × (len < k + n)
    × (mem (s + (len - k)) ≡ 0)
    × ((j : ℕ) → j < len - k → mem (s + j) ≢ 0)
EndsPast mem n s k none = (j : ℕ) → j < n → mem (s + j) ≢ 0

earlier :
    (mem : ℕ → ℕ) (s n : ℕ)
    → mem s ≢ 0
    → ((j : ℕ) → j < n → mem (suc s + j) ≢ 0)
    → (j : ℕ) → j < suc n
    → mem (s + j) ≢ 0
earlier mem s n ne e zero l = let here : s + 0 ≡ s = omega arith in rw here ne
earlier mem s n ne e (suc j) l =
    let place : s + suc j ≡ suc s + j = omega arith in rw place (e j (omega arith))

EndsPast-later :
    (mem : ℕ → ℕ) (n s k : ℕ) (r : Option ℕ)
    → mem s ≢ 0
    → EndsPast mem n (suc s) (suc k) r
    → EndsPast mem (suc n) s k r
EndsPast-later mem n s k none ne e = λ j l. earlier mem s n ne e j l
EndsPast-later mem n s k (some len) ne (low, high, z, before) =
    let place : suc s + (len - suc k) ≡ s + (len - k) = omega arith in
    (
      omega arith,
      omega arith,
      rw place at z,
      λ j l. earlier mem s (len - suc k) ne before j (omega arith),
    )

scan-EndsPast : (mem : ℕ → ℕ) (n s k : ℕ) → EndsPast mem n s k (scan mem n s k)
unfolding scan
scan-EndsPast mem zero s k = λ j l. absurd (omega arith)
scan-EndsPast mem (suc n) s k = elim (Bool-cases (mem s == 0)) [
  | inl q ↦
      let here : s + (k - k) ≡ s = omega arith in
      rw (q, here) (omega arith, omega arith, (==_iff (mem s) 0).0 q, λ j l. absurd (omega arith))
  | inr q ↦ rw q (
      EndsPast-later mem n s k (scan mem n (suc s) (suc k)) (ne_of_== (mem s) 0 q)
        (scan-EndsPast mem n (suc s) (suc k)))
]

Ends-of : (mem : ℕ → ℕ) (n s : ℕ) (r : Option ℕ) → EndsPast mem n s 0 r → Ends mem n s r
Ends-of mem n s none e = e
Ends-of mem n s (some len) (low, high, z, before) =
    let same : len - 0 ≡ len = omega arith in (omega arith, rw same at z, rw same at before)

-- fetchstr of any address returns the length of the string there if it ends below the size of the
-- process, and -1 if no byte from there up to the size is 0.
pub fetchstr-Ends : (u : User) (addr : ℕ) → Ends u.mem (u.sz - addr) addr (fetchstr u addr)
unfolding fetchstr
fetchstr-Ends u addr = elim (dec_le u.sz addr) [
  | yes out ↦ rw (le→leb u.sz addr out) (λ j l. absurd (omega arith))
  | no inside ↦ rw (leb_of_lt u.sz addr (omega arith)) (
      Ends-of u.mem (u.sz - addr) addr (scan u.mem (u.sz - addr) addr 0)
        (scan-EndsPast u.mem (u.sz - addr) addr 0))
]
