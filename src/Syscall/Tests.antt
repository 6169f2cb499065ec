-- ===== src/Syscall/Tests.antt =====
-- Runs of the argument fetching, and the witnesses.
use cs461_hw.Base.{
  ℕ, ◌+◌, ◌*◌, ◌^◌, ◌-◌, ◌≡◌, ◌≤◌, refl, Option, none, some, ◌==◌, if◌then◌else◌, arith,
}
use cs461_hw.Syscall.{
  User, load, scan, fetchint, fetchaddr, fetchstr, fetcharg, argptr, argaddr, bad_pointer,
}
use cs461_hw.Syscall.Fetch.{Fetched, fetch-Fetched, Ends, fetchstr-Ends}
use cs461_hw.Syscall.Pointer.{Bounded, argptr-Bounded, argptr_high}

-- A process of 64 bytes with the string "AB" at 60 and the number 7 at 8.
abbrev bytes : ℕ → ℕ
bytes a =
    if a == 60 then 65 else if a == 61 then 66 else if a == 8 then 7 else if a == 63 then 1 else 0

abbrev small : User
small = record {
  rdi = 16;
  rsi = 2 ^ 32 + 16;
  rdx = 60;
  r10 = 0;
  r8 = 0;
  r9 = 0;
  sz = 64;
  mem = bytes;
}

abbrev far : User
far = record small { rdi = 16 + 2 ^ 32 * 1 }

string : fetchstr small 60 ≡ some 2
unfolding fetchstr scan
string = refl

unended : fetchstr small 63 ≡ none
unfolding fetchstr scan
unended = refl

number : fetchint small 8 ≡ some 7
unfolding fetchint load
number = refl

crossing : fetchaddr small 60 ≡ none
unfolding fetchaddr
crossing = refl

block : argptr small 0 48 ≡ some (some 16)
unfolding argptr argaddr fetcharg bad_pointer
block = refl

first_argument : (u : User) → fetcharg u 0 ≡ some u.rdi
unfolding fetcharg
first_argument u = refl

fetch-Fetched_example : Fetched small 8 4 (fetchint small 8) × Fetched small 8 8 (fetchaddr small 8)
fetch-Fetched_example = fetch-Fetched small 8 (omega arith)

fetchstr-Ends_example : Ends bytes (64 - 60) 60 (fetchstr small 60)
fetchstr-Ends_example = fetchstr-Ends small 60

argptr-Bounded_example : (r : Option ℕ) × ((argptr small 0 48 ≡ some r) × Bounded small 16 48 r)
argptr-Bounded_example =
    argptr-Bounded small 0 48 16 (omega arith) (first_argument small) (omega arith)

argptr_high_example : (argptr far 0 48 ≡ some (some (16 + 2 ^ 32 * 1))) × (64 ≤ 16 + 2 ^ 32 * 1)
argptr_high_example =
    argptr_high small far 0 48 16 1 (first_argument small) (first_argument far) refl (omega arith)
      (omega arith) block
