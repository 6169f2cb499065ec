-- ===== src/Syscall.antt =====
-- syscall.c: how the kernel fetches the arguments of a system call from the registers and the memory
-- of the running process, and how it finds the call. Addresses are 64-bit words, an int is the bit
-- pattern of 32 bits. The bodies of the calls are parameters.
pub mod Fetch
pub mod Pointer
mod Tests
use cs461_hw.Base.{
  ℕ, zero, suc, ◌+◌, ◌-◌, ◌*◌, ◌%◌, ◌^◌, Bool, true, false, ◌&&◌, ◌||◌, Option, none, some, ◌==◌,
  ltb, leb, if◌then◌else◌,
}

-- The registers that hold arguments, and the size and memory of the process.
pub record User : Type 0 where
  pub rdi : ℕ
  pub rsi : ℕ
  pub rdx : ℕ
  pub r10 : ℕ
  pub r8 : ℕ
  pub r9 : ℕ
  pub sz : ℕ
  pub mem : ℕ → ℕ

-- Little-endian: `n` bytes from `addr` on.
pub load : (ℕ → ℕ) → (addr n : ℕ) → ℕ
load mem addr zero = 0
load mem addr (suc n) = mem addr + 2 ^ 8 * load mem (suc addr) n

-- The result is none for -1, and what goes to *ip.
pub fetchint : User → ℕ → Option ℕ
fetchint u addr =
    if leb u.sz addr || ltb u.sz ((addr + 4) % 2 ^ 64) then none else some (load u.mem addr 4)

pub fetchaddr : User → ℕ → Option ℕ
fetchaddr u addr =
    if leb u.sz addr || ltb u.sz ((addr + 8) % 2 ^ 64) then none else some (load u.mem addr 8)

-- `for(s = *pp; s < ep; s++) if(*s == 0) return s - *pp;` with `n` bytes below ep left and `len`
-- bytes passed.
pub scan : (ℕ → ℕ) → (n s len : ℕ) → Option ℕ
scan mem zero s len = none
scan mem (suc n) s len =
    let rest = scan mem n (suc s) (suc len) in if mem s == 0 then some len else rest

-- The length of the string; *pp is `addr`.
pub fetchstr : User → ℕ → Option ℕ
fetchstr u addr = if leb u.sz addr then none else scan u.mem (u.sz - addr) addr 0

module _ {A B : Type 0} where
  infixl 5 ◌>>=◌
  abbrev ◌>>=◌ : Option A → (A → Option B) → Option B
  (some a) >>= f = f a
  none >>= f = none

-- None is the panic of fetcharg.
pub fetcharg : User → ℕ → Option ℕ
fetcharg u n =
    if n == 0
    then some u.rdi
    else if n == 1
    then some u.rsi
    else if n == 2
    then some u.rdx
    else if n == 3
    then some u.r10
    else if n == 4
    then some u.r8
    else if n == 5
    then some u.r9
    else none

-- The conversion to int keeps the low 32 bits.
argint : User → ℕ → Option ℕ
argint u n = do x ← fetcharg u n; some (x % 2 ^ 32)

pub argaddr : User → ℕ → Option ℕ
argaddr u n = fetcharg u n

-- The tests of argptr on the argument `i` and the int `size`: the sum is of 32 bits.
pub bad_pointer : User → (i size : ℕ) → Bool
bad_pointer u i size =
    leb (2 ^ 31) size || leb u.sz (i % 2 ^ 32) || ltb u.sz ((i % 2 ^ 32 + size) % 2 ^ 32)

-- What argptr and argstr return: the outer option is the panic of fetcharg, the inner one -1.
pub argptr : User → (n size : ℕ) → Option (Option ℕ)
argptr u n size = do i ← argaddr u n; some (if bad_pointer u i size then none else some i)

-- An int as an address: the sign is copied into the high half.
sign_extend : ℕ → ℕ
sign_extend x = if ltb x (2 ^ 31) then x else x + (2 ^ 64 - 2 ^ 32)

argstr : User → ℕ → Option (Option ℕ)
argstr u n = do addr ← argint u n; some (fetchstr u (sign_extend addr))
