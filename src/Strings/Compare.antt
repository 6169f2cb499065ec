-- ===== src/Strings/Compare.antt =====
-- memcmp and strncmp: the difference at the first place where the texts part.
use cs461_hw.Base.{
  ℕ, zero, suc, ◌+◌, ◌<◌, ◌≡◌, ◌≢◌, ◌⊎◌, refl, true, not, ◌&&◌, inl, inr, arith, ◌==◌,
  if◌then◌else◌, Bool-cases, ==_of_ne, ==_refl,
}
use cs461_hw.Base.Int.{pos, sub_ℕ}
use cs461_hw.Strings.{Memory, memcmp, strncmp}

suc_index : (a i : ℕ) → a + suc i ≡ a + 1 + i
suc_index a i = omega arith

zero_index : (a : ℕ) → a + 0 ≡ a
zero_index a = omega arith

memcmp_same :
    (m : Memory) (a b n : ℕ) → ((i : ℕ) → i < n → m (a + i) ≡ m (b + i)) → memcmp m a b n ≡ pos 0
unfolding memcmp
memcmp_same m a b zero h = refl
memcmp_same m a b (suc n) h =
    let first : m a ≡ m b = rw (zero_index a, zero_index b) at (h 0 (omega arith)) in
    rw (first, ==_refl (m b))
      (memcmp_same m (a + 1) (b + 1) n
        (λ i l. rw (← suc_index a i, ← suc_index b i) (h (suc i) (omega arith))))

memcmp_first :
    (m : Memory) (a b n j : ℕ)
    → j < n
    → ((i : ℕ) → i < j → m (a + i) ≡ m (b + i))
    → m (a + j) ≢ m (b + j)
    → memcmp m a b n ≡ sub_ℕ (m (a + j)) (m (b + j))
unfolding memcmp
memcmp_first m a b zero j l h ne = absurd (omega arith)
memcmp_first m a b (suc n) zero l h ne =
    let ne' : m a ≢ m b = rw (zero_index a, zero_index b) at ne in
    rw (==_of_ne (m a) (m b) ne', zero_index a, zero_index b)
memcmp_first m a b (suc n) (suc j) l h ne =
    let first : m a ≡ m b = rw (zero_index a, zero_index b) at (h 0 (omega arith)) in
    let ne' : m (a + 1 + j) ≢ m (b + 1 + j) = rw (suc_index a j, suc_index b j) at ne in
    rw (first, ==_refl (m b), suc_index a j, suc_index b j)
      (memcmp_first m (a + 1) (b + 1) n j (omega arith)
        (λ i q. rw (← suc_index a i, ← suc_index b i) (h (suc i) (omega arith))) ne')

-- memcmp is 0 if the two ranges agree, and otherwise the difference of the bytes at the first place
-- `j` where they do not.
memcmp_lem :
    (m : Memory) (a b n : ℕ)
    → (((i : ℕ) → i < n → m (a + i) ≡ m (b + i)) → memcmp m a b n ≡ pos 0)
      × ((j : ℕ)
          → j < n
          → ((i : ℕ) → i < j → m (a + i) ≡ m (b + i))
          → m (a + j) ≢ m (b + j)
          → memcmp m a b n ≡ sub_ℕ (m (a + j)) (m (b + j)))
memcmp_lem m a b n = (memcmp_same m a b n, memcmp_first m a b n)

-- Both texts agree and go on at the `n` places from `p` and from `q` on.
abbrev Agree : Memory → ℕ → ℕ → ℕ → Type 0
Agree m p q n = (i : ℕ) → i < n → (m (p + i) ≡ m (q + i)) × (m (p + i) ≢ 0)

Agree-suc :
    (m : Memory) (p q n : ℕ)
    → Agree m p q (suc n)
    → ((not (m p == 0) && (m p == m q)) ≡ true) × Agree m (p + 1) (q + 1) n
Agree-suc m p q n h =
    let (same, more) = h 0 (omega arith) in
    let same' : m p ≡ m q = rw (zero_index p, zero_index q) at same in
    let more' : m p ≢ 0 = rw (zero_index p) at more in
    (
      rw (==_of_ne (m p) 0 more', same') (==_refl (m q)),
      λ i l. rw (← suc_index p i, ← suc_index q i) (h (suc i) (omega arith)),
    )

strncmp_same : (m : Memory) (p q n : ℕ) → Agree m p q n → strncmp m p q n ≡ pos 0
unfolding strncmp
strncmp_same m p q zero h = refl
strncmp_same m p q (suc n) h =
    let (test, rest) = Agree-suc m p q n h in rw test (strncmp_same m (p + 1) (q + 1) n rest)

strncmp_first :
    (m : Memory) (p q n j : ℕ)
    → j < n
    → Agree m p q j
    → (m (p + j) ≡ 0) ⊎ (m (p + j) ≢ m (q + j))
    → strncmp m p q n ≡ sub_ℕ (m (p + j)) (m (q + j))
unfolding strncmp
strncmp_first m p q zero j l h d = absurd (omega arith)
strncmp_first m p q (suc n) zero l h d = rw (zero_index p, zero_index q) (stop d)
  where
    stop :
        (m (p + 0) ≡ 0) ⊎ (m (p + 0) ≢ m (q + 0))
        → (if not (m p == 0) && (m p == m q)
            then strncmp m (p + 1) (q + 1) n
            else sub_ℕ (m p) (m q))
          ≡ sub_ℕ (m p) (m q)
    stop (inl z) = let z' : m p ≡ 0 = rw (zero_index p) at z in rw z'
    stop (inr ne) =
        let ne' : m p ≢ m q = rw (zero_index p, zero_index q) at ne in
        elim (Bool-cases (m p == 0)) [ inl e ↦ rw e | inr e ↦ rw (e, ==_of_ne (m p) (m q) ne') ]
strncmp_first m p q (suc n) (suc j) l h d =
    let (test, rest) = Agree-suc m p q j h in
    rw (test, suc_index p j, suc_index q j)
      (strncmp_first m (p + 1) (q + 1) n j (omega arith) rest
        (rw (suc_index p j, suc_index q j) at d))

-- strncmp is 0 if both texts agree and go on for `n` bytes, and otherwise the difference of the
-- bytes at the first place `j` where the first text ends or the two differ.
strncmp_lem :
    (m : Memory) (p q n : ℕ)
    → (Agree m p q n → strncmp m p q n ≡ pos 0)
      × ((j : ℕ)
          → j < n
          → Agree m p q j
          → (m (p + j) ≡ 0) ⊎ (m (p + j) ≢ m (q + j))
          → strncmp m p q n ≡ sub_ℕ (m (p + j)) (m (q + j)))
strncmp_lem m p q n = (strncmp_same m p q n, strncmp_first m p q n)
