-- ===== src/Strings/Copy.antt =====
-- strncpy, safestrcpy and strlen: bounded copies of texts that end in a zero byte.
use cs461_hw.Base.{
  ℕ, zero, suc, ◌+◌, ◌-◌, ◌≤◌, ◌<◌, ◌≡◌, ◌≢◌, ◌⊎◌, refl, true, false, inl, inr, arith, some, ◌==◌,
  ltb, if◌then◌else◌, Bool-cases, ◌∙◌, ==_of_ne, ==_refl, min,
}
use cs461_hw.Base.Int.{pos}
use cs461_hw.Strings.{
  Memory, put, zeros, strncpy_loop, strncpy, safestrcpy_loop, safestrcpy, strlen_loop, strlen,
}
use cs461_hw.Strings.Set.{in_range}

-- Of the text at `t`, as far as the first `n` bytes tell, the length is `len`.
pub record IsText (m : Memory) (t n len : ℕ) : Type 0 where
  pub body : (i : ℕ) → i < n → i < len → m (t + i) ≢ 0
  pub end : len < n → m (t + len) ≡ 0

-- The `n` bytes at `s` and those at `t` do not overlap.
abbrev Apart : ℕ → ℕ → ℕ → Type 0
Apart s t n = (s + n ≤ t) ⊎ (t + n ≤ s)

zeros_lem : (m : Memory) (s n a : ℕ) → zeros m s n a ≡ (if in_range s n a then 0 else m a)
unfolding zeros
zeros_lem m s zero a = ground arith
zeros_lem m s (suc n) a = ground (arith, zeros_lem (put m s 0) (s + 1) n a)

Apart-suc : (s t n : ℕ) → Apart s t (suc n) → Apart (s + 1) (t + 1) n
Apart-suc s t n (inl h) = inl (omega arith)
Apart-suc s t n (inr h) = inr (omega arith)

-- A byte of the source is not one of the destination.
Apart-ne : (s t n i : ℕ) → Apart s t n → i < n → 0 < n → s ≢ t + i
Apart-ne s t n i (inl h) l p e = omega arith
Apart-ne s t n i (inr h) l p e = omega arith

suc_index : (t i : ℕ) → t + 1 + i ≡ t + suc i
suc_index t i = omega arith

-- The rest of a text after one copied byte.
IsText-suc :
    (m : Memory) (s t n len v : ℕ)
    → Apart s t (suc n)
    → IsText m t (suc n) (suc len)
    → IsText (put m s v) (t + 1) n len
IsText-suc m s t n len v apart x = record {
  body = λ i l q.
      rw
        (
          suc_index t i,
          ==_of_ne s (t + suc i) (Apart-ne s t (suc n) (suc i) apart (omega arith) (omega arith)),
        )
        (x.body (suc i) (omega arith) (omega arith));
  end = λ l.
      rw
        (
          suc_index t len,
          ==_of_ne s (t + suc len)
              (Apart-ne s t (suc n) (suc len) apart (omega arith) (omega arith)),
        )
        (x.end (omega arith));
}

first_ne_zero : (m : Memory) (t n len : ℕ) → IsText m t (suc n) (suc len) → (m t == 0) ≡ false
first_ne_zero m t n len x =
    let zero_index : t + 0 ≡ t = omega arith in
    ==_of_ne (m t) 0 (rw zero_index at (x.body 0 (omega arith) (omega arith)))

first_eq_zero : (m : Memory) (t n : ℕ) → IsText m t (suc n) 0 → m t ≡ 0
first_eq_zero m t n x =
    let zero_index : t + 0 ≡ t = omega arith in rw zero_index at (x.end (omega arith))

-- What strncpy leaves at address `a`.
abbrev padded : Memory → ℕ → ℕ → ℕ → ℕ → ℕ → ℕ
padded m s t n len a =
    if in_range s n a then (if ltb (a - s) len then m (t + (a - s)) else 0) else m a

padded-suc :
    (m : Memory) (s t n len a : ℕ)
    → Apart s t (suc n)
    → padded (put m s (m t)) (s + 1) (t + 1) n len a ≡ padded m s t (suc n) (suc len) a
padded-suc m s t n len a apart = elim (Bool-cases (in_range (s + 1) n a)) [
  | inl e ↦
      let inside : in_range s (suc n) a ≡ true = ground arith in
      let index : t + 1 + (a - (s + 1)) ≡ t + (a - s) = ground arith in
      let other : s ≢ t + (a - s) =
        Apart-ne s t (suc n) (a - s) apart (ground arith) (omega arith) in
      let test : ltb (a - (s + 1)) len ≡ ltb (a - s) (suc len) = ground arith in
      rw (e, inside, index, test, ==_of_ne s (t + (a - s)) other)
  | inr e ↦ elim (Bool-cases (s == a)) [
    | inl q ↦
        let inside : in_range s (suc n) a ≡ true = ground arith in
        let index : t + (a - s) ≡ t = ground arith in
        let test : ltb (a - s) (suc len) ≡ true = ground arith in rw (e, q, inside, test, index)
    | inr q ↦ let outside : in_range s (suc n) a ≡ false = ground arith in rw (e, q, outside)
  ]
]

strncpy_loop-padded :
    (m : Memory) (s t n len a : ℕ)
    → Apart s t n
    → IsText m t n len
    → strncpy_loop m s t n a ≡ padded m s t n len a
unfolding strncpy_loop
strncpy_loop-padded m s t zero len a apart x = ground arith
strncpy_loop-padded m s t (suc n) zero a apart x =
    let end = first_eq_zero m t n x in rw end (zeros_lem (put m s 0) (s + 1) n a ∙ ground arith)
strncpy_loop-padded m s t (suc n) (suc len) a apart x = rw (first_ne_zero m t n len x) (
    strncpy_loop-padded (put m s (m t)) (s + 1) (t + 1) n len a (Apart-suc s t n apart)
      (IsText-suc m s t n len (m t) apart x)
    ∙ padded-suc m s t n len a apart)

-- strncpy of a text of length `len` to a place that does not overlap it: of the `n` bytes written,
-- the first are those of the text and all from its end on are zero; no other byte changes.
strncpy-padded :
    (m : Memory) (s t n len a : ℕ)
    → Apart s t n
    → IsText m t n len
    → strncpy m s t (pos n) a ≡ padded m s t n len a
unfolding strncpy
strncpy-padded = strncpy_loop-padded

-- What safestrcpy leaves: the text, cut to `n` bytes, a zero behind it, and nothing written outside.
record Terminated (m m' : Memory) (s t n len : ℕ) : Type 0 where
  pub text : (i : ℕ) → i < min n len → m' (s + i) ≡ m (t + i)
  pub end : m' (s + min n len) ≡ 0
  pub outside : (a : ℕ) → in_range s (suc n) a ≡ false → m' a ≡ m a

safestrcpy_loop-Terminated :
    (m : Memory) (s t n len : ℕ)
    → Apart s t (suc n)
    → IsText m t n len
    → Terminated m (safestrcpy_loop m s t n) s t n len
unfolding safestrcpy_loop
safestrcpy_loop-Terminated m s t zero len apart x = record {
  text = λ i l. absurd (omega arith);
  end = ground arith;
  outside = λ a e. ground arith;
}
safestrcpy_loop-Terminated m s t (suc n) zero apart x =
    let end = first_eq_zero m t n x in
    rw end (record {
      text = λ i l. absurd (omega arith);
      end = ground arith;
      outside = λ a e. ground arith;
    })
safestrcpy_loop-Terminated m s t (suc n) (suc len) apart x = rw (first_ne_zero m t n len x) (
    step (safestrcpy_loop (put m s (m t)) (s + 1) (t + 1) n) (
      safestrcpy_loop-Terminated (put m s (m t)) (s + 1) (t + 1) n len (Apart-suc s t (suc n) apart)
        (IsText-suc m s t n len (m t) (wider apart) x)))
  where
    wider : Apart s t (suc (suc n)) → Apart s t (suc n)
    wider (inl h) = inl (omega arith)
    wider (inr h) = inr (omega arith)

    text :
        {m' : Memory}
        → Terminated (put m s (m t)) m' (s + 1) (t + 1) n len
        → (i : ℕ) → i < min (suc n) (suc len)
        → m' (s + i) ≡ m (t + i)
    text r zero l =
        let zero_index : s + 0 ≡ s = omega arith in
        let zero_index' : t + 0 ≡ t = omega arith in
        rw (zero_index, zero_index') (r.outside s (ground arith) ∙ rw (==_refl s) refl)
    text r (suc i) l = rw (← suc_index s i) (
        r.text i (omega arith)
        ∙ rw
            (
              suc_index t i,
              ==_of_ne s (t + suc i)
                  (Apart-ne s t (suc (suc n)) (suc i) apart (omega arith) (omega arith)),
            )
            refl)

    step :
        (m' : Memory)
        → Terminated (put m s (m t)) m' (s + 1) (t + 1) n len
        → Terminated m m' s t (suc n) (suc len)
    step m' r = record {
      text = text r;
      end = let more : s + min (suc n) (suc len) ≡ s + 1 + min n len = omega arith in rw more r.end;
      outside = λ a e. r.outside a (ground arith) ∙ ground arith;
    }

strlen_loop-len :
    (m : Memory) (s len fuel n : ℕ)
    → ((i : ℕ) → i < len → m (s + i) ≢ 0)
    → m (s + len) ≡ 0
    → n ≤ len
    → len < n + fuel
    → strlen_loop fuel m s n ≡ some len
unfolding strlen_loop
strlen_loop-len m s len zero n body end h l = absurd (omega arith)
strlen_loop-len m s len (suc fuel) n body end h l = elim (Bool-cases (n == len)) [
  | inl e ↦ let here : n ≡ len = ground arith in rw (here, end)
  | inr e ↦
      rw (==_of_ne (m (s + n)) 0 (body n (ground arith)))
        (strlen_loop-len m s len fuel (n + 1) body end (ground arith) (omega arith))
]

-- With more fuel than the text is long, strlen returns its length.
pub strlen-len :
    (m : Memory) (s len fuel : ℕ)
    → ((i : ℕ) → i < len → m (s + i) ≢ 0)
    → m (s + len) ≡ 0
    → len < fuel
    → strlen fuel m s ≡ some len
unfolding strlen
strlen-len m s len fuel body end h =
    strlen_loop-len m s len fuel 0 body end (omega arith) (omega arith)

-- safestrcpy with a count of at least 1 copies the text of length `len`, cut to one byte less than
-- the count, ends it with a zero, and writes nowhere outside the `n + 1` bytes of the destination.
safestrcpy-Terminated :
    (m : Memory) (s t n len : ℕ)
    → Apart s t (suc n)
    → IsText m t n len
    → Terminated m (safestrcpy m s t (pos (suc n))) s t n len
unfolding safestrcpy
safestrcpy-Terminated = safestrcpy_loop-Terminated
