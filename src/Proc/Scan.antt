-- ===== src/Proc/Scan.antt =====
-- The loops over the process table.
use cs461_hw.Base.{
  ℕ, zero, suc, ◌+◌, ◌≡◌, ◌≤◌, ◌<◌, ◌≢◌, inl, inr, refl, sym, ap, Bool, true, false, ◌&&◌, ◌==◌,
  ltb, leb, if◌then◌else◌, arith, Bool-cases, ==_iff,
}
use native.Mathlib.Decide.{dec_lt}
use cs461_hw.Proc.{nproc, Table, set_proc, first, woken, wakeup1_loop, wakeup1}

-- A pointer into the table.
abbrev pub IsSlot : ℕ → Type 0
IsSlot p = (1 ≤ p) × (p ≤ nproc)

-- What `first` answers.
pub record Found (n p : ℕ) (test : ℕ → Bool) (r : ℕ) : Type 0 where
  pub hit : r ≢ 0 → (p ≤ r) × (r < p + n) × (test r ≡ true)
  pub miss : r ≡ 0 → (q : ℕ) → p ≤ q → q < p + n → test q ≡ false
  pub earlier : (q : ℕ) → p ≤ q → q < r → test q ≡ false

pub first-Found : (n p : ℕ) (test : ℕ → Bool) → 1 ≤ p → Found n p test (first n p test)
unfolding first
first-Found zero p test h = record {
  hit = λ e. absurd (e refl);
  miss = λ e q l m. absurd (omega arith);
  earlier = λ q l m. absurd (omega arith);
}
first-Found (suc n) p test h =
    let f = first-Found n (suc p) test (omega arith) in
    elim (Bool-cases (test p)) [
      | inl e ↦ rw e (record {
        hit = λ ne. (omega arith, omega arith, e);
        miss = λ z q l m. absurd (omega arith);
        earlier = λ q l m. absurd (omega arith);
      })
      | inr e ↦
          let later : (q : ℕ) → p ≤ q → (p < q → test q ≡ false) → test q ≡ false = λ q l rest.
            elim (dec_lt p q) [
              | yes m ↦ rest m
              | no m ↦ let here : p ≡ q = omega arith in rw (sym here) e
            ] in
          rw e (record {
            hit = λ ne. (omega (arith, (f.hit ne).0), omega (arith, (f.hit ne).1), (f.hit ne).2);
            miss = λ z q l m. later q l (λ k. f.miss z q (omega arith) (omega arith));
            earlier = λ q l m. later q l (λ k. f.earlier q (omega arith) (omega arith));
          })
    ]

module _ (chan : ℕ) where
  -- wakeup1 touches the `n` processes from `p` on.
  wakeup1_loop_at :
      (n p q : ℕ) (t : Table)
      → (wakeup1_loop n p t chan).proc q
        ≡ (if leb p q && ltb q (p + n) then woken (t.proc q) chan else t.proc q)
  unfolding wakeup1_loop
  wakeup1_loop_at zero p q t =
      let out : (leb p q && ltb q (p + 0)) ≡ false = ground arith in rw out refl
  wakeup1_loop_at (suc n) p q t =
      let ih = wakeup1_loop_at n (suc p) q (set_proc t p (woken (t.proc p) chan)) in
      elim (Bool-cases (p == q)) [
        | inl e ↦
            let out : (leb (suc p) q && ltb q (suc p + n)) ≡ false = ground arith in
            let inside : (leb p q && ltb q (p + suc n)) ≡ true = ground arith in
            rw (ih, out, inside, e) (ap (λ k. woken (t.proc k) chan) ((==_iff p q).0 e))
        | inr e ↦
            let same : (leb (suc p) q && ltb q (suc p + n)) ≡ (leb p q && ltb q (p + suc n)) =
              ground arith in
            rw (ih, same, e) refl
      ]

  -- wakeup1 makes exactly the sleepers on `chan` runnable, and changes nothing else.
  pub wakeup1_at : (t : Table) (q : ℕ) → IsSlot q → (wakeup1 t chan).proc q ≡ woken (t.proc q) chan
  unfolding wakeup1
  wakeup1_at t q h =
      let inside : (leb 1 q && ltb q (1 + nproc)) ≡ true = ground arith in
      rw (wakeup1_loop_at nproc 1 q t, inside) refl

  wakeup1_loop_init : (n p : ℕ) (t : Table) → (wakeup1_loop n p t chan).initproc ≡ t.initproc
  unfolding wakeup1_loop
  wakeup1_loop_init zero p t = refl
  wakeup1_loop_init (suc n) p t = wakeup1_loop_init n (suc p) (set_proc t p (woken (t.proc p) chan))

  pub wakeup1_init : (t : Table) → (wakeup1 t chan).initproc ≡ t.initproc
  unfolding wakeup1
  wakeup1_init t = wakeup1_loop_init nproc 1 t
