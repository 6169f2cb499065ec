-- ===== src/Log/Write.antt =====
-- log_write: the search for a logged block, and what absorption leaves of the log.
use cs461_hw.Base.{
  ℕ, zero, suc, ◌+◌, ◌-◌, ◌≤◌, ◌<◌, ◌≡◌, ◌≢◌, ◌⊎◌, inl, inr, refl, ap, sym, ◌∙◌, true, false, ◌==◌,
  ltb, leb, if◌then◌else◌, arith, ==_refl, leb_of_lt, ltb_of_ge, Bool-cases, ne_of_==, ==_iff,
}
use native.Mathlib.Decide.{dec_lt}
use cs461_hw.Log.{logsize, Log, find_block, log_write, done}
use cs461_hw.Log.Recover.{IsHome, IsLog}

-- What the search from `i` on over `k` places answers.
record Found (k i : ℕ) (block : ℕ → ℕ) (b r : ℕ) : Type 0 where
  from : i ≤ r
  bound : r ≤ i + k
  hit : r < i + k → block r ≡ b
  miss : r ≡ i + k → (j : ℕ) → i ≤ j → j < i + k → block j ≢ b

find_block-Found : (k i : ℕ) (block : ℕ → ℕ) (b : ℕ) → Found k i block b (find_block k i block b)
unfolding find_block
find_block-Found zero i block b = record {
  from = omega arith;
  bound = omega arith;
  hit = λ h. absurd (omega arith);
  miss = λ e j l h. absurd (omega arith);
}
find_block-Found (suc k) i block b =
    let f = find_block-Found k (suc i) block b in
    elim (Bool-cases (block i == b)) [
      | inl e ↦ rw e (record {
        from = omega arith;
        bound = omega arith;
        hit = λ h. (==_iff (block i) b).0 e;
        miss = λ e' j l h. absurd (omega arith);
      })
      | inr e ↦
          let r = find_block k (suc i) block b in
          rw e (record {
            from = omega (arith, f.from);
            bound = omega (arith, f.bound);
            hit = λ h. f.hit (omega arith);
            miss = λ e' j l h. elim (dec_lt i j) [
              | yes q ↦ f.miss (omega arith) j (omega arith) (omega arith)
              | no q ↦ let first : i ≡ j = omega arith in rw (sym first) (ne_of_== (block i) b e)
            ];
          })
    ]

-- `b` is in the log.
pub record IsLogged (s : Log) (b : ℕ) : Type 0 where
  pub at : ℕ
  pub inside : at < s.n
  pub same : s.block at ≡ b

-- The log with `b` noted at place `i`.
abbrev noted : Log → (b i : ℕ) → Log
noted s b i = record s {
  block = λ j. if i == j then b else s.block j;
  n = if i == s.n then s.n + 1 else s.n;
  dirty = λ c. if b == c then true else s.dirty c;
}

-- What log_write of `b` leaves.
pub record Noted (s : Log) (b : ℕ) (t : Log) : Type 0 where
  pub grows : t.n ≤ s.n + 1
  pub keeps : s.n ≤ t.n
  pub absorbed : IsLogged s b → t.n ≡ s.n
  pub logged : IsLogged t b
  pub older : (c : ℕ) → IsLogged s c → IsLogged t c
  pub others : (i : ℕ) → i < t.n → (t.block i ≡ b) ⊎ IsLogged s (t.block i)
  pub valid : IsLog s → IsHome s b → s.n + 1 < s.size → IsLog t
  pub disk : t.disk ≡ s.disk
  pub begin : t.begin ≡ s.begin
  pub size : t.size ≡ s.size
  pub outstanding : t.outstanding ≡ s.outstanding
  pub committing : t.committing ≡ s.committing
  pub dirty : t.dirty b ≡ true

module _ (s : Log) (b : ℕ) where
  abbrev place : ℕ
  place = find_block s.n 0 s.block b

  abbrev after : Log
  after = noted s b place

  abbrev f : Found s.n 0 s.block b place
  f = find_block-Found s.n 0 s.block b

  block_place : after.block place ≡ b
  block_place = rw (==_refl place) refl

  block_older : (i : ℕ) → i < s.n → after.block i ≡ s.block i
  block_older i l = elim (Bool-cases (place == i)) [
    | inl e ↦ let here = (==_iff place i).0 e in rw e (sym (f.hit (omega arith)) ∙ ap s.block here)
    | inr e ↦ rw e refl
  ]

  -- The place is the end of the log, which grows, or before it.
  place_cases : ((place ≡ s.n) × (after.n ≡ s.n + 1)) ⊎ ((place < s.n) × (after.n ≡ s.n))
  place_cases = elim (Bool-cases (place == s.n)) [
    | inl e ↦ inl ((==_iff place s.n).0 e, rw e refl)
    | inr e ↦ inr (omega (arith, f.bound, ne_of_== place s.n e), rw e refl)
  ]

  IsLogged-absorbed : IsLogged s b → after.n ≡ s.n
  IsLogged-absorbed l = elim place_cases [
    | inl e ↦
        absurd (f.miss (omega (arith, e.0)) l.at (omega arith) (omega (arith, l.inside)) l.same)
    | inr e ↦ e.1
  ]

  after_grows : (s.n ≤ after.n) × (after.n ≤ s.n + 1) × (place < after.n)
  after_grows = elim place_cases [
    | inl e ↦ (omega (arith, e.1), omega (arith, e.1), omega (arith, e.0, e.1))
    | inr e ↦ (omega (arith, e.1), omega (arith, e.1), omega (arith, e.0, e.1))
  ]

  -- A place of the new log holds `b`, or what it held before.
  place_others : (i : ℕ) → i < after.n → ((i ≡ place) × (after.block i ≡ b)) ⊎ (i < s.n)
  place_others i l = elim (Bool-cases (place == i)) [
    | inl e ↦ let here = sym ((==_iff place i).0 e) in inl (here, ap after.block here ∙ block_place)
    | inr e ↦
        let apart = ne_of_== place i e in
        elim place_cases [
          | inl q ↦ inr (omega (arith, q.0, q.1))
          | inr q ↦ inr (omega (arith, q.1))
        ]
  ]

  -- Before the place `b` occurs nowhere in the log.
  only_place : (i : ℕ) → IsLog s → i < s.n → s.block i ≡ b → i ≡ place
  only_place i v l e = elim place_cases [
    | inl q ↦ absurd (f.miss (omega (arith, q.0)) i (omega arith) (omega arith) e)
    | inr q ↦ v.distinct i place l q.0 (e ∙ sym (f.hit (omega (arith, q.0))))
  ]

  after-IsLog : IsLog s → IsHome s b → s.n + 1 < s.size → IsLog after
  after-IsLog v h q = record {
    fits = omega (arith, after_grows.1);
    home = λ i l. elim (place_others i l) [
      | inl e ↦ rw e.1 h
      | inr e ↦ rw (block_older i e) (v.home i e)
    ];
    distinct = λ i j l m e. elim (place_others i l) [
      | inl x ↦ elim (place_others j m) [
        | inl y ↦ x.0 ∙ sym y.0
        | inr y ↦ x.0 ∙ sym (only_place j v y (sym (block_older j y) ∙ sym e ∙ x.1))
      ]
      | inr x ↦ elim (place_others j m) [
        | inl y ↦ only_place i v x (sym (block_older i x) ∙ e ∙ y.1) ∙ sym y.0
        | inr y ↦ v.distinct i j x y (sym (block_older i x) ∙ e ∙ block_older j y)
      ]
    ];
  }

  after-Noted : Noted s b after
  after-Noted = record {
    grows = after_grows.1;
    keeps = after_grows.0;
    absorbed = IsLogged-absorbed;
    logged = record { at = place; inside = after_grows.2; same = block_place };
    older = λ c l. record {
      at = l.at;
      inside = omega (arith, l.inside, after_grows.0);
      same = block_older l.at l.inside ∙ l.same;
    };
    others = λ i l. elim (place_others i l) [
      | inl e ↦ inl e.1
      | inr e ↦ inr (record { at = i; inside = e; same = sym (block_older i e) })
    ];
    valid = after-IsLog;
    disk = refl;
    begin = refl;
    size = refl;
    outstanding = refl;
    committing = refl;
    dirty = rw (==_refl b) refl;
  }

-- log_write inside an operation, with room in the log, returns: the block is in the log and pinned in
-- the cache; a block that was in it already takes no new place; every other logged block stays in
-- it, and a valid log of home blocks stays valid.
pub log_write-Noted :
    (s : Log) (b : ℕ)
    → s.n < logsize
    → s.n + 1 < s.size
    → 1 ≤ s.outstanding
    → (t : Log) × (log_write s b ≡ done t) × Noted s b t
unfolding log_write
log_write-Noted s b room fits inside =
    let full : leb logsize s.n ≡ false = leb_of_lt logsize s.n room in
    let big : leb (s.size - 1) s.n ≡ false = leb_of_lt (s.size - 1) s.n (omega arith) in
    let op : ltb s.outstanding 1 ≡ false = ltb_of_ge s.outstanding 1 inside in
    (after s b, rw (full, big, op) refl, after-Noted s b)
