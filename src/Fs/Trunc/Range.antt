-- ===== src/Fs/Trunc/Range.antt =====
-- Freeing the blocks that a function gives for a range of indices.
use cs461_hw.Base.{
  ℕ, zero, suc, ◌+◌, ◌≡◌, ◌≢◌, ◌≤◌, ◌<◌, inl, inr, refl, sym, ap, ◌∙◌, true, false, ◌==◌, if_false,
  if_refl, arith, Bool-cases, ==_iff, ==_of_ne, ne_of_==,
}
use native.Mathlib.Decide.{dec_lt}
use cs461_hw.Fs.{Dinode, Fs, Out, ok, panic, ◌>>=◌, set_addr, word}
use cs461_hw.Fs.Balloc.{used}
use cs461_hw.Fs.Bitmap.{used-set_bit, freed, bfree_used}
use cs461_hw.Fs.Trunc.{free_block, free_direct, free_entries}

pub free_range : (n i : ℕ) → (ℕ → ℕ) → Fs → Out Fs
free_range zero i f fs = ok fs
free_range (suc n) i f fs = do r ← free_block fs (f i); free_range n (suc i) f r

-- The blocks of the range that are not 0 are in use and all different.
pub record Live (fs : Fs) (f : ℕ → ℕ) (i n : ℕ) : Type 0 where
  pub held : (j : ℕ) → i ≤ j → j < i + n → f j ≢ 0 → used fs (f j) ≡ true
  pub apart : (j k : ℕ) → i ≤ j → j < i + n → i ≤ k → k < i + n → f j ≢ 0 → f j ≡ f k → j ≡ k

-- They are free, and nothing else changed in the bitmap, nor any content.
pub record Cleared (fs : Fs) (f : ℕ → ℕ) (i n : ℕ) (fs' : Fs) : Type 0 where
  pub sb : fs'.sb ≡ fs.sb
  pub bytes : fs'.bytes ≡ fs.bytes
  pub free : (j : ℕ) → i ≤ j → j < i + n → f j ≢ 0 → used fs' (f j) ≡ false
  pub others : (c : ℕ) → ((j : ℕ) → i ≤ j → j < i + n → f j ≢ 0 → f j ≢ c) → used fs' c ≡ used fs c

-- One block.
pub free_block-Cleared :
    (fs : Fs) (f : ℕ → ℕ) (i : ℕ)
    → (f i ≢ 0 → used fs (f i) ≡ true)
    → (fs' : Fs) × ((free_block fs (f i) ≡ ok fs') × Cleared fs f i 1 fs')
unfolding free_block
free_block-Cleared fs f i h = elim (Bool-cases (f i == 0)) [
  | inl q ↦ (
    fs,
    (
      rw q refl,
      record {
        sb = refl;
        bytes = refl;
        free = λ j l m ne.
            let same : j ≡ i = omega arith in absurd (ne (ap f same ∙ (==_iff (f i) 0).0 q));
        others = λ c _. refl;
      },
    ),
  )
  | inr q ↦
      let b : ℕ = f i in
      let ne : f i ≢ 0 = ne_of_== (f i) 0 q in
      (
        freed fs b,
        (
          rw q (bfree_used fs b (h ne)),
          record {
            sb = refl;
            bytes = refl;
            free = λ j l m _.
                let same : j ≡ i = omega arith in
                ap (λ k. used (freed fs b) (f k)) same
                ∙ used-set_bit fs b b false
                ∙ if_refl false (used fs b) b;
            others = λ c out.
                used-set_bit fs b c false
                ∙ if_false false (used fs c) (c == b)
                    (==_of_ne c b (λ e. out i (omega arith) (omega arith) ne (sym e)));
          },
        ),
      )
]

module _ (fs fs' : Fs) (f : ℕ → ℕ) (i m n : ℕ) (live : Live fs f i (m + n))
    (c : Cleared fs f i m fs') where
  -- The rest of a range is still in use when its first part is freed.
  pub Live-rest : Live fs' f (i + m) n
  Live-rest = record {
    held = λ j l h ne.
        c.others (f j) (λ k l' h' nz e.
          let same : k ≡ j = live.apart k j l' (omega arith) (omega arith) (omega arith) nz e in
          absurd (omega arith))
        ∙ live.held j (omega arith) (omega arith) ne;
    apart = λ j k l h l' h' ne e.
        live.apart j k (omega arith) (omega arith) (omega arith) (omega arith) ne e;
  }

  pub Cleared-then : (fs'' : Fs) → Cleared fs' f (i + m) n fs'' → Cleared fs f i (m + n) fs''
  Cleared-then fs'' d = record {
    sb = d.sb ∙ c.sb;
    bytes = d.bytes ∙ c.bytes;
    free = λ j l h ne. elim (dec_lt j (i + m)) [
      | yes first ↦
          d.others (f j) (λ k l' h' nz e.
            let same : k ≡ j = live.apart k j (omega arith) (omega arith) l (omega arith) nz e in
            absurd (omega arith))
          ∙ c.free j l first ne
      | no later ↦ d.free j (omega arith) (omega arith) ne
    ];
    others = λ x out.
        d.others x (λ j l h. out j (omega arith) (omega arith))
        ∙ c.others x (λ j l h. out j (omega arith) (omega arith));
  }

-- The blocks of a range in use are freed, one after the other.
pub free_range-Cleared :
    (n i : ℕ) (f : ℕ → ℕ) (fs : Fs)
    → Live fs f i n
    → (fs' : Fs) × ((free_range n i f fs ≡ ok fs') × Cleared fs f i n fs')
unfolding free_range
free_range-Cleared zero i f fs live = (
  fs,
  (
    refl,
    record { sb = refl; bytes = refl; free = λ j l h. absurd (omega arith); others = λ c _. refl },
  ),
)
free_range-Cleared (suc n) i f fs live =
    let count : suc n ≡ 1 + n = omega arith in
    let next : suc i ≡ i + 1 = omega arith in
    let live' : Live fs f i (1 + n) = rw count at live in
    let (fs1, (run, c)) = free_block-Cleared fs f i (live.held i (omega arith) (omega arith)) in
    let (fs2, (run', d)) =
      free_range-Cleared n (suc i) f fs1 (rw next (Live-rest fs fs1 f i 1 n live' c)) in
    (fs2, (rw run run', rw count (Cleared-then fs fs1 f i 1 n live' c fs2 (rw next at d))))

bind_same :
    {A B : Type 0} (r : Out A) (f g : A → Out B) → ((x : A) → f x ≡ g x) → (r >>= f) ≡ (r >>= g)
bind_same (ok x) f g h = h x
bind_same panic f g h = refl

bind_ok :
    {A B : Type 0} (r : Out A) (g : A → Out B) (y : B)
    → (r >>= g) ≡ ok y
    → (x : A) × ((r ≡ ok x) × (g x ≡ ok y))
bind_ok (ok x) g y e = (x, (refl, e))
bind_ok panic g y e = absurd (cc e)

-- The words of an indirect block are a range.
pub free_entries_range :
    (n j k : ℕ) (a f : ℕ → ℕ) (fs : Fs)
    → ((i : ℕ) → i < n → word a (j + i) ≡ f (k + i))
    → free_entries n j a fs ≡ free_range n k f fs
unfolding free_entries free_range
free_entries_range zero j k a f fs h = refl
free_entries_range (suc n) j k a f fs h =
    let start_j : j + 0 ≡ j = omega arith in
    let start_k : k + 0 ≡ k = omega arith in
    let first : word a j ≡ f k = ap (word a) (sym start_j) ∙ h 0 (omega arith) ∙ ap f start_k in
    let rest : (fs' : Fs) → free_entries n (suc j) a fs' ≡ free_range n (suc k) f fs' = λ fs'.
      free_entries_range n (suc j) (suc k) a f fs' (λ i l.
        let next_j : suc j + i ≡ j + suc i = omega arith in
        let next_k : suc k + i ≡ k + suc i = omega arith in
        ap (word a) next_j ∙ h (suc i) (omega arith) ∙ ap f (sym next_k)) in
    rw first
      (bind_same (free_block fs (f k)) (free_entries n (suc j) a) (free_range n (suc k) f) rest)

-- The inode after its addresses from `i` on are set to 0.
pub record Zeroed (ip : Dinode) (i n : ℕ) (ip' : Dinode) : Type 0 where
  pub here : (j : ℕ) → i ≤ j → j < i + n → ip'.addrs j ≡ 0
  pub away : (j : ℕ) → i + n ≤ j → ip'.addrs j ≡ ip.addrs j
  pub before : (j : ℕ) → j < i → ip'.addrs j ≡ ip.addrs j
  pub type : ip'.type ≡ ip.type
  pub nlink : ip'.nlink ≡ ip.nlink

pub free_direct_range :
    (n i : ℕ) (ip : Dinode) (f : ℕ → ℕ) (fs fs' : Fs)
    → ((j : ℕ) → i ≤ j → j < i + n → ip.addrs j ≡ f j)
    → free_range n i f fs ≡ ok fs'
    → (ip' : Dinode) × ((free_direct n i ip fs ≡ ok (ip', fs')) × Zeroed ip i n ip')
unfolding free_direct free_range
free_direct_range zero i ip f fs fs' h run = (
  ip,
  (
    ap (λ r. r >>= (λ x. ok (ip, x))) run,
    record {
      here = λ j l m. absurd (omega arith);
      away = λ j l. refl;
      before = λ j l. refl;
      type = refl;
      nlink = refl;
    },
  ),
)
free_direct_range (suc n) i ip f fs fs' h run =
    let (r, (one, rest)) = bind_ok (free_block fs (f i)) (free_range n (suc i) f) fs' run in
    let ip0 : Dinode = set_addr ip i 0 in
    let kept : (j : ℕ) → j ≢ i → ip0.addrs j ≡ ip.addrs j =
      λ j ne. if_false 0 (ip.addrs j) (j == i) (==_of_ne j i ne) in
    let (ip', (e, z)) =
      free_direct_range n (suc i) ip0 f r fs'
        (λ j l m. kept j (omega arith) ∙ h j (omega arith) (omega arith)) rest in
    let step : free_block fs (ip.addrs i) ≡ ok r =
      ap (free_block fs) (h i (omega arith) (omega arith)) ∙ one in
    (
      ip',
      (
        ap (λ x. x >>= (λ y. free_direct n (suc i) ip0 y)) step ∙ e,
        record {
          here = λ j l m. elim (Bool-cases (j == i)) [
            | inl q ↦
                let same : j ≡ i = (==_iff j i).0 q in
                ap (λ k. ip'.addrs k) same ∙ z.before i (omega arith) ∙ if_refl 0 (ip.addrs i) i
            | inr q ↦ z.here j (omega (arith, ne_of_== j i q)) (omega arith)
          ];
          away = λ j l. z.away j (omega arith) ∙ kept j (omega arith);
          before = λ j l. z.before j (omega arith) ∙ kept j (omega arith);
          type = z.type;
          nlink = z.nlink;
        },
      ),
    )
