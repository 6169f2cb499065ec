-- ===== src/Pipe/Queue.antt =====
-- The bytes in a pipe, oldest first.
use cs461_hw.Base.{
  ℕ, zero, suc, ◌+◌, ◌-◌, ◌%◌, ◌^◌, ◌≤◌, ◌<◌, ◌≡◌, ◌≢◌, refl, ap, false, List, [], ◌∷◌, ◌++◌, arith,
  ◌==◌, if◌then◌else◌, length, ==_of_ne, ==_refl,
}
use cs461_hw.Pipe.{Pipe, pipesize, is_full, push}

-- nwrite - nread, on 32 bits.
abbrev pub used : Pipe → ℕ
used p = (p.nwrite + 2 ^ 32 - p.nread) % 2 ^ 32

-- The `n` bytes from counter value `r` on.
unfoldable pub window : (ℕ → ℕ) → ℕ → ℕ → List ℕ
window d r zero = []
window d r (suc n) = d (r % pipesize) ∷ window d ((r + 1) % 2 ^ 32) n

unfoldable pub contents : Pipe → List ℕ
contents p = window p.buf p.nread (used p)

-- The counters are 32-bit numbers at most PIPESIZE apart.
pub record IsPipe (p : Pipe) : Type 0 where
  pub small : p.nread < 2 ^ 32
  pub small' : p.nwrite < 2 ^ 32
  pub fits : used p ≤ pipesize

pub length-window : (d : ℕ → ℕ) (r n : ℕ) → length (window d r n) ≡ n
unfolding window
length-window d r zero = refl
length-window d r (suc n) = ap suc (length-window d ((r + 1) % 2 ^ 32) n)

-- A store just past a window extends it.
window-push :
    (d : ℕ → ℕ) (b r n w : ℕ)
    → r < 2 ^ 32
    → n < pipesize
    → w ≡ (r + n) % 2 ^ 32
    → window (λ i. if (w % pipesize) == i then b else d i) r (suc n) ≡ window d r n ++ (b ∷ [])
unfolding window
window-push d b r zero w hr hn e =
    let here : w % pipesize ≡ r % pipesize = omega arith in rw (here, ==_refl (r % pipesize))
window-push d b r (suc n) w hr hn e =
    let other : w % pipesize ≢ r % pipesize = λ q. omega arith in
    rw (==_of_ne (w % pipesize) (r % pipesize) other) (
      ap (λ l. d (r % pipesize) ∷ l)
        (window-push d b ((r + 1) % 2 ^ 32) n w (omega arith) (omega arith) (omega arith)))

pub push-IsPipe : (p : Pipe) (b : ℕ) → IsPipe p → is_full p ≡ false → IsPipe (push p b)
unfolding push
push-IsPipe p b v h = record {
  small = v.small;
  small' = omega arith;
  fits = ground (arith, v.small, v.small', v.fits);
}

pub used-push : (p : Pipe) (b : ℕ) → IsPipe p → is_full p ≡ false → used (push p b) ≡ used p + 1
unfolding push
used-push p b v h =
    let room : used p < pipesize = ground (arith, v.small, v.small', v.fits) in
    omega (arith, v.small, v.small', v.fits)

pub contents-push :
    (p : Pipe) (b : ℕ) → IsPipe p → is_full p ≡ false → contents (push p b) ≡ contents p ++ (b ∷ [])
unfolding contents push
contents-push p b v h =
    let room : used p < pipesize = ground (arith, v.small, v.small', v.fits) in
    let more : ((p.nwrite + 1) % 2 ^ 32 + 2 ^ 32 - p.nread) % 2 ^ 32 ≡ suc (used p) =
      omega (arith, v.small, v.small', v.fits) in
    rw more (
      window-push p.buf b p.nread (used p) p.nwrite v.small room (omega (arith, v.small, v.small')))
