-- ===== src/File/Counted.antt =====
-- The count of a file is the number of descriptors that refer to it.
use cs461_hw.Base.{
  ℕ, zero, suc, ◌+◌, ◌^◌, ◌≡◌, ◌≤◌, ◌<◌, ◌⊎◌, inl, inr, refl, sym, ap, ◌∙◌, Bool, true, false, ◌||◌,
  Option, none, some, ◌==◌, leb, if◌then◌else◌, if_true, if_false, arith, Bool-cases, ==_iff,
  ==_of_ne, ne_of_==,
}
use cs461_hw.Fs.Icache.{is_positive}
use cs461_hw.File.{nofile, Files, free_file, argfd, free_fd}

abbrev pub one_if : Bool → ℕ
one_if b = if b then 1 else 0

-- How many of the first `n` descriptors refer to `f`.
unfoldable pub count : (n : ℕ) → (ofile : ℕ → ℕ) → (f : ℕ) → ℕ
count zero ofile f = 0
count (suc n) ofile f = one_if (ofile n == f) + count n ofile f

unfoldable pub IsCounted : Files → Type 0
IsCounted s = (f : ℕ) → 0 < f → s.ref f ≡ count nofile s.ofile f

one_le : (b : Bool) → one_if b ≤ 1
one_le true = omega arith
one_le false = omega arith

count_le : (n : ℕ) (ofile : ℕ → ℕ) (f : ℕ) → count n ofile f ≤ n
unfolding count
count_le zero ofile f = omega arith
count_le (suc n) ofile f = omega (arith, one_le (ofile n == f), count_le n ofile f)

abbrev pub redirect : (ℕ → ℕ) → (fd g : ℕ) → ℕ → ℕ
redirect ofile fd g d = if d == fd then g else ofile d

count_above :
    (n : ℕ) (ofile : ℕ → ℕ) (fd g f : ℕ)
    → n ≤ fd
    → count n (redirect ofile fd g) f ≡ count n ofile f
unfolding count
count_above zero ofile fd g f h = refl
count_above (suc n) ofile fd g f h =
    let other : redirect ofile fd g n ≡ ofile n =
      if_false g (ofile n) (n == fd) (==_of_ne n fd (omega arith)) in
    omega (arith, ap (λ x. one_if (x == f)) other, count_above n ofile fd g f (omega arith))

-- A descriptor that changes from one file to another takes its count with it.
count-redirect :
    (n : ℕ) (ofile : ℕ → ℕ) (fd g f : ℕ)
    → fd < n
    → count n (redirect ofile fd g) f + one_if (ofile fd == f) ≡ count n ofile f + one_if (g == f)
unfolding count
count-redirect zero ofile fd g f h = absurd (omega arith)
count-redirect (suc n) ofile fd g f h = elim (Bool-cases (n == fd)) [
  | inl q ↦
      let here : n ≡ fd = (==_iff n fd).0 q in
      let now : redirect ofile fd g n ≡ g = if_true g (ofile n) (n == fd) q in
      omega (
        arith,
        ap (λ x. one_if (x == f)) now,
        ap (λ x. one_if (ofile x == f)) here,
        count_above n ofile fd g f (omega arith),
      )
  | inr q ↦
      let other : redirect ofile fd g n ≡ ofile n = if_false g (ofile n) (n == fd) q in
      omega (
        arith,
        ap (λ x. one_if (x == f)) other,
        count-redirect n ofile fd g f (omega (arith, ne_of_== n fd q)),
      )
]

-- A descriptor that refers to `f` is counted.
pub count_pos : (n : ℕ) (ofile : ℕ → ℕ) (fd f : ℕ) → fd < n → ofile fd ≡ f → 0 < count n ofile f
unfolding count
count_pos zero ofile fd f h e = absurd (omega arith)
count_pos (suc n) ofile fd f h e = elim (Bool-cases (n == fd)) [
  | inl q ↦
      let here : ofile n ≡ f = ap ofile ((==_iff n fd).0 q) ∙ e in
      omega (arith, if_true {A = ℕ} 1 0 (ofile n == f) ((==_iff (ofile n) f).1 here))
  | inr q ↦ omega (arith, count_pos n ofile fd f (omega (arith, ne_of_== n fd q)) e)
]

-- Descriptor `fd` comes to refer to `g`, and the counts change with it.
pub redirect-IsCounted :
    (s : Files) (fd g : ℕ) (t : Files)
    → IsCounted s
    → fd < nofile
    → t.ofile ≡ redirect s.ofile fd g
    → ((f : ℕ) → 0 < f → t.ref f + one_if (s.ofile fd == f) ≡ s.ref f + one_if (g == f))
    → IsCounted t
unfolding IsCounted
redirect-IsCounted s fd g t c h e change f pos = omega (
  arith,
  change f pos,
  c f pos,
  count-redirect nofile s.ofile fd g f h,
  ap (λ o. count nofile o f) e,
)

-- The test of a count that is neither 0 nor large.
pub positive : (x : ℕ) → 0 < x → x < 2 ^ 31 → is_positive x ≡ true
positive x h l = ground arith

-- A file out of use has the number of no descriptor, and one in use has a count that fits.
pub count_bound : (s : Files) (f : ℕ) → IsCounted s → 0 < f → s.ref f ≤ 16
unfolding IsCounted
count_bound s f c h = omega (arith, c f h, count_le nofile s.ofile f)

-- One more and one less in a count.
pub one_at : (f g : ℕ) → ((f == g) ≡ true) ⊎ ((f == g) ≡ false)
one_at f g = Bool-cases (f == g)

flip : (f g : ℕ) → (f == g) ≡ (g == f)
flip f g = elim (Bool-cases (g == f)) [
  | inl q ↦ (==_iff f g).1 (sym ((==_iff g f).0 q)) ∙ sym q
  | inr q ↦ ==_of_ne f g (λ e. ne_of_== g f q (sym e)) ∙ sym q
]

pub set_ref_at : (ref : ℕ → ℕ) (f g n : ℕ) → (f == g) ≡ true → (if g == f then n else ref g) ≡ n
set_ref_at ref f g n q = if_true n (ref g) (g == f) (sym (flip f g) ∙ q)

pub set_ref_off :
    (ref : ℕ → ℕ) (f g n : ℕ) → (f == g) ≡ false → (if g == f then n else ref g) ≡ ref g
set_ref_off ref f g n q = if_false n (ref g) (g == f) (sym (flip f g) ∙ q)

-- What argfd, fdalloc and filealloc find.
abbrev pub Open : Files → ℕ → Option ℕ → Type 0
Open s fd none = Unit
Open s fd (some f) = (fd < nofile) × ((s.ofile fd ≡ f) × (0 < f))

pub argfd-Open : (s : Files) (fd : ℕ) → Open s fd (argfd s fd)
unfolding argfd
argfd-Open s fd = elim (Bool-cases (leb (2 ^ 31) fd || leb nofile fd || (s.ofile fd == 0))) [
  | inl q ↦ rw q tt
  | inr q ↦ rw q (ground (arith, q))
]

abbrev pub FreeFd : (ofile : ℕ → ℕ) → Option ℕ → Type 0
FreeFd ofile none = Unit
FreeFd ofile (some fd) = (fd < nofile) × (ofile fd ≡ 0)

pub free_fd-FreeFd :
    (n fd : ℕ) (ofile : ℕ → ℕ) → fd + n ≤ nofile → FreeFd ofile (free_fd n fd ofile)
unfolding free_fd
free_fd-FreeFd zero fd ofile h = tt
free_fd-FreeFd (suc n) fd ofile h = elim (Bool-cases (ofile fd == 0)) [
  | inl q ↦ rw q (omega arith, (==_iff (ofile fd) 0).0 q)
  | inr q ↦ rw q (free_fd-FreeFd n (suc fd) ofile (omega arith))
]

pub free_file_unused : (n f : ℕ) (ref : ℕ → ℕ) → 0 < free_file n f ref → ref (free_file n f ref) ≡ 0
unfolding free_file
free_file_unused zero f ref h = absurd (omega (arith, h))
free_file_unused (suc n) f ref h = elim (Bool-cases (ref f == 0)) [
  | inl q ↦ rw q ((==_iff (ref f) 0).0 q)
  | inr q ↦ rw q (free_file_unused n (suc f) ref (rw q at h))
]
