-- ===== src/Fs/Content/Read.antt =====
-- readi returns the bytes of the file.
use cs461_hw.Base.{
  length, ℕ, zero, suc, ◌+◌, ◌-◌, ◌*◌, ◌/◌, ◌%◌, ◌^◌, ◌≡◌, ◌≢◌, ◌≤◌, ◌<◌, ◌⊎◌, inl, inr, refl, sym,
  ap, ◌∙◌, min, List, ◌∷◌, ◌++◌, none, some, ◌==◌, ltb, if◌then◌else◌, arith, Bool-cases, ==_of_ne,
  ltb→lt, lt→ltb, ltb→ge, ltb_of_ge,
}
use cs461_hw.Fs.{bsize, maxfile, t_dev, Dinode, Fs, ok, bmap}
use cs461_hw.Fs.Slots.{slot}
use cs461_hw.Fs.Map.{bmap_full}
use cs461_hw.Fs.Content.{Devsw, read_bytes, read_loop, readi}

-- Byte `i` of a file. A block that it lacks reads as zeros.
abbrev pub content : Dinode → Fs → ℕ → ℕ
content ip fs i =
    if slot ip fs (i / bsize) == 0 then 0 else fs.bytes (slot ip fs (i / bsize)) (i % bsize)

-- The file has every block of a range of bytes.
abbrev pub Covers : Dinode → Fs → (off n : ℕ) → Type 0
Covers ip fs off n = (i : ℕ) → off ≤ i → i < off + n → slot ip fs (i / bsize) ≢ 0

pub read_bytes_same :
    (x y : ℕ → ℕ) (p q n : ℕ)
    → ((j : ℕ) → j < n → x (p + j) ≡ y (q + j))
    → read_bytes x p n ≡ read_bytes y q n
unfolding read_bytes
read_bytes_same x y p q zero h = refl
read_bytes_same x y p q (suc n) h =
    let start_p : p + 0 ≡ p = omega arith in
    let start_q : q + 0 ≡ q = omega arith in
    let first : x p ≡ y q = ap x (sym start_p) ∙ h 0 (omega arith) ∙ ap y start_q in
    let rest = read_bytes_same x y (suc p) (suc q) n (λ j l.
      let next_p : suc p + j ≡ p + suc j = omega arith in
      let next_q : suc q + j ≡ q + suc j = omega arith in
      ap x next_p ∙ h (suc j) (omega arith) ∙ ap y (sym next_q)) in
    cc (first, rest)

read_bytes_append :
    (x : ℕ → ℕ) (p m n : ℕ) → read_bytes x p m ++ read_bytes x (p + m) n ≡ read_bytes x p (m + n)
unfolding read_bytes
read_bytes_append x p zero n =
    let start : p + 0 ≡ p = omega arith in
    let none_first : 0 + n ≡ n = omega arith in rw (start, none_first) refl
read_bytes_append x p (suc m) n =
    let next : p + suc m ≡ suc p + m = omega arith in
    let count : suc m + n ≡ suc (m + n) = omega arith in
    rw (next, count) (ap (λ xs. x p ∷ xs) (read_bytes_append x (suc p) m n))

pub length-read_bytes : (x : ℕ → ℕ) (p n : ℕ) → length (read_bytes x p n) ≡ n
unfolding read_bytes
length-read_bytes x p zero = refl
length-read_bytes x p (suc n) = omega (arith, length-read_bytes x (suc p) n)

read_loop_next :
    (fuel : ℕ) (ip : Dinode) (fs : Fs) (off n a m : ℕ) (xs : List ℕ)
    → m ≡ min (suc n) (bsize - off % bsize)
    → bmap ip fs (off / bsize) ≡ ok (a, ip, fs)
    → read_loop fuel ip fs ((off + m) % 2 ^ 32) (suc n - m) ≡ ok (xs, ip, fs)
    → read_loop (suc fuel) ip fs off (suc n)
      ≡ ok (read_bytes (fs.bytes a) (off % bsize) m ++ xs, ip, fs)
unfolding read_loop
read_loop_next fuel ip fs off n a m xs e mapped rest = rw (sym e, mapped, rest) refl

content_block :
    (ip : Dinode) (fs : Fs) (off m : ℕ)
    → m ≤ bsize - off % bsize
    → slot ip fs (off / bsize) ≢ 0
    → read_bytes (fs.bytes (slot ip fs (off / bsize))) (off % bsize) m
      ≡ read_bytes (content ip fs) off m
content_block ip fs off m h ne =
    read_bytes_same (fs.bytes (slot ip fs (off / bsize))) (content ip fs) (off % bsize) off m
      (λ j l.
        let block : (off + j) / bsize ≡ off / bsize = omega arith in
        let place : (off + j) % bsize ≡ off % bsize + j = omega arith in
        rw (block, place, ==_of_ne (slot ip fs (off / bsize)) 0 ne) refl)

read_loop_lem :
    (fuel : ℕ) (ip : Dinode) (fs : Fs) (off n : ℕ)
    → n ≤ fuel
    → off + n ≤ maxfile * bsize
    → Covers ip fs off n
    → read_loop fuel ip fs off n ≡ ok (read_bytes (content ip fs) off n, ip, fs)
unfolding read_loop read_bytes
read_loop_lem zero ip fs off zero l b c = refl
read_loop_lem zero ip fs off (suc n) l b c = absurd (omega arith)
read_loop_lem (suc fuel) ip fs off zero l b c = refl
read_loop_lem (suc fuel) ip fs off (suc n) l b c =
    let m : ℕ = min (suc n) (bsize - off % bsize) in
    let e : m ≡ min (suc n) (bsize - off % bsize) = refl in
    let here : slot ip fs (off / bsize) ≢ 0 = c off (omega arith) (omega arith) in
    let wrap : (off + m) % 2 ^ 32 ≡ off + m = omega (arith, e) in
    let rest : read_loop fuel ip fs ((off + m) % 2 ^ 32) (suc n - m)
        ≡ ok (read_bytes (content ip fs) (off + m) (suc n - m), ip, fs) =
      rw wrap (
        read_loop_lem fuel ip fs (off + m) (suc n - m) (omega (arith, e)) (omega (arith, e))
          (λ i p q. c i (omega arith) (omega (arith, e)))) in
    let joined = read_bytes_append (content ip fs) off m (suc n - m) in
    let count : m + (suc n - m) ≡ suc n = omega (arith, e) in
    read_loop_next fuel ip fs off n (slot ip fs (off / bsize)) m
      (read_bytes (content ip fs) (off + m) (suc n - m)) e
      (bmap_full ip fs (off / bsize) (omega arith) here) rest
    ∙ ap (λ xs. ok (xs ++ read_bytes (content ip fs) (off + m) (suc n - m), ip, fs))
        (content_block ip fs off m (omega (arith, e)) here)
    ∙ ap (λ xs. ok (xs, ip, fs)) (joined ∙ ap (read_bytes (content ip fs) off) count)

-- The tests of readi pass on to the loop, with the count cut at the end of the file.
readi_passes :
    (devsw : Devsw) (ip : Dinode) (fs : Fs) (off n m : ℕ) (xs : List ℕ)
    → ip.type ≢ t_dev
    → off ≤ ip.size
    → off + n < 2 ^ 32
    → (if ltb ip.size (off + n) then ip.size - off else n) ≡ m
    → read_loop m ip fs off m ≡ ok (xs, ip, fs)
    → readi devsw ip fs off n ≡ ok (some xs, ip, fs)
unfolding readi
readi_passes devsw ip fs off n m xs t l w count run =
    let whole : (off + n) % 2 ^ 32 ≡ off + n = omega arith in
    rw
      (
        ==_of_ne ip.type t_dev t,
        whole,
        ltb_of_ge ip.size off l,
        ltb_of_ge (off + n) off (omega arith),
        count,
        run,
      )
      refl

-- readi of a file, no device, of at most the largest size and with all its blocks, at an offset up to
-- the end and for a range that does not wrap round, returns its bytes from `off` on, `n` of them or as
-- many as are left, and changes neither the disk nor the inode.
pub readi_lem :
    (devsw : Devsw) (ip : Dinode) (fs : Fs) (off n : ℕ)
    → ip.type ≢ t_dev
    → ip.size ≤ maxfile * bsize
    → Covers ip fs 0 ip.size
    → off ≤ ip.size
    → off + n < 2 ^ 32
    → readi devsw ip fs off n
      ≡ ok (some (read_bytes (content ip fs) off (min n (ip.size - off))), ip, fs)
readi_lem devsw ip fs off n t small covers l w =
    let m : ℕ = min n (ip.size - off) in
    let e : m ≡ min n (ip.size - off) = refl in
    let count : (if ltb ip.size (off + n) then ip.size - off else n) ≡ m =
      elim (Bool-cases (ltb ip.size (off + n))) [
        | inl q ↦ rw q (omega (arith, ltb→lt ip.size (off + n) q))
        | inr q ↦ rw q (omega (arith, ltb→ge ip.size (off + n) q))
      ] in
    readi_passes devsw ip fs off n m (read_bytes (content ip fs) off m) t l w count (
      read_loop_lem m ip fs off m (omega arith) (omega (arith, e))
        (λ i p q. covers i (omega arith) (omega (arith, e))))

-- An offset past the end, or a range that wraps round, is refused.
readi_refused :
    (devsw : Devsw) (ip : Dinode) (fs : Fs) (off n : ℕ)
    → ip.type ≢ t_dev
    → n < 2 ^ 32
    → off < 2 ^ 32
    → (ip.size < off) ⊎ (2 ^ 32 ≤ off + n)
    → readi devsw ip fs off n ≡ ok (none, ip, fs)
unfolding readi
readi_refused devsw ip fs off n t ln lo (inl past) =
    rw (==_of_ne ip.type t_dev t, lt→ltb ip.size off past) refl
readi_refused devsw ip fs off n t ln lo (inr wraps) =
    let low : (off + n) % 2 ^ 32 < off = omega arith in
    elim (Bool-cases (ltb ip.size off)) [
      | inl q ↦ rw (==_of_ne ip.type t_dev t, q) refl
      | inr q ↦ rw (==_of_ne ip.type t_dev t, q, lt→ltb ((off + n) % 2 ^ 32) off low) refl
    ]
