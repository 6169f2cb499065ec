-- ===== src/Fs/Content/Overlay.antt =====
-- Bytes laid over a function from places to bytes.
use cs461_hw.Base.{
  ℕ, zero, suc, ◌+◌, ◌-◌, ◌≡◌, ◌≤◌, ◌<◌, refl, sym, ap, ◌∙◌, List, [], ◌∷◌, ◌++◌, length, take,
  drop, arith, le→leb, leb_of_lt,
}
use native.Mathlib.Decide.{dec_lt}
use cs461_hw.Fs.Content.{nth, overlay, read_bytes}

nth_past : (xs : List ℕ) (i d : ℕ) → length xs ≤ i → nth xs i d ≡ d
nth_past [] i d h = refl
nth_past (x ∷ xs) zero d h = absurd (omega arith)
nth_past (x ∷ xs) (suc i) d h = nth_past xs i d (omega arith)

pub nth_default : (xs : List ℕ) (i d e : ℕ) → i < length xs → nth xs i d ≡ nth xs i e
nth_default [] i d e h = absurd (omega arith)
nth_default (x ∷ xs) zero d e h = refl
nth_default (x ∷ xs) (suc i) d e h = nth_default xs i d e (omega arith)

nth-append :
    (xs ys : List ℕ) (i d : ℕ) → length xs ≤ i → nth (xs ++ ys) i d ≡ nth ys (i - length xs) d
nth-append [] ys i d h = let same : i - 0 ≡ i = omega arith in rw same refl
nth-append (x ∷ xs) ys zero d h = absurd (omega arith)
nth-append (x ∷ xs) ys (suc i) d h =
    let same : suc i - suc (length xs) ≡ i - length xs = omega arith in
    rw same (nth-append xs ys i d (omega arith))

nth-append_low : (xs ys : List ℕ) (i d : ℕ) → i < length xs → nth (xs ++ ys) i d ≡ nth xs i d
nth-append_low [] ys i d h = absurd (omega arith)
nth-append_low (x ∷ xs) ys zero d h = refl
nth-append_low (x ∷ xs) ys (suc i) d h = nth-append_low xs ys i d (omega arith)

module _ (x : ℕ → ℕ) (start : ℕ) (xs : List ℕ) (j : ℕ) where
  pub overlay_before : j < start → overlay x start xs j ≡ x j
  overlay_before h = rw (leb_of_lt start j h) refl

  pub overlay_after : start + length xs ≤ j → overlay x start xs j ≡ x j
  overlay_after h = rw (le→leb start j (omega arith)) (nth_past xs (j - start) (x j) (omega arith))

  pub overlay_in : start ≤ j → overlay x start xs j ≡ nth xs (j - start) (x j)
  overlay_in h = rw (le→leb start j h) refl

-- Two pieces, one after the other.
pub overlay-append :
    (x : ℕ → ℕ) (start : ℕ) (xs ys : List ℕ) (j : ℕ)
    → overlay (overlay x start xs) (start + length xs) ys j ≡ overlay x start (xs ++ ys) j
overlay-append x start xs ys j =
    let y : ℕ → ℕ = overlay x start xs in
    elim (dec_lt j (start + length xs)) [
      | yes h ↦ overlay_before y (start + length xs) ys j h ∙ (elim (dec_lt j start) [
        | yes low ↦ overlay_before x start xs j low ∙ sym (overlay_before x start (xs ++ ys) j low)
        | no high ↦
            overlay_in x start xs j (omega arith)
            ∙ sym (nth-append_low xs ys (j - start) (x j) (omega arith))
            ∙ sym (overlay_in x start (xs ++ ys) j (omega arith))
      ])
      | no h ↦
          let place : j - start - length xs ≡ j - (start + length xs) = omega arith in
          overlay_in y (start + length xs) ys j (omega arith)
          ∙ ap (nth ys (j - (start + length xs))) (overlay_after x start xs j (omega arith))
          ∙ ap (λ i. nth ys i (x j)) (sym place)
          ∙ sym (nth-append xs ys (j - start) (x j) (omega arith))
          ∙ sym (overlay_in x start (xs ++ ys) j (omega arith))
    ]

read_bytes-nth :
    (z : ℕ → ℕ) (p : ℕ) (xs : List ℕ)
    → ((j : ℕ) → j < length xs → z (p + j) ≡ nth xs j 0)
    → read_bytes z p (length xs) ≡ xs
unfolding read_bytes
read_bytes-nth z p [] h = refl
read_bytes-nth z p (x ∷ xs) h =
    let start : p + 0 ≡ p = omega arith in
    let first : z p ≡ x = ap z (sym start) ∙ h 0 (omega arith) in
    let rest : read_bytes z (suc p) (length xs) ≡ xs = read_bytes-nth z (suc p) xs (λ j l.
      let next : suc p + j ≡ p + suc j = omega arith in ap z next ∙ h (suc j) (omega arith)) in
    cc (first, rest)

-- The bytes laid down are the bytes there.
pub read_bytes-overlay :
    (x : ℕ → ℕ) (start : ℕ) (xs : List ℕ) → read_bytes (overlay x start xs) start (length xs) ≡ xs
read_bytes-overlay x start xs = read_bytes-nth (overlay x start xs) start xs (λ j l.
    let place : start + j - start ≡ j = omega arith in
    overlay_in x start xs (start + j) (omega arith)
    ∙ ap (λ i. nth xs i (x (start + j))) place
    ∙ nth_default xs j (x (start + j)) 0 l)

pub take-drop : (n : ℕ) (xs : List ℕ) → take n xs ++ drop n xs ≡ xs
take-drop zero xs = refl
take-drop (suc n) [] = refl
take-drop (suc n) (x ∷ xs) = ap (λ ys. x ∷ ys) (take-drop n xs)

pub length-take : (n : ℕ) (xs : List ℕ) → n ≤ length xs → length (take n xs) ≡ n
length-take zero xs h = refl
length-take (suc n) [] h = absurd (omega arith)
length-take (suc n) (x ∷ xs) h = omega (arith, length-take n xs (omega arith))

pub length-drop : (n : ℕ) (xs : List ℕ) → length (drop n xs) ≡ length xs - n
length-drop zero xs = omega arith
length-drop (suc n) [] = omega arith
length-drop (suc n) (x ∷ xs) = omega (arith, length-drop n xs)
