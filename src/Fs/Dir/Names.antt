-- ===== src/Fs/Dir/Names.antt =====
-- strncmp on names, and the test of dirlookup: what they say of an entry.
use cs461_hw.Base.{
  ℕ, zero, suc, ◌+◌, ◌≡◌, ◌≢◌, ◌↔◌, ◌≤◌, ◌<◌, inl, inr, refl, sym, Bool, true, not, ◌&&◌, ◌==◌,
  if◌then◌else◌, arith, Bool-cases, ==_iff, ne_of_==, ==_of_ne,
}
use native.Mathlib.Decide.{dec_lt}
use cs461_hw.Fs.Path.{dirsiz}
use cs461_hw.Fs.Dir.{Dirent, same_from, same_name, is_entry}

-- Two names agree in the `n` bytes from place `i` on, or up to a zero in both.
abbrev pub AreSameFrom : (n i : ℕ) → (s t : ℕ → ℕ) → Type 0
AreSameFrom n i s t =
    (j : ℕ) → i ≤ j → j < i + n → ((l : ℕ) → i ≤ l → l < j → (s l ≡ t l) × (s l ≢ 0)) → s j ≡ t j

-- The entry is in use and has the name.
abbrev pub IsNamed : (name : ℕ → ℕ) → Dirent → Type 0
IsNamed name de = (de.inum ≢ 0) × AreSameFrom dirsiz 0 name de.name

same_from→same : (n i : ℕ) (s t : ℕ → ℕ) → same_from n i s t ≡ true → AreSameFrom n i s t
unfolding same_from
same_from→same zero i s t h j l m before = absurd (omega arith)
same_from→same (suc n) i s t h j l m before =
    let first : s i ≡ t i = first_same (s i) (t i) (same_from n (suc i) s t) h in
    elim (dec_lt i j) [
      | no here ↦ let at : i ≡ j = omega arith in rw (sym at) first
      | yes later ↦
          let rest : same_from n (suc i) s t ≡ true =
            rest_same (s i) (t i) (same_from n (suc i) s t) (before i (omega arith) later).1 h in
          same_from→same n (suc i) s t rest j later (omega arith)
            (λ k a b. before k (omega arith) b)
    ]
  where
    first_same :
        (x y : ℕ) (b : Bool) → (if not (x == 0) && (x == y) then b else x == y) ≡ true → x ≡ y
    first_same x y b h = elim (Bool-cases (x == y)) [
      | inl e ↦ (==_iff x y).0 e
      | inr e ↦ absurd (ground arith)
    ]

    rest_same :
        (x y : ℕ) (b : Bool)
        → x ≢ 0
        → (if not (x == 0) && (x == y) then b else x == y) ≡ true
        → b ≡ true
    rest_same x y b ne h = ground arith

same→same_from : (n i : ℕ) (s t : ℕ → ℕ) → AreSameFrom n i s t → same_from n i s t ≡ true
unfolding same_from
same→same_from zero i s t h = refl
same→same_from (suc n) i s t h =
    let first : s i ≡ t i = h i (omega arith) (omega arith) (λ k a b. absurd (omega arith)) in
    let equal : (s i == t i) ≡ true = (==_iff (s i) (t i)).1 first in
    elim (Bool-cases (s i == 0)) [
      | inl z ↦ rw (z, equal) refl
      | inr z ↦
          rw (z, equal)
            (same→same_from n (suc i) s t (λ j a b before. h j (omega arith) (omega arith) (λ k c d.
              elim (dec_lt i k) [
                | yes later ↦ before k later d
                | no here ↦ let at : i ≡ k = omega arith in rw (sym at) (first, ne_of_== (s i) 0 z)
              ])))
    ]

pub is_entry_iff : (name : ℕ → ℕ) (de : Dirent) → (is_entry name de ≡ true) ↔ IsNamed name de
unfolding is_entry same_name
is_entry_iff name de = (
  λ h. (
    used_first de.inum (same_from dirsiz 0 name de.name) h,
    same_from→same dirsiz 0 name de.name (name_second de.inum (same_from dirsiz 0 name de.name) h),
  ),
  λ v. rw (==_of_ne de.inum 0 v.0, same→same_from dirsiz 0 name de.name v.1) refl,
)
  where
    used_first : (x : ℕ) (b : Bool) → (not (x == 0) && b) ≡ true → x ≢ 0
    used_first x b h = ground arith

    name_second : (x : ℕ) (b : Bool) → (not (x == 0) && b) ≡ true → b ≡ true
    name_second x b h = ground arith
