-- ===== src/Bio/Search.antt =====
-- The two searches of bget, and the list that brelse reorders.
use cs461_hw.Base.{
  ℕ, ◌≡◌, refl, Bool, true, false, ◌||◌, List, [], ◌∷◌, Option, none, some, ◌==◌, if◌then◌else◌,
  arith, Bool-cases, inl, inr, ==_iff, sym, ◌∙◌, ap, ==_refl,
}
use cs461_hw.Bio.{Buf, is_cached, is_unused, find_cached, find_unused, unlink}

-- Whether `i` is in the list.
abbrev pub has : ℕ → List ℕ → Bool
has i [] = false
has i (j ∷ js) = (i == j) || has i js

module _ (buf : ℕ → Buf) (dev blockno : ℕ) where
  -- What the search of a list answers.
  abbrev pub Cached : List ℕ → Option ℕ → Type 0
  Cached is (some i) = (has i is ≡ true) × (is_cached (buf i) dev blockno ≡ true)
  Cached is none = (i : ℕ) → has i is ≡ true → is_cached (buf i) dev blockno ≡ false

  Cached-later :
      (j : ℕ) (is : List ℕ) (r : Option ℕ)
      → is_cached (buf j) dev blockno ≡ false
      → Cached is r
      → Cached (j ∷ is) r
  Cached-later j is (some i) e c = (ground (arith, c.0), c.1)
  Cached-later j is none e c = λ i h. elim (Bool-cases (i == j)) [
    | inl q ↦ rw ((==_iff i j).0 q) e
    | inr q ↦ let rest : has i is ≡ true = rw q at h in c i rest
  ]

  pub find_cached-Cached : (is : List ℕ) → Cached is (find_cached is buf dev blockno)
  unfolding find_cached
  find_cached-Cached [] = λ i h. absurd (ground arith)
  find_cached-Cached (j ∷ is) = elim (Bool-cases (is_cached (buf j) dev blockno)) [
    | inl e ↦ rw e (rw (==_refl j) refl, e)
    | inr e ↦ rw e (Cached-later j is (find_cached is buf dev blockno) e (find_cached-Cached is))
  ]

abbrev pub Unused : (ℕ → Buf) → List ℕ → Option ℕ → Type 0
Unused buf is (some i) = (has i is ≡ true) × (is_unused (buf i) ≡ true)
Unused buf is none = (i : ℕ) → has i is ≡ true → is_unused (buf i) ≡ false

pub find_unused-Unused : (buf : ℕ → Buf) (is : List ℕ) → Unused buf is (find_unused is buf)
unfolding find_unused
find_unused-Unused buf [] = λ i h. absurd (ground arith)
find_unused-Unused buf (j ∷ is) = step (find_unused is buf) (find_unused-Unused buf is)
  where
    step :
        (r : Option ℕ)
        → Unused buf is r
        → Unused buf
            (j ∷ is)
            (elim r [ some k ↦ some k | none ↦ if is_unused (buf j) then some j else none ])
    step (some k) u = (ground (arith, u.0), u.1)
    step none u = elim (Bool-cases (is_unused (buf j))) [
      | inl e ↦ rw e (rw (==_refl j) refl, e)
      | inr e ↦ rw e (λ i h. elim (Bool-cases (i == j)) [
        | inl q ↦ rw ((==_iff i j).0 q) e
        | inr q ↦ let rest : has i is ≡ true = rw q at h in u i rest
      ])
    ]

or_again : (a x y : Bool) → (a || x) ≡ (a || y) → (a || (a || x)) ≡ (a || y)
or_again true x y h = refl
or_again false x y h = h

or_between : (a b x y : Bool) → (a || x) ≡ (a || y) → (a || (b || x)) ≡ (a || (b || y))
or_between true b x y h = refl
or_between false true x y h = refl
or_between false false x y h = h

-- Moving a buffer to the front changes no membership.
has-unlink : (i j : ℕ) (is : List ℕ) → has j (i ∷ is) ≡ has j (i ∷ unlink i is)
unfolding unlink
has-unlink i j [] = refl
has-unlink i j (k ∷ is) = elim (Bool-cases (i == k)) [
  | inl e ↦
      let same = (==_iff i k).0 e in
      rw e (
        ap (λ n. (j == i) || ((j == n) || has j is)) (sym same)
        ∙ or_again (j == i) (has j is) (has j (unlink i is)) (has-unlink i j is))
  | inr e ↦ rw e (or_between (j == i) (j == k) (has j is) (has j (unlink i is)) (has-unlink i j is))
]

pub has-front : (i j : ℕ) (is : List ℕ) → has i is ≡ true → has j (i ∷ unlink i is) ≡ has j is
has-front i j is h = sym (has-unlink i j is) ∙ absorbed
  where
    absorbed : has j (i ∷ is) ≡ has j is
    absorbed = elim (Bool-cases (j == i)) [
      | inl e ↦ let there : has j is ≡ true = rw ((==_iff j i).0 e) h in rw there (rw e refl)
      | inr e ↦ rw e refl
    ]
