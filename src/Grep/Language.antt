-- ===== src/Grep/Language.antt =====
-- What a pattern of grep means, with no search in it: the texts that it spells.
use cs461_hw.Base.{ℕ, ◌≡◌, Bool, true, false, ◌||◌, List, [], ◌∷◌, ◌++◌, ◌==◌, if◌then◌else◌, All}
use cs461_hw.Grep.{star, dollar, dot}

-- A character of the pattern, once or any number of times.
pub data Item : Type 0 where
  one many : ℕ → Item

-- The items of a pattern behind its `^`, and whether a `$` ends it.
unfoldable pub items : List ℕ → List Item
items [] = []
items (c ∷ []) = if c == dollar then [] else one c ∷ []
items (c ∷ d ∷ re) =
    let starred = items re in
    let single = items (d ∷ re) in if d == star then many c ∷ starred else one c ∷ single

unfoldable pub ends : List ℕ → Bool
ends [] = false
ends (c ∷ []) = c == dollar
ends (c ∷ d ∷ re) =
    let starred = ends re in let single = ends (d ∷ re) in if d == star then starred else single

-- The character `t` is one that `c` stands for.
abbrev pub Accepts : ℕ → ℕ → Type 0
Accepts c t = ((c == dot) || (c == t)) ≡ true

pub data Spells : List Item → List ℕ → Type 0 where
  empty : Spells [] []
  once :
      (c t : ℕ) (is : List Item) (s : List ℕ)
      → Accepts c t
      → Spells is s
      → Spells (one c ∷ is) (t ∷ s)
  times :
      (c : ℕ) (is : List Item) (ts s : List ℕ)
      → All (Accepts c) ts
      → Spells is s
      → Spells (many c ∷ is) (ts ++ s)

-- A beginning of the text is spelled, the whole text if the pattern ends in `$`.
pub record Begins (re text : List ℕ) : Type 0 where
  pub part : List ℕ
  pub rest : List ℕ
  pub split : part ++ rest ≡ text
  pub spelled : Spells (items re) part
  pub ending : ends re ≡ true → rest ≡ []

-- The text matches somewhere, at its beginning if the pattern starts with `^`.
pub record Occurs (re text : List ℕ) : Type 0 where
  pub before : List ℕ
  pub behind : List ℕ
  pub split : before ++ behind ≡ text
  pub found : Begins re behind
