-- ===== src/Fs/Path/Elements.antt =====
-- skipelem takes the elements of a path one by one.
use cs461_hw.Base.{
  ℕ, ◌≡◌, ◌<◌, false, List, [], ◌∷◌, ◌++◌, Option, none, some, ◌==◌, if◌then◌else◌, length,
}
use cs461_hw.Fs.Content.{nth}
use cs461_hw.Fs.Path.{slash, dirsiz}

-- An element that has bytes.
abbrev emit : List ℕ → List (List ℕ) → List (List ℕ)
emit [] rest = rest
emit (c ∷ cs) rest = (c ∷ cs) ∷ rest

-- The runs of bytes between slashes; `cur` is the part of a run before the path.
elements_from : List ℕ → List ℕ → List (List ℕ)
elements_from cur [] = emit cur []
elements_from cur (c ∷ path) =
    let next = elements_from [] path in
    let on = elements_from (cur ++ c ∷ []) path in if c == slash then emit cur next else on

pub elements : List ℕ → List (List ℕ)
elements path = elements_from [] path

-- The buffer holds an element: its first DIRSIZ bytes, with a zero behind a shorter one.
abbrev Holds : (ℕ → ℕ) → List ℕ → Type 0
Holds name e =
    ((i : ℕ) → i < length e → i < dirsiz → name i ≡ nth e i 0)
    × (length e < dirsiz → name (length e) ≡ 0)

-- The path after its slashes does not begin with one.
abbrev Starts : List ℕ → Type 0
Starts [] = Unit
Starts (c ∷ path) = (c == slash) ≡ false

-- An element goes on to the next slash.
abbrev joins : List ℕ → List ℕ × List ℕ → List (List ℕ)
joins cur r = emit (cur ++ r.0) (elements_from [] r.1)

-- What skipelem gives: the first element is in the buffer and the others make up the rest, which
-- does not begin with a slash; or there is no element.
abbrev pub Skips : List ℕ → Option (List ℕ × (ℕ → ℕ)) → Type 0
Skips path none = elements path ≡ []
Skips path (some (rest, name)) =
    (e : List ℕ) × ((elements path ≡ e ∷ elements rest) × (Holds name e × Starts rest))
