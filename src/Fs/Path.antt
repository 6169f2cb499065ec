-- ===== src/Fs/Path.antt =====
-- fs.c: skipelem, on a path without its ending zero. `name` is a buffer of DIRSIZ bytes.
pub mod Elements
use cs461_hw.Base.{
  ℕ, zero, suc, List, [], ◌∷◌, ◌++◌, Option, none, some, ◌==◌, leb, if◌then◌else◌, length, take,
}
use cs461_hw.Fs.Content.{overlay}

abbrev pub slash : ℕ
slash = 47

abbrev pub dirsiz : ℕ
dirsiz = 14

-- `while(*path == '/') path++;`
pub skip_slashes : List ℕ → List ℕ
skip_slashes [] = []
skip_slashes (c ∷ path) = let rest = skip_slashes path in if c == slash then rest else c ∷ path

-- `while(*path != '/' && *path != 0) path++;`, the bytes passed and the rest.
pub pass_element : List ℕ → List ℕ × List ℕ
pass_element [] = ([], [])
pass_element (c ∷ path) =
    let rest = pass_element path in if c == slash then ([], c ∷ path) else (c ∷ rest.0, rest.1)

-- The copy of an element `s` into the buffer.
pub copy_name : (ℕ → ℕ) → List ℕ → ℕ → ℕ
copy_name name s =
    if leb dirsiz (length s) then overlay name 0 (take dirsiz s) else overlay name 0 (s ++ 0 ∷ [])

pub skip_first : (ℕ → ℕ) → List ℕ → Option (List ℕ × (ℕ → ℕ))
skip_first name [] = none
skip_first name (c ∷ path) =
    let r = pass_element (c ∷ path) in some (skip_slashes r.1, copy_name name r.0)

-- What follows the first element of a path, and the buffer; none if there is no element.
pub skipelem : List ℕ → (name : ℕ → ℕ) → Option (List ℕ × (ℕ → ℕ))
skipelem path name = skip_first name (skip_slashes path)
