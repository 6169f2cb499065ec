-- ===== src/Grep.antt =====
-- grep.c: the matcher of Kernighan and Pike, and the loop over the lines of a file. A string is the
-- list of its bytes before the NUL; what read puts into the buffer may hold NULs.
pub mod Language
pub mod Matcher
pub mod Lines
mod Tests
use cs461_hw.Base.{
  ℕ, zero, suc, ◌+◌, ◌≤◌, Bool, true, false, not, ◌&&◌, ◌||◌, List, [], ◌∷◌, ◌++◌, ◌==◌,
  if◌then◌else◌, length,
}

-- The characters of the source.
abbrev pub star : ℕ
star = 42

abbrev pub dollar : ℕ
dollar = 36

abbrev pub dot : ℕ
dot = 46

abbrev pub caret : ℕ
caret = 94

abbrev pub newline : ℕ
newline = 10

abbrev pub is_end : List ℕ → Bool
is_end [] = true
is_end (c ∷ text) = false

-- The loop of matchstar for `c*`; `here` is matchhere of the pattern behind it.
pub matchstar : (c : ℕ) → (here : List ℕ → Bool) → List ℕ → Bool
matchstar c here [] = here []
matchstar c here (t ∷ text) =
    let rest = matchstar c here text in
    if here (t ∷ text) then true else if (t == c) || (c == dot) then rest else false

-- matchhere behind its test of `$`: `re[0]` is `c`, and `here` is matchhere of `re + 1`.
pub matchone : (c : ℕ) → (here : List ℕ → Bool) → List ℕ → Bool
matchone c here [] = false
matchone c here (t ∷ text) = let rest = here text in if (c == dot) || (c == t) then rest else false

pub matchhere : List ℕ → List ℕ → Bool
matchhere [] text = true
matchhere (c ∷ []) text = if c == dollar then is_end text else matchone c (matchhere []) text
matchhere (c ∷ d ∷ re) text =
    let some_of = matchstar c (matchhere re) text in
    let one_of = matchone c (matchhere (d ∷ re)) text in if d == star then some_of else one_of

-- The loop of match.
pub match_from : List ℕ → List ℕ → Bool
match_from re [] = matchhere re []
match_from re (t ∷ text) =
    let rest = match_from re text in if matchhere re (t ∷ text) then true else rest

pub match : List ℕ → List ℕ → Bool
match [] text = match_from [] text
match (c ∷ re) text = if c == caret then matchhere re text else match_from (c ∷ re) text

-- `strchr(p, '\n')` on the buffer from `p` on: the line before the newline and what is behind it;
-- `none` if a NUL or the end comes first. So a line holds no NUL, and is all that match reads.
pub data Cut : Type 0 where
  none : Cut
  line : List ℕ → List ℕ → Cut

pub strchr_newline : List ℕ → Cut
strchr_newline [] = none
strchr_newline (c ∷ p) =
    let cut = strchr_newline p in
    if c == 0
    then none
    else if c == newline
    then line [] p
    else elim cut [ none ↦ none | line l q ↦ line (c ∷ l) q ]

-- The body of the loop over lines: `rest` is the loop from behind the newline on.
pub write_line : List ℕ → (p : List ℕ) → (rest : List ℕ → List ℕ × List ℕ) → Cut → List ℕ × List ℕ
write_line re p rest none = ([], p)
write_line re p rest (line l q) =
    let r = rest q in (if match re l then l ++ newline ∷ r.0 else r.0, r.1)

-- The lines of the buffer from `p` on: what is written, and where `p` ends. The fuel bounds the lines.
pub scan : ℕ → List ℕ → List ℕ → List ℕ × List ℕ
scan zero re p = ([], p)
scan (suc fuel) re p = write_line re p (scan fuel re) (strchr_newline p)

-- A round of grep's loop: `held` are the `m` bytes in the buffer, `chunk` those that read adds. A
-- pointer `p` that has not moved has as many bytes from it on as the buffer.
pub round : List ℕ → List ℕ → List ℕ → List ℕ × List ℕ
round re held chunk =
    let buf = held ++ chunk in
    let r = scan (length buf + 1) re buf in (r.0, if length r.1 == length buf then [] else r.1)

-- grep on the chunks that the calls of read give: what it writes.
pub grep : List ℕ → (held : List ℕ) → List (List ℕ) → List ℕ
grep re held [] = []
grep re held (chunk ∷ chunks) = let r = round re held chunk in r.0 ++ grep re r.1 chunks
