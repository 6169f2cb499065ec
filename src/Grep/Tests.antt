-- ===== src/Grep/Tests.antt =====
-- Patterns and texts of grep, and its theorems at them.
use cs461_hw.Base.{ℕ, arith, ◌≡◌, ◌↔◌, refl, true, false, List, [], ◌∷◌}
use cs461_hw.Grep.{match, grep, matchhere, matchstar, matchone}
use cs461_hw.Grep.Matcher.{Means, match_iff}
use cs461_hw.Grep.Lines.{
  IsText, selected, unfinished, has_newline, Complete, joined, grep-selected, grep_forgets,
}

-- "^a*b$" and "aab".
abbrev starred : List ℕ
starred = 94 ∷ 97 ∷ 42 ∷ 98 ∷ 36 ∷ []

abbrev aab : List ℕ
aab = 97 ∷ 97 ∷ 98 ∷ []

match-aab : match starred aab ≡ true
unfolding match matchhere matchstar matchone
match-aab = refl

match_aba : match starred (97 ∷ 98 ∷ 97 ∷ []) ≡ false
unfolding match matchhere matchstar matchone
match_aba = refl

match_iff_example : (match starred aab ≡ true) ↔ Means starred aab
match_iff_example = match_iff starred aab

-- "b\nab" and "\n": two lines in two reads.
abbrev reads : List (List ℕ)
reads = (98 ∷ 10 ∷ 97 ∷ 98 ∷ []) ∷ (10 ∷ []) ∷ []

reads-Complete : Complete [] reads
unfolding has_newline unfinished
reads-Complete = (refl, (refl, tt))

reads-IsText : IsText (joined reads)
reads-IsText = (omega arith, (omega arith, (omega arith, (omega arith, (omega arith, tt)))))

none_held : has_newline [] ≡ false
unfolding has_newline
none_held = refl

grep-selected_example : grep (98 ∷ []) [] reads ≡ selected (98 ∷ []) [] (joined reads)
grep-selected_example = grep-selected (98 ∷ []) [] reads tt reads-IsText none_held reads-Complete

no_newline : has_newline aab ≡ false
unfolding has_newline
no_newline = refl

grep_forgets_example : grep (98 ∷ []) [] (aab ∷ (10 ∷ []) ∷ []) ≡ grep (98 ∷ []) [] ((10 ∷ []) ∷ [])
grep_forgets_example = grep_forgets (98 ∷ []) [] aab ((10 ∷ []) ∷ []) no_newline
