-- ===== src/Grep/Lines.antt =====
-- grep's loop over chunks: the lines of the whole text that match, if no round is without a newline.
use cs461_hw.Base.{
  ℕ, zero, suc, ◌+◌, ◌≡◌, ◌≢◌, ◌<◌, refl, sym, ap, ◌∙◌, Bool, true, false, ◌||◌, List, [], ◌∷◌,
  ◌++◌, append-nil, append_assoc, ◌==◌, if◌then◌else◌, length, length-append, Bool-cases, inl, inr,
  arith, ==_iff, ==_refl, ==_of_ne, All, All-append, All-split,
}
use cs461_hw.Grep.{newline, match, Cut, none, line, strchr_newline, write_line, scan, round, grep}

-- The matching lines of a text, each with its newline; `cur` is the part of a line before the text.
pub selected : List ℕ → List ℕ → List ℕ → List ℕ
selected re cur [] = []
selected re cur (c ∷ text) =
    let next = selected re [] text in
    let on = selected re (cur ++ c ∷ []) text in
    if c == newline then (if match re cur then cur ++ newline ∷ next else next) else on

-- What is behind the last newline.
unfoldable pub unfinished : List ℕ → List ℕ → List ℕ
unfinished cur [] = cur
unfinished cur (c ∷ text) =
    let next = unfinished [] text in
    let on = unfinished (cur ++ c ∷ []) text in if c == newline then next else on

unfoldable pub has_newline : List ℕ → Bool
has_newline [] = false
has_newline (c ∷ text) = (c == newline) || has_newline text

-- A text without a NUL.
abbrev pub IsText : List ℕ → Type 0
IsText p = All (λ c. c ≢ 0) p

-- What strchr finds in a text.
abbrev Found : List ℕ → Cut → Type 0
Found p none = has_newline p ≡ false
Found p (line l q) = (p ≡ l ++ newline ∷ q) × (has_newline l ≡ false) × IsText q

strchr-Found : (p : List ℕ) → IsText p → Found p (strchr_newline p)
unfolding strchr_newline has_newline
strchr-Found [] v = refl
strchr-Found (c ∷ p) v =
    let ends : (c == 0) ≡ false = ==_of_ne c 0 v.0 in
    elim (Bool-cases (c == newline)) [
      | inl e ↦ let here = (==_iff c newline).0 e in rw (ends, e) (ap (λ n. n ∷ p) here, refl, v.1)
      | inr e ↦ rw (ends, e) (longer (strchr_newline p) (strchr-Found p v.1) e)
    ]
  where
    longer :
        (r : Cut)
        → Found p r
        → (c == newline) ≡ false
        → Found (c ∷ p) (elim r [ none ↦ none | line l q ↦ line (c ∷ l) q ])
    longer none h e = rw (e, h) refl
    longer (line l q) h e = (ap (λ (xs : List ℕ). c ∷ xs) h.0, rw (e, h.1) refl, h.2)

neither : (a b : Bool) → (a || b) ≡ false → (a ≡ false) × (b ≡ false)
neither a b h = (ground arith, ground arith)

-- Of bytes without a newline strchr finds none, with or without a NUL.
strchr_clean : (p : List ℕ) → has_newline p ≡ false → strchr_newline p ≡ none
unfolding strchr_newline has_newline
strchr_clean [] h = refl
strchr_clean (c ∷ p) h =
    let (e, rest) = neither (c == newline) (has_newline p) h in
    rw (e, strchr_clean p rest) (either_way (c == 0) none)
  where
    either_way : (b : Bool) (r : Cut) → (if b then r else r) ≡ r
    either_way true r = refl
    either_way false r = refl

selected_clean :
    (re cur l text : List ℕ)
    → has_newline l ≡ false
    → selected re cur (l ++ text) ≡ selected re (cur ++ l) text
unfolding selected has_newline
selected_clean re cur [] text h = rw (append-nil cur) refl
selected_clean re cur (c ∷ l) text h =
    let (e, rest) = neither (c == newline) (has_newline l) h in
    rw e (
      selected_clean re (cur ++ c ∷ []) l text rest
      ∙ ap (λ (xs : List ℕ). selected re xs text) (append_assoc cur (c ∷ []) l))

unfinished_clean :
    (cur l text : List ℕ)
    → has_newline l ≡ false
    → unfinished cur (l ++ text) ≡ unfinished (cur ++ l) text
unfolding unfinished has_newline
unfinished_clean cur [] text h = rw (append-nil cur) refl
unfinished_clean cur (c ∷ l) text h =
    let (e, rest) = neither (c == newline) (has_newline l) h in
    rw e (
      unfinished_clean (cur ++ c ∷ []) l text rest
      ∙ ap (λ (xs : List ℕ). unfinished xs text) (append_assoc cur (c ∷ []) l))

-- A text without a newline.
clean_selected : (re p : List ℕ) → has_newline p ≡ false → selected re [] p ≡ []
unfolding selected
clean_selected re p h = ap (selected re []) (sym (append-nil p)) ∙ selected_clean re [] p [] h

clean_unfinished : (p : List ℕ) → has_newline p ≡ false → unfinished [] p ≡ p
unfolding unfinished
clean_unfinished p h = ap (unfinished []) (sym (append-nil p)) ∙ unfinished_clean [] p [] h

-- The first line of a text.
line_selected :
    (re l q : List ℕ)
    → has_newline l ≡ false
    → selected re [] (l ++ newline ∷ q)
      ≡ (if match re l then l ++ newline ∷ selected re [] q else selected re [] q)
unfolding selected
line_selected re l q h = selected_clean re [] l (newline ∷ q) h

line_unfinished :
    (l q : List ℕ) → has_newline l ≡ false → unfinished [] (l ++ newline ∷ q) ≡ unfinished [] q
unfolding unfinished
line_unfinished l q h = unfinished_clean [] l (newline ∷ q) h

-- More fuel than bytes: all lines are looked at.
scan_lem :
    (f : ℕ) (re p : List ℕ)
    → IsText p
    → length p < f
    → scan f re p ≡ (selected re [] p, unfinished [] p)
unfolding scan write_line
scan_lem zero re p v h = absurd (omega arith)
scan_lem (suc f) re p v h = step (λ q. scan_lem f re q) (strchr_newline p) (strchr-Found p v)
  where
    step :
        ((q : List ℕ) → IsText q → length q < f → scan f re q ≡ (selected re [] q, unfinished [] q))
        → (r : Cut) → Found p r
        → write_line re p (scan f re) r ≡ (selected re [] p, unfinished [] p)
    step again none c = rw (clean_selected re p c, clean_unfinished p c) refl
    step again (line l q) c =
        let shorter : length q < f = omega (arith, ap length c.0, length-append l (newline ∷ q)) in
        rw (again q c.2 shorter, c.0, line_selected re l q c.1, line_unfinished l q c.1) refl

selected_split :
    (re cur x y : List ℕ)
    → selected re cur (x ++ y) ≡ selected re cur x ++ selected re (unfinished cur x) y
unfolding selected unfinished
selected_split re cur [] y = refl
selected_split re cur (c ∷ x) y = elim (Bool-cases (c == newline)) [
  | inl e ↦ elim (Bool-cases (match re cur)) [
    | inl m ↦
        rw (e, m, selected_split re [] x y)
          (sym (append_assoc cur (newline ∷ selected re [] x) (selected re (unfinished [] x) y)))
    | inr m ↦ rw (e, m) (selected_split re [] x y)
  ]
  | inr e ↦ rw e (selected_split re (cur ++ c ∷ []) x y)
]

append_clean :
    (x y : List ℕ) → has_newline x ≡ false → has_newline y ≡ false → has_newline (x ++ y) ≡ false
unfolding has_newline
append_clean [] y h g = g
append_clean (c ∷ x) y h g =
    let (e, rest) = neither (c == newline) (has_newline x) h in rw (e, append_clean x y rest g) refl

unfinished_is_clean :
    (cur x : List ℕ) → has_newline cur ≡ false → has_newline (unfinished cur x) ≡ false
unfolding unfinished has_newline
unfinished_is_clean cur [] h = h
unfinished_is_clean cur (c ∷ x) h = elim (Bool-cases (c == newline)) [
  | inl e ↦ rw e (unfinished_is_clean [] x refl)
  | inr e ↦ rw e (unfinished_is_clean (cur ++ c ∷ []) x (append_clean cur (c ∷ []) h (rw e refl)))
]

-- A newline leaves less.
unfinished_shorter : (cur x : List ℕ) → has_newline x ≡ true → length (unfinished cur x) < length x
unfolding unfinished has_newline
unfinished_shorter cur [] h = absurd (ground arith)
unfinished_shorter cur (c ∷ x) h = elim (Bool-cases (c == newline)) [
  | inl e ↦ elim (Bool-cases (has_newline x)) [
    | inl m ↦ rw e (omega (arith, unfinished_shorter [] x m))
    | inr m ↦ rw (e, clean_unfinished x m) (omega arith)
  ]
  | inr e ↦
      let later : has_newline x ≡ true = rw e at h in
      rw e (omega (arith, unfinished_shorter (cur ++ c ∷ []) x later))
]

round_lem :
    (re held chunk : List ℕ)
    → IsText (held ++ chunk)
    → has_newline (held ++ chunk) ≡ true
    → round re held chunk ≡ (selected re [] (held ++ chunk), unfinished [] (held ++ chunk))
unfolding round
round_lem re held chunk v h =
    let buf = held ++ chunk in
    let all = scan_lem (length buf + 1) re buf v (omega arith) in
    let moved : (length (unfinished [] buf) == length buf) ≡ false =
      ==_of_ne (length (unfinished [] buf)) (length buf)
        (λ e. omega (arith, unfinished_shorter [] buf h)) in
    rw (all, moved) refl

unfinished-IsText : (cur x : List ℕ) → IsText cur → IsText x → IsText (unfinished cur x)
unfolding unfinished
unfinished-IsText cur [] a b = a
unfinished-IsText cur (c ∷ x) a b = elim (Bool-cases (c == newline)) [
  | inl e ↦ rw e (unfinished-IsText [] x tt b.1)
  | inr e ↦
      let more = All-append (λ c. c ≢ 0) cur (c ∷ []) a (b.0, tt) in
      rw e (unfinished-IsText (cur ++ c ∷ []) x more b.1)
]

-- Every read completes a line.
abbrev pub Complete : List ℕ → List (List ℕ) → Type 0
Complete held [] = Unit
Complete held (chunk ∷ chunks) =
    (has_newline (held ++ chunk) ≡ true) × Complete (unfinished [] (held ++ chunk)) chunks

abbrev pub joined : List (List ℕ) → List ℕ
joined [] = []
joined (x ∷ xs) = x ++ joined xs

-- If the bytes held and read have no NUL among them and every read completes a line, grep writes the matching lines of the whole text, each once, whole
-- and in order, however the text was cut into chunks.
pub grep-selected :
    (re held : List ℕ) (chunks : List (List ℕ))
    → IsText held
    → IsText (joined chunks)
    → has_newline held ≡ false
    → Complete held chunks
    → grep re held chunks ≡ selected re [] (held ++ joined chunks)
unfolding grep has_newline
grep-selected re held [] a b h v =
    sym (ap (selected re []) (append-nil held) ∙ clean_selected re held h)
grep-selected re held (chunk ∷ chunks) a b h v =
    let buf = held ++ chunk in
    let read = All-split (λ c. c ≢ 0) chunk (joined chunks) b in
    let text = All-append (λ c. c ≢ 0) held chunk a read.0 in
    let u = unfinished [] buf in
    let kept = unfinished_is_clean [] buf refl in
    rw
      (
        round_lem re held chunk text v.0,
        grep-selected re u chunks (unfinished-IsText [] buf tt text) read.1 kept v.1,
        sym (append_assoc held chunk (joined chunks)),
      )
      (sym (
        selected_split re [] buf (joined chunks)
        ∙ ap (λ (xs : List ℕ). selected re [] buf ++ xs)
            (sym (selected_clean re [] u (joined chunks) kept))))

scan_clean : (f : ℕ) (re p : List ℕ) → has_newline p ≡ false → scan (f + 1) re p ≡ ([], p)
unfolding scan write_line
scan_clean f re p h = let more : f + 1 ≡ suc f = omega arith in rw more (rw (strchr_clean p h) refl)

-- A read that completes no line is forgotten, and so is what was held: the bytes are in no line that
-- grep looks at later.
pub grep_forgets :
    (re held chunk : List ℕ) (chunks : List (List ℕ))
    → has_newline (held ++ chunk) ≡ false
    → grep re held (chunk ∷ chunks) ≡ grep re [] chunks
unfolding grep round
grep_forgets re held chunk chunks h =
    let buf = held ++ chunk in
    let all : scan (length buf + 1) re buf ≡ ([], buf) = scan_clean (length buf) re buf h in
    rw (all, ==_refl (length buf)) refl
