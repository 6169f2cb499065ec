-- ===== src/Grep/Matcher.antt =====
-- The matcher decides the language of the pattern.
use cs461_hw.Base.{
  ℕ, ◌≡◌, ◌↔◌, refl, sym, ap, ◌∙◌, Bool, true, false, ◌||◌, List, [], ◌∷◌, ◌++◌, append_assoc, ◌==◌,
  if◌then◌else◌, All, Bool-cases, inl, inr, arith,
}
use cs461_hw.Grep.{
  star, dollar, dot, caret, is_end, matchstar, matchone, matchhere, match_from, match,
}
use cs461_hw.Grep.Language.{
  Item, one, many, items, ends, Accepts, Spells, empty, once, times, Begins, Occurs,
}

-- A first part of the text, of characters that `c` stands for, behind which `here` holds.
record Run (c : ℕ) (here : List ℕ → Bool) (text : List ℕ) : Type 0 where
  part : List ℕ
  rest : List ℕ
  split : part ++ rest ≡ text
  all : All (Accepts c) part
  found : here rest ≡ true

accepts_flip : (c t : ℕ) → ((t == c) || (c == dot)) ≡ true → Accepts c t
accepts_flip c t h = ground arith

accepts_back : (c t : ℕ) → Accepts c t → ((t == c) || (c == dot)) ≡ true
accepts_back c t h = ground arith

or_else : (a b : Bool) → (if a then true else b) ≡ true → a ≡ false → b ≡ true
or_else true b h g = absurd (ground arith)
or_else false b h g = h

if_true : (a b : Bool) → (if a then b else false) ≡ true → (a ≡ true) × (b ≡ true)
if_true true b h = (refl, h)
if_true false b h = absurd (ground arith)

matchstar-Run :
    (c : ℕ) (here : List ℕ → Bool) (text : List ℕ) → matchstar c here text ≡ true → Run c here text
unfolding matchstar
matchstar-Run c here [] h = record { part = []; rest = []; split = refl; all = tt; found = h }
matchstar-Run c here (t ∷ text) h = elim (Bool-cases (here (t ∷ text))) [
  | inl e ↦ record { part = []; rest = t ∷ text; split = refl; all = tt; found = e }
  | inr e ↦
      let (taken, later) = if_true _ _ (or_else (here (t ∷ text)) _ h e) in
      let r = matchstar-Run c here text later in
      record {
        part = t ∷ r.part;
        rest = r.rest;
        split = ap (λ (xs : List ℕ). t ∷ xs) r.split;
        all = (accepts_flip c t taken, r.all);
        found = r.found;
      }
]

matchstar_of :
    (c : ℕ) (here : List ℕ → Bool) (ts rest : List ℕ)
    → All (Accepts c) ts
    → here rest ≡ true
    → matchstar c here (ts ++ rest) ≡ true
unfolding matchstar
matchstar_of c here [] [] a h = h
matchstar_of c here [] (t ∷ rest) a h = rw h refl
matchstar_of c here (t ∷ ts) rest a h =
    let later = matchstar_of c here ts rest a.1 h in
    elim (Bool-cases (here (t ∷ (ts ++ rest)))) [
      | inl e ↦ rw e refl
      | inr e ↦ rw (e, accepts_back c t a.0, later) refl
    ]

record First (c : ℕ) (here : List ℕ → Bool) (text : List ℕ) : Type 0 where
  head : ℕ
  tail : List ℕ
  split : head ∷ tail ≡ text
  taken : Accepts c head
  found : here tail ≡ true

matchone-First :
    (c : ℕ) (here : List ℕ → Bool) (text : List ℕ) → matchone c here text ≡ true → First c here text
unfolding matchone
matchone-First c here [] h = absurd (ground arith)
matchone-First c here (t ∷ text) h =
    let (taken, found) = if_true _ _ h in
    record { head = t; tail = text; split = refl; taken = taken; found = found }

once_inv :
    (c : ℕ) (is : List Item) (s : List ℕ)
    → Spells (one c ∷ is) s
    → (t : ℕ) × ((ts : List ℕ) × ((s ≡ t ∷ ts) × Accepts c t × Spells is ts))
once_inv _ _ _ (once c t is s a d) = (t, (s, (refl, a, d)))

times_inv :
    (c : ℕ) (is : List Item) (s : List ℕ)
    → Spells (many c ∷ is) s
    → (ts : List ℕ) × ((r : List ℕ) × ((s ≡ ts ++ r) × All (Accepts c) ts × Spells is r))
times_inv _ _ _ (times c is ts s a d) = (ts, (s, (refl, a, d)))

empty_inv : (s : List ℕ) → Spells [] s → s ≡ []
empty_inv _ empty = refl

nothing_before : (text : List ℕ) → is_end text ≡ true → text ≡ []
nothing_before [] h = refl
nothing_before (t ∷ text) h = absurd (ground arith)

-- One item in front of a pattern.
single-Begins :
    (c : ℕ) (re re' text : List ℕ)
    → items re ≡ one c ∷ items re'
    → ends re ≡ ends re'
    → First c (λ s. matchhere re' s) text
    → ((s : List ℕ) → matchhere re' s ≡ true → Begins re' s)
    → Begins re text
single-Begins c re re' text e g f sound =
    let b = sound f.tail f.found in
    record {
      part = f.head ∷ b.part;
      rest = b.rest;
      split = ap (λ (xs : List ℕ). f.head ∷ xs) b.split ∙ f.split;
      spelled = rw e (once c f.head (items re') b.part f.taken b.spelled);
      ending = λ h. b.ending (sym g ∙ h);
    }

matchhere-Begins : (re text : List ℕ) → matchhere re text ≡ true → Begins re text
unfolding matchhere items ends
matchhere-Begins [] text h = record {
  part = [];
  rest = text;
  split = refl;
  spelled = empty;
  ending = λ e. absurd (ground arith);
}
matchhere-Begins (c ∷ []) text h = elim (Bool-cases (c == dollar)) [
  | inl e ↦
      let done : is_end text ≡ true = rw e at h in
      record {
        part = [];
        rest = text;
        split = refl;
        spelled = rw e empty;
        ending = λ q. nothing_before text done;
      }
  | inr e ↦
      let found : matchone c (matchhere []) text ≡ true = rw e at h in
      single-Begins c (c ∷ []) [] text (rw e refl) e (matchone-First c (matchhere []) text found)
        (λ s g. matchhere-Begins [] s g)
]
matchhere-Begins (c ∷ d ∷ re) text h = elim (Bool-cases (d == star)) [
  | inl e ↦
      let found : matchstar c (matchhere re) text ≡ true = rw e at h in
      let r = matchstar-Run c (matchhere re) text found in
      let b = matchhere-Begins re r.rest r.found in
      record {
        part = r.part ++ b.part;
        rest = b.rest;
        split =
            append_assoc r.part b.part b.rest
            ∙ ap (λ (xs : List ℕ). r.part ++ xs) b.split
            ∙ r.split;
        spelled = rw e (times c (items re) r.part b.part r.all b.spelled);
        ending = λ q. let q' : ends re ≡ true = rw e at q in b.ending q';
      }
  | inr e ↦
      let found : matchone c (matchhere (d ∷ re)) text ≡ true = rw e at h in
      single-Begins c (c ∷ d ∷ re) (d ∷ re) text (rw e refl) (rw e refl)
        (matchone-First c (matchhere (d ∷ re)) text found) (λ s g. matchhere-Begins (d ∷ re) s g)
]

matchone_of :
    (c t : ℕ) (here : List ℕ → Bool) (s : List ℕ)
    → Accepts c t
    → here s ≡ true
    → matchone c here (t ∷ s) ≡ true
unfolding matchone
matchone_of c t here s a h = rw (a, h) refl

-- A spelled beginning is found, whatever follows it if the pattern does not end in `$`.
Spells-matchhere :
    (re part rest : List ℕ)
    → Spells (items re) part
    → (ends re ≡ true → rest ≡ [])
    → matchhere re (part ++ rest) ≡ true
unfolding matchhere items ends
Spells-matchhere [] part rest d q = refl
Spells-matchhere (c ∷ []) part rest d q = elim (Bool-cases (c == dollar)) [
  | inl e ↦ let d' : Spells [] part = rw e at d in rw (e, empty_inv part d', q e) refl
  | inr e ↦
      let d' : Spells (one c ∷ []) part = rw e at d in
      let (t, (ts, (same, a, d2))) = once_inv c [] part d' in
      rw (e, same) (matchone_of c t (matchhere []) (ts ++ rest) a refl)
]
Spells-matchhere (c ∷ d ∷ re) part rest s q = elim (Bool-cases (d == star)) [
  | inl e ↦
      let s' : Spells (many c ∷ items re) part = rw e at s in
      let q' : ends re ≡ true → rest ≡ [] = rw e at q in
      let (ts, (r, (same, a, s2))) = times_inv c (items re) part s' in
      rw (e, same, append_assoc ts r rest)
        (matchstar_of c (matchhere re) ts (r ++ rest) a (Spells-matchhere re r rest s2 q'))
  | inr e ↦
      let s' : Spells (one c ∷ items (d ∷ re)) part = rw e at s in
      let q' : ends (d ∷ re) ≡ true → rest ≡ [] = rw e at q in
      let (t, (ts, (same, a, s2))) = once_inv c (items (d ∷ re)) part s' in
      rw (e, same)
        (matchone_of c t (matchhere (d ∷ re)) (ts ++ rest) a
          (Spells-matchhere (d ∷ re) ts rest s2 q'))
]

-- matchhere finds the pattern at the beginning of the text exactly if it is spelled there.
matchhere_iff : (re text : List ℕ) → (matchhere re text ≡ true) ↔ Begins re text
matchhere_iff re text = (
  matchhere-Begins re text,
  λ b.
      let found = Spells-matchhere re b.part b.rest b.spelled b.ending in
      ap (matchhere re) (sym b.split) ∙ found,
)

match_from-Occurs : (re text : List ℕ) → match_from re text ≡ true → Occurs re text
unfolding match_from
match_from-Occurs re [] h = record {
  before = [];
  behind = [];
  split = refl;
  found = matchhere-Begins re [] h;
}
match_from-Occurs re (t ∷ text) h = elim (Bool-cases (matchhere re (t ∷ text))) [
  | inl e ↦ record {
    before = [];
    behind = t ∷ text;
    split = refl;
    found = matchhere-Begins re (t ∷ text) e;
  }
  | inr e ↦
      let o = match_from-Occurs re text (or_else (matchhere re (t ∷ text)) _ h e) in
      record {
        before = t ∷ o.before;
        behind = o.behind;
        split = ap (λ (xs : List ℕ). t ∷ xs) o.split;
        found = o.found;
      }
]

match_from_of :
    (re before behind : List ℕ)
    → matchhere re behind ≡ true
    → match_from re (before ++ behind) ≡ true
unfolding match_from
match_from_of re [] [] h = h
match_from_of re [] (t ∷ behind) h = rw h refl
match_from_of re (t ∷ before) behind h = elim (Bool-cases (matchhere re (t ∷ (before ++ behind)))) [
  | inl e ↦ rw e refl
  | inr e ↦ rw e (match_from_of re before behind h)
]

match_from_iff : (re text : List ℕ) → (match_from re text ≡ true) ↔ Occurs re text
match_from_iff re text = (
  match_from-Occurs re text,
  λ o.
      ap (match_from re) (sym o.split)
      ∙ match_from_of re o.before o.behind ((matchhere_iff re o.behind).1 o.found),
)

-- What a pattern with or without `^` asks of a line.
abbrev pub Means : List ℕ → List ℕ → Type 0
Means [] line = Occurs [] line
Means (c ∷ re) line = if c == caret then Begins re line else Occurs (c ∷ re) line

-- match says yes exactly if the language of the pattern has a part of the line: the first part if
-- the pattern starts with `^`, one up to the end if it ends in `$`.
pub match_iff : (re text : List ℕ) → (match re text ≡ true) ↔ Means re text
unfolding match
match_iff [] text = match_from_iff [] text
match_iff (c ∷ re) text = elim (Bool-cases (c == caret)) [
  | inl e ↦ rw e (matchhere_iff re text)
  | inr e ↦ rw e (match_from_iff (c ∷ re) text)
]
