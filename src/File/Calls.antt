-- ===== src/File/Calls.antt =====
-- dup, close and open keep the counts equal to the number of descriptors.
use cs461_hw.Base.{
  ℕ, ◌+◌, ◌-◌, ◌≡◌, ◌≤◌, ◌<◌, ◌⊎◌, inl, inr, refl, sym, ap, ◌∙◌, true, Option, none, some, ◌==◌,
  if◌then◌else◌, if_true, if_false, if_refl, arith, Bool-cases, ==_iff, ==_of_ne, ne_of_==,
}
use native.Mathlib.Decide.{dec_lt}
use cs461_hw.Fs.{ok}
use cs461_hw.Fs.Icache.{is_positive, increment, decrement}
use cs461_hw.File.{
  nofile, nfile, Kind, fd_none, fd_inode, Files, set_ref, set_kind, set_ofile, free_file, filealloc,
  filedup, fileclose, argfd, free_fd, take_fd, fdalloc, Result, dup_to, dup_of, sys_dup, close_of,
  sys_close, open_to, open_file,
}
use cs461_hw.File.Counted.{
  one_if, count, IsCounted, redirect, count_pos, redirect-IsCounted, positive, count_bound, one_at,
  set_ref_at, set_ref_off, Open, argfd-Open, FreeFd, free_fd-FreeFd, free_file_unused,
}

option_cases : {A : Type 0} (x : Option A) → (x ≡ none) ⊎ ((y : A) × (x ≡ some y))
option_cases none = inl refl
option_cases (some y) = inr (y, refl)

-- A call returns, and the counts are right again.
abbrev pub Kept : Result → Type 0
Kept r = (x : Option ℕ) × ((s' : Files) × ((r ≡ ok (x, s')) × IsCounted s'))

not_zero : (f : ℕ) → 0 < f → one_if (0 == f) ≡ 0
not_zero f h = if_false {A = ℕ} 1 0 (0 == f) (==_of_ne 0 f (omega arith))

fdalloc_none : (s : Files) (f : ℕ) → free_fd nofile 0 s.ofile ≡ none → fdalloc s f ≡ none
unfolding fdalloc
fdalloc_none s f e = ap (take_fd s f) e

fdalloc-some :
    (s : Files) (f k : ℕ)
    → free_fd nofile 0 s.ofile ≡ some k
    → fdalloc s f ≡ some (k, set_ofile s k f)
unfolding fdalloc
fdalloc-some s f k e = ap (take_fd s f) e

filedup_held :
    (s : Files) (f : ℕ)
    → is_positive (s.ref f) ≡ true
    → filedup s f ≡ ok (set_ref s f (increment (s.ref f)))
unfolding filedup
filedup_held s f e = rw e refl

dup_to-some :
    (s t u : Files) (f k : ℕ) → filedup t f ≡ ok u → dup_to s f (some (k, t)) ≡ ok (some k, u)
unfolding dup_to
dup_to-some s t u f k e = rw e refl

dup_none : (s : Files) (f : ℕ) → dup_to s f none ≡ ok (none, s)
unfolding dup_to
dup_none s f = refl

module _ (s : Files) (c : IsCounted s) where
  -- The open file of a descriptor has a count of 1 to 16.
  held : (fd f : ℕ) → fd < nofile → s.ofile fd ≡ f → 0 < f → (0 < s.ref f) × (s.ref f ≤ 16)
  unfolding IsCounted
  held fd f l e pos =
      (omega (arith, c f pos, count_pos nofile s.ofile fd f l e), count_bound s f c pos)

  -- A free descriptor is made to refer to `f`, whose count goes up.
  add_descriptor :
      (k f n : ℕ) (t : Files)
      → FreeFd s.ofile (some k)
      → 0 < f
      → n ≡ s.ref f + 1
      → t.ofile ≡ redirect s.ofile k f
      → t.ref ≡ (λ g. if g == f then n else s.ref g)
      → IsCounted t
  add_descriptor k f n t (l, free) pos e eo er = redirect-IsCounted s k f t c l eo (λ g h.
      let before : one_if (s.ofile k == g) ≡ 0 = ap (λ x. one_if (x == g)) free ∙ not_zero g h in
      let now : t.ref g ≡ (if g == f then n else s.ref g) = ap (λ r. r g) er in
      elim (one_at f g) [
        | inl q ↦
            let same : f ≡ g = (==_iff f g).0 q in
            omega (
              arith,
              before,
              now,
              set_ref_at s.ref f g n q,
              e,
              ap s.ref same,
              if_true {A = ℕ} 1 0 (f == g) q,
            )
        | inr q ↦
            omega (arith, before, now, set_ref_off s.ref f g n q, if_false {A = ℕ} 1 0 (f == g) q)
      ])

  dup_file : (f : ℕ) → 0 < f → 0 < s.ref f → Kept (dup_to s f (fdalloc s f))
  dup_file f pos used = elim (option_cases (free_fd nofile 0 s.ofile)) [
    | inl e ↦ (none, (s, (ap (dup_to s f) (fdalloc_none s f e) ∙ dup_none s f, c)))
    | inr (k, e) ↦
        let t : Files = set_ofile s k f in
        let u : Files = set_ref t f (increment (s.ref f)) in
        let few : s.ref f ≤ 16 = count_bound s f c pos in
        let free : FreeFd s.ofile (some k) =
          rw e at (free_fd-FreeFd nofile 0 s.ofile (omega arith)) in
        (
          some k,
          (
            u,
            (
              ap (dup_to s f) (fdalloc-some s f k e)
                  ∙ dup_to-some s t u f k
                      (filedup_held t f (positive (s.ref f) used (omega arith))),
              add_descriptor k f (increment (s.ref f)) u free pos (omega arith) refl refl,
            ),
          ),
        )
  ]

  -- dup of any descriptor number returns, and every count is the number of descriptors of its file.
  sys_dup-Kept : (fd : ℕ) → Kept (sys_dup s fd)
  unfolding sys_dup dup_of
  sys_dup-Kept fd = elim (option_cases (argfd s fd)) [
    | inl e ↦ (none, (s, (ap (dup_of s) e, c)))
    | inr (f, e) ↦
        let open_fd : Open s fd (some f) = rw e at (argfd-Open s fd) in
        let used = held fd f open_fd.0 open_fd.1.0 open_fd.1.1 in
        let (x, (t, (run, kept))) = dup_file f open_fd.1.1 used.0 in
        (x, (t, (ap (dup_of s) e ∙ run, kept)))
  ]

  -- The descriptor `fd` of `f` is cleared, and the count of `f` goes down.
  drop_descriptor :
      (fd f n : ℕ) (t : Files)
      → fd < nofile
      → s.ofile fd ≡ f
      → 0 < f
      → n + 1 ≡ s.ref f
      → t.ofile ≡ redirect s.ofile fd 0
      → t.ref ≡ (λ g. if g == f then n else s.ref g)
      → IsCounted t
  drop_descriptor fd f n t l o pos e eo er = redirect-IsCounted s fd 0 t c l eo (λ g h.
      let before : one_if (s.ofile fd == g) ≡ one_if (f == g) = ap (λ x. one_if (x == g)) o in
      let now : t.ref g ≡ (if g == f then n else s.ref g) = ap (λ r. r g) er in
      elim (one_at f g) [
        | inl q ↦
            let same : f ≡ g = (==_iff f g).0 q in
            omega (
              arith,
              before,
              not_zero g h,
              now,
              set_ref_at s.ref f g n q,
              e,
              ap s.ref same,
              if_true {A = ℕ} 1 0 (f == g) q,
            )
        | inr q ↦ omega (
          arith,
          before,
          not_zero g h,
          now,
          set_ref_off s.ref f g n q,
          if_false {A = ℕ} 1 0 (f == g) q,
        )
      ])

-- fileclose of a file with references returns, with one less.
fileclose_held :
    (s : Files) (f : ℕ)
    → 0 < s.ref f
    → s.ref f ≤ 16
    → (t : Files) × ((k : Kind) × ((fileclose s f ≡ ok (t, k))
          × ((t.ofile ≡ s.ofile) × (t.ref ≡ (λ g. if g == f then s.ref f - 1 else s.ref g)))))
unfolding fileclose
fileclose_held s f h l =
    let used : is_positive (s.ref f) ≡ true = positive (s.ref f) h (omega arith) in
    let less : decrement (s.ref f) ≡ s.ref f - 1 = omega arith in
    elim (Bool-cases (is_positive (s.ref f - 1))) [
      | inl q ↦ (set_ref s f (s.ref f - 1), (fd_none, (rw (used, less, q) refl, (refl, refl))))
      | inr q ↦
          let last : s.ref f - 1 ≡ 0 = elim (dec_lt 0 (s.ref f - 1)) [
            | yes more ↦ absurd (cc (q, positive (s.ref f - 1) more (omega arith)))
            | no zero_left ↦ omega arith
          ] in
          (
            set_kind (set_ref s f 0) f fd_none,
            (
              s.kind f,
              (
                rw (used, less, q) refl,
                (refl, ap (λ n. (λ g. if g == f then n else s.ref g)) (sym last)),
              ),
            ),
          )
    ]

close_some :
    (s t : Files) (fd f : ℕ) (k : Kind)
    → fileclose (set_ofile s fd 0) f ≡ ok (t, k)
    → close_of s fd (some f) ≡ ok (some 0, t)
unfolding close_of
close_some s t fd f k e = rw e refl

close_none : (s : Files) (fd : ℕ) → close_of s fd none ≡ ok (none, s)
unfolding close_of
close_none s fd = refl

-- close of any descriptor number returns, and every count is the number of descriptors of its file.
sys_close-Kept : (s : Files) (fd : ℕ) → IsCounted s → Kept (sys_close s fd)
unfolding sys_close
sys_close-Kept s fd c = elim (option_cases (argfd s fd)) [
  | inl e ↦ (none, (s, (ap (close_of s fd) e ∙ close_none s fd, c)))
  | inr (f, e) ↦
      let open_fd : Open s fd (some f) = rw e at (argfd-Open s fd) in
      let used = held s c fd f open_fd.0 open_fd.1.0 open_fd.1.1 in
      let (t, (k, (run, (eo, er)))) = fileclose_held (set_ofile s fd 0) f used.0 used.1 in
      (
        some 0,
        (
          t,
          (
            ap (close_of s fd) e ∙ close_some s t fd f k run,
            drop_descriptor s c fd f (s.ref f - 1) t open_fd.0 open_fd.1.0 open_fd.1.1
                (omega (arith, used.0)) eo er,
          ),
        ),
      )
]

-- The part of sys_open that follows filealloc, with the new file `f`.
open_some :
    (s : Files) (f k : ℕ) (t : Files)
    → fdalloc s f ≡ some (k, t)
    → open_to s f (fdalloc s f) ≡ ok (some k, set_kind t f fd_inode)
unfolding open_to
open_some s f k t e = ap (open_to s f) e

open_none :
    (s t : Files) (f : ℕ) (k : Kind)
    → fdalloc s f ≡ none
    → fileclose s f ≡ ok (t, k)
    → open_to s f (fdalloc s f) ≡ ok (none, t)
unfolding open_to
open_none s t f k e e' = ap (open_to s f) e ∙ rw e' refl

open_with :
    (s : Files) (f : ℕ)
    → IsCounted s
    → 0 < f
    → s.ref f ≡ 0
    → Kept (open_to (set_ref s f 1) f (fdalloc (set_ref s f 1) f))
unfolding IsCounted
open_with s f c pos unused =
    let a : Files = set_ref s f 1 in
    let one : a.ref f ≡ 1 = if_refl 1 (s.ref f) f in
    elim (option_cases (free_fd nofile 0 s.ofile)) [
      | inl e ↦
          let (t, (k, (run, (eo, er)))) =
            fileclose_held a f (omega (arith, one)) (omega (arith, one)) in
          (
            none,
            (
              t,
              (
                open_none a t f k (fdalloc_none a f e) run,
                λ g h.
                    let now : t.ref g ≡ (if g == f then a.ref f - 1 else a.ref g) =
                      ap (λ r. r g) er in
                    let same : count nofile t.ofile g ≡ count nofile s.ofile g =
                      ap (λ o. count nofile o g) eo in
                    elim (one_at f g) [
                      | inl q ↦
                          let here : f ≡ g = (==_iff f g).0 q in
                          omega (
                            arith,
                            now,
                            same,
                            set_ref_at a.ref f g (a.ref f - 1) q,
                            one,
                            c g h,
                            unused,
                            ap s.ref here,
                          )
                      | inr q ↦ omega (
                        arith,
                        now,
                        same,
                        set_ref_off a.ref f g (a.ref f - 1) q,
                        set_ref_off s.ref f g 1 q,
                        c g h,
                      )
                    ],
              ),
            ),
          )
      | inr (k, e) ↦
          let free : FreeFd s.ofile (some k) =
            rw e at (free_fd-FreeFd nofile 0 s.ofile (omega arith)) in
          let t : Files = set_ofile a k f in
          (
            some k,
            (
              set_kind t f fd_inode,
              (
                open_some a f k t (fdalloc-some a f k e),
                add_descriptor s c k f 1 (set_kind t f fd_inode) free pos (omega (arith, unused))
                    refl refl,
              ),
            ),
          )
    ]

-- The part of sys_open that takes a file and a descriptor returns, and every count is the number of
-- descriptors of its file: when no descriptor is left the file is given back.
open_file-Kept : (s : Files) → IsCounted s → Kept (open_file s)
unfolding open_file filealloc
open_file-Kept s c =
    let f : ℕ = free_file nfile 1 s.ref in
    elim (Bool-cases (free_file nfile 1 s.ref == 0)) [
      | inl q ↦ rw q (none, (s, (refl, c)))
      | inr q ↦
          let pos : 0 < f = omega (arith, ne_of_== f 0 q) in
          rw (q, q) (open_with s f c pos (free_file_unused nfile 1 s.ref pos))
    ]

-- When every count is the number of descriptors of its file, dup and close of any descriptor number
-- and the part of sys_open that takes a file return, and this still holds.
pub calls-Kept :
    (s : Files) (fd : ℕ)
    → IsCounted s
    → Kept (sys_dup s fd) × Kept (sys_close s fd) × Kept (open_file s)
calls-Kept s fd c = (sys_dup-Kept s c fd, sys_close-Kept s fd c, open_file-Kept s c)
