-- ===== src/File/Tests.antt =====
-- Files with one descriptor open, and the witness.
use cs461_hw.Base.{
  ℕ, ◌≡◌, refl, sym, inl, inr, false, Option, none, some, ◌==◌, if◌then◌else◌, arith, Bool-cases,
  ==_iff, ==_of_ne, ne_of_==,
}
use cs461_hw.Fs.{ok, panic}
use cs461_hw.File.{
  Files, fd_none, fd_inode, Result, sys_dup, dup_of, dup_to, argfd, fdalloc, free_fd, filedup,
  sys_close, close_of, fileclose, open_file, open_to, filealloc, free_file,
}
use cs461_hw.File.Counted.{IsCounted, count}
use cs461_hw.File.Calls.{Kept, calls-Kept}

-- Descriptor 3 refers to file 7.
abbrev opened : Files
opened = record {
  ref = λ f. if f == 7 then 1 else 0;
  kind = λ f. if f == 7 then fd_inode else fd_none;
  ofile = λ d. if d == 3 then 7 else 0;
}

abbrev answer : Result → Option ℕ
answer (ok r) = r.0
answer panic = none

dup_3 : answer (sys_dup opened 3) ≡ some 0
unfolding sys_dup dup_of dup_to argfd fdalloc free_fd filedup
dup_3 = refl

dup_4 : answer (sys_dup opened 4) ≡ none
unfolding sys_dup dup_of argfd
dup_4 = refl

close_3 : answer (sys_close opened 3) ≡ some 0
unfolding sys_close close_of argfd fileclose
close_3 = refl

open_0 : answer (open_file opened) ≡ some 0
unfolding open_file open_to filealloc free_file fdalloc free_fd
open_0 = refl

opened-IsCounted : IsCounted opened
unfolding IsCounted count
opened-IsCounted f pos = elim (Bool-cases (f == 7)) [
  | inl q ↦ let seven : f ≡ 7 = (==_iff f 7).0 q in rw seven refl
  | inr q ↦
      let other : (7 == f) ≡ false = ==_of_ne 7 f (λ e. ne_of_== f 7 q (sym e)) in
      rw (q, other, ==_of_ne 0 f (λ e. absurd (omega (arith, e, pos)))) refl
]

calls-Kept_example : Kept (sys_dup opened 3) × Kept (sys_close opened 3) × Kept (open_file opened)
calls-Kept_example = calls-Kept opened 3 opened-IsCounted
