-- ===== src/Pipe/Calls.antt =====
-- One run of pipewrite and of piperead: what becomes of the bytes, and when the call sleeps.
use cs461_hw.Base.{
  ℕ, zero, suc, ◌+◌, ◌%◌, ◌^◌, ◌≡◌, ◌≢◌, refl, ◌∙◌, ap, sym, Bool, true, false, not, ◌||◌, ◌&&◌,
  List, [], ◌∷◌, ◌++◌, arith, length, Bool-cases, inl, inr, min, append-nil, append_assoc,
}
use cs461_hw.Pipe.{
  Pipe, pipesize, is_full, is_empty, push, Outcome, returned, failed, asleep, pipewrite, read_loop,
  piperead,
}
use cs461_hw.Pipe.Queue.{used, window, contents, IsPipe, push-IsPipe, contents-push}

pub is_full-used : (p : Pipe) → IsPipe p → is_full p ≡ true → used p ≡ pipesize
is_full-used p v h = ground (arith, v.small, v.small', v.fits)

pub is_empty-used : (p : Pipe) → IsPipe p → is_empty p ≡ true → used p ≡ 0
is_empty-used p v h = ground (arith, v.small, v.small')

used_of_not_empty : (p : Pipe) → IsPipe p → is_empty p ≡ false → used p ≢ 0
used_of_not_empty p v h e = ground (arith, v.small, v.small')

-- What a run of pipewrite on `bs` leaves.
pub record Wrote (p : Pipe) (killed : Bool) (bs : List ℕ) (run : Pipe × Outcome × Bool × List ℕ)
    : Type 0 where
  pub pushed : List ℕ
  pub valid : IsPipe run.0
  pub split : pushed ++ run.3 ≡ bs
  pub queue : contents run.0 ≡ contents p ++ pushed
  pub ends : (run.0.readopen ≡ p.readopen) × (run.0.writeopen ≡ p.writeopen)
  pub all : run.1 ≡ returned → run.3 ≡ []
  pub full : run.1 ≡ asleep → is_full run.0 ≡ true
  pub open_end : run.1 ≡ asleep → p.readopen ≡ true
  pub silent : run.2 ≡ false → (not p.readopen || killed) ≡ true

-- pipewrite puts a prefix of its bytes behind those in the pipe, in order, and keeps the pipe valid:
-- all of them if it returns their number. It sleeps only on a full pipe whose read end is open, and
-- it wakes the readers in every run but one that fails, which takes a closed read end or a killed
-- process.
pub pipewrite-Wrote :
    (p : Pipe) (killed : Bool) (bs : List ℕ) → IsPipe p → Wrote p killed bs (pipewrite p killed bs)
unfolding pipewrite push
pipewrite-Wrote p killed [] v = record {
  pushed = [];
  valid = v;
  split = refl;
  queue = sym (append-nil (contents p));
  ends = (refl, refl);
  all = λ _. refl;
  full = λ e. cc;
  open_end = λ e. cc;
  silent = λ e. cc;
}
pipewrite-Wrote p killed (b ∷ bs) v = elim (Bool-cases (is_full p)) [
  | inl f ↦ elim (Bool-cases (not p.readopen || killed)) [
    | inl d ↦
        rw (f, d)
          (record {
            pushed = [];
            valid = v;
            split = refl;
            queue = sym (append-nil (contents p));
            ends = (refl, refl);
            all = λ e. cc;
            full = λ e. cc;
            open_end = λ e. cc;
            silent = λ _. d;
          })
    | inr d ↦
        rw (f, d)
          (record {
            pushed = [];
            valid = v;
            split = refl;
            queue = sym (append-nil (contents p));
            ends = (refl, refl);
            all = λ e. cc;
            full = λ _. f;
            open_end = λ _. ground arith;
            silent = λ e. cc;
          })
  ]
  | inr f ↦ rw f (
      after (pipewrite (push p b) killed bs)
        (pipewrite-Wrote (push p b) killed bs (push-IsPipe p b v f)) f)
]
  where
    after :
        (run : Pipe × Outcome × Bool × List ℕ)
        → Wrote (push p b) killed bs run
        → is_full p ≡ false
        → Wrote p killed (b ∷ bs) run
    after run r f = record {
      pushed = b ∷ r.pushed;
      valid = r.valid;
      split = ap (λ l. b ∷ l) r.split;
      queue =
          r.queue
          ∙ ap (λ l. l ++ r.pushed) (contents-push p b v f)
          ∙ append_assoc (contents p) (b ∷ []) r.pushed;
      ends = r.ends;
      all = r.all;
      full = r.full;
      open_end = r.open_end;
      silent = r.silent;
    }

-- The pipe after one byte has been read.
abbrev drop_one : Pipe → Pipe
drop_one p = record p { nread = (p.nread + 1) % 2 ^ 32 }

used-drop_one : (p : Pipe) → IsPipe p → is_empty p ≡ false → used p ≡ suc (used (drop_one p))
used-drop_one p v h =
    let some_left = used_of_not_empty p v h in omega (arith, v.small, v.small', v.fits)

contents-drop_one :
    (p : Pipe)
    → IsPipe p
    → is_empty p ≡ false
    → contents p ≡ p.buf (p.nread % pipesize) ∷ contents (drop_one p)
unfolding contents window
contents-drop_one p v h = rw (used-drop_one p v h)

drop_one-IsPipe : (p : Pipe) → IsPipe p → is_empty p ≡ false → IsPipe (drop_one p)
drop_one-IsPipe p v h = record {
  small = omega arith;
  small' = v.small';
  fits = omega (arith, used-drop_one p v h, v.fits);
}

-- What the copying loop leaves.
record Took (p : Pipe) (n : ℕ) (run : Pipe × List ℕ) : Type 0 where
  pub valid : IsPipe run.0
  pub queue : contents p ≡ run.1 ++ contents run.0
  pub count : length run.1 ≡ min n (used p)
  pub ends : (run.0.readopen ≡ p.readopen) × (run.0.writeopen ≡ p.writeopen)

read_loop-Took : (p : Pipe) (n : ℕ) → IsPipe p → Took p n (read_loop p n)
unfolding read_loop
read_loop-Took p zero v = record {
  valid = v;
  queue = refl;
  count = omega arith;
  ends = (refl, refl);
}
read_loop-Took p (suc n) v = elim (Bool-cases (is_empty p)) [
  | inl e ↦ rw e (record {
    valid = v;
    queue = refl;
    count = omega (arith, is_empty-used p v e);
    ends = (refl, refl);
  })
  | inr e ↦
      let r = read_loop-Took (drop_one p) n (drop_one-IsPipe p v e) in
      rw e (record {
        valid = r.valid;
        queue = contents-drop_one p v e ∙ ap (λ l. p.buf (p.nread % pipesize) ∷ l) r.queue;
        count = omega (arith, r.count, used-drop_one p v e);
        ends = r.ends;
      })
]

-- What a run of piperead of at most `n` bytes leaves.
pub record Read (p : Pipe) (killed : Bool) (n : ℕ) (run : Pipe × Outcome × Bool × List ℕ)
    : Type 0 where
  pub valid : IsPipe run.0
  pub queue : contents p ≡ run.3 ++ contents run.0
  pub count : run.1 ≡ returned → length run.3 ≡ min n (used p)
  pub ends : (run.0.readopen ≡ p.readopen) × (run.0.writeopen ≡ p.writeopen)
  pub waits : run.1 ≡ asleep → (is_empty run.0 ≡ true) × (p.writeopen ≡ true)
  pub silent : run.2 ≡ false → (is_empty p ≡ true) × (run.0 ≡ p)
  pub killed_only : run.1 ≡ failed → killed ≡ true

-- piperead takes the oldest bytes of the pipe, in order, and keeps the pipe valid: if it returns, as
-- many as there are, up to `n`. It sleeps only on an empty pipe whose write end is open, fails only
-- in a killed process, and wakes the writers in every run that returns.
pub piperead-Read :
    (p : Pipe) (killed : Bool) (n : ℕ) → IsPipe p → Read p killed n (piperead p killed n)
unfolding piperead
piperead-Read p killed n v = elim (Bool-cases (is_empty p && p.writeopen)) [
  | inl e ↦ elim (Bool-cases killed) [
    | inl d ↦
        rw (e, d)
          (record {
            valid = v;
            queue = refl;
            count = λ q. cc;
            ends = (refl, refl);
            waits = λ q. cc;
            silent = λ _. (ground arith, refl);
            killed_only = λ _. refl;
          })
    | inr d ↦
        rw (e, d)
          (record {
            valid = v;
            queue = refl;
            count = λ q. cc;
            ends = (refl, refl);
            waits = λ _. (ground arith, ground arith);
            silent = λ _. (ground arith, refl);
            killed_only = λ q. cc;
          })
  ]
  | inr e ↦
      let r = read_loop-Took p n v in
      rw e (record {
        valid = r.valid;
        queue = r.queue;
        count = λ _. r.count;
        ends = r.ends;
        waits = λ q. cc;
        silent = λ q. cc;
        killed_only = λ q. cc;
      })
]
