-- ===== src/Pipe/Safety.antt =====
-- The invariant of the pipe system, and what follows from it.
use mathlib.Core.List.{append_cancel_right}
use cs461_hw.Base.{
  ℕ, ◌+◌, ◌≡◌, ◌≢◌, refl, ◌∙◌, ap, sym, Bool, true, false, not, ◌&&◌, ◌||◌, List, [], ◌∷◌, ◌++◌,
  arith, if◌then◌else◌, Bool-cases, length, ◌<◌, ◌≤◌, inl, inr, append_assoc,
}
use cs461_hw.Pipe.{
  Pipe, is_full, is_empty, pipesize, push, Outcome, returned, failed, asleep, pipewrite, piperead,
  pipeclose,
}
use cs461_hw.Pipe.Queue.{contents, IsPipe, window, used, length-window, push-IsPipe, used-push}
use cs461_hw.Pipe.Calls.{Wrote, pipewrite-Wrote, Read, piperead-Read, is_full-used, is_empty-used}
use cs461_hw.Pipe.System.{
  Task, idle, ready, waiting, wake, next, System, initial, wrote, have_read, Step, start_write,
  run_write, start_read, run_read, wake_writer, wake_reader, close_write, close_read, Reach, start,
  later, Inv,
}

wake_ne_waiting : {A : Type 0} (t : Task A) (a : A) → wake t ≢ waiting a
wake_ne_waiting idle a e = cc
wake_ne_waiting (ready b) a e = cc
wake_ne_waiting (waiting b) a e = cc

wake_ne_idle : {A : Type 0} (t : Task A) → wake t ≢ idle → t ≢ idle
wake_ne_idle idle h e = h refl
wake_ne_idle (ready b) h e = cc
wake_ne_idle (waiting b) h e = cc

next_waiting : {A : Type 0} (o : Outcome) (a b : A) → next o a ≡ waiting b → o ≡ asleep
next_waiting returned a b e = cc
next_waiting failed a b e = cc
next_waiting asleep a b e = refl

-- A task that a run has woken if `w`.
woken_ne_idle : {A : Type 0} (w : Bool) (t : Task A) → (if w then wake t else t) ≢ idle → t ≢ idle
woken_ne_idle true t h = wake_ne_idle t h
woken_ne_idle false t h = h

woken_waiting :
    {A : Type 0} (w : Bool) (t : Task A) (a : A)
    → (if w then wake t else t) ≡ waiting a
    → (w ≡ false) × (t ≡ waiting a)
woken_waiting true t a e = absurd (wake_ne_waiting t a e)
woken_waiting false t a e = (refl, e)

wrote-Inv :
    (kills killed : Bool) (s : System) (run : Pipe × Outcome × Bool × List ℕ) (bs pushed : List ℕ)
    → Inv kills s
    → Wrote s.pipe killed bs run
    → s.writer ≡ ready bs
    → (killed && not kills) ≡ false
    → pushed ++ run.3 ≡ bs
    → Inv kills (wrote s run pushed)
wrote-Inv kills killed s run bs pushed v w r d e =
    let same : pushed ≡ w.pushed = append_cancel_right pushed w.pushed run.3 (e ∙ sym w.split) in
    record {
      valid = w.valid;
      fifo =
          ap (λ l. l ++ pushed) v.fifo
          ∙ append_assoc s.delivered (contents s.pipe) pushed
          ∙ ap (λ l. s.delivered ++ l) (rw same (sym w.queue));
      reader_open = λ h. w.ends.0 ∙ v.reader_open (woken_ne_idle run.2 s.reader h);
      writer_open = λ h. w.ends.1 ∙ v.writer_open (λ i. cc);
      writer_waits = λ b q. w.full (next_waiting run.1 run.3 b q);
      reader_waits = λ k n q.
          let (silent, waits) = woken_waiting run.2 s.reader n q in
          let open_end = v.reader_open (λ i. cc) in
          let dead = w.silent silent in absurd (ground arith);
    }

have_read-Inv :
    (kills killed : Bool) (s : System) (run : Pipe × Outcome × Bool × List ℕ) (n : ℕ)
    → Inv kills s
    → Read s.pipe killed n run
    → s.reader ≡ ready n
    → Inv kills (have_read s run n)
have_read-Inv kills killed s run n v w r = record {
  valid = w.valid;
  fifo =
      v.fifo
      ∙ ap (λ l. s.delivered ++ l) w.queue
      ∙ sym (append_assoc s.delivered run.3 (contents run.0));
  reader_open = λ h. w.ends.0 ∙ v.reader_open (λ i. cc);
  writer_open = λ h. w.ends.1 ∙ v.writer_open (woken_ne_idle run.2 s.writer h);
  writer_waits = λ b q.
      let (silent, waits) = woken_waiting run.2 s.writer b q in
      let (empty, same) = w.silent silent in ap is_full same ∙ v.writer_waits b waits;
  reader_waits = λ k m q. (w.waits (next_waiting run.1 n m q)).0;
}

Step-Inv : {kills : Bool} {s t : System} → Step kills s t → Inv kills s → Inv kills t
unfolding pipeclose contents
Step-Inv (start_write bs i o) v = record {
  valid = v.valid;
  fifo = v.fifo;
  reader_open = v.reader_open;
  writer_open = λ _. o;
  writer_waits = λ b q. cc;
  reader_waits = v.reader_waits;
}
Step-Inv {kills} {s} (run_write killed bs pushed r d e) v =
    wrote-Inv kills killed s (pipewrite s.pipe killed bs) bs pushed v
      (pipewrite-Wrote s.pipe killed bs v.valid) r d e
Step-Inv (start_read n i o) v = record {
  valid = v.valid;
  fifo = v.fifo;
  reader_open = λ _. o;
  writer_open = v.writer_open;
  writer_waits = v.writer_waits;
  reader_waits = λ k m q. cc;
}
Step-Inv {kills} {s} (run_read killed n r d) v =
    have_read-Inv kills killed s (piperead s.pipe killed n) n v
      (piperead-Read s.pipe killed n v.valid) r
Step-Inv {s} wake_writer v = record {
  valid = v.valid;
  fifo = v.fifo;
  reader_open = v.reader_open;
  writer_open = λ h. v.writer_open (wake_ne_idle s.writer h);
  writer_waits = λ b q. absurd (wake_ne_waiting s.writer b q);
  reader_waits = v.reader_waits;
}
Step-Inv {s} wake_reader v = record {
  valid = v.valid;
  fifo = v.fifo;
  reader_open = λ h. v.reader_open (wake_ne_idle s.reader h);
  writer_open = v.writer_open;
  writer_waits = v.writer_waits;
  reader_waits = λ k n q. absurd (wake_ne_waiting s.reader n q);
}
Step-Inv {s} (close_write i) v = record {
  valid = record { small = v.valid.small; small' = v.valid.small'; fits = v.valid.fits };
  fifo = v.fifo;
  reader_open = λ h. v.reader_open (wake_ne_idle s.reader h);
  writer_open = λ h. absurd (h i);
  writer_waits = v.writer_waits;
  reader_waits = λ k n q. absurd (wake_ne_waiting s.reader n q);
}
Step-Inv {s} (close_read i) v = record {
  valid = record { small = v.valid.small; small' = v.valid.small'; fits = v.valid.fits };
  fifo = v.fifo;
  reader_open = λ h. absurd (h i);
  writer_open = λ h. v.writer_open (wake_ne_idle s.writer h);
  writer_waits = λ b q. absurd (wake_ne_waiting s.writer b q);
  reader_waits = v.reader_waits;
}

initial-Inv : (kills : Bool) (b : ℕ → ℕ) → Inv kills (initial b)
unfolding contents window
initial-Inv kills b = record {
  valid = record { small = omega arith; small' = omega arith; fits = omega arith };
  fifo = refl;
  reader_open = λ _. refl;
  writer_open = λ _. refl;
  writer_waits = λ bs e. cc;
  reader_waits = λ k n e. cc;
}

Reach-Inv : {kills : Bool} {b : ℕ → ℕ} {s : System} → Reach kills b s → Inv kills s
Reach-Inv {kills} {b} start = initial-Inv kills b
Reach-Inv (later r st) = Step-Inv st (Reach-Inv r)

-- In every reachable state, kills included, the bytes copied into the pipe are those copied out and
-- then those it holds, in order, of which there are at most PIPESIZE.
pub fifo :
    {kills : Bool} {b : ℕ → ℕ} {s : System}
    → Reach kills b s
    → (s.accepted ≡ s.delivered ++ contents s.pipe) × (length (contents s.pipe) ≤ pipesize)
unfolding contents
fifo {s} r =
    let v = Reach-Inv r in
    (v.fifo, omega (arith, length-window s.pipe.buf s.pipe.nread (used s.pipe), v.valid.fits))

-- No lost wakeup: in every state that is reached without a kill, a sleeping writer finds the pipe
-- full and a sleeping reader finds it empty; so the two never sleep together.
pub no_lost_wakeup :
    {b : ℕ → ℕ} {s : System}
    → Reach false b s
    → ((bs : List ℕ) → s.writer ≡ waiting bs → is_full s.pipe ≡ true)
      × ((n : ℕ) → s.reader ≡ waiting n → is_empty s.pipe ≡ true)
      × ((bs : List ℕ) (n : ℕ) → s.writer ≡ waiting bs → s.reader ≢ waiting n)
no_lost_wakeup {s} r =
    let v = Reach-Inv r in
    (
      v.writer_waits,
      v.reader_waits refl,
      λ bs n w q.
          let full = is_full-used s.pipe v.valid (v.writer_waits bs w) in
          let empty = is_empty-used s.pipe v.valid (v.reader_waits refl n q) in omega arith,
    )

-- A killed process that writes more than fits fails with the pipe full, and has woken no reader.
pub pipewrite_killed :
    (p : Pipe) (bs : List ℕ)
    → IsPipe p
    → pipesize < used p + length bs
    → ((pipewrite p true bs).1 ≡ failed)
      × ((pipewrite p true bs).2 ≡ false)
      × (is_full (pipewrite p true bs).0 ≡ true)
unfolding pipewrite
pipewrite_killed p [] v h = absurd (omega (arith, v.fits))
pipewrite_killed p (b ∷ bs) v h = elim (Bool-cases (is_full p)) [
  | inl f ↦
      let dead : (not p.readopen || true) ≡ true = ground arith in rw (f, dead) (refl, refl, f)
  | inr f ↦
      rw f (pipewrite_killed (push p b) bs (push-IsPipe p b v f) (omega (arith, used-push p b v f)))
]
