-- ===== src/Pipe/System.antt =====
-- A writer and a reader of one pipe, interleaved where pipewrite and piperead sleep. An end is closed
-- only when no call on it is in progress, since the call holds a reference to the file.
use cs461_hw.Base.{ℕ, ◌≡◌, ◌≢◌, Bool, true, false, not, ◌&&◌, List, [], ◌++◌, if◌then◌else◌}
use cs461_hw.Pipe.{
  Pipe, new_pipe, is_full, is_empty, Outcome, returned, failed, asleep, pipewrite, piperead,
  pipeclose,
}
use cs461_hw.Pipe.Queue.{contents, IsPipe}

-- A process is not in a call, about to run it on `a`, or asleep in it.
pub data Task (A : Type 0) : Type 0 where
  idle : Task A
  ready : A → Task A
  waiting : A → Task A

-- wakeup makes a sleeper runnable.
abbrev pub wake : {A : Type 0} → Task A → Task A
wake (waiting a) = ready a
wake idle = idle
wake (ready a) = ready a

-- The task after a run that ends so, with `a` left to do.
abbrev pub next : {A : Type 0} → Outcome → A → Task A
next returned a = idle
next failed a = idle
next asleep a = waiting a

-- `accepted` and `delivered` record every byte that pipewrite has copied in and piperead out.
pub record System : Type 0 where
  pub pipe : Pipe
  pub writer : Task (List ℕ)
  pub reader : Task ℕ
  pub accepted : List ℕ
  pub delivered : List ℕ

abbrev pub initial : (ℕ → ℕ) → System
initial b = record {
  pipe = new_pipe b;
  writer = idle;
  reader = idle;
  accepted = [];
  delivered = [];
}

-- The state after a run of pipewrite that has copied `pushed`, and after one of piperead.
abbrev pub wrote : System → Pipe × Outcome × Bool × List ℕ → List ℕ → System
wrote s run pushed = record s {
  pipe = run.0;
  writer = next run.1 run.3;
  reader = if run.2 then wake s.reader else s.reader;
  accepted = s.accepted ++ pushed;
}

abbrev pub have_read : System → Pipe × Outcome × Bool × List ℕ → ℕ → System
have_read s run n = record s {
  pipe = run.0;
  reader = next run.1 n;
  writer = if run.2 then wake s.writer else s.writer;
  delivered = s.delivered ++ run.3;
}

-- One step. `kills` says whether a process may be killed inside a call.
pub data Step (kills : Bool) (s : System) : System → Type 0 where
  start_write :
      (bs : List ℕ)
      → s.writer ≡ idle
      → s.pipe.writeopen ≡ true
      → Step kills s (record s { writer = ready bs })
  run_write :
      (killed : Bool) (bs pushed : List ℕ)
      → s.writer ≡ ready bs
      → (killed && not kills) ≡ false
      → pushed ++ (pipewrite s.pipe killed bs).3 ≡ bs
      → Step kills s (wrote s (pipewrite s.pipe killed bs) pushed)
  start_read :
      (n : ℕ)
      → s.reader ≡ idle
      → s.pipe.readopen ≡ true
      → Step kills s (record s { reader = ready n })
  run_read :
      (killed : Bool) (n : ℕ)
      → s.reader ≡ ready n
      → (killed && not kills) ≡ false
      → Step kills s (have_read s (piperead s.pipe killed n) n)
  wake_writer : Step kills s (record s { writer = wake s.writer })
  wake_reader : Step kills s (record s { reader = wake s.reader })
  close_write :
      s.writer ≡ idle
      → Step kills s (record s { pipe = (pipeclose s.pipe true).0; reader = wake s.reader })
  close_read :
      s.reader ≡ idle
      → Step kills s (record s { pipe = (pipeclose s.pipe false).0; writer = wake s.writer })

pub data Reach (kills : Bool) (b : ℕ → ℕ) : System → Type 0 where
  start : Reach kills b (initial b)
  later : {s t : System} → Reach kills b s → Step kills s t → Reach kills b t

-- What every reachable state satisfies.
pub record Inv (kills : Bool) (s : System) : Type 0 where
  pub valid : IsPipe s.pipe
  pub fifo : s.accepted ≡ s.delivered ++ contents s.pipe
  pub reader_open : s.reader ≢ idle → s.pipe.readopen ≡ true
  pub writer_open : s.writer ≢ idle → s.pipe.writeopen ≡ true
  pub writer_waits : (bs : List ℕ) → s.writer ≡ waiting bs → is_full s.pipe ≡ true
  pub reader_waits : kills ≡ false → (n : ℕ) → s.reader ≡ waiting n → is_empty s.pipe ≡ true
