-- ===== src/Pipe.antt =====
-- pipe.c: the ring of bytes and its two counters, reads and writes up to the point where they return
-- or sleep, and the closing of an end. Sleeping gives up the lock, so a call that sleeps is run again
-- from the same place, on the bytes that are left, when it wakes.
pub mod Queue
pub mod Calls
pub mod System
pub mod Safety
mod Tests
use cs461_hw.Base.{
  ℕ, zero, suc, ◌+◌, ◌-◌, ◌%◌, ◌^◌, Bool, true, false, not, ◌&&◌, ◌||◌, List, [], ◌∷◌, ◌==◌,
  if◌then◌else◌,
}

abbrev pub pipesize : ℕ
pipesize = 512

-- The counters are 32-bit and wrap; `buf` is read and written below PIPESIZE.
pub record Pipe : Type 0 where
  pub buf : ℕ → ℕ
  pub nread : ℕ
  pub nwrite : ℕ
  pub readopen : Bool
  pub writeopen : Bool

-- What pipealloc leaves in a new pipe over a page with the bytes `b`.
abbrev pub new_pipe : (ℕ → ℕ) → Pipe
new_pipe b = record { buf = b; nread = 0; nwrite = 0; readopen = true; writeopen = true }

abbrev pub is_full : Pipe → Bool
is_full p = p.nwrite == ((p.nread + pipesize) % 2 ^ 32)

abbrev pub is_empty : Pipe → Bool
is_empty p = p.nread == p.nwrite

-- `p->data[p->nwrite++ % PIPESIZE] = b`
pub push : Pipe → ℕ → Pipe
push p b = record p {
  buf = λ i. if (p.nwrite % pipesize) == i then b else p.buf i;
  nwrite = (p.nwrite + 1) % 2 ^ 32;
}

-- How a run of pipewrite or piperead ends: with a result, with -1, or asleep.
pub data Outcome : Type 0 where
  returned failed asleep : Outcome

-- A run of pipewrite on the bytes left: the pipe, how it ends, whether it has called
-- wakeup(&p->nread), and the bytes not copied.
pub pipewrite : Pipe → (killed : Bool) → List ℕ → Pipe × Outcome × Bool × List ℕ
pipewrite p killed [] = (p, returned, true, [])
pipewrite p killed (b ∷ bs) =
    let rest = pipewrite (push p b) killed bs in
    if is_full p
    then (if not p.readopen || killed
        then (p, failed, false, b ∷ bs)
        else (p, asleep, true, b ∷ bs))
    else rest

-- The copying loop of piperead, at most `n` bytes.
pub read_loop : Pipe → ℕ → Pipe × List ℕ
read_loop p zero = (p, [])
read_loop p (suc n) =
    let rest = read_loop (record p { nread = (p.nread + 1) % 2 ^ 32 }) n in
    if is_empty p then (p, []) else (rest.0, p.buf (p.nread % pipesize) ∷ rest.1)

-- A run of piperead: the pipe, how it ends, whether it has called wakeup(&p->nwrite), and the bytes.
pub piperead : Pipe → (killed : Bool) → ℕ → Pipe × Outcome × Bool × List ℕ
piperead p killed n =
    if is_empty p && p.writeopen
    then (if killed then (p, failed, false, []) else (p, asleep, false, []))
    else (let (p', bs) = read_loop p n in (p', returned, true, bs))

-- pipeclose: the pipe, and whether its page is released. It wakes the other end's sleepers.
pub pipeclose : Pipe → (writable : Bool) → Pipe × Bool
pipeclose p writable =
    let p' = if writable then record p { writeopen = false } else record p { readopen = false } in
    (p', not p'.readopen && not p'.writeopen)
