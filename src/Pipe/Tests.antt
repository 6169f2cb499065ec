-- ===== src/Pipe/Tests.antt =====
-- Pipes in use, and the theorems of pipe.c at them.
use cs461_hw.Base.{
  ℕ, ◌-◌, ◌^◌, ◌≤◌, ◌≡◌, ◌≢◌, refl, true, false, List, [], ◌∷◌, ◌++◌, arith, length,
}
use cs461_hw.Pipe.{Pipe, pipesize, new_pipe, is_full, is_empty, push, failed, pipewrite}
use cs461_hw.Pipe.Queue.{contents, IsPipe}
use cs461_hw.Pipe.System.{
  System, Task, initial, wrote, waiting, Reach, start, later, start_write, run_write,
}
use cs461_hw.Pipe.Safety.{fifo, no_lost_wakeup, pipewrite_killed}

-- Just before both counters wrap: 510 bytes in the pipe.
abbrev late : Pipe
late = record (new_pipe (λ i. i)) { nread = 2 ^ 32 - 510; nwrite = 0 }

late-IsPipe : IsPipe late
late-IsPipe = record { small = omega arith; small' = omega arith; fits = omega arith }

pipewrite_killed_example :
    ((pipewrite late true (1 ∷ 2 ∷ 3 ∷ [])).1 ≡ failed)
    × ((pipewrite late true (1 ∷ 2 ∷ 3 ∷ [])).2 ≡ false)
    × (is_full (pipewrite late true (1 ∷ 2 ∷ 3 ∷ [])).0 ≡ true)
pipewrite_killed_example = pipewrite_killed late (1 ∷ 2 ∷ 3 ∷ []) late-IsPipe (omega arith)

abbrev blank : ℕ → ℕ
blank i = 0

abbrev written : System
written =
    let s = record (initial blank) { writer = Task.ready (7 ∷ 8 ∷ []) } in
    wrote s (pipewrite s.pipe false (7 ∷ 8 ∷ [])) (7 ∷ 8 ∷ [])

-- Two bytes written.
written-Reach : Reach false blank written
unfolding pipewrite push
written-Reach =
    later (later start (start_write (7 ∷ 8 ∷ []) refl refl))
      (run_write false (7 ∷ 8 ∷ []) (7 ∷ 8 ∷ []) refl refl refl)

fifo_example :
    (written.accepted ≡ written.delivered ++ contents written.pipe)
    × (length (contents written.pipe) ≤ pipesize)
fifo_example = fifo written-Reach

no_lost_wakeup_example :
    ((bs : List ℕ) → written.writer ≡ waiting bs → is_full written.pipe ≡ true)
    × ((n : ℕ) → written.reader ≡ waiting n → is_empty written.pipe ≡ true)
    × ((bs : List ℕ) (n : ℕ) → written.writer ≡ waiting bs → written.reader ≢ waiting n)
no_lost_wakeup_example = no_lost_wakeup written-Reach
