-- ===== src/Proc/Tests.antt =====
-- A small process table, and the theorems of proc.c at it.
use cs461_hw.Base.{◌≡◌, refl, true, false, ◌==◌, if◌then◌else◌, arith}
use cs461_hw.Proc.{unused, running, zombie, Proc, Table, set_proc, allocproc, wait, kill, yield}
use cs461_hw.Proc.Family.{IsTable}
use cs461_hw.Proc.Invariant.{yields, start, later, Reach-IsTable}
use cs461_hw.Proc.Calls.{Promise, wait_lem, born_killed}

abbrev blank : Proc
blank = record { state = unused; pid = 0; parent = 0; chan = 0; killed = false }

-- Init is the only process, and runs.
abbrev booted : Table
booted = record {
  proc = λ p. if p == 1 then record blank { state = running; pid = 1 } else blank;
  nextpid = 2;
  initproc = 1;
}

booted-IsTable : IsTable booted
booted-IsTable = record {
  heard = λ p c hp hc w e. absurd (ground arith);
  owned = λ c hc ne here. absurd (ground arith);
  init_slot = (omega arith, omega arith);
  init_lives = refl;
}

-- It yields the processor.
Reach-IsTable_example : IsTable (yield booted 1)
Reach-IsTable_example =
    Reach-IsTable booted (yield booted 1) booted-IsTable
      (later booted (yield booted 1) start (yields 1 refl))

-- Process 2 is a zombie child of init.
abbrev ended : Table
ended = set_proc booted 2 (record blank { state = zombie; pid = 2; parent = 1 })

wait_lem_example : Promise ended 1 (wait ended 1)
wait_lem_example = wait_lem ended 1

born_killed_example :
    ((kill booted 0).1 ≡ true)
    × ((allocproc (kill booted 0).0 true).1 ≡ 2)
    × (((allocproc (kill booted 0).0 true).0.proc 2).killed ≡ true)
born_killed_example =
    born_killed booted 2 (omega arith, omega arith) refl refl
      (λ q l m.
        let first_slot : q ≡ 1 = omega arith in
        (rw first_slot refl, rw first_slot (λ e. absurd (ground arith))))
