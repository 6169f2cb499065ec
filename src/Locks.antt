-- ===== src/Locks.antt =====
-- spinlock.c: pushcli and popcli, which nest the sections without interrupts. The nesting stays below
-- the largest int.
pub mod Nesting
mod Tests
use cs461_hw.Base.{ℕ, suc, ◌+◌, ◌-◌, Bool, true, false, ◌&&◌, List, [], ◌∷◌, ◌==◌, if◌then◌else◌}
use cs461_hw.Fs.{Out, ok, panic, ◌>>=◌}

-- The fields of struct cpu, and the interrupt flag of its register.
pub record Cpu : Type 0 where
  pub ncli : ℕ
  pub intena : Bool
  pub eflags_if : Bool

pub pushcli : Cpu → Cpu
pushcli c = record {
  ncli = c.ncli + 1;
  intena = if c.ncli == 0 then c.eflags_if else c.intena;
  eflags_if = false;
}

-- A count of 0 is -1 after `--cpu->ncli`.
pub popcli : Cpu → Out Cpu
popcli c =
    if c.eflags_if
    then panic
    else if c.ncli == 0
    then panic
    else ok (record c {
      ncli = c.ncli - 1;
      eflags_if = if (c.ncli - 1 == 0) && c.intena then true else c.eflags_if;
    })

pub data Call : Type 0 where
  push : Call
  pop : Call

pub calls : List Call → Cpu → Out Cpu
calls [] c = ok c
calls (push ∷ xs) c = calls xs (pushcli c)
calls (pop ∷ xs) c = do r ← popcli c; calls xs r
