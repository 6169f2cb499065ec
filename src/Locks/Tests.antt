-- ===== src/Locks/Tests.antt =====
-- Two nested sections, and the witness.
use cs461_hw.Base.{◌≡◌, refl, true, List, [], ◌∷◌}
use cs461_hw.Fs.{ok, panic}
use cs461_hw.Locks.{Cpu, Call, push, pop, calls, popcli}
use cs461_hw.Locks.Nesting.{Inside, calls-Inside}

abbrev idle : Cpu
idle = record { ncli = 0; intena = true; eflags_if = true }

abbrev nested : List Call
nested = push ∷ push ∷ pop ∷ pop ∷ []

unopened : calls (pop ∷ []) idle ≡ panic
unfolding calls popcli
unopened = refl

calls-Inside_example : (c' : Cpu) × ((calls nested idle ≡ ok c') × Inside true 0 c')
calls-Inside_example = calls-Inside true nested 0 0 idle (refl, refl) refl
