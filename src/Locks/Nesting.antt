-- ===== src/Locks/Nesting.antt =====
-- Interrupts stay off exactly while a section is open.
use cs461_hw.Base.{
  ℕ, zero, suc, ◌-◌, ◌≡◌, ◌≢◌, refl, ◌∙◌, Bool, true, false, ◌&&◌, List, [], ◌∷◌, ◌==◌,
  if◌then◌else◌, arith, if_false, ==_iff, ==_of_ne,
}
use cs461_hw.Fs.{ok, panic}
use cs461_hw.Locks.{Cpu, pushcli, popcli, Call, push, pop, calls}

-- The sections open after some calls, or none if one is closed that was not opened.
abbrev Closes : (depth : ℕ) → List Call → (end : ℕ) → Type 0
Closes depth [] end = depth ≡ end
Closes depth (push ∷ xs) end = Closes (suc depth) xs end
Closes zero (pop ∷ xs) end = zero ≡ suc zero
Closes (suc depth) (pop ∷ xs) end = Closes depth xs end

-- `depth` sections are open, and `on` is the flag as it was outside all of them.
abbrev pub Inside : (on : Bool) → (depth : ℕ) → Cpu → Type 0
Inside on zero c = (c.ncli ≡ 0) × (c.eflags_if ≡ on)
Inside on (suc depth) c = (c.ncli ≡ suc depth) × (c.eflags_if ≡ false) × (c.intena ≡ on)

pushcli-Inside :
    (on : Bool) (depth : ℕ) (c : Cpu) → Inside on depth c → Inside on (suc depth) (pushcli c)
unfolding pushcli
pushcli-Inside on zero c (n, e) = (omega arith, refl, rw n e)
pushcli-Inside on (suc depth) c (n, off, e) =
    let some_open : (c.ncli == 0) ≡ false = ==_of_ne c.ncli 0 (omega arith) in
    (omega arith, refl, rw some_open e)

-- The cpu after popcli closes a section.
abbrev closed : Cpu → Cpu
closed c = record c {
  ncli = c.ncli - 1;
  eflags_if = if (c.ncli - 1 == 0) && c.intena then true else c.eflags_if;
}

popcli-closed : (c : Cpu) → c.eflags_if ≡ false → c.ncli ≢ 0 → popcli c ≡ ok (closed c)
unfolding popcli
popcli-closed c off some_open =
    if_false panic (if c.ncli == 0 then panic else ok (closed c)) c.eflags_if off
    ∙ if_false panic (ok (closed c)) (c.ncli == 0) (==_of_ne c.ncli 0 some_open)

last_flag : (b i e on : Bool) → b ≡ true → i ≡ on → e ≡ false → (if b && i then true else e) ≡ on
last_flag true true e on hb hi he = hi
last_flag true false e on hb hi he = he ∙ hi
last_flag false i e on hb hi he = absurd (cc hb)

inner_flag : (b i e : Bool) → b ≡ false → e ≡ false → (if b && i then true else e) ≡ false
inner_flag true i e hb he = absurd (cc hb)
inner_flag false i e hb he = he

popcli-Inside :
    (on : Bool) (depth : ℕ) (c : Cpu)
    → Inside on (suc depth) c
    → (c' : Cpu) × ((popcli c ≡ ok c') × Inside on depth c')
popcli-Inside on zero c (n, off, e) = (
  closed c,
  (
    popcli-closed c off (omega (arith, n)),
    (
      omega (arith, n),
      last_flag (c.ncli - 1 == 0) c.intena c.eflags_if on
          ((==_iff (c.ncli - 1) 0).1 (omega (arith, n))) e off,
    ),
  ),
)
popcli-Inside on (suc depth) c (n, off, e) = (
  closed c,
  (
    popcli-closed c off (λ z. absurd (omega (arith, n, z))),
    (
      omega (arith, n),
      inner_flag (c.ncli - 1 == 0) c.intena c.eflags_if
          (==_of_ne (c.ncli - 1) 0 (λ z. absurd (omega (arith, n, z)))) off,
      e,
    ),
  ),
)

-- Calls that close only sections that they opened, or that were open, return with the count of those
-- still open. Interrupts are off while there is one, and as they were before the first when there
-- is none.
pub calls-Inside :
    (on : Bool) (xs : List Call) (depth end : ℕ) (c : Cpu)
    → Inside on depth c
    → Closes depth xs end
    → (c' : Cpu) × ((calls xs c ≡ ok c') × Inside on end c')
unfolding calls
calls-Inside on [] depth end c h e = (c, (refl, rw e at h))
calls-Inside on (push ∷ xs) depth end c h e =
    calls-Inside on xs (suc depth) end (pushcli c) (pushcli-Inside on depth c h) e
calls-Inside on (pop ∷ xs) zero end c h e = absurd (cc e)
calls-Inside on (pop ∷ xs) (suc depth) end c h e =
    let (c1, (run, h1)) = popcli-Inside on depth c h in
    let (c2, (run', h2)) = calls-Inside on xs depth end c1 h1 e in (c2, (rw run run', h2))
