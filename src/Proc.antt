-- ===== src/Proc.antt =====
-- proc.c: the process table. A pointer to ptable.proc[i] is the number i + 1 and 0 is the null
-- pointer; channels are addresses too, and those above NPROC lie outside the table. Of a process the
-- fields are modelled that the functions under ptable.lock share.
pub mod Scan
pub mod Exit
pub mod Family
pub mod Gone
pub mod Invariant
pub mod Calls
mod Tests
use cs461_hw.Base.{
  ℕ, zero, suc, ◌+◌, ◌-◌, ◌%◌, ◌^◌, Bool, true, false, not, ◌&&◌, ◌||◌, Option, none, some, ◌==◌,
  ltb, leb, if◌then◌else◌,
}

abbrev pub nproc : ℕ
nproc = 64

pub data State : Type 0 where
  unused embryo sleeping runnable running zombie : State

abbrev pub is_unused : State → Bool
is_unused unused = true
is_unused _ = false

abbrev pub is_sleeping : State → Bool
is_sleeping sleeping = true
is_sleeping _ = false

abbrev pub is_zombie : State → Bool
is_zombie zombie = true
is_zombie _ = false

pub record Proc : Type 0 where
  pub state : State
  pub pid : ℕ
  pub parent : ℕ
  pub chan : ℕ
  pub killed : Bool

pub record Table : Type 0 where
  pub proc : ℕ → Proc
  pub nextpid : ℕ
  pub initproc : ℕ

abbrev pub set_proc : Table → ℕ → Proc → Table
set_proc t p x = record t { proc = λ q. if p == q then x else t.proc q }

-- The first of `n` pointers from `p` on that passes the test, or 0: the loops over the table that
-- stop at a process.
pub first : (n p : ℕ) → (ℕ → Bool) → ℕ
first zero p test = 0
first (suc n) p test = let rest = first n (suc p) test in if test p then p else rest

-- `stack` says whether kalloc gives a page for the stack.
pub allocproc : Table → (stack : Bool) → Table × ℕ
allocproc t stack =
    let p = first nproc 1 (λ q. is_unused (t.proc q).state) in
    if p == 0
    then (t, 0)
    else (let x = t.proc p in
        let t' = record (set_proc t p (record x { state = embryo; pid = t.nextpid })) {
          nextpid = t.nextpid + 1;
        } in
        if stack
        then (t', p)
        else (set_proc t' p (record x { state = unused; pid = t.nextpid }), 0))

-- fork behind allocproc; `copied` says whether copyuvm succeeds. The address space, the files and
-- the name that the child gets are no fields of Proc.
pub fork_finish : Table → (me np : ℕ) → (copied : Bool) → Table
fork_finish t me np copied =
    let x = t.proc np in
    if copied
    then set_proc t np (record x { parent = me; state = runnable })
    else set_proc t np (record x { state = unused })

-- One round of wakeup1's loop.
abbrev pub woken : Proc → ℕ → Proc
woken x chan = if is_sleeping x.state && (x.chan == chan) then record x { state = runnable } else x

pub wakeup1_loop : (n p : ℕ) → Table → ℕ → Table
wakeup1_loop zero p t chan = t
wakeup1_loop (suc n) p t chan = wakeup1_loop n (suc p) (set_proc t p (woken (t.proc p) chan)) chan

pub wakeup1 : Table → ℕ → Table
wakeup1 t chan = wakeup1_loop nproc 1 t chan

-- The loop of exit that passes the children of `me` to init.
pub exit_loop : (n p me : ℕ) → Table → Table
exit_loop zero p me t = t
exit_loop (suc n) p me t =
    let x = t.proc p in
    let t' = set_proc t p (record x { parent = t.initproc }) in
    let next =
      if x.parent == me then (if is_zombie x.state then wakeup1 t' t.initproc else t') else t in
    exit_loop n (suc p) me next

-- exit from its acquire on; `none` is its panic.
pub exit : Table → (me : ℕ) → Option Table
exit t me =
    let t' = exit_loop nproc 1 me (wakeup1 t (t.proc me).parent) in
    if me == t.initproc
    then none
    else some (set_proc t' me (record (t'.proc me) { state = zombie }))

-- sleep up to its call of sched. Its two panics are for calls outside a process or without a lock,
-- which no caller makes; with another lock than ptable's, the swap of the locks changes no field here.
pub sleep : Table → (me chan : ℕ) → Table
sleep t me chan = set_proc t me (record (t.proc me) { chan = chan; state = sleeping })

-- The rest of sleep, which the process runs when it is scheduled again.
pub sleep_return : Table → (me : ℕ) → Table
sleep_return t me = set_proc t me (record (t.proc me) { chan = 0 })

-- How a run of wait ends: with a pid, with -1, or asleep.
pub data Waited : Type 0 where
  reaped : ℕ → Waited
  failed asleep : Waited

pub wait : Table → (me : ℕ) → Table × Waited
wait t me =
    let p = first nproc 1 (λ q. ((t.proc q).parent == me) && is_zombie (t.proc q).state) in
    let kid = first nproc 1 (λ q. (t.proc q).parent == me) in
    if p == 0
    then (if (kid == 0) || (t.proc me).killed then (t, failed) else (sleep t me me, asleep))
    else (let x = record (t.proc p) { pid = 0; parent = 0; killed = false; state = unused } in
        (set_proc t p x, reaped (t.proc p).pid))

pub yield : Table → (me : ℕ) → Table
yield t me = set_proc t me (record (t.proc me) { state = runnable })

-- A round of scheduler's loop that meets a RUNNABLE process.
pub schedule : Table → ℕ → Table
schedule t p = set_proc t p (record (t.proc p) { state = running })

pub kill : Table → (pid : ℕ) → Table × Bool
kill t pid =
    let p = first nproc 1 (λ q. (t.proc q).pid == pid) in
    let x = t.proc p in
    let y = record x { killed = true } in
    if p == 0
    then (t, false)
    else (set_proc t p (if is_sleeping x.state then record y { state = runnable } else y), true)
