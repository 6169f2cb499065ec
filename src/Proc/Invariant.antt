-- ===== src/Proc/Invariant.antt =====
-- The process table in use: every function of proc.c that changes it, in any interleaving of the
-- sections under ptable.lock.
use cs461_hw.Base.{
  ℕ, ◌+◌, ◌≡◌, ◌<◌, inl, inr, refl, sym, ap, ◌∙◌, Bool, true, false, ◌&&◌, ◌||◌, ◌==◌, Option, none,
  some, arith, Bool-cases, ==_iff, ne_of_==, ==_refl,
}
use cs461_hw.Proc.{
  nproc, State, unused, embryo, sleeping, runnable, running, is_unused, is_sleeping, is_zombie,
  Proc, Table, set_proc, first, allocproc, fork_finish, wakeup1, exit, sleep, sleep_return, wait,
  yield, schedule, kill,
}
use cs461_hw.Proc.Scan.{IsSlot, first-Found}
use cs461_hw.Proc.Exit.{waits}
use cs461_hw.Proc.Family.{
  alive, IsTable, Calm, Calm-IsTable, set_proc-Calm, set_proc-IsTable, wakeup1-Calm,
}
use cs461_hw.Proc.Gone.{gone-IsTable}

-- The table behind exit, which does not change if exit panics.
abbrev after_exit : Table → Option Table → Table
after_exit t none = t
after_exit t (some u) = u

-- A running process calls a function; the scheduler picks a runnable process. fork is two steps,
-- since ptable.lock is free between allocproc and its last store. A channel of sleep that is not
-- wait's lies outside the table.
pub data Step (t : Table) : Table → Type 0 where
  allocates : (stack : Bool) → Step t (allocproc t stack).0
  forks :
      (me np : ℕ) (copied : Bool)
      → IsSlot me
      → (t.proc me).state ≡ running
      → (t.proc np).state ≡ embryo
      → Step t (fork_finish t me np copied)
  exits : (me : ℕ) → IsSlot me → (t.proc me).state ≡ running → Step t (after_exit t (exit t me))
  waits_for : (me : ℕ) → IsSlot me → (t.proc me).state ≡ running → Step t (wait t me).0
  sleeps :
      (me chan : ℕ)
      → IsSlot me
      → nproc < chan
      → (t.proc me).state ≡ running
      → Step t (sleep t me chan)
  wakes_up : (me : ℕ) → (t.proc me).state ≡ running → Step t (sleep_return t me)
  wakes : (chan : ℕ) → Step t (wakeup1 t chan)
  kills : (pid : ℕ) → Step t (kill t pid).0
  yields : (me : ℕ) → (t.proc me).state ≡ running → Step t (yield t me)
  schedules : (p : ℕ) → (t.proc p).state ≡ runnable → Step t (schedule t p)

pub data Reach (t : Table) : Table → Type 0 where
  start : Reach t t
  later : (u v : Table) → Reach t u → Step u v → Reach t v

and_rest : (a b : Bool) → (a && b) ≡ false → a ≡ true → b ≡ false
and_rest a b h g = ground arith

and_second : (a b : Bool) → (a && b) ≡ true → b ≡ true
and_second a b h = ground arith

zombie_dead : (s : State) → is_zombie s ≡ true → alive s ≡ false
zombie_dead s h = ground arith

unused_dead : (s : State) → is_unused s ≡ true → alive s ≡ false
unused_dead s h = ground arith

sleeper_lives : (s : State) → is_sleeping s ≡ true → alive s ≡ true
sleeper_lives s h = ground arith

renumber-IsTable : (t : Table) (n : ℕ) → IsTable t → IsTable (record t { nextpid = n })
renumber-IsTable t n v = record {
  heard = v.heard;
  owned = λ c hc ne here.
      let o = v.owned c hc ne here in record { slot = o.slot; lives = o.lives; other = o.other };
  init_slot = v.init_slot;
  init_lives = v.init_lives;
}

-- A change of the other fields.
kept-Calm :
    (t : Table) (p : ℕ) (x : Proc)
    → x.state ≡ (t.proc p).state
    → x.parent ≡ (t.proc p).parent
    → x.chan ≡ (t.proc p).chan
    → Calm t (set_proc t p x)
kept-Calm t p x e f g = record {
  init = refl;
  parent = λ q h. elim (Bool-cases (p == q)) [
    | inl s ↦ rw s (f ∙ ap (λ n. (t.proc n).parent) ((==_iff p q).0 s))
    | inr s ↦ rw s refl
  ];
  lives = λ q h. elim (Bool-cases (p == q)) [
    | inl s ↦ rw s (ap alive (e ∙ ap (λ n. (t.proc n).state) ((==_iff p q).0 s)))
    | inr s ↦ rw s refl
  ];
  ended = λ q h. elim (Bool-cases (p == q)) [
    | inl s ↦ rw s (ap is_zombie (e ∙ ap (λ n. (t.proc n).state) ((==_iff p q).0 s)))
    | inr s ↦ rw s refl
  ];
  waiting = λ q h w. elim (Bool-cases (p == q)) [
    | inl s ↦
        let w' : waits x q ≡ true = rw s at w in
        let w'' : waits (t.proc p) q ≡ true = rw (e, g) at w' in
        inl (ap (λ n. waits (t.proc n) q) (sym ((==_iff p q).0 s)) ∙ w'')
    | inr s ↦ let w' : waits (t.proc q) q ≡ true = rw s at w in inl w'
  ];
}

allocates-IsTable : (t : Table) (stack : Bool) → IsTable t → IsTable (allocproc t stack).0
unfolding allocproc
allocates-IsTable t stack v =
    let p = first nproc 1 (λ q. is_unused (t.proc q).state) in
    let f = first-Found nproc 1 (λ q. is_unused (t.proc q).state) (omega arith) in
    elim (Bool-cases (p == 0)) [
      | inl e ↦ rw e v
      | inr e ↦
          let free = unused_dead (t.proc p).state (f.hit (ne_of_== p 0 e)).2 in
          let t1 : Table = record t { nextpid = t.nextpid + 1 } in
          let v1 = renumber-IsTable t (t.nextpid + 1) v in
          let x : Proc = record (t.proc p) { state = embryo; pid = t.nextpid } in
          let v2 = set_proc-IsTable t1 p x v1 free refl refl (λ a. absurd (ground arith)) in
          elim (Bool-cases stack) [
            | inl s ↦ rw (e, s) v2
            | inr s ↦
                let gone_again : alive ((set_proc t1 p x).proc p).state ≡ false =
                  rw (==_refl p) refl in
                rw (e, s)
                  (set_proc-IsTable (set_proc t1 p x) p
                    (record (t.proc p) { state = unused; pid = t.nextpid }) v2 gone_again refl refl
                    (λ a. absurd (ground arith)))
          ]
    ]

forks-IsTable :
    (t : Table) (me np : ℕ) (copied : Bool)
    → IsTable t
    → IsSlot me
    → (t.proc me).state ≡ running
    → (t.proc np).state ≡ embryo
    → IsTable (fork_finish t me np copied)
unfolding fork_finish
forks-IsTable t me np copied v h e g =
    let dead : alive (t.proc np).state ≡ false = rw g refl in
    let lives : alive (t.proc me).state ≡ true = rw e refl in
    elim (Bool-cases copied) [
      | inl c ↦ rw c (
          set_proc-IsTable t np (record (t.proc np) { parent = me; state = runnable }) v dead refl
            refl (λ a. (h, lives)))
      | inr c ↦ rw c (
          set_proc-IsTable t np (record (t.proc np) { state = unused }) v dead refl refl
            (λ a. absurd (ground arith)))
    ]

exits-IsTable :
    (t : Table) (me : ℕ)
    → IsTable t
    → IsSlot me
    → (t.proc me).state ≡ running
    → IsTable (after_exit t (exit t me))
unfolding exit
exits-IsTable t me v h e = elim (Bool-cases (me == t.initproc)) [
  | inl i ↦ rw i v
  | inr i ↦
      let lives : alive (t.proc me).state ≡ true = rw e refl in
      rw i (gone-IsTable t me v h lives (ne_of_== me t.initproc i))
]

sleep-IsTable :
    (t : Table) (me chan : ℕ)
    → IsTable t
    → (t.proc me).state ≡ running
    → ((chan ≡ me)
        → (c : ℕ) → IsSlot c
        → (t.proc c).parent ≡ me
        → is_zombie (t.proc c).state ≡ false)
    → IsTable (sleep t me chan)
unfolding sleep
sleep-IsTable t me chan v e new =
    let lives : alive (t.proc me).state ≡ true = rw e refl in
    Calm-IsTable t (sleep t me chan)
      (set_proc-Calm t me (record (t.proc me) { chan = chan; state = sleeping }) lives refl refl
        (λ w. new ((==_iff chan me).0 w)))
      v

returns-IsTable :
    (t : Table) (me : ℕ) → IsTable t → (t.proc me).state ≡ running → IsTable (sleep_return t me)
unfolding sleep_return
returns-IsTable t me v e =
    let lives : alive (t.proc me).state ≡ true = rw e refl in
    let awake : is_sleeping (t.proc me).state ≡ false = rw e refl in
    let x : Proc = record (t.proc me) { chan = 0 } in
    Calm-IsTable t (set_proc t me x)
      (set_proc-Calm t me x lives lives refl (λ w. absurd (ground (arith, w, awake)))) v

waits-IsTable :
    (t : Table) (me : ℕ) → IsTable t → (t.proc me).state ≡ running → IsTable (wait t me).0
unfolding wait
waits-IsTable t me v e =
    let test = λ (q : ℕ). ((t.proc q).parent == me) && is_zombie (t.proc q).state in
    let p = first nproc 1 test in
    let kid = first nproc 1 (λ q. (t.proc q).parent == me) in
    let f = first-Found nproc 1 test (omega arith) in
    elim (Bool-cases (p == 0)) [
      | inl z ↦ elim (Bool-cases ((kid == 0) || (t.proc me).killed)) [
        | inl k ↦ rw (z, k) v
        | inr k ↦
            rw (z, k)
              (sleep-IsTable t me me v e (λ s c hc g.
                and_rest ((t.proc c).parent == me) (is_zombie (t.proc c).state)
                  (f.miss ((==_iff p 0).0 z) c hc.0 (omega (arith, hc.1)))
                  ((==_iff (t.proc c).parent me).1 g)))
      ]
      | inr z ↦
          let dead : alive (t.proc p).state ≡ false =
            zombie_dead (t.proc p).state (and_second _ _ (f.hit (ne_of_== p 0 z)).2) in
          rw z (
            set_proc-IsTable t p
              (record (t.proc p) { pid = 0; parent = 0; killed = false; state = unused }) v dead
              refl refl (λ a. absurd (ground arith)))
    ]

kills-IsTable : (t : Table) (pid : ℕ) → IsTable t → IsTable (kill t pid).0
unfolding kill
kills-IsTable t pid v =
    let p = first nproc 1 (λ q. (t.proc q).pid == pid) in
    let y : Proc = record (t.proc p) { killed = true } in
    elim (Bool-cases (p == 0)) [
      | inl z ↦ rw z v
      | inr z ↦ elim (Bool-cases (is_sleeping (t.proc p).state)) [
        | inl s ↦
            let lives = sleeper_lives (t.proc p).state s in
            let x : Proc = record y { state = runnable } in
            let u =
              Calm-IsTable t (set_proc t p x)
                (set_proc-Calm t p x lives refl refl (λ w. absurd (ground arith))) v in
            rw (z, s) u
        | inr s ↦
            let u = Calm-IsTable t (set_proc t p y) (kept-Calm t p y refl refl refl) v in
            rw (z, s) u
      ]
    ]

-- yield, and the scheduler's choice.
turns-IsTable :
    (t : Table) (p : ℕ) (s : State)
    → IsTable t
    → alive (t.proc p).state ≡ true
    → alive s ≡ true
    → is_sleeping s ≡ false
    → IsTable (set_proc t p (record (t.proc p) { state = s }))
turns-IsTable t p s v was is awake =
    let x : Proc = record (t.proc p) { state = s } in
    Calm-IsTable t (set_proc t p x)
      (set_proc-Calm t p x was is refl (λ w. absurd (ground (arith, w, awake)))) v

Step-IsTable : (t u : Table) → Step t u → IsTable t → IsTable u
unfolding yield schedule
Step-IsTable t _ (allocates stack) v = allocates-IsTable t stack v
Step-IsTable t _ (forks me np copied h e g) v = forks-IsTable t me np copied v h e g
Step-IsTable t _ (exits me h e) v = exits-IsTable t me v h e
Step-IsTable t _ (waits_for me h e) v = waits-IsTable t me v e
Step-IsTable t _ (sleeps me chan h far e) v =
    sleep-IsTable t me chan v e (λ same c hc g. absurd (omega (arith, h.1)))
Step-IsTable t _ (wakes_up me e) v = returns-IsTable t me v e
Step-IsTable t _ (wakes chan) v = Calm-IsTable t (wakeup1 t chan) (wakeup1-Calm t chan) v
Step-IsTable t _ (kills pid) v = kills-IsTable t pid v
Step-IsTable t _ (yields me e) v =
    let lives : alive (t.proc me).state ≡ true = rw e refl in
    turns-IsTable t me runnable v lives refl refl
Step-IsTable t _ (schedules p e) v =
    let lives : alive (t.proc p).state ≡ true = rw e refl in
    turns-IsTable t p running v lives refl refl

-- Whatever processes and the scheduler do, in every state that is reached from a table in order:
-- nobody sleeps in wait while a child of its is a zombie, every present process but init has a
-- parent in the table, not itself, that has not exited, and init has not exited.
pub Reach-IsTable : (t u : Table) → IsTable t → Reach t u → IsTable u
Reach-IsTable t _ v start = v
Reach-IsTable t _ v (later w u r s) = Step-IsTable w u s (Reach-IsTable t w v r)
