-- ===== src/Proc/Calls.antt =====
-- How wait ends, and what kill of pid 0 leads to.
use cs461_hw.Base.{
  ℕ, ◌≡◌, ◌≤◌, ◌<◌, ◌≢◌, ◌⊎◌, inl, inr, refl, Bool, true, false, ◌&&◌, ◌==◌, arith, Bool-cases,
  ==_iff, ==_of_ne, ne_of_==, ==_refl,
}
use native.Mathlib.Decide.{dec_lt}
use cs461_hw.Proc.{
  nproc, unused, sleeping, Proc, is_unused, is_sleeping, is_zombie, Table, set_proc, first,
  allocproc, sleep, Waited, reaped, failed, asleep, wait, kill,
}
use cs461_hw.Proc.Scan.{IsSlot, first-Found}

-- `c` is a child of `me` that has exited.
abbrev IsEnded : Table → (me c : ℕ) → Type 0
IsEnded t me c = ((t.proc c).parent ≡ me) × (is_zombie (t.proc c).state ≡ true)

abbrev NoneEnded : Table → (me : ℕ) → Type 0
NoneEnded t me = (c : ℕ) → IsSlot c → (t.proc c).parent ≡ me → is_zombie (t.proc c).state ≡ false

-- A slot that allocproc may take, with nothing of the process that had it.
pub record IsFreed (x : Proc) : Type 0 where
  pub state : x.state ≡ unused
  pub pid : x.pid ≡ 0
  pub parent : x.parent ≡ 0
  pub killed : x.killed ≡ false

-- `y` is the process `x`, now asleep on channel `on`.
pub record IsAsleep (x y : Proc) (on : ℕ) : Type 0 where
  pub state : y.state ≡ sleeping
  pub chan : y.chan ≡ on
  pub pid : y.pid ≡ x.pid
  pub parent : y.parent ≡ x.parent
  pub killed : y.killed ≡ x.killed

-- Of the tables `t` and `u` at most slot `c` differs.
pub record Others (t u : Table) (c : ℕ) : Type 0 where
  pub same : (q : ℕ) → c ≢ q → u.proc q ≡ t.proc q
  pub nextpid : u.nextpid ≡ t.nextpid
  pub initproc : u.initproc ≡ t.initproc

sleep-IsAsleep : (t : Table) (me chan : ℕ) → IsAsleep (t.proc me) ((sleep t me chan).proc me) chan
unfolding sleep
sleep-IsAsleep t me chan =
    rw (==_refl me) (record { state = refl; chan = refl; pid = refl; parent = refl; killed = refl })

sleep-Others : (t : Table) (me chan : ℕ) → Others t (sleep t me chan) me
unfolding sleep
sleep-Others t me chan = record {
  same = λ q ne. rw (==_of_ne me q ne) refl;
  nextpid = refl;
  initproc = refl;
}

-- What wait of `me` promises, by how it ends.
abbrev pub Promise : Table → (me : ℕ) → Table × Waited → Type 0
Promise t me (u, reaped pid) =
    (c : ℕ) × (IsSlot c
      × IsEnded t me c
      × (pid ≡ (t.proc c).pid)
      × IsFreed (u.proc c)
      × ((u.proc c).chan ≡ (t.proc c).chan)
      × Others t u c)
Promise t me (u, failed) =
    (u ≡ t)
    × NoneEnded t me
    × (((c : ℕ) → IsSlot c → (t.proc c).parent ≢ me) ⊎ ((t.proc me).killed ≡ true))
Promise t me (u, asleep) =
    IsAsleep (t.proc me) (u.proc me) me
    × Others t u me
    × NoneEnded t me
    × ((t.proc me).killed ≡ false)
    × ((c : ℕ) × (IsSlot c × ((t.proc c).parent ≡ me)))

both_first : (a b : Bool) → (a && b) ≡ true → a ≡ true
both_first a b h = ground arith

both_second : (a b : Bool) → (a && b) ≡ true → b ≡ true
both_second a b h = ground arith

first_only : (a b : Bool) → (a && b) ≡ false → a ≡ true → b ≡ false
first_only a b h g = ground arith

-- A run of wait up to where it returns or sleeps. It returns the pid of a child that has exited, and
-- frees its slot: the state is unused, and pid, parent and killed are reset. It fails without a change
-- when no child has exited and it has none at all or is killed. It sleeps on its own channel, as the
-- process it was, if it is not killed and has children none of which has exited. No other process
-- changes, nor nextpid or initproc.
pub wait_lem : (t : Table) (me : ℕ) → Promise t me (wait t me)
unfolding wait
wait_lem t me =
    let test = λ (q : ℕ). ((t.proc q).parent == me) && is_zombie (t.proc q).state in
    let mine = λ (q : ℕ). (t.proc q).parent == me in
    let p = first nproc 1 test in
    let kid = first nproc 1 mine in
    let f = first-Found nproc 1 test (omega arith) in
    let g = first-Found nproc 1 mine (omega arith) in
    let no_zombie : p ≡ 0 → NoneEnded t me = λ z c hc e.
      first_only ((t.proc c).parent == me) (is_zombie (t.proc c).state)
        (f.miss z c hc.0 (omega (arith, hc.1))) ((==_iff (t.proc c).parent me).1 e) in
    elim (Bool-cases (p == 0)) [
      | inr z ↦
          let h = f.hit (ne_of_== p 0 z) in
          rw z (
            p,
            (
              (h.0, omega (arith, h.1)),
              ((==_iff (t.proc p).parent me).0 (both_first _ _ h.2), both_second _ _ h.2),
              refl,
              rw (==_refl p) (record { state = refl; pid = refl; parent = refl; killed = refl }),
              rw (==_refl p) refl,
              record { same = λ q ne. rw (==_of_ne p q ne) refl; nextpid = refl; initproc = refl },
            ),
          )
      | inl z ↦
          let z' = (==_iff p 0).0 z in
          elim (Bool-cases (kid == 0)) [
            | inl k ↦
                rw (z, k)
                  (
                    refl,
                    no_zombie z',
                    inl (λ c hc.
                        ne_of_== (t.proc c).parent me
                          (g.miss ((==_iff kid 0).0 k) c hc.0 (omega (arith, hc.1)))),
                  )
            | inr k ↦
                let h = g.hit (ne_of_== kid 0 k) in
                elim (Bool-cases (t.proc me).killed) [
                  | inl d ↦ rw (z, k, d) (refl, no_zombie z', inr d)
                  | inr d ↦
                      rw (z, k, d)
                        (
                          sleep-IsAsleep t me me,
                          sleep-Others t me me,
                          no_zombie z',
                          d,
                          (kid, ((h.0, omega (arith, h.1)), (==_iff (t.proc kid).parent me).0 h.2)),
                        )
                ]
          ]
    ]

-- The first slot that passes the test is the one the loop stops at.
first_is :
    (test : ℕ → Bool) (p : ℕ)
    → IsSlot p
    → test p ≡ true
    → ((q : ℕ) → 1 ≤ q → q < p → test q ≡ false)
    → first nproc 1 test ≡ p
first_is test p h yes_p before =
    let r = first nproc 1 test in
    let f = first-Found nproc 1 test (omega arith) in
    let found : r ≢ 0 =
      λ z. let missed = f.miss z p h.0 (omega (arith, h.1)) in absurd (ground (arith, missed)) in
    let hit = f.hit found in
    elim (dec_lt r p) [
      | yes l ↦
          let missed = before r hit.0 l in let got = hit.2 in absurd (ground (arith, missed, got))
      | no l ↦ elim (dec_lt p r) [
        | yes m ↦ let missed = f.earlier p h.0 m in absurd (ground (arith, missed))
        | no m ↦ omega arith
      ]
    ]

-- kill of pid 0 finds the first slot without a pid, if it is unused marks it killed, and the next
-- process to be allocated there starts killed.
pub born_killed :
    (t : Table) (p : ℕ)
    → IsSlot p
    → (t.proc p).state ≡ unused
    → (t.proc p).pid ≡ 0
    → ((q : ℕ) → 1 ≤ q → q < p → (is_unused (t.proc q).state ≡ false) × ((t.proc q).pid ≢ 0))
    → ((kill t 0).1 ≡ true)
      × ((allocproc (kill t 0).0 true).1 ≡ p)
      × (((allocproc (kill t 0).0 true).0.proc p).killed ≡ true)
unfolding kill allocproc
born_killed t p h e z before =
    let victim : first nproc 1 (λ q. (t.proc q).pid == 0) ≡ p =
      first_is (λ q. (t.proc q).pid == 0) p h ((==_iff (t.proc p).pid 0).1 z)
        (λ q l m. ==_of_ne (t.proc q).pid 0 (before q l m).1) in
    let slot : (p == 0) ≡ false = ==_of_ne p 0 (λ e. omega (arith, h.0)) in
    let awake : is_sleeping (t.proc p).state ≡ false = rw e refl in
    let u : Table = set_proc t p (record (t.proc p) { killed = true }) in
    let marked : kill t 0 ≡ (u, true) = rw (victim, slot, awake) refl in
    let free : first nproc 1 (λ q. is_unused (u.proc q).state) ≡ p =
      first_is (λ q. is_unused (u.proc q).state) p h (rw (==_refl p, e) refl)
        (λ q l m. rw (==_of_ne p q (λ s. omega arith)) (before q l m).0) in
    rw marked (refl, rw (free, slot) refl, rw (free, slot, ==_refl p) refl)
