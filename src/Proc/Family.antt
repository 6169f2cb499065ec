-- ===== src/Proc/Family.antt =====
-- Parents and children in the process table: nobody sleeps through the end of a child, and every
-- process has a parent that can still wait for it.
use cs461_hw.Base.{
  ℕ, ◌≡◌, ◌≢◌, ◌⊎◌, inl, inr, refl, sym, ap, ◌∙◌, Bool, true, false, ◌||◌, ◌==◌, arith, Bool-cases,
  ==_iff, ==_of_ne,
}
use cs461_hw.Proc.{
  State, unused, embryo, sleeping, runnable, running, zombie, is_sleeping, is_zombie, Proc, Table,
  set_proc, woken, wakeup1,
}
use cs461_hw.Proc.Scan.{IsSlot, wakeup1_at, wakeup1_init}
use cs461_hw.Proc.Exit.{waits, Woke, Woke-waits, Woke-woken, woken_parent}

abbrev pub alive : State → Bool
alive sleeping = true
alive runnable = true
alive running = true
alive _ = false

abbrev pub present : State → Bool
present s = alive s || is_zombie s

-- The process has a parent in the table, another one, that has not exited.
pub record HasParent (t : Table) (c : ℕ) : Type 0 where
  pub slot : IsSlot (t.proc c).parent
  pub lives : alive (t.proc (t.proc c).parent).state ≡ true
  pub other : (t.proc c).parent ≢ c

pub record IsTable (t : Table) : Type 0 where
  pub heard :
      (p c : ℕ)
      → IsSlot p
      → IsSlot c
      → waits (t.proc p) p ≡ true
      → (t.proc c).parent ≡ p
      → is_zombie (t.proc c).state ≡ false
  pub owned : (c : ℕ) → IsSlot c → c ≢ t.initproc → present (t.proc c).state ≡ true → HasParent t c
  pub init_slot : IsSlot t.initproc
  pub init_lives : alive (t.proc t.initproc).state ≡ true

alive_zombie : (s : State) → alive s ≡ true → is_zombie s ≡ false
alive_zombie s h = ground arith

pub present_of : (s : State) → alive s ≡ true → present s ≡ true
present_of s h = ground arith

present_alive : (s : State) → present s ≡ true → is_zombie s ≡ false → alive s ≡ true
present_alive s h g = ground arith

-- A step at which nobody starts, exits or changes parents.
pub record Calm (t u : Table) : Type 0 where
  pub init : u.initproc ≡ t.initproc
  pub parent : (q : ℕ) → IsSlot q → (u.proc q).parent ≡ (t.proc q).parent
  pub lives : (q : ℕ) → IsSlot q → alive (u.proc q).state ≡ alive (t.proc q).state
  pub ended : (q : ℕ) → IsSlot q → is_zombie (u.proc q).state ≡ is_zombie (t.proc q).state
  pub waiting :
      (q : ℕ)
      → IsSlot q
      → waits (u.proc q) q ≡ true
      → (waits (t.proc q) q ≡ true)
        ⊎ ((c : ℕ) → IsSlot c → (t.proc c).parent ≡ q → is_zombie (t.proc c).state ≡ false)

pub Calm-IsTable : (t u : Table) → Calm t u → IsTable t → IsTable u
Calm-IsTable t u k v = record {
  heard = λ p c hp hc w e.
      let e' = sym (k.parent c hc) ∙ e in
      k.ended c hc
      ∙ elim (k.waiting p hp w) [ inl old ↦ v.heard p c hp hc old e' | inr new ↦ new c hc e' ];
  owned = λ c hc ne here.
      let here' : present (t.proc c).state ≡ true =
        rw (sym (k.lives c hc), sym (k.ended c hc)) here in
      let o = v.owned c hc (λ e. ne (e ∙ sym k.init)) here' in
      let same = k.parent c hc in
      record {
        slot = rw same o.slot;
        lives = ap (λ q. alive (u.proc q).state) same ∙ k.lives (t.proc c).parent o.slot ∙ o.lives;
        other = λ e. o.other (sym same ∙ e);
      };
  init_slot = rw k.init v.init_slot;
  init_lives =
      ap (λ q. alive (u.proc q).state) k.init ∙ k.lives t.initproc v.init_slot ∙ v.init_lives;
}

-- The process at `p` stays alive and keeps its parent.
pub set_proc-Calm :
    (t : Table) (p : ℕ) (x : Proc)
    → alive (t.proc p).state ≡ true
    → alive x.state ≡ true
    → x.parent ≡ (t.proc p).parent
    → (waits x p ≡ true
        → (c : ℕ) → IsSlot c
        → (t.proc c).parent ≡ p
        → is_zombie (t.proc c).state ≡ false)
    → Calm t (set_proc t p x)
set_proc-Calm t p x was is same new = record {
  init = refl;
  parent = λ q h. elim (Bool-cases (p == q)) [
    | inl e ↦ rw e (same ∙ ap (λ n. (t.proc n).parent) ((==_iff p q).0 e))
    | inr e ↦ rw e refl
  ];
  lives = λ q h. elim (Bool-cases (p == q)) [
    | inl e ↦ rw e (is ∙ sym was ∙ ap (λ n. alive (t.proc n).state) ((==_iff p q).0 e))
    | inr e ↦ rw e refl
  ];
  ended = λ q h. elim (Bool-cases (p == q)) [
    | inl e ↦ rw e (
        alive_zombie x.state is
        ∙ sym (alive_zombie (t.proc p).state was)
        ∙ ap (λ n. is_zombie (t.proc n).state) ((==_iff p q).0 e))
    | inr e ↦ rw e refl
  ];
  waiting = λ q h w. elim (Bool-cases (p == q)) [
    | inl e ↦
        let here = (==_iff p q).0 e in
        let w' : waits x q ≡ true = rw e at w in
        let w'' : waits x p ≡ true = rw here w' in inr (λ c hc g. new w'' c hc (g ∙ sym here))
    | inr e ↦ let w' : waits (t.proc q) q ≡ true = rw e at w in inl w'
  ];
}

-- A slot whose process is not alive gets another one, that is not asleep and has not exited.
pub set_proc-IsTable :
    (t : Table) (p : ℕ) (x : Proc)
    → IsTable t
    → alive (t.proc p).state ≡ false
    → is_zombie x.state ≡ false
    → is_sleeping x.state ≡ false
    → (alive x.state ≡ true → IsSlot x.parent × (alive (t.proc x.parent).state ≡ true))
    → IsTable (set_proc t p x)
set_proc-IsTable t p x v dead new awake child =
    let apart : (q : ℕ) → alive (t.proc q).state ≡ true → p ≢ q =
      λ q l e. let l' : alive (t.proc p).state ≡ true = rw e l in absurd (ground arith) in
    let same : (q : ℕ)
        → alive (t.proc q).state ≡ true
        → alive ((set_proc t p x).proc q).state ≡ true =
      λ q l. rw (==_of_ne p q (apart q l)) l in
    record {
      heard = λ q c hq hc w e. elim (Bool-cases (p == c)) [
        | inl here ↦ rw here new
        | inr ne ↦
            let e' : (t.proc c).parent ≡ q = rw ne at e in
            elim (Bool-cases (p == q)) [
              | inl me ↦ let w' : waits x q ≡ true = rw me at w in absurd (ground arith)
              | inr ne' ↦
                  let w' : waits (t.proc q) q ≡ true = rw ne' at w in
                  rw ne (v.heard q c hq hc w' e')
            ]
      ];
      owned = λ c hc ne here. elim (Bool-cases (p == c)) [
        | inl me ↦
            let here' : present x.state ≡ true = rw me at here in
            let (slot, lives) = child (present_alive x.state here' new) in
            record {
              slot = rw me slot;
              lives = rw me (same x.parent lives);
              other = rw me (λ e. apart x.parent lives ((==_iff p c).0 me ∙ sym e));
            }
        | inr others ↦
            let here' : present (t.proc c).state ≡ true = rw others at here in
            let o = v.owned c hc ne here' in
            record {
              slot = rw others o.slot;
              lives = rw others (same (t.proc c).parent o.lives);
              other = rw others o.other;
            }
      ];
      init_slot = v.init_slot;
      init_lives = same t.initproc v.init_lives;
    }

pub Woke-lives : (x y : Proc) → Woke x y → alive y.state ≡ alive x.state
Woke-lives x y w = elim w.state [ inl e ↦ ap alive e | inr e ↦ woken_lives x.state y.state e.0 e.1 ]
  where
    woken_lives : (s r : State) → is_sleeping s ≡ true → r ≡ runnable → alive r ≡ alive s
    woken_lives sleeping r h g = ap alive g
    woken_lives unused r h g = absurd (ground arith)
    woken_lives embryo r h g = absurd (ground arith)
    woken_lives runnable r h g = absurd (ground arith)
    woken_lives running r h g = absurd (ground arith)
    woken_lives zombie r h g = absurd (ground arith)

pub Woke-ended : (x y : Proc) → Woke x y → is_zombie y.state ≡ is_zombie x.state
Woke-ended x y w = elim w.state [
  | inl e ↦ ap is_zombie e
  | inr e ↦ woken_ended x.state y.state e.0 e.1
]
  where
    woken_ended : (s r : State) → is_sleeping s ≡ true → r ≡ runnable → is_zombie r ≡ is_zombie s
    woken_ended sleeping r h g = ap is_zombie g
    woken_ended unused r h g = absurd (ground arith)
    woken_ended embryo r h g = absurd (ground arith)
    woken_ended runnable r h g = absurd (ground arith)
    woken_ended running r h g = absurd (ground arith)
    woken_ended zombie r h g = absurd (ground arith)

pub wakeup1-Calm : (t : Table) (chan : ℕ) → Calm t (wakeup1 t chan)
wakeup1-Calm t chan =
    let awake = λ (q : ℕ) (h : IsSlot q). wakeup1_at chan t q h in
    record {
      init = wakeup1_init chan t;
      parent = λ q h. rw (awake q h) (woken_parent (t.proc q) chan);
      lives = λ q h.
          rw (awake q h)
            (Woke-lives (t.proc q) (woken (t.proc q) chan) (Woke-woken (t.proc q) chan));
      ended = λ q h.
          rw (awake q h)
            (Woke-ended (t.proc q) (woken (t.proc q) chan) (Woke-woken (t.proc q) chan));
      waiting = λ q h w.
          let w' : waits (woken (t.proc q) chan) q ≡ true = rw (awake q h) at w in
          inl (Woke-waits (t.proc q) (woken (t.proc q) chan) q (Woke-woken (t.proc q) chan) w');
    }
