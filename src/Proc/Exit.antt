-- ===== src/Proc/Exit.antt =====
-- The loop of exit that passes the children to init.
use cs461_hw.Base.{
  ℕ, zero, suc, ◌+◌, ◌≡◌, ◌≤◌, ◌<◌, ◌≢◌, ◌⊎◌, inl, inr, refl, sym, ap, ◌∙◌, Bool, true, false, ◌&&◌,
  ◌==◌, if◌then◌else◌, arith, Bool-cases, ==_iff, ne_of_==,
}
use native.Mathlib.Decide.{dec_lt}
use cs461_hw.Proc.{
  nproc, State, runnable, is_sleeping, is_zombie, Proc, Table, set_proc, woken, wakeup1, exit_loop,
}
use cs461_hw.Proc.Scan.{IsSlot, wakeup1_at, wakeup1_init}

-- The process sleeps on `chan`.
abbrev pub waits : Proc → ℕ → Bool
waits x chan = is_sleeping x.state && (x.chan == chan)

-- `y` is `x`, perhaps woken, perhaps with another parent.
pub record Woke (x y : Proc) : Type 0 where
  pub chan : y.chan ≡ x.chan
  pub state : (y.state ≡ x.state) ⊎ ((is_sleeping x.state ≡ true) × (y.state ≡ runnable))

Woke-refl : (x : Proc) (p : ℕ) → Woke x (record x { parent = p })
Woke-refl x p = record { chan = refl; state = inl refl }

Woke-trans : (x y z : Proc) → Woke x y → Woke y z → Woke x z
Woke-trans x y z w v = record { chan = v.chan ∙ w.chan; state = both w.state v.state }
  where
    both :
        (y.state ≡ x.state) ⊎ ((is_sleeping x.state ≡ true) × (y.state ≡ runnable))
        → (z.state ≡ y.state) ⊎ ((is_sleeping y.state ≡ true) × (z.state ≡ runnable))
        → (z.state ≡ x.state) ⊎ ((is_sleeping x.state ≡ true) × (z.state ≡ runnable))
    both (inl e) (inl g) = inl (g ∙ e)
    both (inl e) (inr (h, g)) = inr (rw (sym e) h, g)
    both (inr (h, e)) (inl g) = inr (h, g ∙ e)
    both (inr (h, e)) (inr (k, g)) = inr (h, g)

pub Woke-woken : (x : Proc) (chan : ℕ) → Woke x (woken x chan)
Woke-woken x chan = elim (Bool-cases (waits x chan)) [
  | inl e ↦
      let asleep : is_sleeping x.state ≡ true = ground arith in
      rw e (record { chan = refl; state = inr (asleep, refl) })
  | inr e ↦ rw e (record { chan = refl; state = inl refl })
]

-- Who is awake stays awake.
pub Woke-waits : (x y : Proc) (chan : ℕ) → Woke x y → waits y chan ≡ true → waits x chan ≡ true
Woke-waits x y chan w h = elim w.state [
  | inl e ↦ rw (sym e, sym w.chan) h
  | inr e ↦ let awake : is_sleeping y.state ≡ false = rw e.1 refl in absurd (ground arith)
]

-- A sleeper on `chan` does not sleep on it once woken.
pub woken_awake : (x : Proc) (chan : ℕ) → waits (woken x chan) chan ≡ false
woken_awake x chan = elim (Bool-cases (waits x chan)) [ inl e ↦ rw e refl | inr e ↦ rw e e ]

pub woken_parent : (x : Proc) (chan : ℕ) → (woken x chan).parent ≡ x.parent
woken_parent x chan = elim (Bool-cases (waits x chan)) [ inl e ↦ rw e refl | inr e ↦ rw e refl ]

-- What the rounds from `p` on make of the parents.
abbrev Moved : (n p me q : ℕ) → (t u : Table) → Type 0
Moved n p me q t u =
    ((p ≤ q) × (q < p + n) × ((t.proc q).parent ≡ me) × ((u.proc q).parent ≡ t.initproc))
    ⊎ (((u.proc q).parent ≡ (t.proc q).parent) × (p ≤ q → q < p + n → (t.proc q).parent ≢ me))

pub record Left (n p me : ℕ) (t u : Table) : Type 0 where
  pub init : u.initproc ≡ t.initproc
  pub moved : (q : ℕ) → IsSlot q → Moved n p me q t u
  pub woke : (q : ℕ) → IsSlot q → Woke (t.proc q) (u.proc q)
  pub heard :
      (c : ℕ)
      → p ≤ c
      → c < p + n
      → (t.proc c).parent ≡ me
      → is_zombie (t.proc c).state ≡ true
      → (q : ℕ) → IsSlot q
      → waits (u.proc q) t.initproc ≡ false

-- One round.
module _ (p me : ℕ) (t : Table) where
  abbrev given : Table
  given = set_proc t p (record (t.proc p) { parent = t.initproc })

  given-Woke : (q : ℕ) → Woke (t.proc q) (given.proc q)
  given-Woke q = elim (Bool-cases (p == q)) [
    | inl e ↦ let here = (==_iff p q).0 e in rw e (rw (sym here) (Woke-refl (t.proc p) t.initproc))
    | inr e ↦ rw e (Woke-refl (t.proc q) (t.proc q).parent)
  ]

  abbrev next : Table
  next =
      if (t.proc p).parent == me
      then (if is_zombie (t.proc p).state then wakeup1 given t.initproc else given)
      else t

  given_parent : (q : ℕ) → (t.proc p).parent ≡ me → Moved 1 p me q t given
  given_parent q e = elim (Bool-cases (p == q)) [
    | inl here ↦
        let same = (==_iff p q).0 here in
        inl (omega arith, omega arith, rw (sym same) e, rw here refl)
    | inr ne ↦ inr (rw ne refl, λ l m. absurd (ne_of_== p q ne (omega arith)))
  ]

  next-Left : Left 1 p me t next
  next-Left = elim (Bool-cases ((t.proc p).parent == me)) [
    | inr e ↦ rw e (record {
      init = refl;
      moved = λ q h. inr (
        refl,
        λ l m. let here : p ≡ q = omega arith in rw here at (ne_of_== (t.proc p).parent me e),
      );
      woke = λ q h. Woke-refl (t.proc q) (t.proc q).parent;
      heard = λ c l m g z q h.
          let here : p ≡ c = omega arith in
          let g' : (t.proc p).parent ≡ me = rw here g in
          absurd (ne_of_== (t.proc p).parent me e g');
    })
    | inl e ↦
        let mine = (==_iff (t.proc p).parent me).0 e in
        elim (Bool-cases (is_zombie (t.proc p).state)) [
          | inr alive ↦
              rw (e, alive)
                (record {
                  init = refl;
                  moved = λ q h. given_parent q mine;
                  woke = λ q h. given-Woke q;
                  heard = λ c l m g z q h.
                      let here : p ≡ c = omega arith in
                      let z' : is_zombie (t.proc p).state ≡ true = rw here z in
                      absurd (ground arith);
                })
          | inl dead ↦
              let awake = wakeup1_at t.initproc given in
              rw (e, dead)
                (record {
                  init = wakeup1_init t.initproc given;
                  moved = λ q h.
                      let same =
                        ap (λ (x : Proc). x.parent) (awake q h)
                        ∙ woken_parent (given.proc q) t.initproc in
                      rw same (given_parent q mine);
                  woke = λ q h. rw (awake q h) (
                      Woke-trans (t.proc q) (given.proc q) (woken (given.proc q) t.initproc)
                        (given-Woke q) (Woke-woken (given.proc q) t.initproc));
                  heard = λ c l m g z q h. rw (awake q h) (woken_awake (given.proc q) t.initproc);
                })
        ]
  ]

Woke-zombie : (x y : Proc) → Woke x y → is_zombie x.state ≡ true → is_zombie y.state ≡ true
Woke-zombie x y w h = elim w.state [ inl e ↦ rw e h | inr e ↦ absurd (awake_zombie x.state e.0 h) ]
  where
    awake_zombie : (s : State) → is_sleeping s ≡ true → is_zombie s ≡ true → ⊥
    awake_zombie s h g = ground arith

-- One round and the others.
Left-suc :
    (n p me : ℕ) (t v u : Table)
    → IsSlot p
    → p + n ≤ nproc
    → Left 1 p me t v
    → Left n (suc p) me v u
    → Left (suc n) p me t u
Left-suc n p me t v u slot top f r = record {
  init = r.init ∙ f.init;
  moved = λ q h. elim (f.moved q h) [
    | inl a ↦ elim (r.moved q h) [
      | inl b ↦ inl (a.0, omega (arith, a.1), a.2, b.3 ∙ f.init)
      | inr b ↦ inl (a.0, omega (arith, a.1), a.2, b.0 ∙ a.3)
    ]
    | inr a ↦ elim (r.moved q h) [
      | inl b ↦ inl (omega (arith, b.0), omega (arith, b.1), sym a.0 ∙ b.2, b.3 ∙ f.init)
      | inr b ↦ inr (
        b.0 ∙ a.0,
        λ l m e. elim (dec_lt p q) [
          | yes k ↦ b.1 (omega arith) (omega arith) (a.0 ∙ e)
          | no k ↦ a.1 l (omega arith) e
        ],
      )
    ]
  ];
  woke = λ q h. Woke-trans (t.proc q) (v.proc q) (u.proc q) (f.woke q h) (r.woke q h);
  heard = λ c l m g z q h. elim (dec_lt p c) [
    | no k ↦ elim (Bool-cases (waits (u.proc q) t.initproc)) [
      | inl e ↦
          let quiet = f.heard c l (omega arith) g z q h in
          let loud = Woke-waits (v.proc q) (u.proc q) t.initproc (r.woke q h) e in
          absurd (ground (arith, quiet, loud))
      | inr e ↦ e
    ]
    | yes k ↦
        let slot' : IsSlot c = (omega arith, omega arith) in
        let z' = Woke-zombie (t.proc c) (v.proc c) (f.woke c slot') z in
        let mine : (v.proc c).parent ≡ me = elim (f.moved c slot') [
          | inl a ↦ absurd (omega (arith, a.1))
          | inr a ↦ a.0 ∙ g
        ] in
        rw (sym f.init) (r.heard c k (omega arith) mine z' q h)
  ];
}

pub exit_loop-Left :
    (n p me : ℕ) (t : Table) → 1 ≤ p → p + n ≤ nproc + 1 → Left n p me t (exit_loop n p me t)
unfolding exit_loop
exit_loop-Left zero p me t h top = record {
  init = refl;
  moved = λ q s. inr (refl, λ l m. absurd (omega arith));
  woke = λ q s. Woke-refl (t.proc q) (t.proc q).parent;
  heard = λ c l m. absurd (omega arith);
}
exit_loop-Left (suc n) p me t h top =
    Left-suc n p me t (next p me t) (exit_loop n (suc p) me (next p me t)) (h, omega arith)
      (omega arith) (next-Left p me t)
      (exit_loop-Left n (suc p) me (next p me t) (omega arith) (omega arith))
