-- ===== src/Proc/Gone.antt =====
-- exit: its children go to init, its parent is woken, and it stays as a zombie for its parent.
use cs461_hw.Base.{
  ℕ, ◌≡◌, ◌≢◌, ◌⊎◌, inl, inr, refl, sym, ap, ◌∙◌, true, false, ◌==◌, arith, Bool-cases, ==_iff,
  ==_of_ne, ne_of_==,
}
use cs461_hw.Proc.{nproc, zombie, is_zombie, Table, set_proc, wakeup1, exit_loop}
use cs461_hw.Proc.Scan.{IsSlot, wakeup1_at, wakeup1_init}
use cs461_hw.Proc.Exit.{waits, Woke-waits, woken_awake, Left, exit_loop-Left}
use cs461_hw.Proc.Family.{
  alive, present, present_of, HasParent, IsTable, Calm-IsTable, Woke-lives, Woke-ended,
  wakeup1-Calm,
}

-- exit of a living process other than init keeps the families whole.
module _ (t : Table) (me : ℕ) (v : IsTable t) (h : IsSlot me)
    (lives : alive (t.proc me).state ≡ true) (other : me ≢ t.initproc) where
  abbrev called : Table
  called = wakeup1 t (t.proc me).parent

  abbrev left : Table
  left = exit_loop nproc 1 me called

  abbrev gone : Table
  gone = set_proc left me (record (left.proc me) { state = zombie })

  abbrev mine : HasParent t me
  mine = v.owned me h other (present_of (t.proc me).state lives)

  abbrev v1 : IsTable called
  v1 = Calm-IsTable t called (wakeup1-Calm t (t.proc me).parent) v

  abbrev l : Left nproc 1 me called left
  l = exit_loop-Left nproc 1 me called (omega arith) (omega arith)

  -- Where the parents are after exit.
  parent_of :
      (c : ℕ)
      → IsSlot c
      → (((called.proc c).parent ≡ me) × ((left.proc c).parent ≡ t.initproc))
        ⊎ (((left.proc c).parent ≡ (called.proc c).parent) × ((called.proc c).parent ≢ me))
  parent_of c hc = elim (l.moved c hc) [
    | inl a ↦ inl (a.2, a.3 ∙ wakeup1_init (t.proc me).parent t)
    | inr a ↦ inr (a.0, a.1 hc.0 (omega (arith, hc.1)))
  ]

  my_parent : (called.proc me).parent ≡ (t.proc me).parent
  my_parent = (wakeup1-Calm t (t.proc me).parent).parent me h

  -- The parent was woken.
  parent_awake : waits (left.proc (t.proc me).parent) (t.proc me).parent ≡ false
  parent_awake =
      let p = (t.proc me).parent in
      elim (Bool-cases (waits (left.proc p) p)) [
        | inl e ↦
            let before = Woke-waits (called.proc p) (left.proc p) p (l.woke p mine.slot) e in
            let after : waits (called.proc p) p ≡ false =
              rw (wakeup1_at p t p mine.slot) (woken_awake (t.proc p) p) in
            absurd (ground (arith, before, after))
        | inr e ↦ e
      ]

  gone_heard :
      (p c : ℕ)
      → IsSlot p
      → IsSlot c
      → waits (left.proc p) p ≡ true
      → (left.proc c).parent ≡ p
      → is_zombie (left.proc c).state ≡ false
  gone_heard p c hp hc w e = elim (Bool-cases (is_zombie (left.proc c).state)) [
    | inr z ↦ z
    | inl z ↦
        let before = sym (Woke-ended (called.proc c) (left.proc c) (l.woke c hc)) ∙ z in
        elim (parent_of c hc) [
          | inl a ↦
              let init : called.initproc ≡ p = wakeup1_init (t.proc me).parent t ∙ sym a.1 ∙ e in
              let quiet : waits (left.proc p) p ≡ false =
                ap (λ q. waits (left.proc p) q) (sym init)
                ∙ l.heard c hc.0 (omega (arith, hc.1)) a.0 before p hp in
              absurd (ground (arith, quiet))
          | inr a ↦
              let w' = Woke-waits (called.proc p) (left.proc p) p (l.woke p hp) w in
              let quiet = v1.heard p c hp hc w' (sym a.0 ∙ e) in
              absurd (ground (arith, quiet, before))
        ]
  ]

  still_lives :
      (q : ℕ) → IsSlot q → me ≢ q → alive (t.proc q).state ≡ true → alive (gone.proc q).state ≡ true
  still_lives q hq ne a = rw (==_of_ne me q ne) (
      Woke-lives (called.proc q) (left.proc q) (l.woke q hq)
      ∙ (wakeup1-Calm t (t.proc me).parent).lives q hq
      ∙ a)

  gone_parent : (c : ℕ) → (gone.proc c).parent ≡ (left.proc c).parent
  gone_parent c = elim (Bool-cases (me == c)) [
    | inl e ↦ rw e (ap (λ q. (left.proc q).parent) ((==_iff me c).0 e))
    | inr e ↦ rw e refl
  ]

  gone-HasParent :
      (c p : ℕ)
      → (gone.proc c).parent ≡ p
      → IsSlot p
      → me ≢ p
      → alive (t.proc p).state ≡ true
      → p ≢ c
      → HasParent gone c
  gone-HasParent c p e slot ne a apart = record {
    slot = rw e slot;
    lives = ap (λ q. alive (gone.proc q).state) e ∙ still_lives p slot ne a;
    other = λ x. apart (sym e ∙ x);
  }

  gone_owned : (c : ℕ) → IsSlot c → c ≢ t.initproc → HasParent t c → HasParent gone c
  gone_owned c hc ne o =
      let before = (wakeup1-Calm t (t.proc me).parent).parent c hc in
      elim (parent_of c hc) [
        | inl a ↦
            gone-HasParent c t.initproc (gone_parent c ∙ a.1) v.init_slot other v.init_lives
              (λ e. ne (sym e))
        | inr a ↦
            gone-HasParent c (t.proc c).parent (gone_parent c ∙ a.0 ∙ before) o.slot
              (λ e. a.1 (before ∙ sym e)) o.lives o.other
      ]

  was_present :
      (c : ℕ)
      → IsSlot c
      → me ≢ c
      → present (gone.proc c).state ≡ true
      → present (t.proc c).state ≡ true
  was_present c hc ne a =
      let calm = wakeup1-Calm t (t.proc me).parent in
      let a' : present (left.proc c).state ≡ true = rw (==_of_ne me c ne) at a in
      let lived = sym (Woke-lives (called.proc c) (left.proc c) (l.woke c hc) ∙ calm.lives c hc) in
      let ended = sym (Woke-ended (called.proc c) (left.proc c) (l.woke c hc) ∙ calm.ended c hc) in
      rw (lived, ended) a'

  init_same : gone.initproc ≡ t.initproc
  init_same = l.init ∙ wakeup1_init (t.proc me).parent t

  pub gone-IsTable : IsTable gone
  gone-IsTable = record {
    heard = λ p c hp hc w e. elim (Bool-cases (me == p)) [
      | inl here ↦ let never : false ≡ true = rw here at w in absurd (ground arith)
      | inr there ↦
          let w' : waits (left.proc p) p ≡ true = rw there at w in
          let e' = sym (gone_parent c) ∙ e in
          elim (Bool-cases (me == c)) [
            | inr ne ↦ rw ne (gone_heard p c hp hc w' e')
            | inl same ↦ elim (parent_of me h) [
              | inl a ↦ absurd (mine.other (sym my_parent ∙ a.0))
              | inr a ↦
                  let to_p : (t.proc me).parent ≡ p =
                    sym my_parent
                    ∙ sym a.0
                    ∙ ap (λ q. (left.proc q).parent) ((==_iff me c).0 same)
                    ∙ e' in
                  let quiet : waits (left.proc p) p ≡ false =
                    ap (λ q. waits (left.proc q) q) (sym to_p) ∙ parent_awake in
                  absurd (ground (arith, quiet, w'))
            ]
          ]
    ];
    owned = λ c hc ne here.
        let ne' = λ (e : c ≡ t.initproc). ne (e ∙ sym init_same) in
        elim (Bool-cases (me == c)) [
          | inl e ↦
              let o : HasParent t c = rw (sym ((==_iff me c).0 e)) mine in gone_owned c hc ne' o
          | inr e ↦ gone_owned c hc ne' (v.owned c hc ne' (was_present c hc (ne_of_== me c e) here))
        ];
    init_slot = rw init_same v.init_slot;
    init_lives = rw init_same (still_lives t.initproc v.init_slot other v.init_lives);
  }
