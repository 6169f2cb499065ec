-- ===== src/Fs/Icache/Counts.antt =====
-- The inode cache as a count of references for each inode.
use cs461_hw.Base.{
  ℕ, ◌+◌, ◌-◌, ◌^◌, ◌≡◌, ◌≢◌, ◌↔◌, ◌<◌, ◌⊎◌, inl, inr, refl, sym, ap, ◌∙◌, true, false, ◌&&◌, ◌==◌,
  if◌then◌else◌, if_false, if_refl, arith, Bool-cases, ==_iff, ==_refl, ==_of_ne, ne_of_==,
}
use native.Mathlib.Decide.{dec_lt}
use cs461_hw.Fs.{Out, ok, panic}
use cs461_hw.Fs.Icache.{
  Inode, Icache, Search, cached, empty, full, ninode, set_inode, is_cached, increment, decrement,
  search_from, take_slot, iget, idup, iput, drop_ref,
}
use cs461_hw.Fs.Icache.Scan.{Sought, search_from-Sought}

-- Slots with references stand for the counts, one slot for each inode that has any.
pub record Represents (c : Icache) (count : (dev inum : ℕ) → ℕ) : Type 0 where
  pub small : (k : ℕ) → k < ninode → (c.inode k).ref < 2 ^ 31
  pub owned :
      (k : ℕ)
      → k < ninode
      → 0 < (c.inode k).ref
      → count (c.inode k).dev (c.inode k).inum ≡ (c.inode k).ref
  pub unique :
      (j k : ℕ)
      → j < ninode
      → k < ninode
      → 0 < (c.inode j).ref
      → 0 < (c.inode k).ref
      → (c.inode j).dev ≡ (c.inode k).dev
      → (c.inode j).inum ≡ (c.inode k).inum
      → j ≡ k
  pub backed :
      (dev inum : ℕ)
      → 0 < count dev inum
      → (k : ℕ) × ((k < ninode)
          × ((0 < (c.inode k).ref) × (((c.inode k).dev ≡ dev) × ((c.inode k).inum ≡ inum))))

-- The counts with `n` for one inode.
abbrev pub assign : (ℕ → ℕ → ℕ) → (dev inum n : ℕ) → ℕ → ℕ → ℕ
assign count dev inum n d i = if (d == dev) && (i == inum) then n else count d i

key_cases : (d dev i inum : ℕ) → ((d ≡ dev) × (i ≡ inum)) ⊎ (((d == dev) && (i == inum)) ≡ false)
key_cases d dev i inum = elim (Bool-cases (d == dev)) [
  | inr q ↦ inr (rw q refl)
  | inl q ↦ elim (Bool-cases (i == inum)) [
    | inr r ↦ inr (rw (q, r) refl)
    | inl r ↦ inl ((==_iff d dev).0 q, (==_iff i inum).0 r)
  ]
]

assign_here :
    (count : ℕ → ℕ → ℕ) (dev inum n d i : ℕ) → d ≡ dev → i ≡ inum → assign count dev inum n d i ≡ n
assign_here count dev inum n d i e e' = rw (e, e', ==_refl dev, ==_refl inum) refl

assign_test : (d dev i inum : ℕ) → d ≡ dev → i ≡ inum → ((d == dev) && (i == inum)) ≡ true
assign_test d dev i inum e e' = rw (e, e', ==_refl dev, ==_refl inum) refl

-- Slot `k` gets a record of the inode `inum` with `n` references. No other slot with references has
-- that inode, and slot `k` had it or had no references.
module _ (c : Icache) (count : ℕ → ℕ → ℕ) (k : ℕ) (p : Inode) (lk : k < ninode)
    (r : Represents c count) (small : p.ref < 2 ^ 31)
    (alone : (j : ℕ)
      → j < ninode
      → j ≢ k
      → 0 < (c.inode j).ref
      → (c.inode j).dev ≡ p.dev
      → (c.inode j).inum ≢ p.inum)
    (mine : ((c.inode k).ref ≡ 0) ⊎ (((c.inode k).dev ≡ p.dev) × ((c.inode k).inum ≡ p.inum))) where
  abbrev c' : Icache
  c' = set_inode c k p

  here : c'.inode k ≡ p
  here = if_refl p (c.inode k) k

  away : (j : ℕ) → j ≢ k → c'.inode j ≡ c.inode j
  away j ne = if_false p (c.inode j) (j == k) (==_of_ne j k ne)

  -- A statement on every slot, from slot `k` and the others.
  slots :
      (P : ℕ → Inode → Type 0)
      → P k p
      → ((j : ℕ) → j ≢ k → P j (c.inode j))
      → (j : ℕ) → P j (c'.inode j)
  slots P h o j = elim (Bool-cases (j == k)) [
    | inl q ↦ let same : j ≡ k = (==_iff j k).0 q in rw (same, here) h
    | inr q ↦ let other : j ≢ k = ne_of_== j k q in rw (away j other) (o j other)
  ]

  set_inode-Represents : Represents c' (assign count p.dev p.inum p.ref)
  set_inode-Represents = record {
    small = slots (λ j x. j < ninode → x.ref < 2 ^ 31) (λ l. small) (λ j ne. r.small j);
    owned =
        slots (λ j x. j < ninode → 0 < x.ref → assign count p.dev p.inum p.ref x.dev x.inum ≡ x.ref)
          (λ l h. assign_here count p.dev p.inum p.ref p.dev p.inum refl refl)
          (λ j ne l h. elim (key_cases (c.inode j).dev p.dev (c.inode j).inum p.inum) [
            | inl e ↦ absurd (alone j l ne h e.0 e.1)
            | inr e ↦ rw e (r.owned j l h)
          ]);
    unique = λ i j.
        slots
          (λ i x.
            i < ninode
            → j < ninode
            → 0 < x.ref
            → 0 < (c'.inode j).ref
            → x.dev ≡ (c'.inode j).dev
            → x.inum ≡ (c'.inode j).inum
            → i ≡ j)
          (slots
            (λ j y.
              k < ninode
              → j < ninode
              → 0 < p.ref
              → 0 < y.ref
              → p.dev ≡ y.dev
              → p.inum ≡ y.inum
              → k ≡ j)
            (λ _ _ _ _ _ _. refl) (λ j ne _ l _ h e e'. absurd (alone j l ne h (sym e) (sym e'))) j)
          (λ i ne.
            slots
              (λ j y.
                i < ninode
                → j < ninode
                → 0 < (c.inode i).ref
                → 0 < y.ref
                → (c.inode i).dev ≡ y.dev
                → (c.inode i).inum ≡ y.inum
                → i ≡ j)
              (λ l _ h _ e e'. absurd (alone i l ne h e e'))
              (λ j ne' l m h h' e e'. r.unique i j l m h h' e e') j)
          i;
    backed = λ d i h. elim (key_cases d p.dev i p.inum) [
      | inl e ↦
          let now = assign_here count p.dev p.inum p.ref d i e.0 e.1 in
          (
            k,
            (
              lk,
              (
                omega (arith, h, now, ap (λ x. x.ref) here),
                (ap (λ x. x.dev) here ∙ sym e.0, ap (λ x. x.inum) here ∙ sym e.1),
              ),
            ),
          )
      | inr e ↦
          let as_before = if_false p.ref (count d i) ((d == p.dev) && (i == p.inum)) e in
          let (j, (l, (pos, (ed, ei)))) = r.backed d i (omega (arith, h, as_before)) in
          let other : j ≢ k = λ q. elim mine [
            | inl z ↦ absurd (omega (arith, pos, z, ap (λ x. (c.inode x).ref) q))
            | inr m ↦
                let ed' : d ≡ p.dev = sym ed ∙ ap (λ x. (c.inode x).dev) q ∙ m.0 in
                let ei' : i ≡ p.inum = sym ei ∙ ap (λ x. (c.inode x).inum) q ∙ m.1 in
                absurd (cc (e, assign_test d p.dev i p.inum ed' ei'))
          ] in
          let same = away j other in
          (
            j,
            (
              l,
              (
                omega (arith, pos, ap (λ x. x.ref) same),
                (ap (λ x. x.dev) same ∙ ed, ap (λ x. x.inum) same ∙ ei),
              ),
            ),
          )
    ];
  }

-- A slot that the search takes for cached has the inode and references, and one that has it is
-- taken.
is_cached_iff :
    (p : Inode) (dev inum : ℕ)
    → p.ref < 2 ^ 31
    → (is_cached p dev inum ≡ true) ↔ ((0 < p.ref) × ((p.dev ≡ dev) × (p.inum ≡ inum)))
is_cached_iff p dev inum h = ground arith

increment_small : (x : ℕ) → x + 1 < 2 ^ 31 → increment x ≡ x + 1
increment_small x h = omega arith

Represents-same : (c : Icache) (f g : ℕ → ℕ → ℕ) → f ≡ g → Represents c f → Represents c g
Represents-same c f g e r = rw e at r

-- The same with the inode and the count given by equations; slot `k` then has the inode.
set_slot :
    (c : Icache) (count : ℕ → ℕ → ℕ) (k : ℕ) (p : Inode) (dev inum n : ℕ)
    → k < ninode
    → Represents c count
    → p.dev ≡ dev
    → p.inum ≡ inum
    → p.ref ≡ n
    → n < 2 ^ 31
    → ((j : ℕ)
        → j < ninode
        → j ≢ k
        → 0 < (c.inode j).ref
        → (c.inode j).dev ≡ dev
        → (c.inode j).inum ≢ inum)
    → ((c.inode k).ref ≡ 0) ⊎ (((c.inode k).dev ≡ dev) × ((c.inode k).inum ≡ inum))
    → (k < ninode)
      × ((((set_inode c k p).inode k).dev ≡ dev) × (((set_inode c k p).inode k).inum ≡ inum))
      × Represents (set_inode c k p) (assign count dev inum n)
set_slot c count k p dev inum n l r ed ei en small alone mine =
    let small' : p.ref < 2 ^ 31 = rw en small in
    let alone' : (j : ℕ)
        → j < ninode
        → j ≢ k
        → 0 < (c.inode j).ref
        → (c.inode j).dev ≡ p.dev
        → (c.inode j).inum ≢ p.inum =
      λ j lj ne pos e e'. alone j lj ne pos (e ∙ ed) (e' ∙ ei) in
    let mine' : ((c.inode k).ref ≡ 0) ⊎ (((c.inode k).dev ≡ p.dev) × ((c.inode k).inum ≡ p.inum)) =
      rw (ed, ei) mine in
    let at_slot : (set_inode c k p).inode k ≡ p = here c count k p l r small' alone' mine' in
    (
      l,
      (ap (λ x. x.dev) at_slot ∙ ed, ap (λ x. x.inum) at_slot ∙ ei),
      Represents-same (set_inode c k p) (assign count p.dev p.inum p.ref) (assign count dev inum n)
          (ap (λ x. assign count x p.inum p.ref) ed
            ∙ ap (λ x. assign count dev x p.ref) ei
            ∙ ap (assign count dev inum) en)
          (set_inode-Represents c count k p l r small' alone' mine'),
    )

-- The references of an inode after iget.
abbrev bump : (ℕ → ℕ → ℕ) → (dev inum : ℕ) → ℕ → ℕ → ℕ
bump count dev inum = assign count dev inum (count dev inum + 1)

-- How iget ends: with a slot that has the inode, and one reference more to it and to no other inode,
-- or in a panic when the inode has no references and no slot is free.
abbrev pub Got : Icache → (ℕ → ℕ → ℕ) → (dev inum : ℕ) → Out (ℕ × Icache) → Type 0
Got c count dev inum (ok (k, c')) =
    (k < ninode)
    × (((c'.inode k).dev ≡ dev) × ((c'.inode k).inum ≡ inum))
    × Represents c' (bump count dev inum)
Got c count dev inum panic = (count dev inum ≡ 0) × ((k : ℕ) → k < ninode → 0 < (c.inode k).ref)

module _ (c : Icache) (count : ℕ → ℕ → ℕ) (dev inum : ℕ) (r : Represents c count)
    (room : count dev inum + 1 < 2 ^ 31) where
  -- With the inode in no slot it has no references.
  uncounted : ((k : ℕ) → k < ninode → is_cached (c.inode k) dev inum ≡ false) → count dev inum ≡ 0
  uncounted absent = elim (dec_lt 0 (count dev inum)) [
    | no z ↦ omega arith
    | yes pos ↦
        let (k, (l, (h, same))) = r.backed dev inum pos in
        absurd (cc (absent k l, (is_cached_iff (c.inode k) dev inum (r.small k l)).1 (h, same)))
  ]

  take_slot-Got :
      (s : Search)
      → Sought c.inode dev inum ninode s
      → Got c count dev inum (take_slot c dev inum s)
  unfolding take_slot
  take_slot-Got full (absent, busy) = (uncounted absent, λ k l. omega (arith, busy k l))
  take_slot-Got (cached k) (l, e) =
      let (pos, (ed, ei)) = (is_cached_iff (c.inode k) dev inum (r.small k l)).0 e in
      let owned : (c.inode k).ref ≡ count dev inum =
        sym (r.owned k l pos) ∙ ap (λ x. count x (c.inode k).inum) ed ∙ ap (count dev) ei in
      set_slot c count k (record (c.inode k) { ref = increment (c.inode k).ref }) dev inum
        (count dev inum + 1) l r ed ei
        (increment_small (c.inode k).ref (omega (arith, owned, room)) ∙ ap (λ x. x + 1) owned) room
        (λ j lj ne h e' e''. ne (r.unique j k lj l h pos (e' ∙ sym ed) (e'' ∙ sym ei)))
        (inr (ed, ei))
  take_slot-Got (empty k) (l, z, absent) =
      set_slot c count k (record (c.inode k) { dev = dev; inum = inum; ref = 1; valid = false }) dev
        inum (count dev inum + 1) l r refl refl (omega (arith, uncounted absent)) room
        (λ j lj ne h e' e''.
          absurd (
            cc (absent j lj, (is_cached_iff (c.inode j) dev inum (r.small j lj)).1 (h, (e', e'')))))
        (inl z)

  -- In a cache that stands for counts iget counts one reference more to the inode, whose count can
  -- still grow as an int, and to no other, and gives a slot that has it. It panics only if the inode
  -- has no references and every slot has some.
  pub iget-Got : Got c count dev inum (iget c dev inum)
  unfolding iget
  iget-Got = take_slot-Got (search_from ninode 0 c.inode dev inum full) (
      search_from-Sought c.inode dev inum ninode 0 full
        ((λ k l. absurd (omega arith)), (λ k l. absurd (omega arith))))

-- A slot with references, whose count changes to `n`.
module _ (c : Icache) (count : ℕ → ℕ → ℕ) (k : ℕ) (r : Represents c count) (l : k < ninode)
    (held : 0 < (c.inode k).ref) where
  count_slot :
      (n : ℕ)
      → n < 2 ^ 31
      → Represents
          (set_inode c k (record (c.inode k) { ref = n }))
          (assign count (c.inode k).dev (c.inode k).inum n)
  count_slot n small =
      (set_slot c count k (record (c.inode k) { ref = n }) (c.inode k).dev (c.inode k).inum n l r
        refl refl refl small (λ j lj ne h e e'. ne (r.unique j k lj l h held e e'))
        (inr (refl, refl))).2

  -- idup counts one reference more.
  idup-Represents :
      (c.inode k).ref + 1 < 2 ^ 31
      → Represents (idup c k) (assign count (c.inode k).dev (c.inode k).inum ((c.inode k).ref + 1))
  unfolding idup
  idup-Represents small =
      rw (increment_small (c.inode k).ref small) (count_slot ((c.inode k).ref + 1) small)

  -- In a cache that stands for counts iput of a slot with references, whose inode has links, other
  -- references or no valid copy, counts one reference less to it and to no other, and leaves the disk
  -- as it is.
  pub iput-Represents :
      (((c.inode k).ref == 1) && (c.inode k).valid && ((c.inode k).copy.nlink == 0)) ≡ false
      → (c' : Icache) × ((iput c k ≡ ok c')
          × ((c'.fs ≡ c.fs)
              × Represents c'
                  (assign count (c.inode k).dev (c.inode k).inum ((c.inode k).ref - 1))))
  unfolding iput
  iput-Represents e =
      let less : decrement (c.inode k).ref ≡ (c.inode k).ref - 1 = omega (arith, r.small k l) in
      (
        drop_ref c k,
        (
          rw e refl,
          (refl, rw less (count_slot ((c.inode k).ref - 1) (omega (arith, r.small k l)))),
        ),
      )
