-- ===== src/Vm/Merge.antt =====
-- The part of dedup that makes two equal pages share a frame.
use cs461_hw.Base.{
  All-map, ℕ, ◌+◌, ◌-◌, ◌*◌, ◌/◌, ◌%◌, ◌^◌, ◌≤◌, ◌<◌, ◌≡◌, ◌≢◌, inl, inr, sym, ap, fun_ext, ◌∙◌,
  false, arith, List, ◌∷◌, ◌==◌, if◌then◌else◌, Bool-cases, All, ==_refl, ==_of_ne,
}
use cs461_hw.Machine.{nframes, Machine, ok}
use cs461_hw.Machine.Words.{write, SameFrame}
use cs461_hw.Kalloc.Pages.{page_va}
use cs461_hw.Kalloc.FreeList.{IsFrame, IsFreeList, IsFreeList-write, IsFreeList-refs}
use cs461_hw.Kalloc.Counts.{Released, krelease-Released, kretain-ok, counted}
use cs461_hw.Vm.{
  pte_p, pte_u, pte_w, pte_cow, has, set_flag, clear_flag, ptx, share_entries, protect_entry, merge,
}
use cs461_hw.Vm.Tables.{Walk, Maps, pte_va, pte_word, load64-word, store64-word, Walk-same}
use cs461_hw.Vm.Entries.{cow_entry, IsShared, first-IsShared, cow_entry-first}
use cs461_hw.Vm.Cow.{TablesApart}

-- Two pages of one process in different frames `f` and `g`: `va` through the tables `t2`, `t3`, `t4`
-- and `vb` through `s2`, `s3`, `s4`. The tables may be shared between them, each at its own level.
pub record CanMerge (k : Machine) (va vb t1 t2 t3 t4 s2 s3 s4 f g : ℕ) (fs : List ℕ) : Type 0 where
  pub first : Maps k.mem va t1 t2 t3 t4 f
  pub second : Maps k.mem vb t1 s2 s3 s4 g
  pub list : IsFreeList k fs
  pub apart : TablesApart t1 t2 t3 t4 (f ∷ g ∷ fs)
  pub apart' : TablesApart t1 s2 s3 s4 (f ∷ g ∷ fs)
  pub levels : (t4 ≢ s2) × (t4 ≢ s3) × (s4 ≢ t2) × (s4 ≢ t3)
  pub two : pte_word t4 va ≢ pte_word s4 vb
  pub frames : f ≢ g
  pub used : All (λ h. f ≢ h) fs
  pub used' : All (λ h. g ≢ h) fs
  pub frame : IsFrame k.kernel_end g
  pub counted : (1 ≤ k.refs g) × (k.refs g < 2 ^ 32)
  pub room : k.refs f + 1 < 2 ^ 32

-- The two entries after the stores that precede krelease.
abbrev stored : (ℕ → ℕ) → (w1 w2 : ℕ) → ℕ → ℕ
stored m w1 w2 =
    let x = set_flag (m w1) pte_cow in
    let y = set_flag (set_flag (set_flag x pte_p) pte_u) pte_cow in
    write (write (write m w1 x) w2 y) w2 (clear_flag y pte_w)

module _ (m : ℕ → ℕ) (w1 w2 : ℕ) (ne : w1 ≢ w2) where
  stored_first : stored m w1 w2 w1 ≡ set_flag (m w1) pte_cow
  stored_first = rw (==_of_ne w2 w1 (λ e. ne (sym e)), ==_refl w1)

  stored_second : stored m w1 w2 w2 ≡ cow_entry (m w1)
  stored_second = rw (==_refl w2)

  stored_other : (i : ℕ) → i ≢ w1 → i ≢ w2 → stored m w1 w2 i ≡ m i
  stored_other i a b = rw (==_of_ne w2 i (λ e. b (sym e)), ==_of_ne w1 i (λ e. a (sym e)))

module _ (k : Machine) (t i s j : ℕ) (ht : t < nframes) (hi : i < 512) (hs : s < nframes)
    (hj : j < 512) (ne : t * 512 + i ≢ s * 512 + j) where
  share_entries-ok :
      share_entries (page_va t + i * 8) (page_va s + j * 8) k
      ≡ ok tt (record k { mem = stored k.mem (t * 512 + i) (s * 512 + j) })
  unfolding share_entries
  share_entries-ok =
      let some_address : (page_va s + j * 8 == 0) ≡ false = ground arith in
      rw (load64-word k t i ht hi) (
        rw (store64-word k t i ht hi _) (
          rw some_address (
            rw (load64-word _ t i ht hi) (
              rw (==_refl (t * 512 + i)) (
                rw (store64-word _ s j hs hj _) (
                  rw (load64-word _ s j hs hj)
                    (rw (==_refl (s * 512 + j)) (rw (store64-word _ s j hs hj _)))))))))

-- The machine after `protect_entry`.
abbrev protected : Machine → ℕ → Machine
protected k w = record k { mem = write k.mem w (clear_flag (k.mem w) pte_w) }

write_self : (m : ℕ → ℕ) (w : ℕ) → write m w (m w) ≡ m
write_self m w = fun_ext λ i. ground arith

protect_entry-ok :
    (k : Machine) (t i : ℕ)
    → t < nframes
    → i < 512
    → protect_entry (page_va t + i * 8) k ≡ ok tt (protected k (t * 512 + i))
unfolding protect_entry clear_flag
protect_entry-ok k t i h hi =
    rw (load64-word k t i h hi) (elim (Bool-cases (has (k.mem (t * 512 + i)) pte_w)) [
      | inl e ↦ rw e (rw (store64-word k t i h hi _))
      | inr e ↦ rw e (ap (λ m. ok tt (record k { mem = m })) (sym (write_self k.mem (t * 512 + i))))
    ])

-- Two pages share the frame `f`: what `merge` leaves of them, `g` being the second one's old frame.
pub record Merged (k k' : Machine) (va vb t1 t2 t3 t4 s2 s3 s4 f g : ℕ) (fs : List ℕ) : Type 0 where
  pub first : Maps k'.mem va t1 t2 t3 t4 f
  pub second : Maps k'.mem vb t1 s2 s3 s4 f
  pub shared : IsShared (k'.mem (pte_word t4 va)) f
  pub shared' : IsShared (k'.mem (pte_word s4 vb)) f
  pub more : k'.refs f ≡ k.refs f + 1
  pub fewer : k'.refs g ≡ k.refs g - 1
  pub others : (h : ℕ) → f ≢ h → g ≢ h → k'.refs h ≡ k.refs h
  pub list : IsFreeList k' (if k.refs g == 1 then g ∷ fs else fs)
  pub outside : (i : ℕ) → i / 512 ≢ g → i ≢ pte_word t4 va → i ≢ pte_word s4 vb → k'.mem i ≡ k.mem i

module _ (k k' : Machine) (va vb t1 t2 t3 t4 s2 s3 s4 f g : ℕ) (fs : List ℕ)
    (c : CanMerge k va vb t1 t2 t3 t4 s2 s3 s4 f g fs)
    (r : Released (record k { mem = stored k.mem (pte_word t4 va) (pte_word s4 vb) }) k' g fs) where
  abbrev done : Machine
  done = counted (protected k' (pte_word t4 va)) f ((k'.refs f + 1) % 2 ^ 32)

  done_outside :
      (i : ℕ) → i / 512 ≢ g → i ≢ pte_word t4 va → i ≢ pte_word s4 vb → done.mem i ≡ k.mem i
  done_outside i a b d =
      rw (==_of_ne (pte_word t4 va) i (λ e. b (sym e)))
        (r.same i (inr a) ∙ stored_other k.mem (pte_word t4 va) (pte_word s4 vb) c.two i b d)

  done_first :
      done.mem (pte_word t4 va) ≡ clear_flag (set_flag (k.mem (pte_word t4 va)) pte_cow) pte_w
  done_first = rw (==_refl (pte_word t4 va)) (
      ap (λ x. clear_flag x pte_w)
        (r.same _ (inr (λ e. c.apart.pt.1.0 (omega arith)))
          ∙ stored_first k.mem (pte_word t4 va) (pte_word s4 vb) c.two))

  done_second :
      done.mem (pte_word s4 vb) ≡ clear_flag (set_flag (k.mem (pte_word t4 va)) pte_cow) pte_w
  done_second = rw (==_of_ne (pte_word t4 va) (pte_word s4 vb) c.two) (
      r.same _ (inr (λ e. c.apart'.pt.1.0 (omega arith)))
      ∙ stored_second k.mem (pte_word t4 va) (pte_word s4 vb) c.two
      ∙ cow_entry-first (k.mem (pte_word t4 va)) f c.first.leads c.first.user)

  done-IsShared : IsShared (clear_flag (set_flag (k.mem (pte_word t4 va)) pte_cow) pte_w) f
  done-IsShared = first-IsShared (k.mem (pte_word t4 va)) f c.first.leads c.first.user

  done-Walk : Walk done.mem va t1 t2 t3 t4
  done-Walk =
      Walk-same k.mem done.mem va t1 t2 t3 t4
        (done_outside _ (λ e. c.apart.pml4.1.0 (omega arith)) (λ e. c.apart.pt_pml4 (omega arith))
          (λ e. c.apart'.pt_pml4 (omega arith)))
        (done_outside _ (λ e. c.apart.pdp.1.0 (omega arith)) (λ e. c.apart.pt_pdp (omega arith))
          (λ e. c.levels.2 (omega arith)))
        (done_outside _ (λ e. c.apart.pd.1.0 (omega arith)) (λ e. c.apart.pt_pd (omega arith))
          (λ e. c.levels.3 (omega arith)))
        c.first.walk

  done-Walk' : Walk done.mem vb t1 s2 s3 s4
  done-Walk' =
      Walk-same k.mem done.mem vb t1 s2 s3 s4
        (done_outside _ (λ e. c.apart.pml4.1.0 (omega arith)) (λ e. c.apart.pt_pml4 (omega arith))
          (λ e. c.apart'.pt_pml4 (omega arith)))
        (done_outside _ (λ e. c.apart'.pdp.1.0 (omega arith)) (λ e. c.levels.0 (omega arith))
          (λ e. c.apart'.pt_pdp (omega arith)))
        (done_outside _ (λ e. c.apart'.pd.1.0 (omega arith)) (λ e. c.levels.1 (omega arith))
          (λ e. c.apart'.pt_pd (omega arith)))
        c.second.walk

  list_apart : All (λ h. pte_word t4 va / 512 ≢ h) (if k.refs g == 1 then g ∷ fs else fs)
  list_apart = elim (Bool-cases (k.refs g == 1)) [
    | inl e ↦ rw e (All-map (g ∷ fs) (λ h n q. n (omega arith)) c.apart.pt.1)
    | inr e ↦ rw e (All-map fs (λ h n q. n (omega arith)) c.apart.pt.1.1)
  ]

  done-Merged : Merged k done va vb t1 t2 t3 t4 s2 s3 s4 f g fs
  done-Merged = record {
    first = record {
      walk = done-Walk;
      leads = rw done_first done-IsShared.leads;
      user = rw done_first done-IsShared.user;
    };
    second = record {
      walk = done-Walk';
      leads = rw done_second done-IsShared.leads;
      user = rw done_second done-IsShared.user;
    };
    shared = rw done_first done-IsShared;
    shared' = rw done_second done-IsShared;
    more = rw (==_refl f, r.others f (λ e. c.frames (sym e))) (omega (arith, c.room));
    fewer = rw (==_of_ne f g c.frames) r.fewer;
    others = λ h a b. rw (==_of_ne f h a) (r.others h b);
    list =
        IsFreeList-refs (protected k' (pte_word t4 va)) _ _
          (IsFreeList-write k' (pte_word t4 va) _ _ r.list list_apart);
    outside = done_outside;
  }

stored-IsFreeList :
    (k : Machine) (va vb t1 t2 t3 t4 s2 s3 s4 f g : ℕ) (fs : List ℕ)
    → CanMerge k va vb t1 t2 t3 t4 s2 s3 s4 f g fs
    → IsFreeList (record k { mem = stored k.mem (pte_word t4 va) (pte_word s4 vb) }) fs
stored-IsFreeList k va vb t1 t2 t3 t4 s2 s3 s4 f g fs c =
    IsFreeList-write _ (pte_word s4 vb) _ fs
      (IsFreeList-write _ (pte_word s4 vb) _ fs
        (IsFreeList-write k (pte_word t4 va) _ fs c.list
          (All-map fs (λ h n q. n (omega arith)) c.apart.pt.1.1))
        (All-map fs (λ h n q. n (omega arith)) c.apart'.pt.1.1))
      (All-map fs (λ h n q. n (omega arith)) c.apart'.pt.1.1)

-- The statements that dedup runs on two pages in different frames end. Both pages are then mapped
-- to the first one's frame, read-only and marked copy-on-write; that frame has one reference more
-- and the other one less, which is free if that was the last; no word changes but the two entries
-- and those of the second frame.
pub merge-Merged :
    (k : Machine) (va vb t1 t2 t3 t4 s2 s3 s4 f g : ℕ) (fs : List ℕ)
    → CanMerge k va vb t1 t2 t3 t4 s2 s3 s4 f g fs
    → (k' : Machine) × (merge (pte_va t4 va) (pte_va s4 vb) (page_va g) (page_va f) k ≡ ok tt k')
      × Merged k k' va vb t1 t2 t3 t4 s2 s3 s4 f g fs
unfolding merge
merge-Merged k va vb t1 t2 t3 t4 s2 s3 s4 f g fs c =
    let (k', run, r) =
      krelease-Released (record k { mem = stored k.mem (pte_word t4 va) (pte_word s4 vb) }) g fs
        (stored-IsFreeList k va vb t1 t2 t3 t4 s2 s3 s4 f g fs c) c.frame c.used' c.counted.0
        c.counted.1 in
    let t_ram = c.first.walk.to_pt.ram in
    (
      done k k' va vb t1 t2 t3 t4 s2 s3 s4 f g fs c r,
      rw
          (share_entries-ok k t4 (ptx va) s4 (ptx vb) t_ram (omega arith) c.second.walk.to_pt.ram
            (omega arith) c.two)
          (rw run (
            rw (protect_entry-ok k' t4 (ptx va) t_ram (omega arith))
              (kretain-ok (protected k' (pte_word t4 va)) f c.first.leads.ram))),
      done-Merged k k' va vb t1 t2 t3 t4 s2 s3 s4 f g fs c r,
    )

-- What the process reads after the merge is as before: if the frames held the same words, the shared
-- frame holds the old words of the first page and those of the second.
pub Merged-reads :
    (k k' : Machine) (va vb t1 t2 t3 t4 s2 s3 s4 f g : ℕ) (fs : List ℕ)
    → CanMerge k va vb t1 t2 t3 t4 s2 s3 s4 f g fs
    → Merged k k' va vb t1 t2 t3 t4 s2 s3 s4 f g fs
    → SameFrame k.mem f g
    → (i : ℕ) → i < 512
    → (k'.mem (f * 512 + i) ≡ k.mem (f * 512 + i)) × (k'.mem (f * 512 + i) ≡ k.mem (g * 512 + i))
Merged-reads k k' va vb t1 t2 t3 t4 s2 s3 s4 f g fs c m same i h =
    let keep : k'.mem (f * 512 + i) ≡ k.mem (f * 512 + i) =
      m.outside (f * 512 + i) (λ e. c.frames (omega arith)) (λ e. c.apart.pt.0 (omega arith))
        (λ e. c.apart'.pt.0 (omega arith)) in
    (keep, keep ∙ same i h)
