-- ===== src/Vm/Cow.antt =====
-- copyonwrite: a page marked copy-on-write gets a private copy.
use cs461_hw.Base.{
  ℕ, ◌+◌, ◌-◌, ◌*◌, ◌/◌, ◌%◌, ◌^◌, ◌≤◌, ◌<◌, ◌≡◌, ◌≢◌, ◌⊎◌, inl, inr, refl, sym, ap, ◌∙◌, true,
  false, arith, List, [], ◌∷◌, ◌==◌, if◌then◌else◌, Bool-cases, All, ==_refl, ==_of_ne,
}
use cs461_hw.Machine.{Machine, ok, pgrounddown}
use cs461_hw.Machine.Words.{write, copy_frame}
use cs461_hw.Kalloc.{krelease}
use cs461_hw.Kalloc.Pages.{page_va, v2p-page_va, memmove_page-page_va, page_va_ne_zero}
use cs461_hw.Kalloc.FreeList.{IsFrame, IsFreeList, Chain-same}
use cs461_hw.Kalloc.Alloc.{taken, kalloc-ok}
use cs461_hw.Kalloc.Counts.{SameRest, Released, krelease-Released}
use cs461_hw.Vm.{pte_p, pte_u, pte_cow, has, pmx, pdpx, pdx, ptx, copy_page, uva2ka, copyonwrite}
use cs461_hw.Vm.Tables.{
  Walk, Maps, pte_va, pte_word, walkpgdir-Walk, load64-pte, store64-word, uva2ka-Maps, Walk-same,
}
use cs461_hw.Vm.Entries.{user_entry, user_entry_lem, user_entry-Leads, user_entry_flags}

-- The frames of the tables are none of the list, and the page table is no other level's.
pub record TablesApart (t1 t2 t3 t4 : ℕ) (fs : List ℕ) : Type 0 where
  pub pml4 : All (λ g. t1 ≢ g) fs
  pub pdp : All (λ g. t2 ≢ g) fs
  pub pd : All (λ g. t3 ≢ g) fs
  pub pt : All (λ g. t4 ≢ g) fs
  pub pt_pml4 : t4 ≢ t1
  pub pt_pdp : t4 ≢ t2
  pub pt_pd : t4 ≢ t3

-- The machine after copy_page has moved the page in `f` to the frame `g`.
abbrev copied : Machine → (va t4 f g : ℕ) → Machine
copied k va t4 f g = record (taken k g) {
  mem = write (copy_frame k.mem g f) (pte_word t4 va) (user_entry g);
}

module _ (k : Machine) (va t1 t2 t3 t4 f g : ℕ) (fs : List ℕ) (p : Maps k.mem va t1 t2 t3 t4 f)
    (v : IsFreeList k (g ∷ fs)) (apart : TablesApart t1 t2 t3 t4 (f ∷ g ∷ fs)) where
  copy_page-ok : copy_page (pte_va t4 va) (page_va f) k ≡ ok tt (copied k va t4 f g)
  unfolding copy_page
  copy_page-ok = rw (kalloc-ok k g fs v) (
      rw (memmove_page-page_va (taken k g) g f v.frames.0.1 p.leads.ram) (
        rw (v2p-page_va g v.frames.0.1, user_entry_lem g)
          (rw (store64-word _ t4 (ptx va) p.walk.to_pt.ram (omega arith) (user_entry g)))))

  copied_away : (i : ℕ) → i / 512 ≢ g → i ≢ pte_word t4 va → (copied k va t4 f g).mem i ≡ k.mem i
  copied_away i a b = ground arith

  copied-IsFreeList : IsFreeList (copied k va t4 f g) fs
  copied-IsFreeList = record {
    chain =
        Chain-same k.mem (copied k va t4 f g).mem (k.mem (g * 512)) fs v.chain.1
          (away fs v.distinct.0 apart.pt.1.1);
    frames = v.frames.1;
    distinct = v.distinct.1;
    unlocked = v.unlocked;
  }
    where
      away :
          (xs : List ℕ)
          → All (λ x. g ≢ x) xs
          → All (λ x. t4 ≢ x) xs
          → All (λ x. (copied k va t4 f g).mem (x * 512) ≡ k.mem (x * 512)) xs
      away [] a b = tt
      away (x ∷ xs) a b =
          (copied_away (x * 512) (λ e. a.0 (omega arith)) (λ e. b.0 (omega arith)), away xs a.1 b.1)

  copied-Walk : Walk (copied k va t4 f g).mem va t1 t2 t3 t4
  copied-Walk =
      Walk-same k.mem (copied k va t4 f g).mem va t1 t2 t3 t4
        (copied_away (t1 * 512 + pmx va) (λ e. apart.pml4.1.0 (omega arith))
          (λ e. apart.pt_pml4 (omega arith)))
        (copied_away (t2 * 512 + pdpx va) (λ e. apart.pdp.1.0 (omega arith))
          (λ e. apart.pt_pdp (omega arith)))
        (copied_away (t3 * 512 + pdx va) (λ e. apart.pd.1.0 (omega arith))
          (λ e. apart.pt_pd (omega arith)))
        p.walk

  copied_entry : (copied k va t4 f g).mem (pte_word t4 va) ≡ user_entry g
  copied_entry = rw (==_refl (pte_word t4 va))

  copied_page : (i : ℕ) → i < 512 → (copied k va t4 f g).mem (g * 512 + i) ≡ k.mem (f * 512 + i)
  copied_page i h =
      let elsewhere : pte_word t4 va ≢ g * 512 + i = λ e. apart.pt.1.0 (omega arith) in
      let frame : (g * 512 + i) / 512 ≡ g = omega arith in
      let word : (g * 512 + i) % 512 ≡ i = omega arith in
      rw (==_of_ne (pte_word t4 va) (g * 512 + i) elsewhere) (rw (frame, word) (rw (==_refl g)))

  copied_old :
      f ≢ g → (i : ℕ) → i < 512 → (copied k va t4 f g).mem (f * 512 + i) ≡ k.mem (f * 512 + i)
  copied_old ne i h =
      copied_away (f * 512 + i) (λ e. ne (omega arith)) (λ e. apart.pt.0 (omega arith))

-- What copyonwrite leaves of a page in frame `f` that it copies to the free frame `g`.
pub record Copied (k k' : Machine) (va t1 t2 t3 t4 f g : ℕ) (fs : List ℕ) : Type 0 where
  pub maps : Maps k'.mem va t1 t2 t3 t4 g
  pub entry : k'.mem (pte_word t4 va) ≡ user_entry g
  pub same_page : (i : ℕ) → i < 512 → k'.mem (g * 512 + i) ≡ k.mem (f * 512 + i)
  pub one : k'.refs g ≡ 1
  pub fewer : k'.refs f ≡ k.refs f - 1
  pub others : (h : ℕ) → f ≢ h → g ≢ h → k'.refs h ≡ k.refs h
  pub list : IsFreeList k' (if k.refs f == 1 then f ∷ fs else fs)
  pub shared : 1 < k.refs f → (i : ℕ) → i < 512 → k'.mem (f * 512 + i) ≡ k.mem (f * 512 + i)
  pub rest : SameRest k k'
  pub outside : (i : ℕ) → i / 512 ≢ f → i / 512 ≢ g → i ≢ pte_word t4 va → k'.mem i ≡ k.mem i

-- A copy-on-write page, a free frame for the copy, and what the tables and the counts must satisfy.
pub record CanCopy (k : Machine) (va t1 t2 t3 t4 f g : ℕ) (fs : List ℕ) : Type 0 where
  pub maps : Maps k.mem va t1 t2 t3 t4 f
  pub cow : has (k.mem (pte_word t4 va)) pte_cow ≡ true
  pub list : IsFreeList k (g ∷ fs)
  pub apart : TablesApart t1 t2 t3 t4 (f ∷ g ∷ fs)
  pub used : All (λ h. f ≢ h) (g ∷ fs)
  pub frame : IsFrame k.kernel_end f
  pub counted : 1 ≤ k.refs f
  pub bounded : k.refs f < 2 ^ 32

module _ (k k' : Machine) (va t1 t2 t3 t4 f g : ℕ) (fs : List ℕ)
    (c : CanCopy k va t1 t2 t3 t4 f g fs) (r : Released (copied k va t4 f g) k' f fs) where
  copied_refs : (copied k va t4 f g).refs f ≡ k.refs f
  copied_refs = rw (==_of_ne g f (λ e. c.used.0 (sym e)))

  Released_entry : k'.mem (pte_word t4 va) ≡ user_entry g
  Released_entry =
      r.same _ (inr (λ e. c.apart.pt.0 (omega arith)))
      ∙ copied_entry k va t1 t2 t3 t4 f g fs c.maps c.list c.apart

  Released-Maps : Maps k'.mem va t1 t2 t3 t4 g
  Released-Maps = record {
    walk =
        Walk-same (copied k va t4 f g).mem k'.mem va t1 t2 t3 t4
          (r.same _ (inr (λ e. c.apart.pml4.0 (omega arith))))
          (r.same _ (inr (λ e. c.apart.pdp.0 (omega arith))))
          (r.same _ (inr (λ e. c.apart.pd.0 (omega arith))))
          (copied-Walk k va t1 t2 t3 t4 f g fs c.maps c.list c.apart);
    leads = rw Released_entry (user_entry-Leads g c.list.frames.0.1);
    user = rw Released_entry (user_entry_flags g).0;
  }

  Released-Copied : Copied k k' va t1 t2 t3 t4 f g fs
  Released-Copied = record {
    maps = Released-Maps;
    entry = Released_entry;
    same_page = λ i h.
        r.same _ (inr (λ e. c.used.0 (omega arith)))
        ∙ copied_page k va t1 t2 t3 t4 f g fs c.maps c.list c.apart i h;
    one = r.others g c.used.0 ∙ rw (==_refl g) refl;
    fewer = r.fewer ∙ ap (λ n. n - 1) copied_refs;
    others = λ h a b. r.others h a ∙ rw (==_of_ne g h b) refl;
    list = rw copied_refs at r.list;
    shared = λ l i h.
        r.same _ (inl (rw copied_refs l))
        ∙ copied_old k va t1 t2 t3 t4 f g fs c.maps c.list c.apart c.used.0 i h;
    rest = record {
      checksum = r.rest.checksum;
      use_lock = r.rest.use_lock;
      lock_held = r.rest.lock_held;
      kernel_end = r.rest.kernel_end;
    };
    outside = λ i a b d.
        r.same i (inr a) ∙ copied_away k va t1 t2 t3 t4 f g fs c.maps c.list c.apart i b d;
  }

copyonwrite_run :
    (k k' : Machine) (v t1 t2 t3 t4 f g : ℕ) (fs : List ℕ)
    → CanCopy k (pgrounddown v) t1 t2 t3 t4 f g fs
    → krelease (page_va f) (copied k (pgrounddown v) t4 f g) ≡ ok tt k'
    → copyonwrite (page_va t1) v k ≡ ok 1 k'
unfolding copyonwrite
copyonwrite_run k k' v t1 t2 t3 t4 f g fs c run =
    let va : ℕ = pgrounddown v in
    rw (uva2ka-Maps k va t1 t2 t3 t4 f c.maps) (
      rw (page_va_ne_zero f) (
        rw (walkpgdir-Walk k va t1 t2 t3 t4 c.maps.walk false) (
          rw (load64-pte k va t1 t2 t3 t4 c.maps.walk)
            (rw c.cow (rw (copy_page-ok k va t1 t2 t3 t4 f g fs c.maps c.list c.apart) (rw run))))))

-- copyonwrite of any address in a copy-on-write page returns 1, with a free frame that is none of the
-- page's tables: the page is then mapped writable to that frame, which is off the free list and holds
-- the same words; the old frame loses one reference, is free if that was the last, and keeps its words
-- if not. No other word of memory, no other count, no checksum, and nothing of the lock changes.
pub copyonwrite-Copied :
    (k : Machine) (v t1 t2 t3 t4 f g : ℕ) (fs : List ℕ)
    → CanCopy k (pgrounddown v) t1 t2 t3 t4 f g fs
    → (k' : Machine) × (copyonwrite (page_va t1) v k ≡ ok 1 k')
      × Copied k k' (pgrounddown v) t1 t2 t3 t4 f g fs
copyonwrite-Copied k v t1 t2 t3 t4 f g fs c =
    let va : ℕ = pgrounddown v in
    let k3 : Machine = copied k va t4 f g in
    let same_count : k3.refs f ≡ k.refs f = rw (==_of_ne g f (λ e. c.used.0 (sym e))) in
    let (k', run, r) =
      krelease-Released k3 f fs (copied-IsFreeList k va t1 t2 t3 t4 f g fs c.maps c.list c.apart)
        c.frame c.used.1 (rw same_count c.counted) (rw same_count c.bounded) in
    (
      k',
      copyonwrite_run k k' v t1 t2 t3 t4 f g fs c run,
      Released-Copied k k' va t1 t2 t3 t4 f g fs c r,
    )

-- A page that is mapped for the user but not marked copy-on-write: copyonwrite returns 1 all the
-- same and releases the frame, which stays mapped. With one reference the frame of a mapped page
-- lies on the free list.
pub copyonwrite_unmarked :
    (k : Machine) (v t1 t2 t3 t4 f : ℕ) (fs : List ℕ)
    → Maps k.mem (pgrounddown v) t1 t2 t3 t4 f
    → has (k.mem (pte_word t4 (pgrounddown v))) pte_cow ≡ false
    → IsFreeList k fs
    → TablesApart t1 t2 t3 t4 (f ∷ fs)
    → All (λ h. f ≢ h) fs
    → IsFrame k.kernel_end f
    → k.refs f ≡ 1
    → (k' : Machine) × (copyonwrite (page_va t1) v k ≡ ok 1 k')
      × IsFreeList k' (f ∷ fs)
      × Maps k'.mem (pgrounddown v) t1 t2 t3 t4 f
unfolding copyonwrite
copyonwrite_unmarked k v t1 t2 t3 t4 f fs p plain list apart new frame one =
    let va : ℕ = pgrounddown v in
    let (k', run, r) = krelease-Released k f fs list frame new (omega arith) (omega arith) in
    let entry : k'.mem (pte_word t4 va) ≡ k.mem (pte_word t4 va) =
      r.same _ (inr (λ e. apart.pt.0 (omega arith))) in
    (
      k',
      rw (uva2ka-Maps k va t1 t2 t3 t4 f p) (
          rw (page_va_ne_zero f) (
            rw (walkpgdir-Walk k va t1 t2 t3 t4 p.walk false)
              (rw (load64-pte k va t1 t2 t3 t4 p.walk) (rw plain (rw run))))),
      rw one at r.list,
      record {
        walk =
            Walk-same k.mem k'.mem va t1 t2 t3 t4 (r.same _ (inr (λ e. apart.pml4.0 (omega arith))))
              (r.same _ (inr (λ e. apart.pdp.0 (omega arith))))
              (r.same _ (inr (λ e. apart.pd.0 (omega arith)))) p.walk;
        leads = rw entry p.leads;
        user = rw entry p.user;
      },
    )

-- An entry that is not present or not open to the user: copyonwrite does nothing and returns 1.
copyonwrite_unmapped :
    (k : Machine) (v t1 t2 t3 t4 : ℕ)
    → Walk k.mem (pgrounddown v) t1 t2 t3 t4
    → (has (k.mem (pte_word t4 (pgrounddown v))) pte_p ≡ false)
      ⊎ (has (k.mem (pte_word t4 (pgrounddown v))) pte_u ≡ false)
    → copyonwrite (page_va t1) v k ≡ ok 1 k
unfolding copyonwrite uva2ka
copyonwrite_unmapped k v t1 t2 t3 t4 w (inl h) =
    rw (walkpgdir-Walk k (pgrounddown v) t1 t2 t3 t4 w false)
      (rw (load64-pte k (pgrounddown v) t1 t2 t3 t4 w) (rw h))
copyonwrite_unmapped k v t1 t2 t3 t4 w (inr h) =
    rw (walkpgdir-Walk k (pgrounddown v) t1 t2 t3 t4 w false) (
      rw (load64-pte k (pgrounddown v) t1 t2 t3 t4 w)
        (elim (Bool-cases (has (k.mem (pte_word t4 (pgrounddown v))) pte_p)) [
          | inl q ↦ rw q (rw h)
          | inr q ↦ rw q
        ]))
