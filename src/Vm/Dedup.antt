-- ===== src/Vm/Dedup.antt =====
-- dedup's loop body: when it merges a page with the one before it, and that the process reads the
-- same words afterwards.
use cs461_hw.Base.{
  ℕ, ◌+◌, ◌-◌, ◌*◌, ◌≤◌, ◌<◌, ◌≡◌, ◌↔◌, ◌⊎◌, inl, inr, refl, sym, ◌∙◌, Bool, true, false, ◌&&◌,
  List, ◌==◌, if◌then◌else◌, Bool-cases, ==_refl, ==_of_ne, lt→ltb, ltb_of_ge,
}
use mathlib.Core.Bool.{false≢true}
use cs461_hw.Machine.{pgsize, page_words, Machine, ok}
use cs461_hw.Machine.Words.{write, SameFrame, same_words}
use cs461_hw.Kalloc.Pages.{page_va, v2p-page_va, page_va_ne_zero}
use cs461_hw.Kalloc.Same.{
  frame_sum, summed, update_checksum-ok, frames_are_identical-ok, identical_iff,
}
use cs461_hw.Vm.{merge, dedup_page}
use cs461_hw.Vm.Tables.{Maps, pte_va, walkpgdir-Walk, uva2ka-Maps}
use cs461_hw.Vm.Merge.{CanMerge, Merged, merge-Merged, Merged-reads}

-- dedup on the first or the second page of its range only refreshes the checksum: the test is
-- `addr > addr2`, and addr2 is the second page.
dedup_page_start :
    (k : Machine) (t1 t2 t3 t4 f addr addr2 : ℕ)
    → Maps k.mem addr t1 t2 t3 t4 f
    → addr ≤ addr2
    → dedup_page (page_va t1) addr2 addr k ≡ ok tt (summed k f)
unfolding dedup_page
dedup_page_start k t1 t2 t3 t4 f addr addr2 p h = rw (uva2ka-Maps k addr t1 t2 t3 t4 f p) (
    rw (page_va_ne_zero f, v2p-page_va f p.leads.ram)
      (rw (update_checksum-ok k f p.leads.ram) (rw (ltb_of_ge addr2 addr h))))

module _ (k : Machine) (addr addr2 t1 t2 t3 t4 s2 s3 s4 f g : ℕ) (fs : List ℕ)
    (c : CanMerge k (addr - pgsize) addr t1 t2 t3 t4 s2 s3 s4 f g fs) (after : addr2 < addr)
    (fresh : k.checksum f ≡ frame_sum k.mem f) where
  summed-CanMerge : CanMerge (summed k g) (addr - pgsize) addr t1 t2 t3 t4 s2 s3 s4 f g fs
  summed-CanMerge = record {
    first = c.first;
    second = c.second;
    list = record {
      chain = c.list.chain;
      frames = c.list.frames;
      distinct = c.list.distinct;
      unlocked = c.list.unlocked;
    };
    apart = c.apart;
    apart' = c.apart';
    levels = c.levels;
    two = c.two;
    frames = c.frames;
    used = c.used;
    used' = c.used';
    frame = c.frame;
    counted = c.counted;
    room = c.room;
  }

  -- The answer of frames_are_identical in the loop.
  abbrev same : Bool
  same =
      (write k.checksum g (frame_sum k.mem g) f == write k.checksum g (frame_sum k.mem g) g)
      && same_words k.mem (f * 512) (g * 512) page_words

  dedup_page_run : dedup_page (page_va t1) addr2 addr k ≡ (
      if same
      then merge (pte_va t4 (addr - pgsize)) (pte_va s4 addr) (page_va g) (page_va f) (summed k g)
      else ok tt (summed k g))
  unfolding dedup_page
  dedup_page_run = rw (uva2ka-Maps k addr t1 s2 s3 s4 g c.second) (
      rw (page_va_ne_zero g, v2p-page_va g c.second.leads.ram)
        (rw (update_checksum-ok k g c.second.leads.ram) (
          rw (lt→ltb addr2 addr after) (
            rw (uva2ka-Maps (summed k g) (addr - pgsize) t1 t2 t3 t4 f c.first) (
              rw (page_va_ne_zero f, v2p-page_va f c.first.leads.ram)
                (rw (frames_are_identical-ok (summed k g) f g c.first.leads.ram c.second.leads.ram)
                  (elim (Bool-cases same) [
                    | inl e ↦ rw e (
                        rw
                          (walkpgdir-Walk (summed k g) (addr - pgsize) t1 t2 t3 t4 c.first.walk
                            false)
                          (rw (walkpgdir-Walk (summed k g) addr t1 s2 s3 s4 c.second.walk false)))
                    | inr e ↦ rw e
                  ])))))))

  same_iff : (same ≡ true) ↔ SameFrame k.mem f g
  same_iff =
      identical_iff (summed k g) f g (rw (==_of_ne g f (λ e. c.frames (sym e))) fresh)
        (rw (==_refl g))

-- The loop body of dedup at a page behind the second of its range, where that page and the one before
-- it lie in different frames that can be merged, and the checksum of the first is fresh. If the frames
-- hold the same words, it ends with the pages sharing the first one's frame, and both read as before.
-- Frames that differ are left as they were; only the checksum of the second is refreshed.
pub dedup_page_lem :
    (k : Machine) (addr addr2 t1 t2 t3 t4 s2 s3 s4 f g : ℕ) (fs : List ℕ)
    → CanMerge k (addr - pgsize) addr t1 t2 t3 t4 s2 s3 s4 f g fs
    → addr2 < addr
    → k.checksum f ≡ frame_sum k.mem f
    → (k' : Machine) × (dedup_page (page_va t1) addr2 addr k ≡ ok tt k')
      × ((SameFrame k.mem f g
            × Merged (summed k g) k' (addr - pgsize) addr t1 t2 t3 t4 s2 s3 s4 f g fs
            × ((i : ℕ)
                → i < 512
                → (k'.mem (f * 512 + i) ≡ k.mem (f * 512 + i))
                  × (k'.mem (f * 512 + i) ≡ k.mem (g * 512 + i))))
          ⊎ (¬ SameFrame k.mem f g × (k' ≡ summed k g)))
dedup_page_lem k addr addr2 t1 t2 t3 t4 s2 s3 s4 f g fs c after fresh =
    let run = dedup_page_run k addr addr2 t1 t2 t3 t4 s2 s3 s4 f g fs c after fresh in
    let iff = same_iff k addr addr2 t1 t2 t3 t4 s2 s3 s4 f g fs c after fresh in
    let c' = summed-CanMerge k addr addr2 t1 t2 t3 t4 s2 s3 s4 f g fs c after fresh in
    elim (Bool-cases (same k addr addr2 t1 t2 t3 t4 s2 s3 s4 f g fs c after fresh)) [
      | inl e ↦
          let (k', merged, m) =
            merge-Merged (summed k g) (addr - pgsize) addr t1 t2 t3 t4 s2 s3 s4 f g fs c' in
          (
            k',
            run ∙ rw e merged,
            inl (
              iff.0 e,
              m,
              Merged-reads (summed k g) k' (addr - pgsize) addr t1 t2 t3 t4 s2 s3 s4 f g fs c' m
                  (iff.0 e),
            ),
          )
      | inr e ↦ (summed k g, run ∙ rw e refl, inr (λ s. false≢true (sym e ∙ iff.1 s), refl))
    ]
