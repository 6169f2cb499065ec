-- ===== src/Vm/Tests.antt =====
-- Page tables of one process, and the theorems of vm.c at them.
use cs461_hw.Base.{
  ℕ, ◌+◌, ◌*◌, ◌<◌, ◌≡◌, ◌⊎◌, inl, inr, refl, true, false, [], ◌∷◌, arith, ◌==◌, if◌then◌else◌,
}
use cs461_hw.Machine.{Machine, ok}
use cs461_hw.Kalloc.Pages.{page_va}
use cs461_hw.Kalloc.FreeList.{IsFreeList}
use cs461_hw.Machine.Words.{SameFrame, sum_words}
use cs461_hw.Kalloc.Same.{frame_sum, summed}
use cs461_hw.Vm.Merge.{CanMerge, Merged, merge-Merged}
use cs461_hw.Vm.Dedup.{dedup_page_lem}
use cs461_hw.Vm.{copyonwrite, merge, dedup_page}
use cs461_hw.Vm.Tables.{Walk, Maps, pte_va}
use cs461_hw.Vm.Cow.{TablesApart, CanCopy, Copied, copyonwrite-Copied, copyonwrite_unmarked}

-- The tables are frames 20 to 23. Page 5 is in frame 30, with the flags given; pages 6 and 7 are in
-- frames 31 and 32, and hold the same words. Frames 40 and 41 are free.
abbrev process : ℕ → Machine
process flags = record {
  mem = λ i.
      if i == 20 * 512
      then 21 * 4096 + 7
      else if i == 21 * 512
      then 22 * 4096 + 7
      else if i == 22 * 512
      then 23 * 4096 + 7
      else if i == 23 * 512 + 5
      then 30 * 4096 + flags
      else if i == 23 * 512 + 6
      then 31 * 4096 + 7
      else if i == 23 * 512 + 7
      then 32 * 4096 + 7
      else if i == 40 * 512
      then page_va 41
      else 0;
  refs = λ f. if f == 40 then 0 else if f == 41 then 0 else 1;
  checksum = λ _. 0;
  freelist = page_va 40;
  use_lock = true;
  lock_held = false;
  kernel_end = page_va 16;
}

process-IsFreeList : (flags : ℕ) → IsFreeList (process flags) (40 ∷ 41 ∷ [])
process-IsFreeList flags = record {
  chain = (refl, (refl, refl));
  frames = ((omega arith, omega arith), ((omega arith, omega arith), tt));
  distinct = ((omega arith, tt), (tt, tt));
  unlocked = refl;
}

page-Walk : (flags : ℕ) → Walk (process flags).mem 0x5000 20 21 22 23
page-Walk flags = record {
  ram = omega arith;
  to_pdp = record { present = refl; frame = refl; ram = omega arith };
  to_pd = record { present = refl; frame = refl; ram = omega arith };
  to_pt = record { present = refl; frame = refl; ram = omega arith };
}

abbrev cow_flags : ℕ
cow_flags = 0x205

page-Maps : Maps (process cow_flags).mem 0x5000 20 21 22 23 30
page-Maps = record {
  walk = page-Walk cow_flags;
  leads = record { present = refl; frame = refl; ram = omega arith };
  user = refl;
}

tables-apart : TablesApart 20 21 22 23 (30 ∷ 40 ∷ 41 ∷ [])
tables-apart = record {
  pml4 = (omega arith, (omega arith, (omega arith, tt)));
  pdp = (omega arith, (omega arith, (omega arith, tt)));
  pd = (omega arith, (omega arith, (omega arith, tt)));
  pt = (omega arith, (omega arith, (omega arith, tt)));
  pt_pml4 = omega arith;
  pt_pdp = omega arith;
  pt_pd = omega arith;
}

can_copy : CanCopy (process cow_flags) 0x5000 20 21 22 23 30 40 (41 ∷ [])
can_copy = record {
  maps = page-Maps;
  cow = refl;
  list = process-IsFreeList cow_flags;
  apart = tables-apart;
  used = (omega arith, (omega arith, tt));
  frame = (omega arith, omega arith);
  counted = omega arith;
  bounded = omega arith;
}

copyonwrite-Copied_example :
    (k' : Machine) × (copyonwrite (page_va 20) 0x5123 (process cow_flags) ≡ ok 1 k')
    × Copied (process cow_flags) k' 0x5000 20 21 22 23 30 40 (41 ∷ [])
copyonwrite-Copied_example =
    copyonwrite-Copied (process cow_flags) 0x5123 20 21 22 23 30 40 (41 ∷ []) can_copy

-- Present and open to the user, not writable and not marked.
abbrev plain_flags : ℕ
plain_flags = 0x005

copyonwrite_unmarked_example :
    (k' : Machine) × (copyonwrite (page_va 20) 0x5123 (process plain_flags) ≡ ok 1 k')
    × IsFreeList k' (30 ∷ 40 ∷ 41 ∷ [])
    × Maps k'.mem 0x5000 20 21 22 23 30
copyonwrite_unmarked_example =
    copyonwrite_unmarked (process plain_flags) 0x5123 20 21 22 23 30 (40 ∷ 41 ∷ [])
      (record {
        walk = page-Walk plain_flags;
        leads = record { present = refl; frame = refl; ram = omega arith };
        user = refl;
      })
      refl (process-IsFreeList plain_flags) tables-apart (omega arith, (omega arith, tt))
      (omega arith, omega arith) refl

tables-apart' : TablesApart 20 21 22 23 (31 ∷ 32 ∷ 40 ∷ 41 ∷ [])
tables-apart' = record {
  pml4 = (omega arith, (omega arith, (omega arith, (omega arith, tt))));
  pdp = (omega arith, (omega arith, (omega arith, (omega arith, tt))));
  pd = (omega arith, (omega arith, (omega arith, (omega arith, tt))));
  pt = (omega arith, (omega arith, (omega arith, (omega arith, tt))));
  pt_pml4 = omega arith;
  pt_pdp = omega arith;
  pt_pd = omega arith;
}

at-Walk : (va : ℕ) → (va ≡ 0x6000) ⊎ (va ≡ 0x7000) → Walk (process 7).mem va 20 21 22 23
at-Walk va (inl e) = rw e (record {
  ram = omega arith;
  to_pdp = record { present = refl; frame = refl; ram = omega arith };
  to_pd = record { present = refl; frame = refl; ram = omega arith };
  to_pt = record { present = refl; frame = refl; ram = omega arith };
})
at-Walk va (inr e) = rw e (record {
  ram = omega arith;
  to_pdp = record { present = refl; frame = refl; ram = omega arith };
  to_pd = record { present = refl; frame = refl; ram = omega arith };
  to_pt = record { present = refl; frame = refl; ram = omega arith };
})

can_merge : CanMerge (process 7) 0x6000 0x7000 20 21 22 23 21 22 23 31 32 (40 ∷ 41 ∷ [])
can_merge = record {
  first = record {
    walk = at-Walk 0x6000 (inl refl);
    leads = record { present = refl; frame = refl; ram = omega arith };
    user = refl;
  };
  second = record {
    walk = at-Walk 0x7000 (inr refl);
    leads = record { present = refl; frame = refl; ram = omega arith };
    user = refl;
  };
  list = process-IsFreeList 7;
  apart = tables-apart';
  apart' = tables-apart';
  levels = (omega arith, omega arith, omega arith, omega arith);
  two = omega arith;
  frames = omega arith;
  used = (omega arith, (omega arith, tt));
  used' = (omega arith, (omega arith, tt));
  frame = (omega arith, omega arith);
  counted = (omega arith, omega arith);
  room = omega arith;
}

merge-Merged_example :
    (k' : Machine) × (merge
        (pte_va 23 0x6000)
        (pte_va 23 0x7000)
        (page_va 32)
        (page_va 31)
        (process 7)
      ≡ ok tt k')
    × Merged (process 7) k' 0x6000 0x7000 20 21 22 23 21 22 23 31 32 (40 ∷ 41 ∷ [])
merge-Merged_example =
    merge-Merged (process 7) 0x6000 0x7000 20 21 22 23 21 22 23 31 32 (40 ∷ 41 ∷ []) can_merge

zero_sum : (process 7).checksum 31 ≡ frame_sum (process 7).mem 31
unfolding sum_words
zero_sum = refl

dedup_page_lem_example :
    (k' : Machine) × (dedup_page (page_va 20) 0x2000 0x7000 (process 7) ≡ ok tt k')
    × ((SameFrame (process 7).mem 31 32
          × Merged
              (summed (process 7) 32)
              k'
              0x6000
              0x7000
              20
              21
              22
              23
              21
              22
              23
              31
              32
              (40 ∷ 41 ∷ [])
          × ((i : ℕ)
              → i < 512
              → (k'.mem (31 * 512 + i) ≡ (process 7).mem (31 * 512 + i))
                × (k'.mem (31 * 512 + i) ≡ (process 7).mem (32 * 512 + i))))
        ⊎ (¬ SameFrame (process 7).mem 31 32 × (k' ≡ summed (process 7) 32)))
dedup_page_lem_example =
    dedup_page_lem (process 7) 0x7000 0x2000 20 21 22 23 21 22 23 31 32 (40 ∷ 41 ∷ []) can_merge
      (omega arith) zero_sum
