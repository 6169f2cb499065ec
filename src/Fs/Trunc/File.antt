-- ===== src/Fs/Trunc/File.antt =====
-- itrunc gives the blocks of a file back.
use cs461_hw.Base.{
  ℕ, ◌+◌, ◌-◌, ◌%◌, ◌≡◌, ◌≢◌, ◌≤◌, ◌<◌, inl, inr, refl, sym, ap, ◌∙◌, false, ◌==◌, ltb,
  if◌then◌else◌, if_true, if_false, arith, Bool-cases, ==_iff, ==_refl, ==_of_ne, ne_of_==, lt→ltb,
}
use native.Mathlib.Decide.{dec_lt}
use cs461_hw.Fs.{
  ndirect, nindirect, maxfile, ipb, iblock, Dinode, Fs, Out, ok, set_addr, word, bfree,
}
use cs461_hw.Fs.Balloc.{used}
use cs461_hw.Fs.Slots.{slot, IsFile}
use cs461_hw.Fs.Map.{slot_entry, slot_none}
use cs461_hw.Fs.Content.{iupdate}
use cs461_hw.Fs.Trunc.{free_block, free_direct, free_entries, free_indirect, itrunc}
use cs461_hw.Fs.Trunc.Range.{
  Live, Cleared, Live-rest, Cleared-then, free_block-Cleared, free_range-Cleared,
  free_entries_range, Zeroed, free_direct_range,
}

-- Every block of the file is free, every other block is as it was, and no content changed. The inode
-- has no blocks and size 0, on the disk as in memory.
pub record Truncated (inum : ℕ) (ip : Dinode) (fs : Fs) (ip' : Dinode) (fs' : Fs) : Type 0 where
  pub addrs : (j : ℕ) → j ≤ ndirect → ip'.addrs j ≡ 0
  pub size : ip'.size ≡ 0
  pub type : ip'.type ≡ ip.type
  pub stored : fs'.dinodes (iblock inum fs'.sb) (inum % ipb) ≡ ip'
  pub bytes : fs'.bytes ≡ fs.bytes
  pub free : (i : ℕ) → i ≤ maxfile → slot ip fs i ≢ 0 → used fs' (slot ip fs i) ≡ false
  pub others :
      (c : ℕ)
      → ((i : ℕ) → i ≤ maxfile → slot ip fs i ≢ 0 → slot ip fs i ≢ c)
      → used fs' c ≡ used fs c

Live-file : (ip : Dinode) (fs : Fs) → IsFile ip fs → Live fs (slot ip fs) 0 (12 + (128 + 1))
Live-file ip fs f = record {
  held = λ j l h ne. f.held j (omega arith) ne;
  apart = λ j k l h l' h' ne e. f.apart j k (omega arith) (omega arith) ne e;
}

slot_direct : (ip : Dinode) (fs : Fs) (j : ℕ) → j < 12 → ip.addrs j ≡ slot ip fs j
slot_direct ip fs j l = sym (
    if_true (ip.addrs j)
      (if j == maxfile
        then ip.addrs ndirect
        else (if ip.addrs ndirect == 0
            then 0
            else word (fs.bytes (ip.addrs ndirect)) (j - ndirect)))
      (ltb j 12) (lt→ltb j 12 l))

-- The part after the direct blocks, for a file without an indirect block and for one with it.
free_none : (ip : Dinode) (fs : Fs) → ip.addrs ndirect ≡ 0 → free_indirect ip fs ≡ ok (ip, fs)
unfolding free_indirect
free_none ip fs e = rw e refl

free_some :
    (ip : Dinode) (fs fs' fs'' : Fs)
    → ip.addrs ndirect ≢ 0
    → free_entries nindirect 0 (fs.bytes (ip.addrs ndirect)) fs ≡ ok fs'
    → bfree fs' (ip.addrs ndirect) ≡ ok fs''
    → free_indirect ip fs ≡ ok (set_addr ip ndirect 0, fs'')
unfolding free_indirect
free_some ip fs fs' fs'' ne e e' = rw (==_of_ne (ip.addrs ndirect) 0 ne, e, e') refl

bfree_of_block : (fs : Fs) (addr : ℕ) → addr ≢ 0 → free_block fs addr ≡ bfree fs addr
unfolding free_block
bfree_of_block fs addr ne = rw (==_of_ne addr 0 ne) refl

-- How the two parts end.
itrunc_parts :
    (inum : ℕ) (ip ip' ip'' : Dinode) (fs fs' fs'' : Fs)
    → free_direct ndirect 0 ip fs ≡ ok (ip', fs')
    → free_indirect ip' fs' ≡ ok (ip'', fs'')
    → itrunc inum ip fs
      ≡ ok (record ip'' { size = 0 }, iupdate inum (record ip'' { size = 0 }) fs'')
unfolding itrunc
itrunc_parts inum ip ip' ip'' fs fs' fs'' e e' = rw (e, e') refl

abbrev pub Done : (inum : ℕ) → Dinode → Fs → Out (Dinode × Fs) → Type 0
Done inum ip fs r =
    (ip' : Dinode) × ((fs' : Fs) × ((r ≡ ok (ip', fs')) × Truncated inum ip fs ip' fs'))

iupdate_stored :
    (inum : ℕ) (ip : Dinode) (fs : Fs)
    → (iupdate inum ip fs).dinodes (iblock inum fs.sb) (inum % ipb) ≡ ip
unfolding iupdate
iupdate_stored inum ip fs = rw (==_refl (iblock inum fs.sb), ==_refl (inum % ipb)) refl

Done-of :
    (inum : ℕ) (ip : Dinode) (fs : Fs) (ip'' : Dinode) (fs'' : Fs)
    → itrunc inum ip fs
      ≡ ok (record ip'' { size = 0 }, iupdate inum (record ip'' { size = 0 }) fs'')
    → ((j : ℕ) → j ≤ ndirect → ip''.addrs j ≡ 0)
    → ip''.type ≡ ip.type
    → Cleared fs (slot ip fs) 0 (12 + (128 + 1)) fs''
    → Done inum ip fs (itrunc inum ip fs)
unfolding iupdate
Done-of inum ip fs ip'' fs'' e a t c = (
  record ip'' { size = 0 },
  (
    iupdate inum (record ip'' { size = 0 }) fs'',
    (
      e,
      record {
        addrs = a;
        size = refl;
        type = t;
        stored = iupdate_stored inum (record ip'' { size = 0 }) fs'';
        bytes = c.bytes;
        free = λ i l. c.free i (omega arith) (omega arith);
        others = λ x out. c.others x (λ j l h. out j (omega arith));
      },
    ),
  ),
)

slot_past :
    (ip : Dinode) (fs : Fs) (j : ℕ) → 12 ≤ j → j ≤ maxfile → ip.addrs ndirect ≡ 0 → slot ip fs j ≡ 0
slot_past ip fs j l h e = elim (Bool-cases (j == 140)) [
  | inl q ↦ ap (slot ip fs) ((==_iff j 140).0 q) ∙ e
  | inr q ↦
      let index : j ≡ 12 + (j - 12) = omega arith in
      ap (slot ip fs) index ∙ slot_none ip fs (j - 12) (omega (arith, ne_of_== j 140 q)) e
]

-- Without an indirect block the direct ones are all.
without_top :
    (inum : ℕ) (ip ip1 : Dinode) (fs fs1 : Fs)
    → ip.addrs ndirect ≡ 0
    → free_direct ndirect 0 ip fs ≡ ok (ip1, fs1)
    → Zeroed ip 0 12 ip1
    → Cleared fs (slot ip fs) 0 12 fs1
    → Done inum ip fs (itrunc inum ip fs)
without_top inum ip ip1 fs fs1 e run z c =
    let top : ip1.addrs ndirect ≡ 0 = z.away 12 (omega arith) ∙ e in
    Done-of inum ip fs ip1 fs1 (itrunc_parts inum ip ip1 ip1 fs fs1 fs1 run (free_none ip1 fs1 top))
      (λ j l. elim (dec_lt j 12) [
        | yes low ↦ z.here j (omega arith) low
        | no high ↦ let last : j ≡ 12 = omega arith in ap (λ k. ip1.addrs k) last ∙ top
      ])
      z.type
      (record {
        sb = c.sb;
        bytes = c.bytes;
        free = λ j l h ne. elim (dec_lt j 12) [
          | yes low ↦ c.free j l low ne
          | no high ↦ absurd (ne (slot_past ip fs j (omega arith) (omega arith) e))
        ];
        others = λ x out. c.others x (λ j l h. out j l (omega arith));
      })

-- With one, its words are the blocks 12 .. 139, and the block itself the last.
with_top :
    (inum : ℕ) (ip ip1 : Dinode) (fs fs1 : Fs)
    → ip.addrs ndirect ≢ 0
    → Live fs (slot ip fs) 0 (12 + (128 + 1))
    → free_direct ndirect 0 ip fs ≡ ok (ip1, fs1)
    → Zeroed ip 0 12 ip1
    → Cleared fs (slot ip fs) 0 12 fs1
    → Done inum ip fs (itrunc inum ip fs)
with_top inum ip ip1 fs fs1 ne live run z c1 =
    let s : ℕ → ℕ = slot ip fs in
    let top : ip1.addrs ndirect ≡ ip.addrs ndirect = z.away 12 (omega arith) in
    let live1 : Live fs1 s 12 (128 + 1) = Live-rest fs fs1 s 0 12 (128 + 1) live c1 in
    let (fs2, (run2, c2)) = free_range-Cleared 128 12 s fs1 (record {
      held = λ j l h. live1.held j l (omega arith);
      apart = λ j k l h l' h'. live1.apart j k l (omega arith) l' (omega arith);
    }) in
    let live2 : Live fs2 s 140 1 = Live-rest fs1 fs2 s 12 128 1 live1 c2 in
    let (fs3, (run3, c3)) =
      free_block-Cleared fs2 s 140 (live2.held 140 (omega arith) (omega arith)) in
    let entries : free_entries nindirect 0 (fs1.bytes (ip1.addrs ndirect)) fs1 ≡ ok fs2 =
      free_entries_range 128 0 12 (fs1.bytes (ip1.addrs ndirect)) s fs1 (λ i l.
        let index : 0 + i ≡ i = omega arith in
        ap (λ b. word (b (ip1.addrs ndirect)) (0 + i)) c1.bytes
        ∙ ap (λ t. word (fs.bytes t) (0 + i)) top
        ∙ ap (word (fs.bytes (ip.addrs ndirect))) index
        ∙ sym (slot_entry ip fs i l ne))
      ∙ run2 in
    let last : bfree fs2 (ip1.addrs ndirect) ≡ ok fs3 =
      ap (bfree fs2) top ∙ sym (bfree_of_block fs2 (ip.addrs ndirect) ne) ∙ run3 in
    let end = free_some ip1 fs1 fs2 fs3 (λ q. ne (sym top ∙ q)) entries last in
    Done-of inum ip fs (set_addr ip1 ndirect 0) fs3
      (itrunc_parts inum ip ip1 (set_addr ip1 ndirect 0) fs fs1 fs3 run end)
      (λ j l. elim (Bool-cases (j == 12)) [
        | inl q ↦ if_true 0 (ip1.addrs j) (j == 12) q
        | inr q ↦
            if_false 0 (ip1.addrs j) (j == 12) q
            ∙ z.here j (omega arith) (omega (arith, ne_of_== j 12 q))
      ])
      z.type
      (Cleared-then fs fs1 s 0 12 (128 + 1) live c1 fs3
        (Cleared-then fs1 fs2 s 12 128 1 live1 c2 fs3 c3))

-- itrunc of a file returns, frees exactly its blocks, and leaves it empty.
pub itrunc-Truncated :
    (inum : ℕ) (ip : Dinode) (fs : Fs) → IsFile ip fs → Done inum ip fs (itrunc inum ip fs)
itrunc-Truncated inum ip fs f =
    let s : ℕ → ℕ = slot ip fs in
    let live : Live fs s 0 (12 + (128 + 1)) = Live-file ip fs f in
    let first : Live fs s 0 12 = record {
      held = λ j l h. live.held j l (omega arith);
      apart = λ j k l h l' h'. live.apart j k l (omega arith) l' (omega arith);
    } in
    let (fs1, (run1, c1)) = free_range-Cleared 12 0 s fs first in
    let (ip1, (run, z)) =
      free_direct_range 12 0 ip s fs fs1 (λ j l h. slot_direct ip fs j h) run1 in
    elim (Bool-cases (ip.addrs ndirect == 0)) [
      | inl q ↦ without_top inum ip ip1 fs fs1 ((==_iff (ip.addrs ndirect) 0).0 q) run z c1
      | inr q ↦ with_top inum ip ip1 fs fs1 (ne_of_== (ip.addrs ndirect) 0 q) live run z c1
    ]
