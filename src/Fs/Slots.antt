-- ===== src/Fs/Slots.antt =====
-- The blocks an inode holds, one a slot: the data blocks 0 .. maxfile - 1 and, in slot maxfile, the
-- block of indirect addresses. 0 stands for none.
use cs461_hw.Base.{
  ℕ, ◌-◌, ◌^◌, ◌≡◌, ◌≢◌, ◌≤◌, ◌<◌, inl, inr, sym, ◌∙◌, true, false, ◌==◌, ltb, if◌then◌else◌,
  Bool-cases, if_refl, if_true, if_false, ==_iff, ==_of_ne, ne_of_==,
}
use cs461_hw.Fs.{ndirect, maxfile, Dinode, Fs, word}
use cs461_hw.Fs.Balloc.{used}

-- The address in word `k` of the indirect block `a`.
abbrev pub entry : Fs → (a k : ℕ) → ℕ
entry fs a k = if a == 0 then 0 else word (fs.bytes a) k

abbrev pub slot : Dinode → Fs → ℕ → ℕ
slot ip fs i =
    if ltb i ndirect
    then ip.addrs i
    else if i == maxfile
    then ip.addrs ndirect
    else entry fs (ip.addrs ndirect) (i - ndirect)

-- The blocks of a file are in use, inside the disk and all different; block 0 is in use, so that it
-- can stand for none.
pub record IsFile (ip : Dinode) (fs : Fs) : Type 0 where
  pub small : fs.sb.size ≤ 2 ^ 32
  pub boot : used fs 0 ≡ true
  pub held : (i : ℕ) → i ≤ maxfile → slot ip fs i ≢ 0 → used fs (slot ip fs i) ≡ true
  pub inside : (i : ℕ) → i ≤ maxfile → slot ip fs i ≢ 0 → slot ip fs i < fs.sb.size
  pub apart :
      (i j : ℕ) → i ≤ maxfile → j ≤ maxfile → slot ip fs i ≢ 0 → slot ip fs i ≡ slot ip fs j → i ≡ j

-- A free block `b` came into slot `s`, zeroed; other slots and the content of other blocks stay,
-- but for the indirect block.
pub record Grown (ip : Dinode) (fs : Fs) (s b : ℕ) (ip' : Dinode) (fs' : Fs) : Type 0 where
  pub free : used fs b ≡ false
  pub bounded : b < fs.sb.size
  pub sb : fs'.sb ≡ fs.sb
  pub bitmap : (c : ℕ) → used fs' c ≡ (if c == b then true else used fs c)
  pub slots : (i : ℕ) → i ≤ maxfile → slot ip' fs' i ≡ (if i == s then b else slot ip fs i)
  pub zeroed : (j : ℕ) → fs'.bytes b j ≡ 0
  pub frame : (c : ℕ) → c ≢ b → c ≢ ip.addrs ndirect → fs'.bytes c ≡ fs.bytes c

module _ (ip : Dinode) (fs : Fs) (s b : ℕ) (ip' : Dinode) (fs' : Fs) (g : Grown ip fs s b ip' fs')
    (f : IsFile ip fs) where
  -- The fresh block is in no slot of the file.
  fresh : (i : ℕ) → i ≤ maxfile → slot ip fs i ≢ b
  fresh i l e = elim (Bool-cases (slot ip fs i == 0)) [
    | inl q ↦
        let zero_slot : slot ip fs i ≡ 0 = (==_iff (slot ip fs i) 0).0 q in
        absurd (cc (f.boot, g.free, e, zero_slot))
    | inr q ↦ let held = f.held i l (ne_of_== (slot ip fs i) 0 q) in absurd (cc (held, g.free, e))
  ]

  still_used : (c : ℕ) → used fs c ≡ true → used fs' c ≡ true
  still_used c h = g.bitmap c ∙ (elim (Bool-cases (c == b)) [
    | inl q ↦ if_true true (used fs c) (c == b) q
    | inr q ↦ if_false true (used fs c) (c == b) q ∙ h
  ])

  slot_new : s ≤ maxfile → slot ip' fs' s ≡ b
  slot_new l = g.slots s l ∙ if_refl b (slot ip fs s) s

  slot_old : (i : ℕ) → i ≤ maxfile → i ≢ s → slot ip' fs' i ≡ slot ip fs i
  slot_old i l ne = g.slots i l ∙ if_false b (slot ip fs i) (i == s) (==_of_ne i s ne)

  -- A file that has grown by a block is a file.
  pub IsFile-Grown : IsFile ip' fs'
  IsFile-Grown = record {
    small = rw g.sb f.small;
    boot = still_used 0 f.boot;
    held = λ i l ne. elim (Bool-cases (i == s)) [
      | inl q ↦
          let new : slot ip' fs' i ≡ b = g.slots i l ∙ if_true b (slot ip fs i) (i == s) q in
          rw new (g.bitmap b ∙ if_refl true (used fs b) b)
      | inr q ↦
          let old : slot ip' fs' i ≡ slot ip fs i = slot_old i l (ne_of_== i s q) in
          rw old (still_used (slot ip fs i) (f.held i l (λ z. ne (old ∙ z))))
    ];
    inside = λ i l ne. elim (Bool-cases (i == s)) [
      | inl q ↦
          let new : slot ip' fs' i ≡ b = g.slots i l ∙ if_true b (slot ip fs i) (i == s) q in
          rw (new, g.sb) g.bounded
      | inr q ↦
          let old : slot ip' fs' i ≡ slot ip fs i = slot_old i l (ne_of_== i s q) in
          rw (old, g.sb) (f.inside i l (λ z. ne (old ∙ z)))
    ];
    apart = λ i j l m ne e. elim (Bool-cases (i == s)) [
      | inl q ↦
          let new : slot ip' fs' i ≡ b = g.slots i l ∙ if_true b (slot ip fs i) (i == s) q in
          elim (Bool-cases (j == s)) [
            | inl r ↦ (==_iff i s).0 q ∙ sym ((==_iff j s).0 r)
            | inr r ↦ absurd (fresh j m (sym (slot_old j m (ne_of_== j s r)) ∙ sym e ∙ new))
          ]
      | inr q ↦
          let old : slot ip' fs' i ≡ slot ip fs i = slot_old i l (ne_of_== i s q) in
          elim (Bool-cases (j == s)) [
            | inl r ↦
                let new : slot ip' fs' j ≡ b = g.slots j m ∙ if_true b (slot ip fs j) (j == s) r in
                absurd (fresh i l (sym old ∙ e ∙ new))
            | inr r ↦
                let other : slot ip' fs' j ≡ slot ip fs j = slot_old j m (ne_of_== j s r) in
                f.apart i j l m (λ z. ne (old ∙ z)) (sym old ∙ e ∙ other)
          ]
    ];
  }
