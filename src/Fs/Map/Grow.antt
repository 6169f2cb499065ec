-- ===== src/Fs/Map/Grow.antt =====
-- The three places where bmap puts the address of a fresh block.
use cs461_hw.Base.{
  ℕ, ◌+◌, ◌-◌, ◌≡◌, ◌≢◌, ◌≤◌, ◌<◌, inl, inr, refl, sym, ap, ◌∙◌, true, false, ◌==◌, ltb,
  if◌then◌else◌, arith, Bool-cases, if_refl, if_true, if_false, ==_iff, ==_of_ne, ne_of_==, ltb→lt,
  ltb→ge,
}
use cs461_hw.Fs.{
  ndirect, nindirect, maxfile, Dinode, Fs, log_write, set_bytes, set_addr, set_word, word,
}
use cs461_hw.Fs.Words.{word-set_word, word-set_word_away, word_zero}
use cs461_hw.Fs.Balloc.{used, allocated}
use cs461_hw.Fs.Bitmap.{used-allocated, bytes-allocated, sb-allocated}
use cs461_hw.Fs.Slots.{entry, IsFile, Grown}

-- A slot past the direct ones, by its word in the indirect block.
same_word : (j k : ℕ) → 12 ≤ j → (j == 12 + k) ≡ (j - 12 == k)
same_word j k h = elim (Bool-cases (j - 12 == k)) [
  | inl e ↦
      let index : j - 12 ≡ k = (==_iff (j - 12) k).0 e in
      let here : j ≡ 12 + k = omega (arith, index) in (==_iff j (12 + k)).1 here ∙ sym e
  | inr e ↦ ==_of_ne j (12 + k) (λ h. ne_of_== (j - 12) k e (omega arith)) ∙ sym e
]

-- The disk after a fresh address `b` is stored in word `k` of the indirect block `a`.
abbrev pub linked : Fs → (a k b : ℕ) → Fs
linked fs a k b =
    log_write (set_bytes (allocated fs b) a (set_word ((allocated fs b).bytes a) k b)) a

module _ (ip : Dinode) (fs : Fs) (b : ℕ) (f : IsFile ip fs) (free : used fs b ≡ false)
    (l : b < fs.sb.size) where
  apart_of_used : (c : ℕ) → used fs c ≡ true → c ≢ b
  apart_of_used c h e = absurd (cc (h, free, e))

  indirect_apart : ip.addrs ndirect ≢ b
  indirect_apart e = elim (Bool-cases (ip.addrs ndirect == 0)) [
    | inl q ↦ apart_of_used 0 f.boot (sym ((==_iff (ip.addrs ndirect) 0).0 q) ∙ e)
    | inr q ↦
        apart_of_used (ip.addrs ndirect)
          (f.held maxfile (omega arith) (ne_of_== (ip.addrs ndirect) 0 q)) e
  ]

  bytes_old : (c : ℕ) → c ≢ b → (allocated fs b).bytes c ≡ fs.bytes c
  bytes_old c ne =
      bytes-allocated fs b c ∙ if_false (λ i. 0) (fs.bytes c) (c == b) (==_of_ne c b ne)

  bytes_new : (allocated fs b).bytes b ≡ (λ i. 0)
  bytes_new = bytes-allocated fs b b ∙ if_refl (λ i. 0) (fs.bytes b) b

  entry_old : (k : ℕ) → entry (allocated fs b) (ip.addrs ndirect) k ≡ entry fs (ip.addrs ndirect) k
  entry_old k =
      ap (λ x. if ip.addrs ndirect == 0 then 0 else word x k)
        (bytes_old (ip.addrs ndirect) indirect_apart)

  entry_new : (k : ℕ) → entry (allocated fs b) b k ≡ 0
  entry_new k =
      ap (λ x. if b == 0 then 0 else word x k) bytes_new
      ∙ (elim (Bool-cases (b == 0)) [ inl q ↦ rw q refl | inr q ↦ rw q (word_zero k) ])

  pub direct-Grown : (i : ℕ) → i < ndirect → Grown ip fs i b (set_addr ip i b) (allocated fs b)
  direct-Grown i h = record {
    free = free;
    bounded = l;
    sb = sb-allocated fs b;
    bitmap = used-allocated fs b;
    slots = λ k m. elim (Bool-cases (ltb k ndirect)) [
      | inl t ↦ rw t refl
      | inr t ↦
          let kept : (12 == i) ≡ false = ==_of_ne 12 i (omega arith) in
          let other : (k == i) ≡ false = ==_of_ne k i (omega (arith, ltb→ge k ndirect t)) in
          elim (Bool-cases (k == maxfile)) [
            | inl q ↦ rw (t, q, kept, other) refl
            | inr q ↦ rw (t, q, kept, other) (entry_old (k - ndirect))
          ]
    ];
    zeroed = λ j. ap (λ x. x j) bytes_new;
    frame = λ c ne _. bytes_old c ne;
  }

  pub indirect-Grown :
      ip.addrs ndirect ≡ 0 → Grown ip fs maxfile b (set_addr ip ndirect b) (allocated fs b)
  indirect-Grown e = record {
    free = free;
    bounded = l;
    sb = sb-allocated fs b;
    bitmap = used-allocated fs b;
    slots = λ k m. elim (Bool-cases (ltb k ndirect)) [
      | inl t ↦
          let low : k < 12 = ltb→lt k ndirect t in
          let here : (k == 12) ≡ false = ==_of_ne k 12 (omega (arith, low)) in
          let there : (k == maxfile) ≡ false = ==_of_ne k maxfile (omega (arith, low)) in
          rw (t, here, there) refl
      | inr t ↦ elim (Bool-cases (k == maxfile)) [
        | inl q ↦ rw (t, q) refl
        | inr q ↦ rw (t, q, e) (entry_new (k - ndirect))
      ]
    ];
    zeroed = λ j. ap (λ x. x j) bytes_new;
    frame = λ c ne _. bytes_old c ne;
  }

  entry_linked :
      (k m : ℕ)
      → ip.addrs ndirect ≢ 0
      → entry (linked fs (ip.addrs ndirect) k b) (ip.addrs ndirect) m
        ≡ (if m == k then b else entry fs (ip.addrs ndirect) m)
  entry_linked k m ne =
      let a : ℕ = ip.addrs ndirect in
      let x : ℕ → ℕ = (allocated fs b).bytes a in
      let there : (a == 0) ≡ false = ==_of_ne a 0 ne in
      if_false 0 (word ((linked fs a k b).bytes a) m) (a == 0) there
      ∙ ap (λ y. word y m) (if_refl (set_word x k b) x a)
      ∙ (elim (Bool-cases (m == k)) [
        | inl q ↦
            let same : m ≡ k = (==_iff m k).0 q in
            ap (word (set_word x k b)) same
            ∙ word-set_word x k b (omega (arith, f.small, l))
            ∙ sym (if_true b (entry fs a m) (m == k) q)
        | inr q ↦
            word-set_word_away x k b m (ne_of_== m k q)
            ∙ sym (if_false 0 (word x m) (a == 0) there)
            ∙ entry_old m
            ∙ sym (if_false b (entry fs a m) (m == k) q)
      ])

  pub entry-Grown :
      (k : ℕ)
      → k < nindirect
      → ip.addrs ndirect ≢ 0
      → Grown ip fs (ndirect + k) b ip (linked fs (ip.addrs ndirect) k b)
  entry-Grown k h ne = record {
    free = free;
    bounded = l;
    sb = sb-allocated fs b;
    bitmap = used-allocated fs b;
    slots = λ j m. elim (Bool-cases (ltb j ndirect)) [
      | inl t ↦
          let low : j < 12 = ltb→lt j ndirect t in
          let there : (j == 12 + k) ≡ false = ==_of_ne j (12 + k) (omega (arith, low)) in
          rw (t, there) refl
      | inr t ↦ elim (Bool-cases (j == maxfile)) [
        | inl q ↦
            let last : j ≡ 140 = (==_iff j 140).0 q in
            let there : (j == 12 + k) ≡ false = ==_of_ne j (12 + k) (omega (arith, last)) in
            rw (t, q, there) refl
        | inr q ↦ rw (t, q, same_word j k (ltb→ge j ndirect t)) (entry_linked k (j - 12) ne)
      ]
    ];
    zeroed = λ j.
        ap (λ x. x j)
          (if_false (set_word ((allocated fs b).bytes (ip.addrs ndirect)) k b)
              ((allocated fs b).bytes b) (b == ip.addrs ndirect)
              (==_of_ne b (ip.addrs ndirect) (λ q. indirect_apart (sym q)))
            ∙ bytes_new);
    frame = λ c nb na.
        if_false (set_word ((allocated fs b).bytes (ip.addrs ndirect)) k b)
          ((allocated fs b).bytes c) (c == ip.addrs ndirect) (==_of_ne c (ip.addrs ndirect) na)
        ∙ bytes_old c nb;
  }
