-- ===== src/Fs/Content/Put.antt =====
-- One round of writei: bmap keeps the content of the file, and the bytes put into one of its blocks
-- change that part of the content and no other file.
use cs461_hw.Base.{
  ℕ, ◌-◌, ◌*◌, ◌/◌, ◌%◌, ◌≡◌, ◌≢◌, ◌≤◌, ◌<◌, inl, inr, refl, sym, ap, ◌∙◌, true, List, ◌==◌, ltb,
  if◌then◌else◌, length, arith, Bool-cases, if_refl, if_false, ==_iff, ==_of_ne, ne_of_==,
}
use native.Mathlib.Decide.{dec_lt}
use cs461_hw.Fs.{bsize, ndirect, maxfile, Dinode, Fs, log_write, set_bytes, word}
use cs461_hw.Fs.Balloc.{used}
use cs461_hw.Fs.Slots.{slot, IsFile}
use cs461_hw.Fs.Map.Steps.{Maps}
use cs461_hw.Fs.Content.{nth, overlay}
use cs461_hw.Fs.Content.Read.{content}
use cs461_hw.Fs.Content.Overlay.{overlay_before, overlay_after, overlay_in}

-- What one file does not share: a block in use that is in none of its slots.
abbrev pub Outside : Dinode → Fs → ℕ → Type 0
Outside ip fs c = (used fs c ≡ true) × ((i : ℕ) → i ≤ maxfile → slot ip fs i ≢ c)

-- A block of the file in slot `s` below maxfile is not its indirect block.
not_indirect :
    (ip : Dinode) (fs : Fs) (s : ℕ)
    → IsFile ip fs
    → s < maxfile
    → slot ip fs s ≢ 0
    → slot ip fs s ≢ ip.addrs ndirect
not_indirect ip fs s f l ne e =
    let same : s ≡ maxfile = f.apart s maxfile (omega arith) (omega arith) ne e in
    absurd (omega arith)

-- bmap changes the content of no place: a fresh block reads as the hole before.
pub content-Maps :
    (ip : Dinode) (fs : Fs) (s a : ℕ) (ip' : Dinode) (fs' : Fs)
    → IsFile ip fs
    → s < maxfile
    → Maps ip fs s a ip' fs'
    → (i : ℕ) → i < maxfile * bsize
    → content ip' fs' i ≡ content ip fs i
content-Maps ip fs s a ip' fs' f ls m i li =
    let bn : ℕ = i / bsize in
    let low : bn < maxfile = omega arith in
    let kept : slot ip' fs' bn ≡ slot ip fs bn → content ip' fs' i ≡ content ip fs i = λ same.
      elim (Bool-cases (slot ip fs bn == 0)) [
        | inl q ↦ rw (same, q) refl
        | inr q ↦
            let ne : slot ip fs bn ≢ 0 = ne_of_== (slot ip fs bn) 0 q in
            let bytes : fs'.bytes (slot ip fs bn) ≡ fs.bytes (slot ip fs bn) =
              m.kept (slot ip fs bn) (f.held bn (omega arith) ne)
                (not_indirect ip fs bn f low ne) in
            rw (same, q, bytes) refl
      ] in
    elim (Bool-cases (bn == s)) [
      | inr q ↦ kept (m.others bn low (ne_of_== bn s q))
      | inl q ↦
          let here : bn ≡ s = (==_iff bn s).0 q in
          elim m.origin [
            | inl o ↦ kept (ap (slot ip' fs') here ∙ m.found ∙ sym o ∙ ap (slot ip fs) (sym here))
            | inr o ↦
                let now : slot ip' fs' bn ≡ a = ap (slot ip' fs') here ∙ m.found in
                let before : slot ip fs bn ≡ 0 = ap (slot ip fs) here ∙ o.0 in
                rw (now, before, ==_of_ne a 0 m.nonzero) (m.fresh o.0 (i % bsize))
          ]
    ]

-- The disk after bytes are put into block `a`.
abbrev pub put : Fs → (a start : ℕ) → List ℕ → Fs
put fs a start xs = log_write (set_bytes fs a (overlay (fs.bytes a) start xs)) a

module _ (ip : Dinode) (fs : Fs) (a start : ℕ) (xs : List ℕ) where
  pub bytes-put_away : (c : ℕ) → c ≢ a → (put fs a start xs).bytes c ≡ fs.bytes c
  bytes-put_away c ne =
      if_false (overlay (fs.bytes a) start xs) (fs.bytes c) (c == a) (==_of_ne c a ne)

  bytes-put : (put fs a start xs).bytes a ≡ overlay (fs.bytes a) start xs
  bytes-put = if_refl (overlay (fs.bytes a) start xs) (fs.bytes a) a

  pub slot-put : ip.addrs ndirect ≢ a → (i : ℕ) → slot ip (put fs a start xs) i ≡ slot ip fs i
  slot-put ne i =
      ap
        (λ x.
          if ltb i ndirect
          then ip.addrs i
          else if i == maxfile
          then ip.addrs ndirect
          else (if ip.addrs ndirect == 0 then 0 else word x (i - ndirect)))
        (bytes-put_away (ip.addrs ndirect) ne)

  pub IsFile-put : ip.addrs ndirect ≢ a → IsFile ip fs → IsFile ip (put fs a start xs)
  IsFile-put ne f =
      let same = slot-put ne in
      record {
        small = f.small;
        boot = f.boot;
        held = λ i l nz. rw (same i) (f.held i l (λ z. nz (same i ∙ z)));
        inside = λ i l nz. rw (same i) (f.inside i l (λ z. nz (same i ∙ z)));
        apart = λ i j l m nz e. f.apart i j l m (λ z. nz (same i ∙ z)) (sym (same i) ∙ e ∙ same j);
      }

module _ (ip : Dinode) (fs : Fs) (i : ℕ) where
  content_hole : slot ip fs (i / bsize) ≡ 0 → content ip fs i ≡ 0
  content_hole e = rw e refl

  content_at :
      (a : ℕ) → slot ip fs (i / bsize) ≡ a → a ≢ 0 → content ip fs i ≡ fs.bytes a (i % bsize)
  content_at a e ne = rw (e, ==_of_ne a 0 ne) refl

-- Bytes put into the block `a` in the slot of place `off`.
module _ (ip : Dinode) (fs : Fs) (off a : ℕ) (xs : List ℕ) (f : IsFile ip fs)
    (lo : off < maxfile * bsize) (lx : length xs ≤ bsize - off % bsize)
    (e : slot ip fs (off / bsize) ≡ a) (ne : a ≢ 0) where
  abbrev fs' : Fs
  fs' = put fs a (off % bsize) xs

  pub not_top : ip.addrs ndirect ≢ a
  not_top z = not_indirect ip fs (off / bsize) f (omega arith) (λ q. ne (sym e ∙ q)) (e ∙ sym z)

  content-put_here :
      (i : ℕ) → i / bsize ≡ off / bsize → content ip fs' i ≡ overlay (content ip fs) off xs i
  content-put_here i same =
      let x : ℕ → ℕ = fs.bytes a in
      let before : slot ip fs (i / bsize) ≡ a = ap (slot ip fs) same ∙ e in
      let after : slot ip fs' (i / bsize) ≡ a =
        slot-put ip fs a (off % bsize) xs not_top (i / bsize) ∙ before in
      let old : content ip fs i ≡ x (i % bsize) = content_at ip fs i a before ne in
      let new : content ip fs' i ≡ overlay x (off % bsize) xs (i % bsize) =
        content_at ip fs' i a after ne
        ∙ ap (λ y. y (i % bsize)) (bytes-put ip fs a (off % bsize) xs) in
      new ∙ (elim (dec_lt i off) [
        | yes l ↦
            overlay_before x (off % bsize) xs (i % bsize) (omega arith)
            ∙ sym old
            ∙ sym (overlay_before (content ip fs) off xs i l)
        | no l ↦
            let place : i % bsize - off % bsize ≡ i - off = omega arith in
            overlay_in x (off % bsize) xs (i % bsize) (omega arith)
            ∙ ap (λ k. nth xs k (x (i % bsize))) place
            ∙ ap (nth xs (i - off)) (sym old)
            ∙ sym (overlay_in (content ip fs) off xs i (omega arith))
      ])

  content-put_away :
      (i : ℕ)
      → i < maxfile * bsize
      → i / bsize ≢ off / bsize
      → content ip fs' i ≡ overlay (content ip fs) off xs i
  content-put_away i li other =
      let bn : ℕ = i / bsize in
      let now : slot ip fs' bn ≡ slot ip fs bn = slot-put ip fs a (off % bsize) xs not_top bn in
      let kept : content ip fs' i ≡ content ip fs i = elim (Bool-cases (slot ip fs bn == 0)) [
        | inl q ↦
            let hole : slot ip fs bn ≡ 0 = (==_iff (slot ip fs bn) 0).0 q in
            content_hole ip fs' i (now ∙ hole) ∙ sym (content_hole ip fs i hole)
        | inr q ↦
            let nz : slot ip fs bn ≢ 0 = ne_of_== (slot ip fs bn) 0 q in
            let apart : slot ip fs bn ≢ a =
              λ z. other (f.apart bn (off / bsize) (omega arith) (omega arith) nz (z ∙ sym e)) in
            content_at ip fs' i (slot ip fs bn) now nz
            ∙ ap (λ y. y (i % bsize))
                (bytes-put_away ip fs a (off % bsize) xs (slot ip fs bn) apart)
            ∙ sym (content_at ip fs i (slot ip fs bn) refl nz)
      ] in
      kept ∙ (elim (dec_lt i off) [
        | yes l ↦ sym (overlay_before (content ip fs) off xs i l)
        | no l ↦ sym (overlay_after (content ip fs) off xs i (omega arith))
      ])

  -- The content changes where the bytes are put and nowhere else.
  pub content-put :
      (i : ℕ) → i < maxfile * bsize → content ip fs' i ≡ overlay (content ip fs) off xs i
  content-put i li = elim (Bool-cases (i / bsize == off / bsize)) [
    | inl q ↦ content-put_here i ((==_iff (i / bsize) (off / bsize)).0 q)
    | inr q ↦ content-put_away i li (ne_of_== (i / bsize) (off / bsize) q)
  ]
