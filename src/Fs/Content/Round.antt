-- ===== src/Fs/Content/Round.antt =====
-- What the loop of writei does in a round, and how two rounds compose.
use cs461_hw.Base.{
  ℕ, ◌+◌, ◌-◌, ◌*◌, ◌/◌, ◌%◌, ◌≡◌, ◌≢◌, ◌≤◌, ◌<◌, inl, inr, refl, sym, ap, ◌∙◌, min, false, List,
  [], ◌++◌, ◌==◌, leb, if◌then◌else◌, length, length-append, arith, Bool-cases, ==_iff, ==_of_ne,
  ne_of_==,
}
use native.Mathlib.Decide.{dec_lt}
use cs461_hw.Fs.{bsize, ndirect, maxfile, Dinode, Fs}
use cs461_hw.Fs.Slots.{slot, IsFile}
use cs461_hw.Fs.Map.Steps.{Maps}
use cs461_hw.Fs.Content.{nth, overlay}
use cs461_hw.Fs.Content.Read.{content, Covers}
use cs461_hw.Fs.Content.Overlay.{overlay-append}
use cs461_hw.Fs.Content.Put.{
  Outside, put, bytes-put_away, content-Maps, slot-put, IsFile-put, not_top, content-put,
}

-- The blocks that a write of `n` bytes at `off` touches.
abbrev pub touched : (off n : ℕ) → ℕ
touched off n = if n == 0 then 0 else (off % bsize + n + (bsize - 1)) / bsize

-- One block less is left to touch after a round.
pub touched_next :
    (off n m : ℕ)
    → 0 < n
    → m ≡ min n (bsize - off % bsize)
    → touched (off + m) (n - m) + 1 ≤ touched off n
touched_next off n m h e =
    let some_left : (n == 0) ≡ false = ==_of_ne n 0 (omega arith) in
    elim (Bool-cases (n - m == 0)) [
      | inl q ↦ rw (q, some_left) (omega arith)
      | inr q ↦
          let left : n - m ≢ 0 = ne_of_== (n - m) 0 q in rw (q, some_left) (omega (arith, e, left))
    ]

-- The bytes `src` came into the file at `off`: all other bytes of it stay, blocks of other files
-- too, and no block of the file is lost.
pub record Written (ip : Dinode) (fs : Fs) (off : ℕ) (src : List ℕ) (ip' : Dinode) (fs' : Fs)
    : Type 0 where
  pub file : IsFile ip' fs'
  pub sb : fs'.sb ≡ fs.sb
  pub type : ip'.type ≡ ip.type
  pub now : (i : ℕ) → i < maxfile * bsize → content ip' fs' i ≡ overlay (content ip fs) off src i
  pub covered : Covers ip' fs' off (length src)
  pub kept : (i : ℕ) → i < maxfile → slot ip fs i ≢ 0 → slot ip' fs' i ≢ 0
  pub others : (c : ℕ) → Outside ip fs c → Outside ip' fs' c × (fs'.bytes c ≡ fs.bytes c)

overlay_same :
    (x y : ℕ → ℕ) (off : ℕ) (xs : List ℕ) (i : ℕ)
    → x i ≡ y i
    → overlay x off xs i ≡ overlay y off xs i
overlay_same x y off xs i e = ap (λ v. if leb off i then nth xs (i - off) v else v) e

module _ (ip : Dinode) (fs : Fs) (s a : ℕ) (ip' : Dinode) (fs' : Fs) (f : IsFile ip fs)
    (ls : s < maxfile) (m : Maps ip fs s a ip' fs') where
  Maps-kept : (i : ℕ) → i < maxfile → slot ip fs i ≢ 0 → slot ip' fs' i ≢ 0
  Maps-kept i l ne = elim (Bool-cases (i == s)) [
    | inl q ↦ λ z. m.nonzero (sym m.found ∙ ap (slot ip' fs') (sym ((==_iff i s).0 q)) ∙ z)
    | inr q ↦ λ z. ne (sym (m.others i l (ne_of_== i s q)) ∙ z)
  ]

  -- A block of another file is neither the one that bmap gives nor any other of this file.
  Maps-Outside : (c : ℕ) → Outside ip fs c → Outside ip' fs' c
  Maps-Outside c o = (
    m.still_used c o.0,
    λ i l. elim (Bool-cases (i == maxfile)) [
      | inl q ↦
          let last : i ≡ maxfile = (==_iff i maxfile).0 q in
          λ z. elim m.top [
            | inl t ↦ o.1 maxfile (omega arith) (sym t ∙ ap (slot ip' fs') (sym last) ∙ z)
            | inr t ↦
                let here : ip'.addrs ndirect ≡ c = ap (slot ip' fs') (sym last) ∙ z in
                absurd (cc (t, here, o.0))
          ]
      | inr q ↦
          let low : i ≢ maxfile = ne_of_== i maxfile q in
          elim (Bool-cases (i == s)) [
            | inl r ↦
                let here : slot ip' fs' i ≡ a = ap (slot ip' fs') ((==_iff i s).0 r) ∙ m.found in
                λ z. elim m.origin [
                  | inl t ↦ o.1 s (omega arith) (t ∙ sym here ∙ z)
                  | inr t ↦ absurd (cc (t.1, here, z, o.0))
                ]
            | inr r ↦ λ z. o.1 i l (sym (m.others i (omega arith) (ne_of_== i s r)) ∙ z)
          ]
    ],
  )

-- One round of the loop.
pub round-Written :
    (ip : Dinode) (fs : Fs) (off a : ℕ) (xs : List ℕ) (ip' : Dinode) (fs' : Fs)
    → IsFile ip fs
    → off < maxfile * bsize
    → length xs ≤ bsize - off % bsize
    → Maps ip fs (off / bsize) a ip' fs'
    → Written ip fs off xs ip' (put fs' a (off % bsize) xs)
round-Written ip fs off a xs ip' fs' f lo lx m =
    let s : ℕ = off / bsize in
    let ls : s < maxfile = omega arith in
    let top : ip'.addrs ndirect ≢ a = not_top ip' fs' off a xs m.file lo lx m.found m.nonzero in
    let same = slot-put ip' fs' a (off % bsize) xs top in
    record {
      file = IsFile-put ip' fs' a (off % bsize) xs top m.file;
      sb = m.sb;
      type = m.type;
      now = λ i l.
          content-put ip' fs' off a xs m.file lo lx m.found m.nonzero i l
          ∙ overlay_same (content ip' fs') (content ip fs) off xs i
              (content-Maps ip fs s a ip' fs' f ls m i l);
      covered = λ i p q.
          let here : i / bsize ≡ s = omega arith in
          λ z. m.nonzero (
            sym m.found ∙ sym (same s) ∙ ap (slot ip' (put fs' a (off % bsize) xs)) (sym here) ∙ z);
      kept = λ i l ne z. Maps-kept ip fs s a ip' fs' f ls m i l ne (sym (same i) ∙ z);
      others = λ c o.
          let out = Maps-Outside ip fs s a ip' fs' f ls m c o in
          (
            (out.0, λ i l z. out.1 i l (sym (same i) ∙ z)),
            bytes-put_away ip' fs' a (off % bsize) xs c
                  (λ z. out.1 s (omega arith) (m.found ∙ sym z))
                ∙ m.kept c o.0 (λ z. o.1 maxfile (omega arith) (sym z)),
          );
    }

Written-compose :
    (ip ip' ip'' : Dinode) (fs fs' fs'' : Fs) (off : ℕ) (xs ys : List ℕ)
    → off + length xs ≤ maxfile * bsize
    → Written ip fs off xs ip' fs'
    → Written ip' fs' (off + length xs) ys ip'' fs''
    → Written ip fs off (xs ++ ys) ip'' fs''
Written-compose ip ip' ip'' fs fs' fs'' off xs ys h m n = record {
  file = n.file;
  sb = n.sb ∙ m.sb;
  type = n.type ∙ m.type;
  now = λ i l.
      n.now i l
      ∙ overlay_same (content ip' fs') (overlay (content ip fs) off xs) (off + length xs) ys i
          (m.now i l)
      ∙ overlay-append (content ip fs) off xs ys i;
  covered = λ i p q. elim (dec_lt i (off + length xs)) [
    | yes l ↦ n.kept (i / bsize) (omega arith) (m.covered i p l)
    | no l ↦ n.covered i (omega arith) (omega (arith, q, length-append xs ys))
  ];
  kept = λ i l ne. n.kept i l (m.kept i l ne);
  others = λ c o.
      let first = m.others c o in let second = n.others c first.0 in (second.0, second.1 ∙ first.1);
}

pub Written-none : (ip : Dinode) (fs : Fs) (off : ℕ) → IsFile ip fs → Written ip fs off [] ip fs
Written-none ip fs off f = record {
  file = f;
  sb = refl;
  type = refl;
  now = λ i l. elim (Bool-cases (leb off i)) [ inl q ↦ rw q refl | inr q ↦ rw q refl ];
  covered = λ i l m. absurd (omega arith);
  kept = λ i l ne. ne;
  others = λ c o. (o, refl);
}

-- Two rounds, with the offset between them and the whole list given by equations.
pub Written-then :
    (ip ip' ip'' : Dinode) (fs fs' fs'' : Fs) (off next : ℕ) (xs ys zs : List ℕ)
    → off + length xs ≤ maxfile * bsize
    → off + length xs ≡ next
    → xs ++ ys ≡ zs
    → Written ip fs off xs ip' fs'
    → Written ip' fs' next ys ip'' fs''
    → Written ip fs off zs ip'' fs''
Written-then ip ip' ip'' fs fs' fs'' off next xs ys zs h e q m n =
    rw q at (Written-compose ip ip' ip'' fs fs' fs'' off xs ys h m (rw e n))
