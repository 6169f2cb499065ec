-- ===== src/Fs/Map/Steps.antt =====
-- What a step of bmap does to a file, and how two steps compose.
use cs461_hw.Base.{
  ℕ, ◌≡◌, ◌≢◌, ◌≤◌, ◌<◌, ◌⊎◌, inl, inr, refl, sym, ap, ◌∙◌, true, false, ◌==◌, arith, Bool-cases,
  if_refl, if_true, if_false, ==_of_ne,
}
use cs461_hw.Fs.{ndirect, maxfile, Dinode, Fs}
use cs461_hw.Fs.Balloc.{used}
use cs461_hw.Fs.Slots.{slot, IsFile, Grown, IsFile-Grown}

-- The block `a` is in slot `s` now, and zeroed if the slot was empty. Other slots and the content of
-- the other blocks in use stay, and so do the other fields of the inode.
pub record Maps (ip : Dinode) (fs : Fs) (s a : ℕ) (ip' : Dinode) (fs' : Fs) : Type 0 where
  pub file : IsFile ip' fs'
  pub sb : fs'.sb ≡ fs.sb
  pub size : ip'.size ≡ ip.size
  pub type : ip'.type ≡ ip.type
  pub found : slot ip' fs' s ≡ a
  pub nonzero : a ≢ 0
  pub origin : (slot ip fs s ≡ a) ⊎ ((slot ip fs s ≡ 0) × (used fs a ≡ false))
  pub top : (ip'.addrs ndirect ≡ ip.addrs ndirect) ⊎ (used fs (ip'.addrs ndirect) ≡ false)
  pub fresh : slot ip fs s ≡ 0 → (j : ℕ) → fs'.bytes a j ≡ 0
  pub others : (i : ℕ) → i < maxfile → i ≢ s → slot ip' fs' i ≡ slot ip fs i
  pub still_used : (c : ℕ) → used fs c ≡ true → used fs' c ≡ true
  pub kept : (c : ℕ) → used fs c ≡ true → c ≢ ip.addrs ndirect → fs'.bytes c ≡ fs.bytes c

pub Maps_full :
    (ip : Dinode) (fs : Fs) (s : ℕ)
    → IsFile ip fs
    → slot ip fs s ≢ 0
    → Maps ip fs s (slot ip fs s) ip fs
Maps_full ip fs s f ne = record {
  file = f;
  sb = refl;
  size = refl;
  type = refl;
  found = refl;
  nonzero = ne;
  origin = inl refl;
  top = inl refl;
  fresh = λ e. absurd (ne e);
  others = λ i l m. refl;
  still_used = λ c h. h;
  kept = λ c h m. refl;
}

pub Maps-Grown :
    (ip : Dinode) (fs : Fs) (s b : ℕ) (ip' : Dinode) (fs' : Fs)
    → IsFile ip fs
    → s ≤ maxfile
    → slot ip fs s ≡ 0
    → ip'.size ≡ ip.size
    → ip'.type ≡ ip.type
    → Grown ip fs s b ip' fs'
    → Maps ip fs s b ip' fs'
Maps-Grown ip fs s b ip' fs' f l empty es et g =
    let apart : (c : ℕ) → used fs c ≡ true → c ≢ b = λ c h e. absurd (cc (h, g.free, e)) in
    record {
      file = IsFile-Grown ip fs s b ip' fs' g f;
      sb = g.sb;
      size = es;
      type = et;
      found = g.slots s l ∙ if_refl b (slot ip fs s) s;
      nonzero = λ e. apart 0 f.boot (sym e);
      origin = inr (empty, g.free);
      fresh = λ _. g.zeroed;
      top = elim (Bool-cases (maxfile == s)) [
        | inl q ↦
            let new : ip'.addrs ndirect ≡ b =
              g.slots maxfile (omega arith) ∙ if_true b (ip.addrs ndirect) (maxfile == s) q in
            inr (ap (used fs) new ∙ g.free)
        | inr q ↦
            inl (g.slots maxfile (omega arith) ∙ if_false b (ip.addrs ndirect) (maxfile == s) q)
      ];
      others =
          λ i m ne. g.slots i (omega arith) ∙ if_false b (slot ip fs i) (i == s) (==_of_ne i s ne);
      still_used =
          λ c h. g.bitmap c ∙ if_false true (used fs c) (c == b) (==_of_ne c b (apart c h)) ∙ h;
      kept = λ c h m. g.frame c (apart c h) m;
    }

-- A block that is free later was free before, if the blocks in use stay in use.
unused_before :
    (fs fs' : Fs) (b : ℕ)
    → ((c : ℕ) → used fs c ≡ true → used fs' c ≡ true)
    → used fs' b ≡ false
    → used fs b ≡ false
unused_before fs fs' b still e = elim (Bool-cases (used fs b)) [
  | inl u ↦ absurd (cc (still b u, e))
  | inr u ↦ u
]

-- The indirect block first, then the block whose address it holds.
pub Maps_compose :
    (ip : Dinode) (fs : Fs) (s a b : ℕ) (ip' ip'' : Dinode) (fs' fs'' : Fs)
    → s < maxfile
    → Maps ip fs maxfile a ip' fs'
    → Maps ip' fs' s b ip'' fs''
    → Maps ip fs s b ip'' fs''
Maps_compose ip fs s a b ip' ip'' fs' fs'' l m n =
    let same : slot ip' fs' s ≡ slot ip fs s = m.others s l (omega arith) in
    record {
      file = n.file;
      sb = n.sb ∙ m.sb;
      size = n.size ∙ m.size;
      type = n.type ∙ m.type;
      found = n.found;
      nonzero = n.nonzero;
      origin = elim n.origin [
        | inl e ↦ inl (sym same ∙ e)
        | inr e ↦ inr (sym same ∙ e.0, unused_before fs fs' b m.still_used e.1)
      ];
      top = elim n.top [
        | inl e ↦ elim m.top [ inl o ↦ inl (e ∙ o) | inr o ↦ inr (ap (used fs) e ∙ o) ]
        | inr e ↦ inr (unused_before fs fs' (ip''.addrs ndirect) m.still_used e)
      ];
      fresh = λ e. n.fresh (same ∙ e);
      others = λ i k ne. n.others i k ne ∙ m.others i k (omega arith);
      still_used = λ c h. n.still_used c (m.still_used c h);
      kept = λ c h ne.
          n.kept c (m.still_used c h) (λ e. elim m.origin [
            | inl o ↦ ne (e ∙ m.found ∙ sym o)
            | inr o ↦ absurd (cc (h, o.1, e ∙ m.found))
          ])
          ∙ m.kept c h ne;
    }
