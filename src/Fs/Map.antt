-- ===== src/Fs/Map.antt =====
-- bmap: it returns the block in a slot, and fills an empty slot with a fresh zeroed block.
mod Grow
pub mod Steps
use cs461_hw.Base.{
  ℕ, zero, suc, ◌+◌, ◌-◌, ◌*◌, ◌/◌, ◌%◌, ◌^◌, ◌≡◌, ◌≢◌, ◌≤◌, ◌<◌, ◌⊎◌, inl, inr, refl, sym, ap, ◌∙◌,
  Bool, true, false, Option, none, some, ◌==◌, ltb, leb, if◌then◌else◌, arith, Bool-cases, if_refl,
  if_true, if_false, ==_iff, ==_refl, ==_of_ne, ne_of_==, ltb→lt, lt→ltb, ltb→ge, ltb_of_ge,
}
use native.Mathlib.Decide.{dec_lt}
use cs461_hw.Fs.{
  ndirect, nindirect, maxfile, Superblock, Dinode, Fs, Out, ok, panic, ◌>>=◌, log_write, set_bytes,
  set_addr, set_word, word, balloc, map_addr, map_entry, bmap,
}
use cs461_hw.Fs.Balloc.{used, allocated}
use cs461_hw.Fs.Bitmap.{Returns, balloc-Returns, used-allocated, sb-allocated}
use cs461_hw.Fs.Slots.{entry, slot, IsFile, Grown}
use cs461_hw.Fs.Spare.{Spare, Spare-one, Spare-left, Spare-le}
use cs461_hw.Fs.Map.Steps.{Maps, Maps_full, Maps-Grown, Maps_compose}
use cs461_hw.Fs.Map.Grow.{linked, direct-Grown, indirect-Grown, entry-Grown}

-- How a step that takes at most `u` free blocks ends.
abbrev pub Mapped : (u : ℕ) → Dinode → Fs → (s : ℕ) → Out (ℕ × Dinode × Fs) → Type 0
Mapped u ip fs s r =
    (a : ℕ) × ((ip' : Dinode) × ((fs' : Fs) × ((r ≡ ok (a, ip', fs'))
          × (Maps ip fs s a ip' fs' × ((k : ℕ) → Spare (u + k) fs → Spare k fs')))))

-- The fresh block of a step is the only one it takes.
Spare-Grown :
    (ip : Dinode) (fs : Fs) (s b : ℕ) (ip' : Dinode) (fs' : Fs)
    → Grown ip fs s b ip' fs'
    → (k : ℕ) → Spare (1 + k) fs
    → Spare k fs'
Spare-Grown ip fs s b ip' fs' g k spare = Spare-left fs fs' b k g.sb g.bitmap spare

module _ (ip : Dinode) (fs : Fs) (i : ℕ) where
  map_addr_full : ip.addrs i ≢ 0 → map_addr ip fs i ≡ ok (ip.addrs i, ip, fs)
  unfolding map_addr
  map_addr_full ne = rw (==_of_ne (ip.addrs i) 0 ne) refl

  map_addr_empty :
      (b : ℕ) (fs' : Fs)
      → ip.addrs i ≡ 0
      → balloc fs ≡ ok (b, fs')
      → map_addr ip fs i ≡ ok (b, set_addr ip i b, fs')
  unfolding map_addr
  map_addr_empty b fs' e h = rw (e, h) refl

module _ (ip : Dinode) (fs : Fs) (a k : ℕ) where
  map_entry_full : word (fs.bytes a) k ≢ 0 → map_entry ip fs a k ≡ ok (word (fs.bytes a) k, ip, fs)
  unfolding map_entry
  map_entry_full ne = rw (==_of_ne (word (fs.bytes a) k) 0 ne) refl

  map_entry_empty :
      (b : ℕ)
      → word (fs.bytes a) k ≡ 0
      → balloc fs ≡ ok (b, allocated fs b)
      → map_entry ip fs a k ≡ ok (b, ip, linked fs a k b)
  unfolding map_entry
  map_entry_empty b e h = rw (e, h) refl

-- The slot of word `k` of the indirect block.
pub slot_entry :
    (ip : Dinode) (fs : Fs) (k : ℕ)
    → k < nindirect
    → ip.addrs ndirect ≢ 0
    → slot ip fs (ndirect + k) ≡ word (fs.bytes (ip.addrs ndirect)) k
slot_entry ip fs k h ne =
    let past : ltb (12 + k) 12 ≡ false = ltb_of_ge (12 + k) 12 (omega arith) in
    let inner : (12 + k == 140) ≡ false = ==_of_ne (12 + k) 140 (omega arith) in
    let index : 12 + k - 12 ≡ k = omega arith in
    rw (past, inner, index, ==_of_ne (ip.addrs ndirect) 0 ne) refl

-- A free block is at hand: the first case of Spare.
module _ (ip : Dinode) (fs : Fs) (f : IsFile ip fs) (spare : Spare 1 fs) where
  map_direct : (i : ℕ) → i < ndirect → Mapped 1 ip fs i (map_addr ip fs i)
  map_direct i h =
      let here : slot ip fs i ≡ ip.addrs i = rw (lt→ltb i ndirect h) refl in
      elim (Bool-cases (ip.addrs i == 0)) [
        | inl q ↦
            let (c, (lc, hc)) = Spare-one fs spare in
            let (b, (e, (l, free))) = balloc-Returns fs c lc hc in
            let grown = direct-Grown ip fs b f free l i h in
            (
              b,
              (
                set_addr ip i b,
                (
                  allocated fs b,
                  (
                    map_addr_empty ip fs i b (allocated fs b) ((==_iff (ip.addrs i) 0).0 q) e,
                    (
                      Maps-Grown ip fs i b (set_addr ip i b) (allocated fs b) f (omega arith)
                          (here ∙ (==_iff (ip.addrs i) 0).0 q) refl refl grown,
                      Spare-Grown ip fs i b (set_addr ip i b) (allocated fs b) grown,
                    ),
                  ),
                ),
              ),
            )
        | inr q ↦
            let ne : ip.addrs i ≢ 0 = ne_of_== (ip.addrs i) 0 q in
            (
              ip.addrs i,
              (
                ip,
                (
                  fs,
                  (
                    map_addr_full ip fs i ne,
                    (
                      rw here at (Maps_full ip fs i f (λ z. ne (sym here ∙ z))),
                      λ k. Spare-le fs k (1 + k) (omega arith),
                    ),
                  ),
                ),
              ),
            )
      ]

  map_top : Mapped 1 ip fs maxfile (map_addr ip fs ndirect)
  map_top = elim (Bool-cases (ip.addrs ndirect == 0)) [
    | inl q ↦
        let (c, (lc, hc)) = Spare-one fs spare in
        let (b, (e, (l, free))) = balloc-Returns fs c lc hc in
        let empty : ip.addrs ndirect ≡ 0 = (==_iff (ip.addrs ndirect) 0).0 q in
        let grown = indirect-Grown ip fs b f free l empty in
        let ip' : Dinode = set_addr ip ndirect b in
        (
          b,
          (
            ip',
            (
              allocated fs b,
              (
                map_addr_empty ip fs ndirect b (allocated fs b) empty e,
                (
                  Maps-Grown ip fs maxfile b ip' (allocated fs b) f (omega arith) empty refl refl
                      grown,
                  Spare-Grown ip fs maxfile b ip' (allocated fs b) grown,
                ),
              ),
            ),
          ),
        )
    | inr q ↦
        let ne : ip.addrs ndirect ≢ 0 = ne_of_== (ip.addrs ndirect) 0 q in
        (
          ip.addrs ndirect,
          (
            ip,
            (
              fs,
              (
                map_addr_full ip fs ndirect ne,
                (Maps_full ip fs maxfile f ne, λ k. Spare-le fs k (1 + k) (omega arith)),
              ),
            ),
          ),
        )
  ]

  map_indirect :
      (a k : ℕ)
      → k < nindirect
      → ip.addrs ndirect ≡ a
      → a ≢ 0
      → Mapped 1 ip fs (ndirect + k) (map_entry ip fs a k)
  map_indirect a k h same nz =
      let there : slot ip fs (ndirect + k) ≡ word (fs.bytes a) k =
        slot_entry ip fs k h (λ z. nz (sym same ∙ z)) ∙ ap (λ x. word (fs.bytes x) k) same in
      elim (Bool-cases (word (fs.bytes a) k == 0)) [
        | inl q ↦
            let (c, (lc, hc)) = Spare-one fs spare in
            let (b, (e, (l, free))) = balloc-Returns fs c lc hc in
            let grown : Grown ip fs (ndirect + k) b ip (linked fs a k b) =
              rw same at (entry-Grown ip fs b f free l k h (λ z. nz (sym same ∙ z))) in
            (
              b,
              (
                ip,
                (
                  linked fs a k b,
                  (
                    map_entry_empty ip fs a k b ((==_iff (word (fs.bytes a) k) 0).0 q) e,
                    (
                      Maps-Grown ip fs (ndirect + k) b ip (linked fs a k b) f (omega arith)
                          (there ∙ (==_iff (word (fs.bytes a) k) 0).0 q) refl refl grown,
                      Spare-Grown ip fs (ndirect + k) b ip (linked fs a k b) grown,
                    ),
                  ),
                ),
              ),
            )
        | inr q ↦
            let ne : word (fs.bytes a) k ≢ 0 = ne_of_== (word (fs.bytes a) k) 0 q in
            (
              word (fs.bytes a) k,
              (
                ip,
                (
                  fs,
                  (
                    map_entry_full ip fs a k ne,
                    (
                      rw there at (Maps_full ip fs (ndirect + k) f (λ z. ne (sym there ∙ z))),
                      λ k. Spare-le fs k (1 + k) (omega arith),
                    ),
                  ),
                ),
              ),
            )
      ]

bmap_low : (ip : Dinode) (fs : Fs) (bn : ℕ) → bn < ndirect → bmap ip fs bn ≡ map_addr ip fs bn
unfolding bmap
bmap_low ip fs bn h = rw (lt→ltb bn ndirect h) refl

bmap_high :
    (ip : Dinode) (fs : Fs) (k : ℕ)
    → k < nindirect
    → (a : ℕ) (ip' : Dinode) (fs' : Fs) → map_addr ip fs ndirect ≡ ok (a, ip', fs')
    → bmap ip fs (ndirect + k) ≡ map_entry ip' fs' a k
unfolding bmap
bmap_high ip fs k h a ip' fs' e =
    let past : ltb (12 + k) 12 ≡ false = ltb_of_ge (12 + k) 12 (omega arith) in
    let index : 12 + k - 12 ≡ k = omega arith in rw (past, index, lt→ltb k nindirect h, e) refl

-- For a block number of a file, with two free blocks, bmap returns the block of the file at that
-- place: a block that is there already stays the same, an empty place gets a fresh zeroed block. It
-- takes two free blocks at most.
pub bmap-Mapped :
    (ip : Dinode) (fs : Fs) (bn : ℕ)
    → IsFile ip fs
    → Spare 2 fs
    → bn < maxfile
    → Mapped 2 ip fs bn (bmap ip fs bn)
bmap-Mapped ip fs bn f spare h = elim (dec_lt bn ndirect) [
  | yes l ↦
      let (a, (ip', (fs', (e, (m, left))))) =
        map_direct ip fs f (Spare-le fs 1 2 (omega arith) spare) bn l in
      (
        a,
        (
          ip',
          (
            fs',
            (
              bmap_low ip fs bn l ∙ e,
              (m, λ k two. left k (Spare-le fs (1 + k) (2 + k) (omega arith) two)),
            ),
          ),
        ),
      )
  | no l ↦
      let (a, (ip', (fs', (e, (m, left))))) =
        map_top ip fs f (Spare-le fs 1 2 (omega arith) spare) in
      let index : ndirect + (bn - ndirect) ≡ bn = omega arith in
      let (b, (ip'', (fs'', (e', (n, left'))))) =
        map_indirect ip' fs' m.file (left 1 spare) a (bn - ndirect) (omega arith) m.found
          m.nonzero in
      let call : bmap ip fs bn ≡ ok (b, ip'', fs'') =
        ap (bmap ip fs) (sym index)
        ∙ bmap_high ip fs (bn - ndirect) (omega arith) a ip' fs' e
        ∙ e' in
      (
        b,
        (
          ip'',
          (
            fs'',
            (
              call,
              (
                Maps_compose ip fs bn a b ip' ip'' fs' fs'' h m (rw index at n),
                λ k two.
                    left' k (left (1 + k) (Spare-le fs (1 + (1 + k)) (2 + k) (omega arith) two)),
              ),
            ),
          ),
        ),
      )
]

pub slot_none :
    (ip : Dinode) (fs : Fs) (k : ℕ)
    → k < nindirect
    → ip.addrs ndirect ≡ 0
    → slot ip fs (ndirect + k) ≡ 0
slot_none ip fs k h e =
    let past : ltb (12 + k) 12 ≡ false = ltb_of_ge (12 + k) 12 (omega arith) in
    let inner : (12 + k == 140) ≡ false = ==_of_ne (12 + k) 140 (omega arith) in
    rw (past, inner, e) refl

bmap_entry :
    (ip : Dinode) (fs : Fs) (k : ℕ)
    → k < nindirect
    → slot ip fs (ndirect + k) ≢ 0
    → bmap ip fs (ndirect + k) ≡ ok (slot ip fs (ndirect + k), ip, fs)
bmap_entry ip fs k h ne =
    let a : ℕ = ip.addrs ndirect in
    let top : a ≢ 0 = λ z. ne (slot_none ip fs k h z) in
    let there : slot ip fs (ndirect + k) ≡ word (fs.bytes a) k = slot_entry ip fs k h top in
    bmap_high ip fs k h a ip fs (map_addr_full ip fs ndirect top)
    ∙ map_entry_full ip fs a k (λ z. ne (there ∙ z))
    ∙ ap (λ x. ok (x, ip, fs)) (sym there)

-- bmap of a block that the file has gives its address and changes nothing.
pub bmap_full :
    (ip : Dinode) (fs : Fs) (bn : ℕ)
    → bn < maxfile
    → slot ip fs bn ≢ 0
    → bmap ip fs bn ≡ ok (slot ip fs bn, ip, fs)
bmap_full ip fs bn h ne = elim (dec_lt bn ndirect) [
  | yes l ↦
      let here : slot ip fs bn ≡ ip.addrs bn = rw (lt→ltb bn ndirect l) refl in
      bmap_low ip fs bn l
      ∙ map_addr_full ip fs bn (λ z. ne (here ∙ z))
      ∙ ap (λ x. ok (x, ip, fs)) (sym here)
  | no l ↦
      let index : ndirect + (bn - ndirect) ≡ bn = omega arith in
      rw index at
        (bmap_entry ip fs (bn - ndirect) (omega arith) (λ z. ne (ap (slot ip fs) (sym index) ∙ z)))
]

-- A block number past the end of the largest file panics.
bmap_outside : (ip : Dinode) (fs : Fs) (bn : ℕ) → maxfile ≤ bn → bmap ip fs bn ≡ panic
unfolding bmap
bmap_outside ip fs bn h =
    rw (ltb_of_ge bn ndirect (omega arith), ltb_of_ge (bn - ndirect) nindirect (omega arith)) refl
