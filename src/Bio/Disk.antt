-- ===== src/Bio/Disk.antt =====
-- binit, and bread with the disk's content.
use cs461_hw.Base.{
  ℕ, ◌≡◌, ◌<◌, refl, ap, ◌∙◌, true, false, some, ◌==◌, leb, arith, Bool-cases, inl, inr, ==_iff,
  ==_refl, leb_of_lt,
}
use cs461_hw.Bio.{
  binit, Block, Buf, Cache, set_buf, is_unused, Result, done, asleep, panic, bget, iderw, fill,
  bread,
}
use cs461_hw.Bio.Coherence.{IsListed, live, IsCache, Shows, set_buf-IsCache, set_buf-Shows, Kept}
use cs461_hw.Bio.Calls.{
  cached_block, cached_of, live_cached, live_valid, live_of, not_both, same_block, Kept-trans,
  Locked, Got, bget-Got,
}

-- binit leaves a coherent cache that shows every block as it is on the disk.
pub binit-IsCache :
    (disk : ℕ → Block) (disksize nbuf : ℕ)
    → IsCache (binit disk disksize nbuf) × ((b : ℕ) → Shows (binit disk disksize nbuf) b (disk b))
binit-IsCache disk disksize nbuf = (
  record {
    single = λ b i j l m f g. absurd (ground arith);
    each = λ i l. record {
      filled = λ e. absurd (ground arith);
      clean = λ d e f. absurd (ground arith);
    };
  },
  λ b. record { buffered = λ i l e. absurd (ground arith); otherwise = λ dead. refl },
)

-- The content that iderw reads.
abbrev loaded : Cache → ℕ → Buf
loaded c i = record (c.buf i) { bytes = c.disk (c.buf i).blockno; valid = true }

loaded-Kept :
    (c : Cache) (i : ℕ)
    → IsCache c
    → IsListed c i
    → (c.buf i).valid ≡ false
    → Kept c (set_buf c i (loaded c i))
loaded-Kept c i v h empty =
    let x = loaded c i in
    let dead = λ (b : ℕ) (e : live b (c.buf i) ≡ true). not_both (live_valid b (c.buf i) e) empty in
    record {
      cache =
          set_buf-IsCache c i x v (record { filled = λ e. refl; clean = λ e f g. refl })
            (λ b j m f g. v.single b i j h m f g);
      shows = λ b w s.
          set_buf-Shows c i x v b w h s
            (λ e.
              let f = live_cached b x e in
              ap c.disk (cached_block x 1 b f)
              ∙ s.otherwise (λ j m. elim (Bool-cases (live b (c.buf j))) [
                | inl l ↦
                    let here = v.single b i j h m f (live_cached b (c.buf j) l) in
                    let l' : live b (c.buf i) ≡ true = rw here l in absurd (dead b l')
                | inr l ↦ l
              ]))
            (λ e g. absurd (dead b e));
      listed = λ j. refl;
      disksize = refl;
      stays = λ j u. same_block c i x j refl refl;
    }

-- An empty locked buffer of a block on the disk: iderw reads it.
iderw-loaded :
    (c : Cache) (i n : ℕ)
    → IsCache c
    → Locked c i 1 n
    → (c.buf i).valid ≡ false
    → n < c.disksize
    → iderw c i ≡ some (set_buf c i (loaded c i))
unfolding iderw
iderw-loaded c i n v h empty inside =
    let clean : (c.buf i).dirty ≡ false = elim (Bool-cases (c.buf i).dirty) [
      | inl e ↦ absurd (not_both ((v.each i h.listed).filled e) empty)
      | inr e ↦ e
    ] in
    let dev : ((c.buf i).dev == 1) ≡ true = (==_iff (c.buf i).dev 1).1 h.dev in
    let bound : leb c.disksize (c.buf i).blockno ≡ false =
      leb_of_lt c.disksize (c.buf i).blockno (omega (arith, h.block)) in
    rw (h.locked, empty, dev, bound, clean) refl

-- How bread may end, for block `n` of disk 1.
pub record Filled (c e : Cache) (i n : ℕ) : Type 0 where
  pub kept : Kept c e
  pub held : Locked e i 1 n
  pub valid : (e.buf i).valid ≡ true
  pub content : (w : Block) → Shows c n w → (e.buf i).bytes ≡ w

abbrev pub Read : Cache → ℕ → Result → Type 0
Read c n (done i e) = Filled c e i n
Read c n (asleep e) = Kept c e
Read c n panic = (i : ℕ) → IsListed c i → is_unused (c.buf i) ≡ false

-- bread of a block of disk 1 that the disk has: it keeps the cache coherent and every block as it is,
-- and if it returns, the buffer is locked and holds the newest content of the block. It panics only
-- if every buffer is in use or dirty.
pub bread-Read : (c : Cache) (n : ℕ) → IsCache c → n < c.disksize → Read c n (bread c 1 n)
unfolding bread fill
bread-Read c n v inside = finish (bget c 1 n) (bget-Got c 1 n v)
  where
    content :
        (e : Cache) (i : ℕ) → Kept c e → Locked e i 1 n → (e.buf i).valid ≡ true → Filled c e i n
    content e i k h filled = record {
      kept = k;
      held = h;
      valid = filled;
      content = λ w s.
          (k.shows n w s).buffered i h.listed
            (live_of n (e.buf i) (cached_of (e.buf i) 1 n h.dev h.block) filled);
    }

    finish : (r : Result) → Got c 1 n r → Read c n (fill r)
    finish (done i d) (k, h) = elim (Bool-cases (d.buf i).valid) [
      | inl e ↦
          let returns : fill (done i d) ≡ done i d = rw e refl in rw returns (content d i k h e)
      | inr e ↦
          let inside' : n < d.disksize = rw k.disksize inside in
          let reads = iderw-loaded d i n k.cache h e inside' in
          let returns : fill (done i d) ≡ done i (set_buf d i (loaded d i)) = rw (e, reads) refl in
          rw returns (
            content (set_buf d i (loaded d i)) i
              (Kept-trans c d (set_buf d i (loaded d i)) k (loaded-Kept d i k.cache h.listed e)
                (λ j. same_block d i (loaded d i) j refl refl))
              (record {
                listed = h.listed;
                locked = rw (==_refl i) h.locked;
                dev = rw (==_refl i) h.dev;
                block = rw (==_refl i) h.block;
              })
              (rw (==_refl i) refl))
    ]
    finish (asleep d) k = k
    finish panic u = u
