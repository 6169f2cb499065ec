-- ===== src/Bio/Calls.antt =====
-- What bget, bread, bwrite and brelse do to the store of blocks.
use cs461_hw.Base.{
  ℕ, ◌+◌, ◌%◌, ◌^◌, ◌≡◌, refl, sym, ap, ◌∙◌, Bool, true, false, Option, none, some, arith,
  Bool-cases, inl, inr, ==_refl,
}
use cs461_hw.Bio.{
  Buf, Cache, set_buf, is_cached, is_unused, Result, done, asleep, panic, find_cached, find_unused,
  acquiresleep, bget,
}
use cs461_hw.Bio.Search.{Cached, find_cached-Cached, Unused, find_unused-Unused}
use cs461_hw.Bio.Coherence.{
  IsListed, live, IsCache, set_buf_at, set_buf-IsCache, set_buf-Shows, Kept,
}

-- The tests of is_cached, live and is_unused, read as equations.
cached_dev : (x : Buf) (d n : ℕ) → is_cached x d n ≡ true → x.dev ≡ d
cached_dev x d n h = ground arith

pub cached_block : (x : Buf) (d n : ℕ) → is_cached x d n ≡ true → x.blockno ≡ n
cached_block x d n h = ground arith

pub cached_of : (x : Buf) (d n : ℕ) → x.dev ≡ d → x.blockno ≡ n → is_cached x d n ≡ true
cached_of x d n h g = rw (h, g) (rw (==_refl d, ==_refl n) refl)

pub live_cached : (b : ℕ) (x : Buf) → live b x ≡ true → is_cached x 1 b ≡ true
live_cached b x h = ground arith

pub live_valid : (b : ℕ) (x : Buf) → live b x ≡ true → x.valid ≡ true
live_valid b x h = ground arith

pub live_of : (b : ℕ) (x : Buf) → is_cached x 1 b ≡ true → x.valid ≡ true → live b x ≡ true
live_of b x h g = rw (h, g) refl

unused_clean : (x : Buf) → is_unused x ≡ true → x.dirty ≡ false
unused_clean x h = ground arith

pub not_both : {b : Bool} → b ≡ true → b ≡ false → ⊥
not_both h g = ground arith

Kept-refl : (c : Cache) → IsCache c → Kept c c
Kept-refl c v = record {
  cache = v;
  shows = λ b w s. s;
  listed = λ j. refl;
  disksize = refl;
  stays = λ j h. (refl, refl);
}

-- Only the count and the lock of a buffer change.
pub relock-Kept :
    (c : Cache) (i n : ℕ) (l : Bool)
    → IsCache c
    → IsListed c i
    → Kept c (set_buf c i (record (c.buf i) { refcnt = n; locked = l }))
relock-Kept c i n l v h =
    let x : Buf = record (c.buf i) { refcnt = n; locked = l } in
    record {
      cache =
          set_buf-IsCache c i x v
            (record { filled = (v.each i h).filled; clean = (v.each i h).clean })
            (λ b j m f g. v.single b i j h m f g);
      shows = λ b w s.
          set_buf-Shows c i x v b w h s (λ e. s.buffered i h e) (λ e g. absurd (not_both e g));
      listed = λ j. refl;
      disksize = refl;
      stays = λ j u.
          set_buf_at (λ y. (y.dev ≡ (c.buf j).dev) × (y.blockno ≡ (c.buf j).blockno)) c i x j
            (λ e. rw e (refl, refl)) (λ ne. (refl, refl));
    }

-- The buffer that bget takes for a block that no buffer is for.
abbrev recycled : Buf → (dev blockno : ℕ) → Buf
recycled b dev blockno = record b {
  dev = dev;
  blockno = blockno;
  valid = false;
  dirty = false;
  refcnt = 1;
}

recycled-Kept :
    (c : Cache) (i d n : ℕ)
    → IsCache c
    → IsListed c i
    → is_unused (c.buf i) ≡ true
    → ((j : ℕ) → IsListed c j → is_cached (c.buf j) d n ≡ false)
    → Kept c (set_buf c i (recycled (c.buf i) d n))
recycled-Kept c i d n v h u absent =
    let x : Buf = recycled (c.buf i) d n in
    record {
      cache =
          set_buf-IsCache c i x v
            (record { filled = λ e. absurd (ground arith); clean = λ e f g. absurd (ground arith) })
            (λ b j m f g. absurd (
              not_both
                (cached_of (c.buf j) d n (cached_dev (c.buf j) 1 b g ∙ sym (cached_dev x 1 b f))
                  (cached_block (c.buf j) 1 b g ∙ sym (cached_block x 1 b f)))
                (absent j m)));
      shows = λ b w s.
          set_buf-Shows c i x v b w h s (λ e. absurd (not_both (live_valid b x e) refl))
            (λ e g.
              let f = live_cached b (c.buf i) e in
              let clean =
                (v.each i h).clean (cached_dev (c.buf i) 1 b f) (live_valid b (c.buf i) e)
                  (unused_clean (c.buf i) u) in
              ap c.disk (sym (cached_block (c.buf i) 1 b f)) ∙ sym clean ∙ s.buffered i h e);
      listed = λ j. refl;
      disksize = refl;
      stays = λ j used.
          set_buf_at (λ y. (y.dev ≡ (c.buf j).dev) × (y.blockno ≡ (c.buf j).blockno)) c i x j
            (λ e.
              let free : is_unused (c.buf j) ≡ true = rw (sym e) u in absurd (not_both free used))
            (λ ne. (refl, refl));
    }

-- A buffer with a new content for the same block.
pub same_block :
    (c : Cache) (i : ℕ) (x : Buf) (j : ℕ)
    → x.dev ≡ (c.buf i).dev
    → x.blockno ≡ (c.buf i).blockno
    → (((set_buf c i x).buf j).dev ≡ (c.buf j).dev)
      × (((set_buf c i x).buf j).blockno ≡ (c.buf j).blockno)
same_block c i x j d n =
    set_buf_at (λ y. (y.dev ≡ (c.buf j).dev) × (y.blockno ≡ (c.buf j).blockno)) c i x j
      (λ e. rw (sym e) (d, n)) (λ ne. (refl, refl))

pub Kept-trans :
    (c d e : Cache)
    → Kept c d
    → Kept d e
    → ((j : ℕ) → ((e.buf j).dev ≡ (d.buf j).dev) × ((e.buf j).blockno ≡ (d.buf j).blockno))
    → Kept c e
Kept-trans c d e k l same = record {
  cache = l.cache;
  shows = λ b w s. l.shows b w (k.shows b w s);
  listed = λ j. l.listed j ∙ k.listed j;
  disksize = l.disksize ∙ k.disksize;
  stays = λ j u. ((same j).0 ∙ (k.stays j u).0, (same j).1 ∙ (k.stays j u).1);
}

-- Buffer `i` of `e` is locked, for the block asked for.
pub record Locked (e : Cache) (i d n : ℕ) : Type 0 where
  pub listed : IsListed e i
  pub locked : (e.buf i).locked ≡ true
  pub dev : (e.buf i).dev ≡ d
  pub block : (e.buf i).blockno ≡ n

-- How bget may end.
abbrev pub Got : Cache → (dev blockno : ℕ) → Result → Type 0
Got c d n (done i e) = Kept c e × Locked e i d n
Got c d n (asleep e) = Kept c e
Got c d n panic = (i : ℕ) → IsListed c i → is_unused (c.buf i) ≡ false

acquiresleep-Got :
    (c d : Cache) (i dev n : ℕ)
    → Kept c d
    → IsListed d i
    → (d.buf i).dev ≡ dev
    → (d.buf i).blockno ≡ n
    → Got c dev n (acquiresleep d i)
unfolding acquiresleep
acquiresleep-Got c d i dev n k h f g = elim (Bool-cases (d.buf i).locked) [
  | inl e ↦ let sleeps : acquiresleep d i ≡ asleep d = rw e refl in rw sleeps k
  | inr e ↦
      let x : Buf = record (d.buf i) { locked = true } in
      let returns : acquiresleep d i ≡ done i (set_buf d i x) = rw e refl in
      let held : Locked (set_buf d i x) i dev n = record {
        listed = h;
        locked = rw (==_refl i) refl;
        dev = rw (==_refl i) f;
        block = rw (==_refl i) g;
      } in
      rw returns (
        Kept-trans c d (set_buf d i x) k (relock-Kept d i (d.buf i).refcnt true k.cache h)
            (λ j. same_block d i x j refl refl),
        held,
      )
]

-- bget of a block of any device keeps the cache coherent and every block as it is, and no buffer that
-- is in use or dirty is taken from its block. It ends with a locked buffer for the block, or asleep,
-- or it panics, and then every buffer is in use or dirty.
pub bget-Got : (c : Cache) (dev n : ℕ) → IsCache c → Got c dev n (bget c dev n)
unfolding bget
bget-Got c dev n v =
    search (find_cached c.order c.buf dev n) (find_cached-Cached c.buf dev n c.order)
  where
    take_unused :
        (r : Option ℕ)
        → Unused c.buf c.order r
        → ((j : ℕ) → IsListed c j → is_cached (c.buf j) dev n ≡ false)
        → Got c dev n (elim r [
          | some i ↦ acquiresleep (set_buf c i (recycled (c.buf i) dev n)) i
          | none ↦ panic
        ])
    take_unused (some i) u absent =
        acquiresleep-Got c (set_buf c i (recycled (c.buf i) dev n)) i dev n
          (recycled-Kept c i dev n v u.0 u.1 absent) u.0 (rw (==_refl i) refl) (rw (==_refl i) refl)
    take_unused none u absent = u

    search :
        (r : Option ℕ)
        → Cached c.buf dev n c.order r
        → Got c dev n (elim r [
          | some i ↦
              acquiresleep
                (set_buf c i (record (c.buf i) { refcnt = ((c.buf i).refcnt + 1) % 2 ^ 32 }))
                i
          | none ↦ elim (find_unused c.order c.buf) [
            | some i ↦ acquiresleep (set_buf c i (recycled (c.buf i) dev n)) i
            | none ↦ panic
          ]
        ])
    search (some i) f =
        let m = ((c.buf i).refcnt + 1) % 2 ^ 32 in
        acquiresleep-Got c (set_buf c i (record (c.buf i) { refcnt = m })) i dev n
          (relock-Kept c i m (c.buf i).locked v f.0) f.0
          (rw (==_refl i) (cached_dev (c.buf i) dev n f.1))
          (rw (==_refl i) (cached_block (c.buf i) dev n f.1))
    search none absent =
        take_unused (find_unused c.order c.buf) (find_unused-Unused c.buf c.order) absent
