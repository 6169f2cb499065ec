-- ===== src/Bio/Write.antt =====
-- bwrite: the bytes of a locked buffer go to the disk.
use cs461_hw.Base.{
  ℕ, ◌≡◌, ◌<◌, ◌≢◌, refl, sym, ap, ◌∙◌, fun_ext, Bool, true, false, not, Option, none, some, ◌==◌,
  leb, if◌then◌else◌, arith, Bool-cases, inl, inr, ==_iff, ==_of_ne, ==_refl, leb_of_lt,
}
use cs461_hw.Bio.{Block, Buf, Cache, set_buf, is_cached, iderw, bwrite}
use cs461_hw.Bio.Coherence.{IsCache, Shows, set_buf-IsCache, set_buf-Shows}
use cs461_hw.Bio.Calls.{cached_block, cached_of, live_cached, Locked}

-- Two contents in a row: the second stays.
set_buf_twice : (c : Cache) (i : ℕ) (x y : Buf) → set_buf (set_buf c i x) i y ≡ set_buf c i y
set_buf_twice c i x y =
    ap (λ (f : ℕ → Buf). record c { buf = f })
      (fun_ext (λ j. elim (Bool-cases (i == j)) [ inl e ↦ rw e refl | inr e ↦ rw e refl ]))

-- The cache with the bytes of buffer `i` on the disk.
abbrev stored : Cache → ℕ → Cache
stored c i = record c { disk = λ n. if (c.buf i).blockno == n then (c.buf i).bytes else c.disk n }

abbrev flushed : Cache → ℕ → Cache
flushed c i = set_buf (stored c i) i (record (c.buf i) { dirty = false; valid = true })

-- What iderw makes of a cache whose dirty buffer `i` is `b`.
abbrev synced : Cache → ℕ → Buf → Cache
synced c i b = record (set_buf c i (record b { dirty = false; valid = true })) {
  disk = λ n. if b.blockno == n then b.bytes else c.disk n;
}

iderw-synced :
    (c : Cache) (i n : ℕ)
    → Locked c i 1 n
    → (c.buf i).dirty ≡ true
    → n < c.disksize
    → iderw c i ≡ some (synced c i (c.buf i))
unfolding iderw
iderw-synced c i n h e inside =
    let dev : ((c.buf i).dev == 1) ≡ true = (==_iff (c.buf i).dev 1).1 h.dev in
    let bound : leb c.disksize (c.buf i).blockno ≡ false =
      leb_of_lt c.disksize (c.buf i).blockno (omega (arith, h.block)) in
    elim (Bool-cases (c.buf i).valid) [
      | inl f ↦ rw (h.locked, e, dev, bound, f) refl
      | inr f ↦ rw (h.locked, e, dev, bound, f) refl
    ]

pass : (l : Bool) (r : Option Cache) → l ≡ true → (if not l then none else r) ≡ r
pass l r h = rw h refl

bwrite-flushed :
    (c : Cache) (i n : ℕ) → Locked c i 1 n → n < c.disksize → bwrite c i ≡ some (flushed c i)
unfolding bwrite
bwrite-flushed c i n h inside =
    let x : Buf = record (c.buf i) { dirty = true } in
    let d : Cache = set_buf c i x in
    let here : d.buf i ≡ x = rw (==_refl i) refl in
    let held : Locked d i 1 n = record {
      listed = h.listed;
      locked = ap (λ (b : Buf). b.locked) here ∙ h.locked;
      dev = ap (λ (b : Buf). b.dev) here ∙ h.dev;
      block = ap (λ (b : Buf). b.blockno) here ∙ h.block;
    } in
    let writes : bwrite c i ≡ iderw d i = pass (c.buf i).locked (iderw d i) h.locked in
    writes
    ∙ iderw-synced d i n held (ap (λ (b : Buf). b.dirty) here) inside
    ∙ ap (λ (b : Buf). some (synced d i b)) here
    ∙ ap (λ (f : Cache). some (record f { disk = (stored c i).disk }))
        (set_buf_twice c i x (record (c.buf i) { dirty = false; valid = true }))

stored-IsCache : (c : Cache) (i n : ℕ) → IsCache c → Locked c i 1 n → IsCache (stored c i)
stored-IsCache c i n v h = record {
  single = v.single;
  each = λ j l. record {
    filled = (v.each j l).filled;
    clean = λ d g k. elim (Bool-cases ((c.buf i).blockno == (c.buf j).blockno)) [
      | inl e ↦
          let same = sym ((==_iff (c.buf i).blockno (c.buf j).blockno).0 e) in
          let b = (c.buf i).blockno in
          let here =
            v.single b j i l h.listed (cached_of (c.buf j) 1 b d same)
              (cached_of (c.buf i) 1 b h.dev refl) in
          rw e (ap (λ m. (c.buf m).bytes) here)
      | inr e ↦ rw e ((v.each j l).clean d g k)
    ];
  };
}

-- What bwrite of locked buffer `i`, for block `n`, does.
record Written (c d : Cache) (i n : ℕ) : Type 0 where
  pub cache : IsCache d
  pub listed : d.order ≡ c.order
  pub on_disk : d.disk n ≡ (c.buf i).bytes
  pub clean : (d.buf i).dirty ≡ false
  pub shown : Shows d n (c.buf i).bytes
  pub others : (b : ℕ) (w : Block) → n ≢ b → Shows c b w → Shows d b w

flushed-Written : (c : Cache) (i n : ℕ) → IsCache c → Locked c i 1 n → Written c (flushed c i) i n
flushed-Written c i n v h =
    let x : Buf = record (c.buf i) { dirty = false; valid = true } in
    let s = stored c i in
    let v' = stored-IsCache c i n v h in
    let there : s.disk n ≡ (c.buf i).bytes = rw ((==_iff (c.buf i).blockno n).1 h.block) refl in
    let cache =
      set_buf-IsCache s i x v'
        (record { filled = λ e. refl; clean = λ e f g. rw (==_refl (c.buf i).blockno) refl })
        (λ b j m f g. v.single b i j h.listed m f g) in
    let apart = λ (b : ℕ) (ne : n ≢ b) (f : is_cached (c.buf i) 1 b ≡ true).
      ne (sym h.block ∙ cached_block (c.buf i) 1 b f) in
    record {
      cache = cache;
      listed = refl;
      on_disk = there;
      clean = rw (==_refl i) refl;
      shown = record {
        buffered = λ j l f.
            let me : is_cached ((flushed c i).buf i) 1 n ≡ true =
              rw (==_refl i) (cached_of x 1 n h.dev h.block) in
            let here = cache.single n i j h.listed l me (live_cached n ((flushed c i).buf j) f) in
            rw (sym here) (rw (==_refl i) refl);
        otherwise = λ dead. there;
      };
      others = λ b w ne sh.
          set_buf-Shows s i x v' b w h.listed
            (record {
              buffered = sh.buffered;
              otherwise = λ dead.
                  rw (==_of_ne (c.buf i).blockno b (λ e. ne (sym h.block ∙ e))) (sh.otherwise dead);
            })
            (λ e. absurd (apart b ne (live_cached b x e)))
            (λ e g. absurd (apart b ne (live_cached b (c.buf i) e)));
    }

-- bwrite of a locked buffer for block `n` of disk 1 returns: the block is on the disk and the buffer is
-- clean, the store shows its bytes for the block and the same as before for the others.
bwrite-Written :
    (c : Cache) (i n : ℕ)
    → IsCache c
    → Locked c i 1 n
    → n < c.disksize
    → (d : Cache) × (bwrite c i ≡ some d) × Written c d i n
bwrite-Written c i n v h inside =
    (flushed c i, bwrite-flushed c i n h inside, flushed-Written c i n v h)
