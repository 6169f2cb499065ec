-- ===== src/Bio/Coherence.antt =====
-- The buffer cache as a store of blocks: at most one buffer for a block, clean buffers that agree
-- with the disk, and the contents that the cache shows for a block.
use cs461_hw.Base.{
  ℕ, ◌≡◌, ◌≢◌, sym, ◌∙◌, Bool, true, false, ◌&&◌, ◌==◌, Bool-cases, inl, inr, ==_iff, ne_of_==,
  ==_refl,
}
use cs461_hw.Bio.{Block, Buf, Cache, set_buf, is_cached, is_unused}
use cs461_hw.Bio.Search.{has}

abbrev pub IsListed : Cache → ℕ → Type 0
IsListed c i = has i c.order ≡ true

-- The buffer is for block `b` of disk 1, and it holds it.
abbrev pub live : ℕ → Buf → Bool
live b x = is_cached x 1 b && x.valid

-- What one buffer keeps by itself.
pub record IsBuf (disk : ℕ → Block) (x : Buf) : Type 0 where
  pub filled : x.dirty ≡ true → x.valid ≡ true
  pub clean : x.dev ≡ 1 → x.valid ≡ true → x.dirty ≡ false → x.bytes ≡ disk x.blockno

pub record IsCache (c : Cache) : Type 0 where
  pub single :
      (b i j : ℕ)
      → IsListed c i
      → IsListed c j
      → is_cached (c.buf i) 1 b ≡ true
      → is_cached (c.buf j) 1 b ≡ true
      → i ≡ j
  pub each : (i : ℕ) → IsListed c i → IsBuf c.disk (c.buf i)

-- Block `b` is `x`: in its valid buffer, or on the disk if it has none.
pub record Shows (c : Cache) (b : ℕ) (x : Block) : Type 0 where
  pub buffered : (i : ℕ) → IsListed c i → live b (c.buf i) ≡ true → (c.buf i).bytes ≡ x
  pub otherwise : ((i : ℕ) → IsListed c i → live b (c.buf i) ≡ false) → c.disk b ≡ x

-- The buffer that set_buf leaves at `j`, for a property of it.
pub set_buf_at :
    (P : Buf → Type 0) (c : Cache) (i : ℕ) (x : Buf) (j : ℕ)
    → (i ≡ j → P x)
    → (i ≢ j → P (c.buf j))
    → P ((set_buf c i x).buf j)
set_buf_at P c i x j here there = elim (Bool-cases (i == j)) [
  | inl e ↦ rw e (here ((==_iff i j).0 e))
  | inr e ↦ rw e (there (ne_of_== i j e))
]

module _ (c : Cache) (i : ℕ) (x : Buf) (v : IsCache c) where
  -- Another content of buffer `i`, for a block that no other buffer is for.
  pub set_buf-IsCache :
      IsBuf c.disk x
      → ((b j : ℕ) → IsListed c j → is_cached x 1 b ≡ true → is_cached (c.buf j) 1 b ≡ true → i ≡ j)
      → IsCache (set_buf c i x)
  set_buf-IsCache ok alone = record {
    single = λ b j k l m.
        let P = λ (y : Buf). is_cached y 1 b ≡ true in
        set_buf_at (λ y. P y → P ((set_buf c i x).buf k) → j ≡ k) c i x j
          (λ here f.
            set_buf_at (λ y. P y → j ≡ k) c i x k (λ e g. sym here ∙ e)
              (λ ne g. sym here ∙ alone b k m f g))
          (λ there f.
            set_buf_at (λ y. P y → j ≡ k) c i x k (λ e g. sym (alone b j l g f) ∙ e)
              (λ ne g. v.single b j k l m f g));
    each = λ j l. set_buf_at (λ y. IsBuf c.disk y) c i x j (λ e. ok) (λ ne. v.each j l);
  }

  -- The store shows the same if the new content does, and what it forgets is on the disk.
  pub set_buf-Shows :
      (b : ℕ) (w : Block)
      → IsListed c i
      → Shows c b w
      → (live b x ≡ true → x.bytes ≡ w)
      → (live b (c.buf i) ≡ true → live b x ≡ false → c.disk b ≡ w)
      → Shows (set_buf c i x) b w
  set_buf-Shows b w l s new lost = record {
    buffered = λ j m.
        set_buf_at (λ y. live b y ≡ true → y.bytes ≡ w) c i x j (λ e. new) (λ ne. s.buffered j m);
    otherwise = λ dead. elim (Bool-cases (live b (c.buf i))) [
      | inl was ↦ let now : live b x ≡ false = rw (==_refl i) at (dead i l) in lost was now
      | inr was ↦ s.otherwise (λ j m. elim (Bool-cases (i == j)) [
        | inl e ↦ rw (sym ((==_iff i j).0 e)) was
        | inr e ↦ let same : live b (c.buf j) ≡ false = rw e at (dead j m) in same
      ])
    ];
  }

-- What a call keeps of the cache: it stays coherent and shows the same store, on the same buffers, and
-- a buffer that is in use or dirty stays for its block.
pub record Kept (c d : Cache) : Type 0 where
  pub cache : IsCache d
  pub shows : (b : ℕ) (w : Block) → Shows c b w → Shows d b w
  pub listed : (j : ℕ) → has j d.order ≡ has j c.order
  pub disksize : d.disksize ≡ c.disksize
  pub stays :
      (j : ℕ)
      → is_unused (c.buf j) ≡ false
      → ((d.buf j).dev ≡ (c.buf j).dev) × ((d.buf j).blockno ≡ (c.buf j).blockno)
