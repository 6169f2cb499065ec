-- ===== src/Bio/Release.antt =====
-- brelse: the buffer is given back, to the front of the list if nobody else has it.
use cs461_hw.Base.{
  ℕ, ◌+◌, ◌-◌, ◌%◌, ◌^◌, ◌≡◌, ◌≤◌, ◌<◌, refl, sym, ◌∙◌, true, false, List, ◌∷◌, some, ◌==◌,
  if◌then◌else◌, arith, Bool-cases, inl, inr, ==_refl,
}
use cs461_hw.Bio.{Cache, set_buf, unlink, brelse}
use cs461_hw.Bio.Search.{has, has-front}
use cs461_hw.Bio.Coherence.{IsListed, IsCache, Kept}
use cs461_hw.Bio.Calls.{relock-Kept, Kept-trans}

reorder-Kept :
    (c : Cache) (o : List ℕ)
    → IsCache c
    → ((j : ℕ) → has j o ≡ has j c.order)
    → Kept c (record c { order = o })
reorder-Kept c o v same =
    let back = λ (j : ℕ) (l : has j o ≡ true). sym (same j) ∙ l in
    record {
      cache = record {
        single = λ b i j l m. v.single b i j (back i l) (back j m);
        each = λ j l. v.each j (back j l);
      };
      shows = λ b w s. record {
        buffered = λ j l. s.buffered j (back j l);
        otherwise = λ dead. s.otherwise (λ j l. dead j (same j ∙ l));
      };
      listed = same;
      disksize = refl;
      stays = λ j u. (refl, refl);
    }

-- brelse of a locked buffer returns: the buffer is unlocked, has a reference less, and moves to the
-- front of the list if that was the last; the cache stays coherent and every block as it is.
brelse-Kept :
    (c : Cache) (i : ℕ)
    → IsCache c
    → IsListed c i
    → (c.buf i).locked ≡ true
    → 1 ≤ (c.buf i).refcnt
    → (c.buf i).refcnt < 2 ^ 32
    → (d : Cache) × (brelse c i ≡ some d)
      × Kept c d
      × ((d.buf i).locked ≡ false)
      × ((d.buf i).refcnt + 1 ≡ (c.buf i).refcnt)
      × (d.order ≡ (if (c.buf i).refcnt == 1 then i ∷ unlink i c.order else c.order))
unfolding brelse
brelse-Kept c i v l held one small =
    let n = ((c.buf i).refcnt + 2 ^ 32 - 1) % 2 ^ 32 in
    let lower : n + 1 ≡ (c.buf i).refcnt = omega arith in
    let d : Cache = set_buf c i (record (c.buf i) { locked = false; refcnt = n }) in
    let k = relock-Kept c i n false v l in
    let o = i ∷ unlink i c.order in
    let last : (n == 0) ≡ ((c.buf i).refcnt == 1) = ground arith in
    elim (Bool-cases ((c.buf i).refcnt == 1)) [
      | inl e ↦
          let e' = last ∙ e in
          (
            record d { order = o },
            rw (held, e') refl,
            Kept-trans c d (record d { order = o }) k
                (reorder-Kept d o k.cache (λ j. has-front i j c.order l)) (λ j. (refl, refl)),
            rw (==_refl i) refl,
            rw (==_refl i) lower,
            rw e refl,
          )
      | inr e ↦
          let e' = last ∙ e in
          (d, rw (held, e') refl, k, rw (==_refl i) refl, rw (==_refl i) lower, rw e refl)
    ]
