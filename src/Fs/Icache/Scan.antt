-- ===== src/Fs/Icache/Scan.antt =====
-- What the loop of iget finds.
use cs461_hw.Base.{
  ℕ, zero, suc, ◌+◌, ◌≡◌, ◌≢◌, ◌<◌, inl, inr, true, false, ◌==◌, arith, Bool-cases, ==_iff,
  ne_of_==,
}
use cs461_hw.Fs.Icache.{Inode, Search, cached, empty, full, is_cached, remember, search_from}

-- The slots below `hi` hold the inode in the slot found, or hold it nowhere, and the slot found is
-- free, or none is.
abbrev pub Sought : (ℕ → Inode) → (dev inum hi : ℕ) → Search → Type 0
Sought inode dev inum hi (cached j) = (j < hi) × (is_cached (inode j) dev inum ≡ true)
Sought inode dev inum hi (empty j) =
    (j < hi) × ((inode j).ref ≡ 0) × ((k : ℕ) → k < hi → is_cached (inode k) dev inum ≡ false)
Sought inode dev inum hi full =
    ((k : ℕ) → k < hi → is_cached (inode k) dev inum ≡ false)
    × ((k : ℕ) → k < hi → (inode k).ref ≢ 0)

-- A statement on the slots below `k`, extended by slot `k`.
upto : {P : ℕ → Type 0} (k : ℕ) → P k → ((j : ℕ) → j < k → P j) → (j : ℕ) → j < suc k → P j
upto {P} k p h j l = elim (Bool-cases (j == k)) [
  | inl q ↦ let same : j ≡ k = (==_iff j k).0 q in rw same p
  | inr q ↦ h j (omega (arith, ne_of_== j k q))
]

module _ (inode : ℕ → Inode) (dev inum : ℕ) where
  Sought-remember :
      (k : ℕ) (s : Search)
      → is_cached (inode k) dev inum ≡ false
      → Sought inode dev inum k s
      → Sought inode dev inum (suc k) (remember s k (inode k).ref)
  Sought-remember k (cached j) e (l, found) = (omega arith, found)
  Sought-remember k (empty j) e (l, z, absent) =
      (omega arith, z, upto {P = λ i. is_cached (inode i) dev inum ≡ false} k e absent)
  Sought-remember k full e (absent, busy) =
      let absent' = upto {P = λ i. is_cached (inode i) dev inum ≡ false} k e absent in
      elim (Bool-cases ((inode k).ref == 0)) [
        | inl q ↦ rw q (omega arith, (==_iff (inode k).ref 0).0 q, absent')
        | inr q ↦
            rw q (absent', upto {P = λ i. (inode i).ref ≢ 0} k (ne_of_== (inode k).ref 0 q) busy)
      ]

  pub search_from-Sought :
      (n k : ℕ) (s : Search)
      → Sought inode dev inum k s
      → Sought inode dev inum (k + n) (search_from n k inode dev inum s)
  unfolding search_from
  search_from-Sought zero k s h = let same : k + 0 ≡ k = omega arith in rw same h
  search_from-Sought (suc n) k s h =
      let next : k + suc n ≡ suc k + n = omega arith in
      elim (Bool-cases (is_cached (inode k) dev inum)) [
        | inl q ↦ rw (q, next) (omega arith, q)
        | inr q ↦
            rw (q, next)
              (search_from-Sought n (suc k) (remember s k (inode k).ref) (Sought-remember k s q h))
      ]
