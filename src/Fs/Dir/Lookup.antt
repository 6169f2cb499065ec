-- ===== src/Fs/Dir/Lookup.antt =====
-- dirlookup finds the first entry with a name.
use cs461_hw.Base.{
  ℕ, zero, suc, ◌+◌, ◌-◌, ◌*◌, ◌/◌, ◌%◌, ◌^◌, ◌≡◌, ◌≤◌, ◌<◌, inl, inr, refl, sym, ap, ◌∙◌, min,
  true, false, Option, none, some, ◌==◌, if◌then◌else◌, if_true, arith, Bool-cases, ==_iff,
  ne_of_==, lt→ltb, ltb_of_ge,
}
use native.Mathlib.Decide.{dec_lt}
use mathlib.Core.Bool.{false≢true}
use cs461_hw.Fs.{bsize, maxfile, t_dir, Dinode, Fs, ok, panic}
use cs461_hw.Fs.Content.{Devsw, read_bytes, readi}
use cs461_hw.Fs.Content.Read.{content, Covers, length-read_bytes, readi_lem}
use cs461_hw.Fs.Dir.Names.{IsNamed, is_entry_iff}
use cs461_hw.Fs.Dir.{
  dirent_size, Dirent, dirent, is_entry, Lookup, test_entry, whole_entry, find_entry, lookup,
}

-- Entry `k` of a directory.
abbrev pub entry_at : Dinode → Fs → ℕ → Dirent
entry_at dp fs k = dirent (read_bytes (content dp fs) (dirent_size * k) dirent_size)

-- The first entry from `k` on, among those below `n`, that has the name; or none has.
abbrev pub First : (name : ℕ → ℕ) → (ℕ → Dirent) → (k n : ℕ) → Option (ℕ × ℕ) → Type 0
First name de k n none = (j : ℕ) → k ≤ j → j < n → is_entry name (de j) ≡ false
First name de k n (some (off, inum)) =
    (i : ℕ) × ((k ≤ i)
      × ((i < n)
          × ((off ≡ dirent_size * i)
              × ((inum ≡ (de i).inum)
                  × ((is_entry name (de i) ≡ true)
                      × ((j : ℕ) → k ≤ j → j < i → is_entry name (de j) ≡ false))))))

-- The same by what an entry is: in use, and with the name.
abbrev pub IsFirst : (name : ℕ → ℕ) → (ℕ → Dirent) → (n : ℕ) → Option (ℕ × ℕ) → Type 0
IsFirst name de n none = (j : ℕ) → j < n → ¬ IsNamed name (de j)
IsFirst name de n (some (off, inum)) =
    (i : ℕ) × (i < n)
    × (off ≡ dirent_size * i)
    × (inum ≡ (de i).inum)
    × IsNamed name (de i)
    × ((j : ℕ) → j < i → ¬ IsNamed name (de j))

not_entry : (name : ℕ → ℕ) (de : Dirent) → is_entry name de ≡ false → ¬ IsNamed name de
not_entry name de h v = false≢true (sym h ∙ (is_entry_iff name de).1 v)

First-IsFirst :
    (name : ℕ → ℕ) (de : ℕ → Dirent) (n : ℕ) (r : Option (ℕ × ℕ))
    → First name de 0 n r
    → IsFirst name de n r
First-IsFirst name de n none h = λ j l. not_entry name (de j) (h j (omega arith) l)
First-IsFirst name de n (some (off, inum)) (i, (a, (l, (eo, (ei, (hit, before)))))) = (
  i,
  l,
  eo,
  ei,
  (is_entry_iff name (de i)).0 hit,
  λ j m. not_entry name (de j) (before j (omega arith) m),
)

First-later :
    (name : ℕ → ℕ) (de : ℕ → Dirent) (k n : ℕ) (r : Option (ℕ × ℕ))
    → is_entry name (de k) ≡ false
    → First name de (suc k) n r
    → First name de k n r
First-later name de k n none e h = λ j l m. elim (Bool-cases (j == k)) [
  | inl q ↦ ap (λ i. is_entry name (de i)) ((==_iff j k).0 q) ∙ e
  | inr q ↦ h j (omega (arith, ne_of_== j k q)) m
]
First-later name de k n (some (off, inum)) e (i, (l, (m, (eo, (ei, (hit, before)))))) = (
  i,
  (
    omega arith,
    (
      m,
      (
        eo,
        (
          ei,
          (
            hit,
            λ j l' m'. elim (Bool-cases (j == k)) [
              | inl q ↦ ap (λ x. is_entry name (de x)) ((==_iff j k).0 q) ∙ e
              | inr q ↦ before j (omega (arith, ne_of_== j k q)) m'
            ],
          ),
        ),
      ),
    ),
  ),
)

-- A directory: its size is a number of whole entries, and every block below its end is there.
pub record IsDirectory (dp : Dinode) (fs : Fs) : Type 0 where
  pub type : dp.type ≡ t_dir
  pub entries : dp.size % dirent_size ≡ 0
  pub covered : Covers dp fs 0 dp.size
  pub small : dp.size ≤ maxfile * bsize

module _ (devsw : Devsw) (name : ℕ → ℕ) (dp : Dinode) (fs : Fs) (d : IsDirectory dp fs) where
  abbrev de : ℕ → Dirent
  de = entry_at dp fs

  pub read_entry :
      (k : ℕ)
      → dirent_size * k < dp.size
      → readi devsw dp fs (dirent_size * k) dirent_size
        ≡ ok (some (read_bytes (content dp fs) (dirent_size * k) dirent_size), dp, fs)
  read_entry k l =
      let whole : dirent_size * k + dirent_size ≤ dp.size = omega (arith, d.entries) in
      let count : min dirent_size (dp.size - dirent_size * k) ≡ dirent_size = omega arith in
      readi_lem devsw dp fs (dirent_size * k) dirent_size (λ e. absurd (omega (arith, e, d.type)))
        d.small d.covered (omega arith) (omega (arith, d.small))
      ∙ ap (λ n. ok (some (read_bytes (content dp fs) (dirent_size * k) n), dp, fs)) count

  step :
      (fuel k : ℕ)
      → dirent_size * k < dp.size
      → find_entry (suc fuel) devsw name dp fs (dirent_size * k) ≡ (
          if is_entry name (de k)
          then ok (some (dirent_size * k, (de k).inum), dp, fs)
          else find_entry fuel devsw name dp fs (dirent_size * suc k))
  unfolding find_entry test_entry whole_entry
  step fuel k l =
      let next : (dirent_size * k + dirent_size) % 2 ^ 32 ≡ dirent_size * suc k =
        omega (arith, d.small) in
      rw
        (
          lt→ltb (dirent_size * k) dp.size l,
          read_entry k l,
          length-read_bytes (content dp fs) (dirent_size * k) dirent_size,
          next,
        )
        refl

  find_entry-First :
      (fuel k : ℕ)
      → dp.size / dirent_size < k + fuel
      → (r : Option (ℕ × ℕ)) × ((find_entry fuel devsw name dp fs (dirent_size * k)
            ≡ ok (r, dp, fs))
          × First name de k (dp.size / dirent_size) r)
  unfolding find_entry
  find_entry-First zero k h = (none, (refl, λ j l m. absurd (omega arith)))
  find_entry-First (suc fuel) k h = elim (dec_lt (dirent_size * k) dp.size) [
    | no out ↦ (
      none,
      (rw (ltb_of_ge (dirent_size * k) dp.size (omega arith)) refl, λ j l m. absurd (omega arith)),
    )
    | yes l ↦ elim (Bool-cases (is_entry name (de k))) [
      | inl q ↦ (
        some (dirent_size * k, (de k).inum),
        (
          step fuel k l ∙ (rw q refl),
          (
            k,
            (
              omega arith,
              (omega (arith, d.entries), (refl, (refl, (q, λ j l' m. absurd (omega arith))))),
            ),
          ),
        ),
      )
      | inr q ↦
          let (r, (run, first)) = find_entry-First fuel (suc k) (omega arith) in
          (r, (step fuel k l ∙ (rw q run), First-later name de k (dp.size / dirent_size) r q first))
    ]
  ]

  -- The search of dirlookup in a directory ends with what the tests of its entries tell.
  pub lookup-First :
      (r : Option (ℕ × ℕ)) × ((lookup devsw name dp fs ≡ ok (r, dp, fs))
        × First name de 0 (dp.size / dirent_size) r)
  unfolding lookup
  lookup-First =
      let (r, (run, first)) = find_entry-First (dp.size / dirent_size + 1) 0 (omega arith) in
      let whole : Lookup = find_entry (dp.size / dirent_size + 1) devsw name dp fs 0 in
      (r, (if_true whole panic (dp.type == t_dir) ((==_iff dp.type t_dir).1 d.type) ∙ run, first))

  -- The search of dirlookup ends in a directory of whole entries that is at most as large as the
  -- largest file and has every block below its end: with the offset and the inode number of the first
  -- entry that is in use and has the name, or with nothing if no entry is such. It changes nothing.
  pub lookup-IsFirst :
      (r : Option (ℕ × ℕ)) × ((lookup devsw name dp fs ≡ ok (r, dp, fs))
        × IsFirst name de (dp.size / dirent_size) r)
  lookup-IsFirst =
      let (r, (run, first)) = lookup-First in
      (r, (run, First-IsFirst name de (dp.size / dirent_size) r first))
