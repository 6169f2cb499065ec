-- ===== src/Fs/Dir.antt =====
-- fs.c: directories. A name is a function from places to bytes, of which the first DIRSIZ count.
pub mod Names
pub mod Lookup
pub mod Link
use cs461_hw.Base.{
  ℕ, zero, suc, ◌+◌, ◌-◌, ◌*◌, ◌/◌, ◌%◌, ◌^◌, Bool, true, false, not, ◌&&◌, List, [], ◌∷◌, ◌++◌,
  Option, none, some, ◌==◌, ltb, if◌then◌else◌, length,
}
use cs461_hw.Fs.{t_dir, Superblock, Dinode, Fs, Out, ok, panic, ◌>>=◌}
use cs461_hw.Fs.Content.{Devsw, Read, nth, read_bytes, readi, writei}
use cs461_hw.Fs.Path.{dirsiz}
use cs461_hw.Fs.Icache.{Icache, Inode, iget, iput}

-- sizeof(struct dirent): a 16-bit number and the name.
abbrev pub dirent_size : ℕ
dirent_size = 16

pub record Dirent : Type 0 where
  pub inum : ℕ
  pub name : ℕ → ℕ

abbrev pub dirent : List ℕ → Dirent
dirent b = record { inum = nth b 0 0 + 2 ^ 8 * nth b 1 0; name = λ j. nth b (2 + j) 0 }

-- Whether namecmp gives 0: the loop of strncmp with `n` bytes left, at place `i`.
unfoldable pub same_from : (n i : ℕ) → (s t : ℕ → ℕ) → Bool
same_from zero i s t = true
same_from (suc n) i s t =
    let rest = same_from n (suc i) s t in
    if not (s i == 0) && (s i == t i) then rest else s i == t i

unfoldable pub same_name : (s t : ℕ → ℕ) → Bool
same_name s t = same_from dirsiz 0 s t

-- `de.inum != 0 && namecmp(name, de.name) == 0`
unfoldable pub is_entry : (name : ℕ → ℕ) → Dirent → Bool
is_entry name de = not (de.inum == 0) && same_name name de.name

-- Where dirlookup found an entry and its inode number, the inode and the disk.
abbrev pub Lookup : Type 0
Lookup = Out (Option (ℕ × ℕ) × Dinode × Fs)

unfoldable pub test_entry :
    (name : ℕ → ℕ) → (off : ℕ) → Dinode → Fs → (rest : Lookup) → List ℕ → Lookup
test_entry name off dp fs rest b =
    if is_entry name (dirent b) then ok (some (off, (dirent b).inum), dp, fs) else rest

-- A read of another length is a panic.
unfoldable pub whole_entry : (bytes : Option (List ℕ)) → (List ℕ → Lookup) → Lookup
whole_entry none k = panic
whole_entry (some b) k = if length b == dirent_size then k b else panic

-- The loop of dirlookup from `off` on. Each round passes an entry.
unfoldable pub find_entry : (fuel : ℕ) → Devsw → (name : ℕ → ℕ) → Dinode → Fs → (off : ℕ) → Lookup
find_entry zero devsw name dp fs off = ok (none, dp, fs)
find_entry (suc fuel) devsw name dp fs off =
    if ltb off dp.size
    then (do
      r ← readi devsw dp fs off dirent_size
      whole_entry r.0 (
          test_entry name off r.1 r.2
            (find_entry fuel devsw name r.1 r.2 ((off + dirent_size) % 2 ^ 32))))
    else ok (none, dp, fs)

unfoldable pub lookup : Devsw → (name : ℕ → ℕ) → Dinode → Fs → Lookup
lookup devsw name dp fs =
    if dp.type == t_dir then find_entry (dp.size / dirent_size + 1) devsw name dp fs 0 else panic

-- The entry found is turned into an inode of the cache; with it come its offset and its slot.
dirlookup :
    Devsw → (dev : ℕ) → (name : ℕ → ℕ) → Dinode → Icache → Out (Option (ℕ × ℕ) × Dinode × Icache)
dirlookup devsw dev name dp c = do
  r ← lookup devsw name dp c.fs
  elim r.0 [
    | none ↦ ok (none, r.1, record c { fs = r.2 })
    | some e ↦ (do s ← iget (record c { fs = r.2 }) dev e.1; ok (some (e.0, s.0), r.1, s.1))
  ]

-- strncpy of a name into an entry: the bytes up to the first zero, then zeros, `n` in all.
pub name_bytes : (n i : ℕ) → (name : ℕ → ℕ) → List ℕ
name_bytes zero i name = []
name_bytes (suc n) i name =
    let rest = name_bytes n (suc i) name in
    if name i == 0 then 0 ∷ name_bytes n i name else name i ∷ rest

abbrev pub entry_bytes : (name : ℕ → ℕ) → (inum : ℕ) → List ℕ
entry_bytes name inum = inum % 2 ^ 8 ∷ inum / 2 ^ 8 % 2 ^ 8 ∷ name_bytes dirsiz 0 name

abbrev Free : Type 0
Free = Out (ℕ × Dinode × Fs)

pub test_free : (off : ℕ) → Dinode → Fs → (rest : Free) → Option (List ℕ) → Free
test_free off dp fs rest none = panic
test_free off dp fs rest (some b) =
    if length b == dirent_size
    then (if (dirent b).inum == 0 then ok (off, dp, fs) else rest)
    else panic

-- The loop of dirlink: the offset of the first entry out of use, or the end.
pub find_free : (fuel : ℕ) → Devsw → Dinode → Fs → (off : ℕ) → Free
find_free zero devsw dp fs off = ok (off, dp, fs)
find_free (suc fuel) devsw dp fs off =
    if ltb off dp.size
    then (do
      r ← readi devsw dp fs off dirent_size
      test_free off r.1 r.2 (find_free fuel devsw r.1 r.2 ((off + dirent_size) % 2 ^ 32)) r.0)
    else ok (off, dp, fs)

pub written_whole : Option ℕ → Dinode → Fs → Out (Dinode × Fs)
written_whole none dp fs = panic
written_whole (some n) dp fs = if n == dirent_size then ok (dp, fs) else panic

-- dirlink after its lookup: `dnum` is the inode number of the directory.
pub add_entry : Devsw → (dnum : ℕ) → (name : ℕ → ℕ) → (inum : ℕ) → Dinode → Fs → Out (Dinode × Fs)
add_entry devsw dnum name inum dp fs = do
  r ← find_free (dp.size / dirent_size + 1) devsw dp fs 0
  w ← writei devsw dnum r.1 r.2 r.0 (entry_bytes name inum)
  written_whole w.0 w.1 w.2

-- False is -1: the name is there already, and the reference that the lookup took is dropped.
dirlink :
    Devsw
    → (dev dnum : ℕ) → (name : ℕ → ℕ) → (inum : ℕ) → Dinode
    → Icache
    → Out (Bool × Dinode × Icache)
dirlink devsw dev dnum name inum dp c = do
  r ← dirlookup devsw dev name dp c
  elim r.0 [
    | some e ↦ (do d ← iput r.2 e.1; ok (false, r.1, d))
    | none ↦ (do
      w ← add_entry devsw dnum name inum r.1 r.2.fs
      ok (true, w.0, record r.2 { fs = w.1 }))
  ]
