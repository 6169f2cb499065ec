-- ===== src/Fs/Tests.antt =====
-- Runs of the file system on a disk of 64 blocks, of which the first 60 are in use, and the
-- witnesses.
use cs461_hw.Base.{
  Option, List, ℕ, ◌+◌, ◌-◌, ◌/◌, ◌≡◌, ◌⊎◌, inl, inr, refl, sym, ap, ◌∙◌, min, false, ◌&&◌, [], ◌∷◌,
  none, some, ◌==◌, ltb, if◌then◌else◌, arith, Bool-cases, ==_iff,
}
use cs461_hw.Fs.{
  bsize, Superblock, Dinode, Fs, Out, ok, panic, balloc, balloc_from, take_bit, clear_bit, bzero,
  bmap,
}
use cs461_hw.Fs.Balloc.{used}
use cs461_hw.Fs.Bitmap.{Takes, balloc-Takes}
use cs461_hw.Fs.Slots.{slot, IsFile}
use cs461_hw.Fs.Spare.{Spare, Spare-of}
use cs461_hw.Fs.Map.{Mapped, bmap-Mapped}
use cs461_hw.Fs.Content.{Devsw, read_bytes, readi, writei}
use cs461_hw.Fs.Content.Read.{content, Covers, readi_lem}
use cs461_hw.Fs.Content.Write.{Wrote, writei-Wrote, IsWhole, readi-writei}
use cs461_hw.Fs.Trunc.{itrunc}
use cs461_hw.Fs.Trunc.File.{Done, itrunc-Truncated}
use cs461_hw.Fs.Dir.{dirent_size, lookup}
use cs461_hw.Fs.Dir.Lookup.{entry_at, IsDirectory, IsFirst, lookup-IsFirst}
use cs461_hw.Fs.Icache.{Inode, Icache, iget, iput}
use cs461_hw.Fs.Icache.Counts.{Represents, assign, Got, iget-Got, iput-Represents}

abbrev layout : Superblock
layout = record { size = 64; ninodes = 8; inodestart = 2; bmapstart = 3 }

abbrev blank : Dinode
blank = record { type = 2; major = 0; minor = 0; nlink = 1; size = 0; addrs = λ i. 0 }

-- A file of three bytes, in block 40.
abbrev short : Dinode
short = record blank { size = 3; addrs = λ i. if i == 0 then 40 else 0 }

abbrev disk : Fs
disk = record {
  sb = layout;
  bits = λ c k. ltb k 60;
  dinodes = λ c k. blank;
  bytes = λ c i. c + i;
  logged = [];
}

abbrev devices : Devsw
devices = record { read = λ k. none; write = λ k. none }

slot_short : (i : ℕ) → ((i ≡ 0) × (slot short disk i ≡ 40)) ⊎ (slot short disk i ≡ 0)
slot_short i = elim (Bool-cases (i == 0)) [
  | inl q ↦ let first : i ≡ 0 = (==_iff i 0).0 q in inl (first, ap (slot short disk) first)
  | inr q ↦ inr (elim (Bool-cases (ltb i 12)) [
    | inl r ↦ rw (r, q) refl
    | inr r ↦ elim (Bool-cases (i == 140)) [ inl t ↦ rw (r, t) refl | inr t ↦ rw (r, t) refl ]
  ])
]

short-IsFile : IsFile short disk
short-IsFile = record {
  small = omega arith;
  boot = refl;
  held = λ i l ne. elim (slot_short i) [ inl e ↦ ap (used disk) (e.1) | inr e ↦ absurd (ne e) ];
  inside = λ i l ne. elim (slot_short i) [ inl e ↦ omega (arith, e.1) | inr e ↦ absurd (ne e) ];
  apart = λ i j l m ne e. elim (slot_short i) [
    | inr z ↦ absurd (ne z)
    | inl h ↦ elim (slot_short j) [ inl k ↦ h.0 ∙ sym k.0 | inr z ↦ absurd (ne (e ∙ z)) ]
  ];
}

short-Covers : Covers short disk 0 3
short-Covers i l m e =
    let first : i / bsize ≡ 0 = omega arith in absurd (omega (arith, e, ap (slot short disk) first))

two_free : Spare 2 disk
two_free =
    Spare-of disk 2 (61 ∷ 62 ∷ []) (omega arith) (((λ e. absurd (omega (arith, e))), tt), (tt, tt))
      ((omega arith, refl), ((omega arith, refl), tt))

abbrev one_number : Out (ℕ × Fs) → ℕ
one_number (ok r) = r.0
one_number panic = 0

allocates_60 : one_number (balloc disk) ≡ 60
unfolding balloc balloc_from take_bit clear_bit bzero
allocates_60 = refl

balloc-Takes_example : Takes disk (balloc disk)
balloc-Takes_example = balloc-Takes disk

bmap-Mapped_example : Mapped 2 short disk 13 (bmap short disk 13)
bmap-Mapped_example = bmap-Mapped short disk 13 short-IsFile two_free (omega arith)

readi_lem_example :
    readi devices short disk 1 10
    ≡ ok (some (read_bytes (content short disk) 1 (min 10 (3 - 1))), short, disk)
readi_lem_example =
    readi_lem devices short disk 1 10 (λ e. absurd (omega (arith, e))) (omega arith) short-Covers
      (omega arith) (omega arith)

writei-Wrote_example : Wrote short disk 2 (7 ∷ 8 ∷ []) (writei devices 5 short disk 2 (7 ∷ 8 ∷ []))
writei-Wrote_example =
    writei-Wrote devices 5 short disk 2 (7 ∷ 8 ∷ []) (λ e. absurd (omega (arith, e))) short-IsFile
      two_free (omega arith) (omega arith)

readi-writei_example :
    (ip' : Dinode) × ((fs' : Fs) × ((writei devices 5 short disk 2 (7 ∷ 8 ∷ [])
          ≡ ok (some 2, ip', fs'))
        × (IsWhole ip' fs' × (readi devices ip' fs' 2 2 ≡ ok (some (7 ∷ 8 ∷ []), ip', fs')))))
readi-writei_example =
    readi-writei devices 5 short disk 2 (7 ∷ 8 ∷ []) (λ e. absurd (omega (arith, e)))
      (record { file = short-IsFile; covered = short-Covers; small = omega arith }) two_free
      (omega arith) (omega arith)

itrunc-Truncated_example : Done 5 short disk (itrunc 5 short disk)
itrunc-Truncated_example = itrunc-Truncated 5 short disk short-IsFile

-- A cache that holds inode 5 twice in slot 0 and nothing else.
abbrev unused : Inode
unused = record { dev = 0; inum = 0; ref = 0; valid = false; holder = none; copy = blank }

abbrev cache : Icache
cache = record {
  inode = λ k. if k == 0 then record unused { dev = 1; inum = 5; ref = 2 } else unused;
  fs = disk;
}

abbrev counted : ℕ → ℕ → ℕ
counted dev inum = if (dev == 1) && (inum == 5) then 2 else 0

referenced : (k : ℕ) → (k ≡ 0) ⊎ ((cache.inode k).ref ≡ 0)
referenced k = elim (Bool-cases (k == 0)) [
  | inl q ↦ inl ((==_iff k 0).0 q)
  | inr q ↦ inr (rw q refl)
]

cache-Represents : Represents cache counted
cache-Represents = record {
  small = λ k l. elim (referenced k) [
    | inl e ↦ omega (arith, ap (λ j. (cache.inode j).ref) e)
    | inr e ↦ omega (arith, e)
  ];
  owned = λ k l h. elim (referenced k) [ inl e ↦ rw e refl | inr e ↦ absurd (omega (arith, h, e)) ];
  unique = λ j k l m h h' _ _. elim (referenced j) [
    | inr e ↦ absurd (omega (arith, h, e))
    | inl e ↦ elim (referenced k) [ inl e' ↦ e ∙ sym e' | inr e' ↦ absurd (omega (arith, h', e')) ]
  ];
  backed = λ dev inum h. elim (Bool-cases (dev == 1)) [
    | inr q ↦ absurd (omega (arith, rw q at h))
    | inl q ↦ elim (Bool-cases (inum == 5)) [
      | inr r ↦ absurd (omega (arith, rw (q, r) at h))
      | inl r ↦
          (0, (omega arith, (omega arith, (sym ((==_iff dev 1).0 q), sym ((==_iff inum 5).0 r)))))
    ]
  ];
}

iget-Got_example : Got cache counted 1 6 (iget cache 1 6)
iget-Got_example = iget-Got cache counted 1 6 cache-Represents (omega arith)

iput-Represents_example :
    (c' : Icache) × ((iput cache 0 ≡ ok c')
      × ((c'.fs ≡ disk) × Represents c' (assign counted 1 5 (2 - 1))))
iput-Represents_example =
    iput-Represents cache counted 0 cache-Represents (omega arith) (omega arith) refl

-- A directory of one entry, and a name that it lacks.
abbrev folder : Dinode
folder = record short { type = 1; size = 16 }

folder-IsDirectory : IsDirectory folder disk
folder-IsDirectory = record {
  type = refl;
  entries = omega arith;
  covered = λ i l m e.
      let block : i / bsize ≡ 0 = omega arith in
      absurd (omega (arith, e, ap (slot short disk) block));
  small = omega arith;
}

abbrev letter : ℕ → ℕ
letter i = if i == 0 then 65 else 0

lookup-IsFirst_example :
    (r : Option (ℕ × ℕ)) × ((lookup devices letter folder disk ≡ ok (r, folder, disk))
      × IsFirst letter (entry_at folder disk) (16 / dirent_size) r)
lookup-IsFirst_example = lookup-IsFirst devices letter folder disk folder-IsDirectory

-- "/ab//c".
abbrev path : List ℕ
path = 47 ∷ 97 ∷ 98 ∷ 47 ∷ 47 ∷ 99 ∷ []
