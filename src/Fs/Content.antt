-- ===== src/Fs/Content.antt =====
-- fs.c: readi and writei, which copy bytes of a file by blocks, and iupdate. The table devsw of
-- device routines is a parameter.
pub mod Read
pub mod Overlay
pub mod Put
pub mod Round
pub mod Write
use cs461_hw.Base.{
  ℕ, zero, suc, ◌+◌, ◌-◌, ◌*◌, ◌/◌, ◌%◌, ◌^◌, min, Bool, ◌&&◌, ◌||◌, List, [], ◌∷◌, ◌++◌, Option,
  none, some, ◌==◌, ltb, leb, if◌then◌else◌, length, take, drop,
}
use cs461_hw.Fs.{
  bsize, ipb, maxfile, t_dev, Superblock, Dinode, Fs, Out, ok, panic, ◌>>=◌, iblock, log_write,
  set_bytes, bmap,
}

abbrev ndev : ℕ
ndev = 10

-- What readi and writei return: none for -1, the bytes read or the number written.
abbrev pub Read : Type 0
Read = Out (Option (List ℕ) × Dinode × Fs)

abbrev Write : Type 0
Write = Out (Option ℕ × Dinode × Fs)

pub record Devsw : Type 0 where
  pub read : ℕ → Option (Dinode → Fs → (off n : ℕ) → Read)
  pub write : ℕ → Option (Dinode → Fs → (off : ℕ) → List ℕ → Write)

-- memmove of `n` bytes from `start` on.
unfoldable pub read_bytes : (ℕ → ℕ) → (start n : ℕ) → List ℕ
read_bytes x start zero = []
read_bytes x start (suc n) = x start ∷ read_bytes x (suc start) n

-- The element `i` of a list, `d` past its end.
abbrev pub nth : List ℕ → (i d : ℕ) → ℕ
nth [] i d = d
nth (x ∷ xs) zero d = x
nth (x ∷ xs) (suc i) d = nth xs i d

-- memmove of a list of bytes to `start` on.
abbrev pub overlay : (ℕ → ℕ) → (start : ℕ) → List ℕ → ℕ → ℕ
overlay x start xs j = if leb start j then nth xs (j - start) (x j) else x j

-- `ip->major < 0 || ip->major >= NDEV` of a short in two's complement.
abbrev bad_major : ℕ → Bool
bad_major major = leb (2 ^ 15) major || leb ndev major

abbrev read_dev : Option (Dinode → Fs → (off n : ℕ) → Read) → Dinode → Fs → (off n : ℕ) → Read
read_dev none ip fs off n = ok (none, ip, fs)
read_dev (some f) ip fs off n = f ip fs off n

abbrev write_dev :
    Option (Dinode → Fs → (off : ℕ) → List ℕ → Write) → Dinode → Fs → (off : ℕ) → List ℕ → Write
write_dev none ip fs off src = ok (none, ip, fs)
write_dev (some f) ip fs off src = f ip fs off src

-- The loop of readi with `n` bytes left. Each round reads a byte at least.
unfoldable pub read_loop : (fuel : ℕ) → Dinode → Fs → (off n : ℕ) → Out (List ℕ × Dinode × Fs)
read_loop zero ip fs off n = ok ([], ip, fs)
read_loop (suc fuel) ip fs off zero = ok ([], ip, fs)
read_loop (suc fuel) ip fs off (suc n) =
    let m = min (suc n) (bsize - off % bsize) in
    do
      r ← bmap ip fs (off / bsize)
      s ← read_loop fuel r.1 r.2 ((off + m) % 2 ^ 32) (suc n - m)
      ok (read_bytes (r.2.bytes r.0) (off % bsize) m ++ s.0, s.1, s.2)

unfoldable pub readi : Devsw → Dinode → Fs → (off n : ℕ) → Read
readi devsw ip fs off n =
    if ip.type == t_dev
    then (if bad_major ip.major
        then ok (none, ip, fs)
        else read_dev (devsw.read ip.major) ip fs off n)
    else if ltb ip.size off || ltb ((off + n) % 2 ^ 32) off
    then ok (none, ip, fs)
    else (let m = if ltb ip.size ((off + n) % 2 ^ 32) then ip.size - off else n in
        do r ← read_loop m ip fs off m; ok (some r.0, r.1, r.2))

-- Copy an in-memory inode to the disk.
unfoldable pub iupdate : (inum : ℕ) → Dinode → Fs → Fs
iupdate inum ip fs =
    let block = iblock inum fs.sb in
    log_write
      (record fs {
        dinodes = λ c k. if (c == block) && (k == inum % ipb) then ip else fs.dinodes c k;
      })
      block

-- The loop of writei with the bytes left. It ends with the offset past the last byte.
pub write_loop : (fuel : ℕ) → Dinode → Fs → (off : ℕ) → List ℕ → Out (ℕ × Dinode × Fs)
write_loop zero ip fs off src = ok (off, ip, fs)
write_loop (suc fuel) ip fs off [] = ok (off, ip, fs)
write_loop (suc fuel) ip fs off (x ∷ xs) =
    let src = x ∷ xs in
    let m = min (length src) (bsize - off % bsize) in
    do
      r ← bmap ip fs (off / bsize)
      write_loop fuel r.1
          (log_write (set_bytes r.2 r.0 (overlay (r.2.bytes r.0) (off % bsize) (take m src))) r.0)
          ((off + m) % 2 ^ 32) (drop m src)

-- The end of writei, at the offset `off` past the last of `n` bytes.
pub finish : (inum n off : ℕ) → Dinode → Fs → Write
finish inum n off ip fs =
    let grown = record ip { size = off } in
    if ltb 0 n && ltb ip.size off
    then ok (some n, grown, iupdate inum grown fs)
    else ok (some n, ip, fs)

pub writei : Devsw → (inum : ℕ) → Dinode → Fs → (off : ℕ) → (src : List ℕ) → Write
writei devsw inum ip fs off src =
    let n = length src in
    if ip.type == t_dev
    then (if bad_major ip.major
        then ok (none, ip, fs)
        else write_dev (devsw.write ip.major) ip fs off src)
    else if ltb ip.size off || ltb ((off + n) % 2 ^ 32) off
    then ok (none, ip, fs)
    else if ltb (maxfile * bsize) ((off + n) % 2 ^ 32)
    then ok (none, ip, fs)
    else (do r ← write_loop n ip fs off src; finish inum n r.0 r.1 r.2)
