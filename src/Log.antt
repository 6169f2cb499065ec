-- ===== src/Log.antt =====
-- log.c: the redo log. A block is a function from word numbers to 32-bit words, the disk and the
-- buffer cache are functions from block numbers to blocks: bread gives the cached block, bwrite
-- copies it to the disk. Each function that writes the disk also returns the disk after each of its
-- writes, in order: the states in which a crash can leave it.
pub mod Install
pub mod Recover
pub mod Crash
pub mod Write
pub mod System
pub mod Space
mod Tests
use cs461_hw.Base.{
  ℕ, zero, suc, ◌+◌, ◌-◌, ◌*◌, ◌≤◌, ◌<◌, Bool, true, false, ◌&&◌, ◌||◌, List, [], ◌∷◌, ◌++◌, ◌==◌,
  ltb, leb, if◌then◌else◌,
}

abbrev pub maxopblocks : ℕ
maxopblocks = 10

abbrev pub logsize : ℕ
logsize = maxopblocks * 3

abbrev pub Block : Type 0
Block = ℕ → ℕ

abbrev pub Disk : Type 0
Disk = ℕ → Block

abbrev pub set_block : Disk → ℕ → Block → Disk
set_block d b x c = if b == c then x else d c

-- `n` and `block` are log.lh; `dirty` is B_DIRTY of the cached buffers.
pub record Log : Type 0 where
  pub disk : Disk
  pub cache : Disk
  pub dirty : ℕ → Bool
  pub begin : ℕ
  pub size : ℕ
  pub outstanding : ℕ
  pub committing : Bool
  pub n : ℕ
  pub block : ℕ → ℕ

-- bwrite: the cached block goes to the disk, which clears B_DIRTY.
pub bwrite : Log → ℕ → Log
bwrite s b = record s {
  disk = set_block s.disk b (s.cache b);
  dirty = λ c. if b == c then false else s.dirty c;
}

-- memmove(to->data, from->data, BSIZE) on cached blocks.
pub copy_block : Log → (to from : ℕ) → Log
copy_block s to from = record s { cache = set_block s.cache to (s.cache from) }

-- The rounds of install_trans from `tail` on.
pub install_loop : ℕ → ℕ → Log → Log × List Disk
install_loop zero tail s = (s, [])
install_loop (suc k) tail s =
    let s' = bwrite (copy_block s (s.block tail) (s.begin + tail + 1)) (s.block tail) in
    let rest = install_loop k (suc tail) s' in (rest.0, s'.disk ∷ rest.1)

pub install_trans : Log → Log × List Disk
install_trans s = install_loop s.n 0 s

pub read_head : Log → Log
read_head s =
    let head = s.cache s.begin in
    record s { n = head 0; block = λ i. if ltb i (head 0) then head (i + 1) else s.block i }

-- Word 0 of the header is `n`, the words behind it are `block`.
pub write_head : Log → Log
write_head s =
    let head =
      λ (i : ℕ). if i == 0 then s.n else if leb i s.n then s.block (i - 1) else s.cache s.begin i in
    bwrite (record s { cache = set_block s.cache s.begin head }) s.begin

-- After a crash: the cache is read from the disk anew.
pub recover_from_log : Log → Log × List Disk
recover_from_log s =
    let (s', trace) = install_trans (read_head s) in
    let s'' = write_head (record s' { n = 0 }) in (s'', trace ++ (s''.disk ∷ []))

pub crash : Log → Disk → Log
crash s d = record s {
  disk = d;
  cache = d;
  dirty = λ _. false;
  outstanding = 0;
  committing = false;
}

-- The rounds of write_log from `tail` on.
pub write_loop : ℕ → ℕ → Log → Log × List Disk
write_loop zero tail s = (s, [])
write_loop (suc k) tail s =
    let s' = bwrite (copy_block s (s.begin + tail + 1) (s.block tail)) (s.begin + tail + 1) in
    let rest = write_loop k (suc tail) s' in (rest.0, s'.disk ∷ rest.1)

pub write_log : Log → Log × List Disk
write_log s = write_loop s.n 0 s

pub commit : Log → Log × List Disk
commit s =
    if ltb 0 s.n
    then (let (s1, logged) = write_log s in
        let s2 = write_head s1 in
        let (s3, installed) = install_trans s2 in
        let s4 = write_head (record s3 { n = 0 }) in
        (s4, logged ++ (s2.disk ∷ installed ++ (s4.disk ∷ []))))
    else (s, [])

-- What a call does when it is run: it returns, sleeps until it is woken, or panics.
pub data Result : Type 0 where
  done : Log → Result
  asleep : Result
  panic : Result

pub begin_op : Log → Result
begin_op s =
    if s.committing
    then asleep
    else if ltb logsize (s.n + (s.outstanding + 1) * maxopblocks)
    then asleep
    else done (record s { outstanding = s.outstanding + 1 })

-- end_op up to its first release; it runs with at least one operation outstanding. `committing` of
-- the new state is do_commit, since it was clear before.
pub end_op_start : Log → Result
end_op_start s =
    let k = s.outstanding - 1 in
    if s.committing then panic else done (record s { outstanding = k; committing = k == 0 })

-- The rest of end_op, if do_commit is set.
pub end_op_finish : Log → Log
end_op_finish s = record (commit s).0 { committing = false }

abbrev end_op_rest : Result → Result
end_op_rest (done s) = if s.committing then done (end_op_finish s) else done s
end_op_rest asleep = asleep
end_op_rest panic = panic

-- end_op with nothing in between.
end_op : Log → Result
end_op s = end_op_rest (end_op_start s)

-- The index that the search of log_write stops at, from `i` on with `k` places left.
pub find_block : ℕ → ℕ → (ℕ → ℕ) → ℕ → ℕ
find_block zero i block b = i
find_block (suc k) i block b =
    let rest = find_block k (suc i) block b in if block i == b then i else rest

pub log_write : Log → ℕ → Result
log_write s b =
    if leb logsize s.n || leb (s.size - 1) s.n
    then panic
    else if ltb s.outstanding 1
    then panic
    else (let i = find_block s.n 0 s.block b in
        done (record s {
          block = λ j. if i == j then b else s.block j;
          n = if i == s.n then s.n + 1 else s.n;
          dirty = λ c. if b == c then true else s.dirty c;
        }))
