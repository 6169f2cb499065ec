-- ===== src/Log/System.antt =====
-- The log in use: operations that begin, write blocks and end, in any interleaving. An operation
-- calls log_write only while it has written fewer than op_blocks different blocks: that is one less
-- than begin_op reserves, since the header takes a block of the log that mkfs sizes at LOGSIZE. A
-- later call could meet a full log, at which log_write panics even if the block is in it already.
use cs461_hw.Base.{
  ℕ, ◌+◌, ◌-◌, ◌*◌, ◌≤◌, ◌<◌, ◌≡◌, inl, inr, sym, Bool, true, false, ◌||◌, List, [], ◌∷◌, ◌++◌,
  ◌==◌, if◌then◌else◌, arith, length, length-append, All, All-map, Bool-cases, ==_iff,
}
use cs461_hw.Log.{
  Block, set_block, maxopblocks, logsize, Log, log_write, Result, done, asleep, panic, begin_op,
  end_op_start, end_op_finish,
}
use cs461_hw.Log.Recover.{IsHome, IsLog}
use cs461_hw.Log.Write.{IsLogged}

-- How many different blocks an operation writes at most.
abbrev pub op_blocks : ℕ
op_blocks = maxopblocks - 1

-- The blocks that one operation has written, each once.
abbrev pub has : ℕ → List ℕ → Bool
has b [] = false
has b (c ∷ bs) = (c == b) || has b bs

abbrev pub add : ℕ → List ℕ → List ℕ
add b bs = if has b bs then bs else b ∷ bs

-- `ops` has the blocks of every operation between its begin_op and its end_op.
pub data System : Type 0 where
  running : Log → List (List ℕ) → System
  panicked : System

abbrev pub after : Result → System → List (List ℕ) → System
after (done l) s ops = running l ops
after asleep s ops = s
after panic s ops = panicked

-- What processes do: begin_op; changing a cached block and passing it to log_write; end_op, whose
-- commit runs after its first critical section, while begin_op may run.
pub data Step : System → System → Type 0 where
  begins :
      (l : Log) (ops : List (List ℕ))
      → Step (running l ops) (after (begin_op l) (running l ops) ([] ∷ ops))
  writes :
      (l : Log) (xs ys : List (List ℕ)) (bs : List ℕ) (b : ℕ) (x : Block)
      → IsHome l b
      → length bs < op_blocks
      → Step (running l (xs ++ (bs ∷ ys))) (
          after
            (log_write (record l { cache = set_block l.cache b x }) b)
            (running l (xs ++ (bs ∷ ys)))
            (xs ++ (add b bs ∷ ys)))
  ends :
      (l : Log) (xs ys : List (List ℕ)) (bs : List ℕ)
      → Step
          (running l (xs ++ (bs ∷ ys)))
          (after (end_op_start l) (running l (xs ++ (bs ∷ ys))) (xs ++ ys))
  commits :
      (l : Log) (ops : List (List ℕ))
      → l.committing ≡ true
      → Step (running l ops) (running (end_op_finish l) ops)

pub data Reach (s : System) : System → Type 0 where
  start : Reach s s
  later : (t u : System) → Reach s t → Step t u → Reach s u

-- The log that initlog leaves: no operation, and an empty header. mkfs gives it logsize blocks.
pub record IsFresh (l : Log) : Type 0 where
  pub empty : l.n ≡ 0
  pub large : logsize ≤ l.size
  pub nobody : l.outstanding ≡ 0
  pub unlocked : l.committing ≡ false
  pub clear : l.disk l.begin 0 ≡ 0

-- The blocks that the operations may still write.
abbrev pub spare : List (List ℕ) → ℕ
spare [] = 0
spare (bs ∷ ops) = (op_blocks - length bs) + spare ops

pub record IsRunning (l : Log) (ops : List (List ℕ)) : Type 0 where
  pub log : IsLog l
  pub room : l.n + spare ops < logsize
  pub large : logsize ≤ l.size
  pub counted : l.outstanding ≡ length ops
  pub held : All (All (IsLogged l)) ops
  pub clear : l.disk l.begin 0 ≡ 0
  pub alone : l.committing ≡ true → length ops ≡ 0

abbrev pub IsSound : System → Type 0
IsSound (running l ops) = IsRunning l ops
IsSound panicked = ⊥

spare-append : (xs ys : List (List ℕ)) → spare (xs ++ ys) ≡ spare xs + spare ys
spare-append [] ys = omega arith
spare-append (x ∷ xs) ys = omega (arith, spare-append xs ys)

pub spare_le : (ops : List (List ℕ)) → spare ops ≤ length ops * op_blocks
spare_le [] = omega arith
spare_le (x ∷ ops) = omega (arith, spare_le ops)

module _ {A : Type 0} (P : A → Type 0) where
  All-front : (xs ys : List A) → All P (xs ++ ys) → All P xs
  All-front [] ys a = tt
  All-front (x ∷ xs) ys a = (a.0, All-front xs ys a.1)

  All-back : (xs ys : List A) → All P (xs ++ ys) → All P ys
  All-back [] ys a = a
  All-back (x ∷ xs) ys a = All-back xs ys a.1

pub All-has : (P : ℕ → Type 0) (b : ℕ) (bs : List ℕ) → All P bs → has b bs ≡ true → P b
All-has P b [] a h = absurd (ground arith)
All-has P b (c ∷ bs) a h = elim (Bool-cases (c == b)) [
  | inl e ↦ rw (sym ((==_iff c b).0 e)) a.0
  | inr e ↦ let rest : has b bs ≡ true = rw e at h in All-has P b bs a.1 rest
]

pub held_moved :
    (l t : Log) (ops : List (List ℕ))
    → ((b : ℕ) → IsLogged l b → IsLogged t b)
    → All (All (IsLogged l)) ops
    → All (All (IsLogged t)) ops
held_moved l t ops h a = All-map ops (λ bs. All-map bs h) a

-- The member of `xs ++ (bs ∷ ys)` between.
module _ (bs : List ℕ) (xs ys : List (List ℕ)) where
  pub length_between : length (xs ++ (bs ∷ ys)) ≡ length (xs ++ ys) + 1
  length_between = omega (arith, length-append xs (bs ∷ ys), length-append xs ys)

  pub spare_between :
      (cs : List ℕ) → spare (xs ++ (cs ∷ ys)) ≡ spare (xs ++ ys) + (op_blocks - length cs)
  spare_between cs = omega (arith, spare-append xs (cs ∷ ys), spare-append xs ys)

  pub All-between : (P : List ℕ → Type 0) → All P (xs ++ (bs ∷ ys)) → All P xs × P bs × All P ys
  All-between P a =
      let back = All-back P xs (bs ∷ ys) a in (All-front P xs (bs ∷ ys) a, back.0, back.1)
