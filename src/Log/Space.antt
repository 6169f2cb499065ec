-- ===== src/Log/Space.antt =====
-- begin_op's reservation suffices: no step of the log's users leads to a panic.
use cs461_hw.Base.{
  ℕ, ◌+◌, ◌-◌, ◌*◌, ◌<◌, ◌≡◌, inl, inr, refl, ap, sym, ◌∙◌, true, List, [], ◌∷◌, ◌++◌, ◌==◌, ltb,
  arith, length, All, All-map, All-append, Bool-cases, ltb→ge, ==_iff,
}
use cs461_hw.Log.{
  Block, set_block, maxopblocks, logsize, Log, log_write, done, asleep, begin_op, end_op_start,
  end_op_finish, commit,
}
use cs461_hw.Log.Recover.{IsHome}
use cs461_hw.Log.Crash.{IsSafe, commit-IsSafe, commit_empty}
use cs461_hw.Log.Write.{IsLogged, Noted, log_write-Noted}
use cs461_hw.Log.System.{
  has, add, op_blocks, System, after, Step, Reach, IsFresh, spare, IsRunning, IsSound, spare_le,
  All-has, held_moved, length_between, spare_between, All-between, running, begins, writes, ends,
  commits, start, later,
}

begins-IsSound :
    (l : Log) (ops : List (List ℕ))
    → IsRunning l ops
    → IsSound (after (begin_op l) (running l ops) ([] ∷ ops))
unfolding begin_op
begins-IsSound l ops r = elim (Bool-cases l.committing) [
  | inl e ↦ let sleeps : begin_op l ≡ asleep = rw e refl in rw sleeps r
  | inr e ↦ elim (Bool-cases (ltb logsize (l.n + (l.outstanding + 1) * maxopblocks))) [
    | inl full ↦ let sleeps : begin_op l ≡ asleep = rw (e, full) refl in rw sleeps r
    | inr fits ↦
        let l' : Log = record l { outstanding = l.outstanding + 1 } in
        let returns : begin_op l ≡ done l' = rw (e, fits) refl in
        rw returns (record {
          log = record { fits = r.log.fits; home = r.log.home; distinct = r.log.distinct };
          room = omega (arith, ltb→ge logsize _ fits, spare_le ops, r.counted);
          large = r.large;
          counted = omega (arith, r.counted);
          held = (
            tt,
            held_moved l l' ops (λ b i. record { at = i.at; inside = i.inside; same = i.same })
                r.held,
          );
          clear = r.clear;
          alone = λ c. absurd (ground arith);
        })
  ]
]

ends-IsSound :
    (l : Log) (xs ys : List (List ℕ)) (bs : List ℕ)
    → IsRunning l (xs ++ (bs ∷ ys))
    → IsSound (after (end_op_start l) (running l (xs ++ (bs ∷ ys))) (xs ++ ys))
unfolding end_op_start
ends-IsSound l xs ys bs r = elim (Bool-cases l.committing) [
  | inl e ↦ absurd (omega (arith, r.alone e, length_between bs xs ys))
  | inr e ↦
      let k = l.outstanding - 1 in
      let l' : Log = record l { outstanding = k; committing = k == 0 } in
      let count = length_between bs xs ys in
      let others = All-between bs xs ys (All (IsLogged l)) r.held in
      let returns : end_op_start l ≡ done l' = rw e refl in
      rw returns (record {
        log = record { fits = r.log.fits; home = r.log.home; distinct = r.log.distinct };
        room = omega (arith, r.room, spare_between bs xs ys bs);
        large = r.large;
        counted = omega (arith, r.counted, count);
        held =
            held_moved l l' (xs ++ ys)
              (λ b i. record { at = i.at; inside = i.inside; same = i.same })
              (All-append (All (IsLogged l)) xs ys others.0 others.2);
        clear = r.clear;
        alone = λ last. omega (arith, (==_iff k 0).0 last, r.counted, count);
      })
]

commits-IsSound :
    (l : Log) (ops : List (List ℕ))
    → l.committing ≡ true
    → IsRunning l ops
    → IsRunning (end_op_finish l) ops
unfolding end_op_finish
commits-IsSound l (bs ∷ ops) c r = absurd (omega (arith, r.alone c))
commits-IsSound l [] c r =
    let (safe, new, clear, empty) = commit-IsSafe l r.log r.clear in
    let (begin, size, outstanding) = commit_empty l r.log r.clear in
    record {
      log = record {
        fits = omega (arith, r.large);
        home = λ i h. absurd (omega arith);
        distinct = λ i j h g e. absurd (omega arith);
      };
      room = omega arith;
      large = rw size r.large;
      counted = outstanding ∙ r.counted;
      held = tt;
      clear = ap (λ (i : ℕ). (commit l).0.disk i 0) begin ∙ clear;
      alone = λ e. absurd (ground arith);
    }

-- Writing a block keeps the reservation: a new block takes its place out of the writer's share.
writes_room :
    (l t : Log) (xs ys : List (List ℕ)) (bs : List ℕ) (b : ℕ)
    → IsRunning l (xs ++ (bs ∷ ys))
    → Noted l b t
    → length bs < op_blocks
    → t.n + spare (xs ++ (add b bs ∷ ys)) < logsize
writes_room l t xs ys bs b r w h = elim (Bool-cases (has b bs)) [
  | inl e ↦
      let same : add b bs ≡ bs = rw e refl in
      let logged = All-has (IsLogged l) b bs (All-between bs xs ys (All (IsLogged l)) r.held).1 e in
      rw same (omega (arith, r.room, w.absorbed logged))
  | inr e ↦
      let more : add b bs ≡ b ∷ bs = rw e refl in
      rw more
        (omega (arith, r.room, w.grows, spare_between bs xs ys bs, spare_between bs xs ys (b ∷ bs)))
]

add_held :
    (l t : Log) (bs : List ℕ) (b : ℕ)
    → Noted l b t
    → All (IsLogged l) bs
    → All (IsLogged t) (add b bs)
add_held l t bs b w a = elim (Bool-cases (has b bs)) [
  | inl e ↦ let same : add b bs ≡ bs = rw e refl in rw same (All-map bs w.older a)
  | inr e ↦ let more : add b bs ≡ b ∷ bs = rw e refl in rw more (w.logged, All-map bs w.older a)
]

module _ (l : Log) (xs ys : List (List ℕ)) (bs : List ℕ) (b : ℕ) (r : IsRunning l (xs ++ (bs ∷ ys)))
    (home : IsHome l b) (h : length bs < op_blocks) where
  Noted-IsRunning : (t : Log) → Noted l b t → IsRunning t (xs ++ (add b bs ∷ ys))
  Noted-IsRunning t w =
      let held = All-between bs xs ys (All (IsLogged l)) r.held in
      let others = λ (os : List (List ℕ)). held_moved l t os w.older in
      record {
        log = w.valid r.log home (omega (arith, r.room, r.large, spare_between bs xs ys bs));
        room = writes_room l t xs ys bs b r w h;
        large = rw w.size r.large;
        counted = omega (
          arith,
          w.outstanding,
          r.counted,
          length_between bs xs ys,
          length_between (add b bs) xs ys,
        );
        held =
            All-append (All (IsLogged t)) xs (add b bs ∷ ys) (others xs held.0)
              (add_held l t bs b w held.1, others ys held.2);
        clear = rw (w.disk, w.begin) r.clear;
        alone =
            λ c. absurd (omega (arith, r.alone (sym w.committing ∙ c), length_between bs xs ys));
      }

writes-IsSound :
    (l : Log) (xs ys : List (List ℕ)) (bs : List ℕ) (b : ℕ) (x : Block)
    → IsHome l b
    → length bs < op_blocks
    → IsRunning l (xs ++ (bs ∷ ys))
    → IsSound (
        after
          (log_write (record l { cache = set_block l.cache b x }) b)
          (running l (xs ++ (bs ∷ ys)))
          (xs ++ (add b bs ∷ ys)))
writes-IsSound l xs ys bs b x home h r =
    let l1 : Log = record l { cache = set_block l.cache b x } in
    let logged : (c : ℕ) → IsLogged l c → IsLogged l1 c =
      λ c i. record { at = i.at; inside = i.inside; same = i.same } in
    let r1 : IsRunning l1 (xs ++ (bs ∷ ys)) = record {
      log = record { fits = r.log.fits; home = r.log.home; distinct = r.log.distinct };
      room = r.room;
      large = r.large;
      counted = r.counted;
      held = held_moved l l1 (xs ++ (bs ∷ ys)) logged r.held;
      clear = r.clear;
      alone = r.alone;
    } in
    let (t, returns, w) =
      log_write-Noted l1 b (omega (arith, r.room, spare_between bs xs ys bs))
        (omega (arith, r.room, r.large, spare_between bs xs ys bs))
        (omega (arith, r.counted, length_between bs xs ys)) in
    rw returns (Noted-IsRunning l1 xs ys bs b r1 home h t w)

Step-IsSound : (s t : System) → Step s t → IsSound s → IsSound t
Step-IsSound _ _ (begins l ops) r = begins-IsSound l ops r
Step-IsSound _ _ (writes l xs ys bs b x home h) r = writes-IsSound l xs ys bs b x home h r
Step-IsSound _ _ (ends l xs ys bs) r = ends-IsSound l xs ys bs r
Step-IsSound _ _ (commits l ops c) r = commits-IsSound l ops c r

-- Operations that begin, write home blocks and end in any order never panic, if each calls log_write
-- only while it has written fewer than op_blocks, 9, different blocks, and the log starts fresh with
-- at least logsize blocks: every reachable state has a valid log whose length and the operations'
-- unused shares of op_blocks stay below logsize, counts the operations, holds every block that they
-- have written, and has an empty header on the disk; a commit is only under way when no operation is.
pub Reach-IsSound : (l : Log) (s : System) → IsFresh l → Reach (running l []) s → IsSound s
Reach-IsSound l _ v start = record {
  log = record {
    fits = omega (arith, v.empty, v.large);
    home = λ i h. absurd (omega (arith, v.empty));
    distinct = λ i j h g e. absurd (omega (arith, v.empty));
  };
  room = omega (arith, v.empty);
  large = v.large;
  counted = v.nobody;
  held = tt;
  clear = v.clear;
  alone = λ c. refl;
}
Reach-IsSound l _ v (later t u r s) = Step-IsSound t u s (Reach-IsSound l t v r)

-- Whenever a log is being committed that operations reach from a fresh one of at least logsize blocks,
-- each calling log_write only while it has written fewer than op_blocks, 9, different blocks: no
-- operation is under way, and a crash between any two of the writes of commit leaves a disk that
-- recovery turns into the old blocks or the new ones.
pub crash-IsSafe :
    (l k : Log) (ops : List (List ℕ))
    → IsFresh l
    → Reach (running l []) (running k ops)
    → k.committing ≡ true
    → (ops ≡ []) × All (IsSafe k) (commit k).1
crash-IsSafe l k ops v r c =
    let s = Reach-IsSound l (running k ops) v r in
    (nobody ops (s.alone c), (commit-IsSafe k s.log s.clear).0)
  where
    nobody : (xs : List (List ℕ)) → length xs ≡ 0 → xs ≡ []
    nobody [] e = refl
    nobody (x ∷ xs) e = absurd (omega arith)
