-- ===== src/Fs/Content/Write.antt =====
-- writei puts its bytes into the file and changes no other file; readi gives them back.
use cs461_hw.Base.{
  ℕ, zero, suc, ◌+◌, ◌-◌, ◌*◌, ◌/◌, ◌%◌, ◌^◌, ◌≡◌, ◌≢◌, ◌≤◌, ◌<◌, inl, inr, refl, sym, ap, ◌∙◌, min,
  List, [], ◌∷◌, Option, some, ltb, if◌then◌else◌, length, take, drop, arith, Bool-cases, if_true,
  if_false, ==_of_ne, ltb→lt, lt→ltb, ltb→ge, ltb_of_ge,
}
use native.Mathlib.Decide.{dec_lt}
use cs461_hw.Fs.{bsize, maxfile, t_dev, Dinode, Fs, Out, ok, bmap}
use cs461_hw.Fs.Slots.{slot, IsFile}
use cs461_hw.Fs.Spare.{Spare, Spare-le, Spare-same}
use cs461_hw.Fs.Map.{bmap-Mapped}
use cs461_hw.Fs.Content.{Devsw, overlay, read_bytes, readi, write_loop, finish, iupdate, writei}
use cs461_hw.Fs.Content.Read.{content, Covers, readi_lem, read_bytes_same}
use cs461_hw.Fs.Content.Overlay.{read_bytes-overlay, take-drop, length-take, length-drop}
use cs461_hw.Fs.Content.Round.{
  touched, touched_next, Written, Written-none, round-Written, Written-then,
}
use cs461_hw.Fs.Content.Put.{put}

write_loop_next :
    (fuel : ℕ) (ip : Dinode) (fs : Fs) (off m a end : ℕ) (x : ℕ) (xs : List ℕ) (ip' ip'' : Dinode)
    (fs' fs'' : Fs)
    → m ≡ min (length (x ∷ xs)) (bsize - off % bsize)
    → bmap ip fs (off / bsize) ≡ ok (a, ip', fs')
    → (off + m) % 2 ^ 32 ≡ off + m
    → off + m + length (drop m (x ∷ xs)) ≡ end
    → write_loop fuel ip' (put fs' a (off % bsize) (take m (x ∷ xs))) (off + m) (drop m (x ∷ xs))
      ≡ ok (off + m + length (drop m (x ∷ xs)), ip'', fs'')
    → write_loop (suc fuel) ip fs off (x ∷ xs) ≡ ok (end, ip'', fs'')
unfolding write_loop
write_loop_next fuel ip fs off m a end x xs ip' ip'' fs' fs'' e mapped wrap whole rest =
    rw (sym e, mapped, wrap, sym whole) rest

-- How the loop ends.
abbrev Ends : Dinode → Fs → (off : ℕ) → List ℕ → Out (ℕ × Dinode × Fs) → Type 0
Ends ip fs off src r =
    (ip' : Dinode) × ((fs' : Fs) × ((r ≡ ok (off + length src, ip', fs'))
        × (Written ip fs off src ip' fs' × (ip'.size ≡ ip.size))))

write_loop-Ends :
    (fuel : ℕ) (ip : Dinode) (fs : Fs) (off : ℕ) (src : List ℕ)
    → length src ≤ fuel
    → off + length src ≤ maxfile * bsize
    → IsFile ip fs
    → Spare (2 * touched off (length src)) fs
    → Ends ip fs off src (write_loop fuel ip fs off src)
unfolding write_loop
write_loop-Ends zero ip fs off [] l b f spare =
    let count : off + 0 ≡ off = omega arith in
    (ip, (fs, (rw count refl, (Written-none ip fs off f, refl))))
write_loop-Ends zero ip fs off (x ∷ xs) l b f spare = absurd (omega arith)
write_loop-Ends (suc fuel) ip fs off [] l b f spare =
    let count : off + 0 ≡ off = omega arith in
    (ip, (fs, (rw count refl, (Written-none ip fs off f, refl))))
write_loop-Ends (suc fuel) ip fs off (x ∷ xs) l b f spare =
    let n : ℕ = length (x ∷ xs) in
    let m : ℕ = min n (bsize - off % bsize) in
    let e : m ≡ min n (bsize - off % bsize) = refl in
    let piece : List ℕ = take m (x ∷ xs) in
    let rest : List ℕ = drop m (x ∷ xs) in
    let lp : length piece ≡ m = length-take m (x ∷ xs) (omega (arith, e)) in
    let lr : length rest ≡ n - m = length-drop m (x ∷ xs) in
    let less = touched_next off n m (omega arith) e in
    let (a, (ip', (fs', (mapped, (maps, left))))) =
      bmap-Mapped ip fs (off / bsize) f
        (Spare-le fs 2 (2 * touched off n) (omega (arith, less)) spare) (omega arith) in
    let k : ℕ = 2 * touched (off + m) (n - m) in
    let fs1 : Fs = put fs' a (off % bsize) piece in
    let first : Written ip fs off piece ip' fs1 =
      round-Written ip fs off a piece ip' fs' f (omega arith) (omega (arith, lp, e)) maps in
    let remaining : Spare k fs1 =
      Spare-same fs' fs1 k refl (λ c. refl)
        (left k (Spare-le fs (2 + k) (2 * touched off n) (omega (arith, less)) spare)) in
    let (ip'', (fs'', (run, (second, size)))) =
      write_loop-Ends fuel ip' fs1 (off + m) rest (omega (arith, lr, e)) (omega (arith, lr, e))
        first.file
        (Spare-le fs1 (2 * touched (off + m) (length rest)) k
          (omega (arith, ap (touched (off + m)) lr)) remaining) in
    let wrap : (off + m) % 2 ^ 32 ≡ off + m = omega (arith, e) in
    let end : off + m + length rest ≡ off + n = omega (arith, lr, e) in
    (
      ip'',
      (
        fs'',
        (
          write_loop_next fuel ip fs off m a (off + n) x xs ip' ip'' fs' fs'' e mapped wrap end run,
          (
            Written-then ip ip' ip'' fs fs1 fs'' off (off + m) piece rest (x ∷ xs)
                (omega (arith, lp, e)) (omega (arith, lp)) (take-drop m (x ∷ xs)) first second,
            size ∙ maps.size,
          ),
        ),
      ),
    )

-- A file that has every block below its end.
pub record IsWhole (ip : Dinode) (fs : Fs) : Type 0 where
  pub file : IsFile ip fs
  pub covered : Covers ip fs 0 ip.size
  pub small : ip.size ≤ maxfile * bsize

-- The size after `n` bytes at `off`.
abbrev pub size_after : (size off n : ℕ) → ℕ
size_after size off n = if ltb size (off + n) then off + n else size

le_size_after : (size off n : ℕ) → off + n ≤ size_after size off n
le_size_after size off n = elim (Bool-cases (ltb size (off + n))) [
  | inl q ↦ rw q (omega arith)
  | inr q ↦ rw q (ltb→ge size (off + n) q)
]

size_after_le :
    (size off n : ℕ)
    → size ≤ maxfile * bsize
    → off + n ≤ maxfile * bsize
    → size_after size off n ≤ maxfile * bsize
size_after_le size off n h b = elim (Bool-cases (ltb size (off + n))) [
  | inl q ↦ rw q b
  | inr q ↦ rw q h
]

-- The end of writei keeps what was written and sets the size, on the disk too if it grows.
finish-Written :
    (inum : ℕ) (ip : Dinode) (fs : Fs) (off : ℕ) (src : List ℕ) (ip' : Dinode) (fs' : Fs)
    → Written ip fs off src ip' fs'
    → ip'.size ≡ ip.size
    → (size : ℕ)
    → Written ip fs off src
        (record ip' { size = size })
        (iupdate inum (record ip' { size = size }) fs')
unfolding iupdate
finish-Written inum ip fs off src ip' fs' w e size = record {
  file = record {
    small = w.file.small;
    boot = w.file.boot;
    held = w.file.held;
    inside = w.file.inside;
    apart = w.file.apart;
  };
  sb = w.sb;
  type = w.type;
  now = w.now;
  covered = w.covered;
  kept = w.kept;
  others = w.others;
}

-- How writei ends.
abbrev pub Wrote : Dinode → Fs → (off : ℕ) → List ℕ → Out (Option ℕ × Dinode × Fs) → Type 0
Wrote ip fs off src r =
    (ip' : Dinode) × ((fs' : Fs) × ((r ≡ ok (some (length src), ip', fs'))
        × (Written ip fs off src ip' fs' × (ip'.size ≡ size_after ip.size off (length src)))))

finish-Wrote :
    (inum : ℕ) (ip : Dinode) (fs : Fs) (off : ℕ) (src : List ℕ) (ip' : Dinode) (fs' : Fs)
    → off ≤ ip.size
    → Written ip fs off src ip' fs'
    → ip'.size ≡ ip.size
    → Wrote ip fs off src (finish inum (length src) (off + length src) ip' fs')
unfolding finish
finish-Wrote inum ip fs off src ip' fs' l w e =
    let n : ℕ = length src in
    elim (Bool-cases (ltb ip'.size (off + n))) [
      | inl q ↦
          let longer : ip.size < off + n = omega (arith, e, ltb→lt ip'.size (off + n) q) in
          let grown : Dinode = record ip' { size = off + n } in
          rw (lt→ltb 0 n (omega (arith, longer, l)), q)
            (
              grown,
              (
                iupdate inum grown fs',
                (
                  refl,
                  (
                    finish-Written inum ip fs off src ip' fs' w e (off + n),
                    sym (
                        if_true (off + n) ip.size (ltb ip.size (off + n))
                          (lt→ltb ip.size (off + n) longer)),
                  ),
                ),
              ),
            )
      | inr q ↦
          let within : off + n ≤ ip.size = omega (arith, e, ltb→ge ip'.size (off + n) q) in
          let same = sym (
            if_false (off + n) ip.size (ltb ip.size (off + n))
              (ltb_of_ge ip.size (off + n) within)) in
          elim (Bool-cases (ltb 0 n)) [
            | inl r ↦ rw (r, q) (ip', (fs', (refl, (w, e ∙ same))))
            | inr r ↦ rw r (ip', (fs', (refl, (w, e ∙ same))))
          ]
    ]

writei_passes :
    (devsw : Devsw) (inum : ℕ) (ip : Dinode) (fs : Fs) (off : ℕ) (src : List ℕ) (ip' : Dinode)
    (fs' : Fs)
    → ip.type ≢ t_dev
    → off ≤ ip.size
    → off + length src ≤ maxfile * bsize
    → write_loop (length src) ip fs off src ≡ ok (off + length src, ip', fs')
    → writei devsw inum ip fs off src ≡ finish inum (length src) (off + length src) ip' fs'
unfolding writei
writei_passes devsw inum ip fs off src ip' fs' t l b run =
    let n : ℕ = length src in
    let whole : (off + n) % 2 ^ 32 ≡ off + n = omega arith in
    rw
      (
        ==_of_ne ip.type t_dev t,
        whole,
        ltb_of_ge ip.size off l,
        ltb_of_ge (off + n) off (omega arith),
        ltb_of_ge (maxfile * bsize) (off + n) b,
        run,
      )
      refl

-- writei to a file, no device, whose blocks are in use and all different, at an offset up to its end,
-- within the largest size and with two free blocks for each block it touches, returns the number of
-- bytes. They are then the content of the file at that place, all other bytes of the file and the
-- blocks outside it stay, and the size is the end of the bytes if they pass the old one.
pub writei-Wrote :
    (devsw : Devsw) (inum : ℕ) (ip : Dinode) (fs : Fs) (off : ℕ) (src : List ℕ)
    → ip.type ≢ t_dev
    → IsFile ip fs
    → Spare (2 * touched off (length src)) fs
    → off ≤ ip.size
    → off + length src ≤ maxfile * bsize
    → Wrote ip fs off src (writei devsw inum ip fs off src)
writei-Wrote devsw inum ip fs off src t f spare l b =
    let (ip', (fs', (run, (w, e)))) =
      write_loop-Ends (length src) ip fs off src (omega arith) b f spare in
    rw (writei_passes devsw inum ip fs off src ip' fs' t l b run)
      (finish-Wrote inum ip fs off src ip' fs' l w e)

pub Covers_after :
    (ip : Dinode) (fs : Fs) (off : ℕ) (src : List ℕ) (ip' : Dinode) (fs' : Fs)
    → IsWhole ip fs
    → off + length src ≤ maxfile * bsize
    → Written ip fs off src ip' fs'
    → off ≤ ip.size
    → (i : ℕ) → i < size_after ip.size off (length src)
    → slot ip' fs' (i / bsize) ≢ 0
Covers_after ip fs off src ip' fs' h b w l i m = elim (dec_lt i ip.size) [
  | yes old ↦ w.kept (i / bsize) (omega (arith, h.small)) (h.covered i (omega arith) (omega arith))
  | no past ↦ elim (Bool-cases (ltb ip.size (off + length src))) [
    | inl q ↦ w.covered i (omega arith) (rw q at m)
    | inr q ↦ absurd (past (rw q at m))
  ]
]

-- writei to a whole file, no device, at an offset up to its end, within the largest size and with two
-- free blocks for each block it touches, keeps the file whole, and readi of the same place then gives
-- the bytes back.
pub readi-writei :
    (devsw : Devsw) (inum : ℕ) (ip : Dinode) (fs : Fs) (off : ℕ) (src : List ℕ)
    → ip.type ≢ t_dev
    → IsWhole ip fs
    → Spare (2 * touched off (length src)) fs
    → off ≤ ip.size
    → off + length src ≤ maxfile * bsize
    → (ip' : Dinode) × ((fs' : Fs) × ((writei devsw inum ip fs off src
            ≡ ok (some (length src), ip', fs'))
          × (IsWhole ip' fs' × (readi devsw ip' fs' off (length src) ≡ ok (some src, ip', fs')))))
readi-writei devsw inum ip fs off src t h spare l b =
    let n : ℕ = length src in
    let (ip', (fs', (run, (w, size)))) = writei-Wrote devsw inum ip fs off src t h.file spare l b in
    let bound : ip'.size ≤ maxfile * bsize = rw size (size_after_le ip.size off n h.small b) in
    let long : off + n ≤ ip'.size = rw size (le_size_after ip.size off n) in
    let covers : Covers ip' fs' 0 ip'.size =
      λ i _ m. Covers_after ip fs off src ip' fs' h b w l i (omega (arith, m, size)) in
    let count : min n (ip'.size - off) ≡ n = omega (arith, long) in
    let bytes : read_bytes (content ip' fs') off n ≡ src =
      read_bytes_same (content ip' fs') (overlay (content ip fs) off src) off off n
        (λ j m. w.now (off + j) (omega (arith, b)))
      ∙ read_bytes-overlay (content ip fs) off src in
    (
      ip',
      (
        fs',
        (
          run,
          (
            record { file = w.file; covered = covers; small = bound },
            readi_lem devsw ip' fs' off n (λ z. t (sym w.type ∙ z)) bound covers
                  (omega (arith, long)) (omega (arith, b))
                ∙ ap (λ k. ok (some (read_bytes (content ip' fs') off k), ip', fs')) count
                ∙ ap (λ xs. ok (some xs, ip', fs')) bytes,
          ),
        ),
      ),
    )
