-- ===== src/Log/Install.antt =====
-- The loops of write_log and install_trans copy one block after the other from a list of sources to
-- a list of destinations: what they leave on the disk, and what a crash inside them leaves.
use cs461_hw.Base.{
  ℕ, zero, suc, ◌+◌, ◌≤◌, ◌<◌, ◌≡◌, ◌≢◌, refl, ap, ◌∙◌, List, [], ◌∷◌, arith, All, ==_refl,
  ==_of_ne,
}
use native.Mathlib.Decide.{dec_lt}
use cs461_hw.Log.{Disk, Log, bwrite, copy_block, install_loop, write_loop}

pub copy_loop : (dst src : ℕ → ℕ) → ℕ → ℕ → Log → Log × List Disk
copy_loop dst src zero tail s = (s, [])
copy_loop dst src (suc k) tail s =
    let s' = bwrite (copy_block s (dst tail) (src tail)) (dst tail) in
    let rest = copy_loop dst src k (suc tail) s' in (rest.0, s'.disk ∷ rest.1)

pub install_loop-copy_loop :
    (k tail : ℕ) (s : Log)
    → install_loop k tail s ≡ copy_loop s.block (λ i. s.begin + i + 1) k tail s
unfolding install_loop copy_loop bwrite copy_block
install_loop-copy_loop zero tail s = refl
install_loop-copy_loop (suc k) tail s =
    let s' = bwrite (copy_block s (s.block tail) (s.begin + tail + 1)) (s.block tail) in
    ap (λ (r : Log × List Disk). (r.0, s'.disk ∷ r.1)) (install_loop-copy_loop k (suc tail) s')

pub write_loop-copy_loop :
    (k tail : ℕ) (s : Log) → write_loop k tail s ≡ copy_loop (λ i. s.begin + i + 1) s.block k tail s
unfolding write_loop copy_loop bwrite copy_block
write_loop-copy_loop zero tail s = refl
write_loop-copy_loop (suc k) tail s =
    let s' = bwrite (copy_block s (s.begin + tail + 1) (s.block tail)) (s.begin + tail + 1) in
    ap (λ (r : Log × List Disk). (r.0, s'.disk ∷ r.1)) (write_loop-copy_loop k (suc tail) s')

-- The header fields that the loops leave alone.
pub record SameHead (s t : Log) : Type 0 where
  pub n : t.n ≡ s.n
  pub block : t.block ≡ s.block
  pub begin : t.begin ≡ s.begin
  pub size : t.size ≡ s.size
  pub outstanding : t.outstanding ≡ s.outstanding

-- `b` is none of the destinations from `tail` on.
abbrev pub Spared : (ℕ → ℕ) → (tail k b : ℕ) → Type 0
Spared dst tail k b = (i : ℕ) → tail ≤ i → i < tail + k → dst i ≢ b

-- What `k` rounds from `tail` on leave.
pub record Copies (dst src : ℕ → ℕ) (tail k : ℕ) (s : Log) (r : Log × List Disk) : Type 0 where
  pub head : SameHead s r.0
  pub here : (i : ℕ) → tail ≤ i → i < tail + k → r.0.disk (dst i) ≡ s.cache (src i)
  pub here_cache : (i : ℕ) → tail ≤ i → i < tail + k → r.0.cache (dst i) ≡ s.cache (src i)
  pub spared : (b : ℕ) → Spared dst tail k b → r.0.disk b ≡ s.disk b
  pub spared_cache : (b : ℕ) → Spared dst tail k b → r.0.cache b ≡ s.cache b
  pub crashes : All (λ (d : Disk). (b : ℕ) → Spared dst tail k b → d b ≡ s.disk b) r.1

module _ (dst src : ℕ → ℕ) (n : ℕ) (apart : (i j : ℕ) → i < n → j < n → dst i ≢ src j)
    (distinct : (i j : ℕ) → i < n → j < n → dst i ≡ dst j → i ≡ j) where
  All-crashes :
      (tail k : ℕ) (d : Disk) (s : Log) (ds : List Disk)
      → ((b : ℕ) → dst tail ≢ b → d b ≡ s.disk b)
      → All (λ (e : Disk). (b : ℕ) → Spared dst (suc tail) k b → e b ≡ d b) ds
      → All (λ (e : Disk). (b : ℕ) → Spared dst tail (suc k) b → e b ≡ s.disk b) ds
  All-crashes tail k d s [] one a = tt
  All-crashes tail k d s (e ∷ ds) one a = (
    λ b sp.
        a.0 b (λ i l h. sp i (omega arith) (omega arith))
        ∙ one b (sp tail (omega arith) (omega arith)),
    All-crashes tail k d s ds one a.1,
  )

  pub copy_loop-Copies :
      (k tail : ℕ) (s : Log) → tail + k ≤ n → Copies dst src tail k s (copy_loop dst src k tail s)
  unfolding copy_loop bwrite copy_block
  copy_loop-Copies zero tail s h = record {
    head = record { n = refl; block = refl; begin = refl; size = refl; outstanding = refl };
    here = λ i l q. absurd (omega arith);
    here_cache = λ i l q. absurd (omega arith);
    spared = λ b q. refl;
    spared_cache = λ b q. refl;
    crashes = tt;
  }
  copy_loop-Copies (suc k) tail s h =
      let s' : Log = bwrite (copy_block s (dst tail) (src tail)) (dst tail) in
      let r = copy_loop-Copies k (suc tail) s' (omega arith) in
      let one : (b : ℕ) → dst tail ≢ b → s'.disk b ≡ s.disk b =
        λ b ne. rw (==_of_ne (dst tail) b ne) in
      record {
        head = record {
          n = r.head.n;
          block = r.head.block;
          begin = r.head.begin;
          size = r.head.size;
          outstanding = r.head.outstanding;
        };
        here = λ i l q. elim (dec_lt tail i) [
          | yes later ↦
              r.here i (omega arith) (omega arith)
              ∙ rw (==_of_ne (dst tail) (src i) (apart tail i (omega arith) (omega arith))) refl
          | no now ↦
              let first : i ≡ tail = omega arith in
              rw first (
                r.spared (dst tail)
                  (λ j a b e. absurd (omega (arith, distinct j tail (omega arith) (omega arith) e)))
                ∙ rw (==_refl (dst tail)) refl)
        ];
        here_cache = λ i l q. elim (dec_lt tail i) [
          | yes later ↦
              r.here_cache i (omega arith) (omega arith)
              ∙ rw (==_of_ne (dst tail) (src i) (apart tail i (omega arith) (omega arith))) refl
          | no now ↦
              let first : i ≡ tail = omega arith in
              rw first (
                r.spared_cache (dst tail)
                  (λ j a b e. absurd (omega (arith, distinct j tail (omega arith) (omega arith) e)))
                ∙ rw (==_refl (dst tail)) refl)
        ];
        spared = λ b sp.
            r.spared b (λ i a c. sp i (omega arith) (omega arith))
            ∙ one b (sp tail (omega arith) (omega arith));
        spared_cache = λ b sp.
            r.spared_cache b (λ i a c. sp i (omega arith) (omega arith))
            ∙ rw (==_of_ne (dst tail) b (sp tail (omega arith) (omega arith))) refl;
        crashes = (
          λ b sp. one b (sp tail (omega arith) (omega arith)),
          All-crashes tail k s'.disk s (copy_loop dst src k (suc tail) s').1 one r.crashes,
        );
      }
