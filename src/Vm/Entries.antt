-- ===== src/Vm/Entries.antt =====
-- Page-table entries: the flags that the kernel sets and clears.
use cs461_hw.Base.{ℕ, ◌+◌, ◌*◌, ◌<◌, ◌≡◌, true, false, arith}
use cs461_hw.Machine.{nframes}
use cs461_hw.Vm.{pte_p, pte_w, pte_u, pte_cow, has, set_flag, clear_flag, pte_addr}
use cs461_hw.Vm.Tables.{Leads}

-- V2P(mem) | PTE_P | PTE_U | PTE_W, for the page in frame `g`.
abbrev pub user_entry : ℕ → ℕ
user_entry g = g * 4096 + 7

pub user_entry_lem :
    (g : ℕ) → set_flag (set_flag (set_flag (g * 4096) pte_p) pte_u) pte_w ≡ user_entry g
unfolding set_flag clear_flag
user_entry_lem g = ground arith

pub user_entry-Leads : (g : ℕ) → g < nframes → Leads (user_entry g) g
user_entry-Leads g h = record { present = ground arith; frame = omega arith; ram = h }

pub user_entry_flags :
    (g : ℕ)
    → (has (user_entry g) pte_u ≡ true)
      × (has (user_entry g) pte_w ≡ true)
      × (has (user_entry g) pte_cow ≡ false)
user_entry_flags g = (ground arith, ground arith, ground arith)

-- `e | PTE_COW`, then `| PTE_P | PTE_U | PTE_COW` and `& ~PTE_W`: the entries that dedup writes.
abbrev pub cow_entry : ℕ → ℕ
cow_entry e =
    clear_flag (set_flag (set_flag (set_flag (set_flag e pte_cow) pte_p) pte_u) pte_cow) pte_w

-- An entry in the forms that dedup gives it: where it leads, and its flags.
pub record IsShared (e f : ℕ) : Type 0 where
  pub leads : Leads e f
  pub user : has e pte_u ≡ true
  pub cow : has e pte_cow ≡ true
  pub read_only : has e pte_w ≡ false

module _ (e f : ℕ) (l : Leads e f) (u : has e pte_u ≡ true) where
  with_cow_p : has (set_flag e pte_cow) pte_p ≡ true
  unfolding set_flag clear_flag
  with_cow_p = ground (arith, l.present)

  with_cow_u : has (set_flag e pte_cow) pte_u ≡ true
  unfolding set_flag clear_flag
  with_cow_u = ground (arith, u)

  with_cow_cow : has (set_flag e pte_cow) pte_cow ≡ true
  unfolding set_flag clear_flag
  with_cow_cow = ground arith

  with_cow_addr : pte_addr (set_flag e pte_cow) ≡ f * 4096
  unfolding set_flag clear_flag
  with_cow_addr = ground (arith, l.frame)

clear_w :
    (x f : ℕ)
    → has x pte_p ≡ true
    → has x pte_u ≡ true
    → has x pte_cow ≡ true
    → pte_addr x ≡ f * 4096
    → f < nframes
    → IsShared (clear_flag x pte_w) f
unfolding set_flag clear_flag
clear_w x f p u c a h = record {
  leads = record { present = ground arith; frame = ground arith; ram = h };
  user = ground arith;
  cow = ground arith;
  read_only = ground arith;
}

pub first-IsShared :
    (e f : ℕ) → Leads e f → has e pte_u ≡ true → IsShared (clear_flag (set_flag e pte_cow) pte_w) f
first-IsShared e f l u =
    clear_w (set_flag e pte_cow) f (with_cow_p e f l u) (with_cow_u e f l u) (with_cow_cow e f l u)
      (with_cow_addr e f l u) l.ram

pub cow_entry-first :
    (e f : ℕ) → Leads e f → has e pte_u ≡ true → cow_entry e ≡ clear_flag (set_flag e pte_cow) pte_w
unfolding set_flag clear_flag
cow_entry-first e f l u =
    again (set_flag e pte_cow) (with_cow_p e f l u) (with_cow_u e f l u) (with_cow_cow e f l u)
  where
    again :
        (x : ℕ)
        → has x pte_p ≡ true
        → has x pte_u ≡ true
        → has x pte_cow ≡ true
        → clear_flag (set_flag (set_flag (set_flag x pte_p) pte_u) pte_cow) pte_w
          ≡ clear_flag x pte_w
    again x p u c = rw (p, u, c)
