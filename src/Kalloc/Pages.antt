-- ===== src/Kalloc/Pages.antt =====
-- Frames and their kernel addresses: what the accesses of the machine do at them.
use cs461_hw.Base.{ℕ, ◌+◌, ◌*◌, ◌/◌, ◌<◌, ◌≡◌, true, false, refl, arith, ◌==◌, lt→ltb}
use cs461_hw.Machine.{
  nframes, kernbase, v2p, p2v, pgindex, Machine, ok, load64, store64, memset_page, memmove_page,
  get_refs, set_refs, is_page, in_ram,
}
use cs461_hw.Machine.Words.{write, fill, copy_frame}

-- The kernel address of frame `f`.
abbrev pub page_va : ℕ → ℕ
page_va f = kernbase + f * 4096

pub v2p-page_va : (f : ℕ) → f < nframes → v2p (page_va f) ≡ f * 4096
unfolding v2p
v2p-page_va f h = omega arith

pub p2v-frame : (f : ℕ) → f < nframes → p2v (f * 4096) ≡ page_va f
unfolding p2v
p2v-frame f h = omega arith

pgindex-page_va : (f : ℕ) → f < nframes → pgindex (v2p (page_va f)) ≡ f
pgindex-page_va f h = rw (v2p-page_va f h) (omega arith)

is_page-page_va : (f : ℕ) → f < nframes → is_page (page_va f) ≡ true
is_page-page_va f h = rw (v2p-page_va f h) (ground arith)

in_ram-page_va : (f : ℕ) → f < nframes → in_ram (page_va f) ≡ true
in_ram-page_va f h = rw (v2p-page_va f h) (ground arith)

pub word-page_va : (f : ℕ) → f < nframes → v2p (page_va f) / 8 ≡ f * 512
word-page_va f h = rw (v2p-page_va f h) (omega arith)

-- The word `i` of frame `f`.
pub v2p-word : (f i : ℕ) → f < nframes → i < 512 → v2p (page_va f + i * 8) / 8 ≡ f * 512 + i
unfolding v2p
v2p-word f i h hi = omega arith

pub in_ram-word : (f i : ℕ) → f < nframes → i < 512 → in_ram (page_va f + i * 8) ≡ true
unfolding v2p
in_ram-word f i h hi = ground arith

module _ (k : Machine) (f : ℕ) (h : f < nframes) where
  pub load64-page_va : load64 (page_va f) k ≡ ok (k.mem (f * 512)) k
  unfolding load64
  load64-page_va = rw (in_ram-page_va f h, word-page_va f h)

  pub store64-page_va :
      (x : ℕ) → store64 (page_va f) x k ≡ ok tt (record k { mem = write k.mem (f * 512) x })
  unfolding store64
  store64-page_va x = rw (in_ram-page_va f h, word-page_va f h)

  pub memset_page-page_va :
      (c : ℕ)
      → memset_page (page_va f) c k
        ≡ ok tt (record k { mem = fill k.mem f (c * 0x0101_0101_0101_0101) })
  unfolding memset_page
  memset_page-page_va c = rw (is_page-page_va f h, pgindex-page_va f h) refl

  pub get_refs-page_va : get_refs (pgindex (v2p (page_va f))) k ≡ ok (k.refs f) k
  unfolding get_refs
  get_refs-page_va = rw (pgindex-page_va f h, lt→ltb f nframes h)

  pub set_refs-page_va :
      (n : ℕ)
      → set_refs (pgindex (v2p (page_va f))) n k ≡ ok tt (record k { refs = write k.refs f n })
  unfolding set_refs
  set_refs-page_va n = rw (pgindex-page_va f h, lt→ltb f nframes h)

pub memmove_page-page_va :
    (k : Machine) (g f : ℕ)
    → g < nframes
    → f < nframes
    → memmove_page (page_va g) (page_va f) k ≡ ok tt (record k { mem = copy_frame k.mem g f })
unfolding memmove_page
memmove_page-page_va k g f h l =
    rw (is_page-page_va g h, is_page-page_va f l, pgindex-page_va g h, pgindex-page_va f l)

pub page_va_ne_zero : (f : ℕ) → (page_va f == 0) ≡ false
page_va_ne_zero f = ground arith
