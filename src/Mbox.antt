-- ===== src/Mbox.antt =====
-- wil6210.h: the mailbox control block, `struct wil6210_mbox_ctl`. The host is little endian, so
-- `wil_mbox_ring_le2cpus` changes nothing.
use native.Mathlib.Nat.{mod-eq_of_lt, mod_self}
use wigig_wil.Prelude.{ℕ, ◌+◌, ◌-◌, ◌%◌, ◌^◌, ◌≡◌, ◌≤◌, ◌<◌, dec_lt, ◌==◌, if◌then◌else◌, arith}

-- `struct wil6210_mbox_ring`
pub record MboxRing : Type 0 where
  pub base : ℕ
  pub entry_size : ℕ
  pub size : ℕ
  pub tail : ℕ
  pub head : ℕ

-- `struct wil6210_mbox_ctl`
pub record MboxCtl : Type 0 where
  pub tx : MboxRing
  pub rx : MboxRing

-- `r->base + ((r->head - r->base + sizeof(d_head)) % r->size)`, in 32 bits
unfoldable pub next_of : ℕ → ℕ → ℕ → ℕ
next_of base size at = (base + (at + 2 ^ 32 - base + 8) % 2 ^ 32 % size) % 2 ^ 32

-- the lowest address of the card that the host sees
abbrev pub fw_host_off : ℕ
fw_host_off = 0x880000

-- The ring lies in the window of the card, in entries of 8 bytes, and `at` is one of them.
pub record InRing (r : MboxRing) (at : ℕ) : Type 0 where
  pub size_lt : r.size < 65536
  pub entry_size_lt : r.entry_size < 65536
  pub whole : r.size % 8 ≡ 0
  pub based : fw_host_off ≤ r.base
  pub fits : r.base + r.size ≤ fw_host_off + 2097152
  pub aligned : r.base % 4 ≡ 0
  pub from : r.base ≤ at
  pub below : at < r.base + r.size
  pub entry : (at - r.base) % 8 ≡ 0

-- the entry after the last is the first
pub next_of_lem :
    (r : MboxRing) (at : ℕ)
    → InRing r at
    → next_of r.base r.size at ≡ (if at + 8 == r.base + r.size then r.base else at + 8)
unfolding next_of
next_of_lem r at h =
    let small : (at + 2 ^ 32 - r.base + 8) % 2 ^ 32 ≡ at - r.base + 8 =
      omega (arith, h.from, h.below, h.fits) in
    rw small (elim (dec_lt (at - r.base + 8) r.size) [
      | yes lt ↦ rw (mod-eq_of_lt lt) ground (arith, lt, h.from, h.below, h.fits)
      | no ge ↦
          let full : at - r.base + 8 ≡ r.size = omega (arith, h.entry, h.whole, h.below, h.from) in
          rw (full, mod_self r.size) ground (arith, full, h.from, h.fits)
    ])

pub next_of-InRing : (r : MboxRing) (at : ℕ) → InRing r at → InRing r (next_of r.base r.size at)
next_of-InRing r at h = record {
  size_lt = h.size_lt;
  entry_size_lt = h.entry_size_lt;
  whole = h.whole;
  based = h.based;
  fits = h.fits;
  aligned = h.aligned;
  from = ground (arith, next_of_lem r at h, h.from);
  below = ground (arith, next_of_lem r at h, h.from, h.below, h.entry, h.whole);
  entry = ground (arith, next_of_lem r at h, h.from, h.below, h.entry, h.whole);
}

-- the ring is the same with other indices
pub InRing-kept :
    (r : MboxRing) (at tail head : ℕ)
    → InRing r at
    → InRing (record r { tail = tail; head = head }) at
InRing-kept r at tail head h = record {
  size_lt = h.size_lt;
  entry_size_lt = h.entry_size_lt;
  whole = h.whole;
  based = h.based;
  fits = h.fits;
  aligned = h.aligned;
  from = h.from;
  below = h.below;
  entry = h.entry;
}
