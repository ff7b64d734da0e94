-- ===== src/Vring/Tests.antt =====
-- A ring of four slots: two buffers are posted, then the third refill stops at the free slot.
use wigig_wil.Prelude.{ℕ, ◌≡◌, refl, true, Option, none, some, replicate, arith}
use wigig_wil.Vring.{Vring, no_desc, rx_refill, vring_is_full, vring_next_tail, vring_alloc_skb}
use wigig_wil.Vring.Refill.{IsRing, used, Refills, rx_refill-Refills}

-- the head at slot 2, nothing posted
abbrev ring : Vring
ring = record { size = 4; swtail = 2; swhead = 2; va = replicate 4 no_desc; ctx = replicate 4 none }

ring-IsRing : IsRing ring
ring-IsRing = record {
  tail_lt = omega arith;
  head_lt = omega arith;
  va_length = refl;
  ctx_length = refl;
  posted = λ j lt. absurd (omega arith);
}

abbrev bufs : ℕ → Option (ℕ × ℕ)
bufs k = some (k, 4096)

rx_refill-Refills_example : Refills ring 5 (rx_refill bufs 5 0 ring)
rx_refill-Refills_example = rx_refill-Refills bufs 5 0 ring ring-IsRing

refilled : used (rx_refill bufs 5 0 ring).1 ≡ 3
unfolding rx_refill vring_next_tail vring_alloc_skb
refilled = refl

refilled_full : vring_is_full (rx_refill bufs 5 0 ring).1 ≡ true
unfolding rx_refill vring_next_tail vring_alloc_skb vring_is_full
refilled_full = refl
