-- ===== src/Vring.antt =====
-- txrx.c: a ring of Rx descriptors and its refill. A ring has 128 slots, so that its size is not 0.
-- The head is the next slot that the card fills, the tail the next slot to post; `ctx` has the
-- number of the buffer that is posted in a slot.
pub mod Refill
pub mod Setup
mod Tests
use wigig_wil.Prelude.{
  ℕ, zero, suc, ◌+◌, ◌-◌, ◌/◌, ◌%◌, ◌^◌, ◌==◌, Bool, true, false, if◌then◌else◌, Option, none, some,
  List, get_or, set,
}
use wigig_wil.Skb.{RxDesc}

-- `struct vring`
pub record Vring : Type 0 where
  pub size : ℕ
  pub swtail : ℕ
  pub swhead : ℕ
  pub va : List RxDesc
  pub ctx : List (Option ℕ)

unfoldable pub vring_is_empty : Vring → Bool
vring_is_empty v = v.swhead == v.swtail

unfoldable pub vring_next_tail : Vring → ℕ
vring_next_tail v = (v.swtail + 1) % v.size

unfoldable pub vring_advance_head : Vring → ℕ → Vring
vring_advance_head v n = record v { swhead = (v.swhead + n) % v.size }

unfoldable pub vring_is_full : Vring → Bool
unfolding vring_next_tail
vring_is_full v = vring_next_tail v == v.swhead

-- For a Tx ring, where the head is the next slot to post.
unfoldable pub vring_avail_tx : Vring → ℕ
vring_avail_tx v = v.size - (v.size + v.swhead - v.swtail) % v.size - 1

abbrev pub rx_buf_len : ℕ
rx_buf_len = 2048

abbrev pub no_desc : RxDesc
no_desc = record {
  mac_d0 = 0;
  mac_d1 = 0;
  dma_d0 = 0;
  addr_low = 0;
  addr_high = 0;
  error = 0;
  status = 0;
  length = 0;
}

-- `wil_vring_alloc_skb`: the buffer and its DMA address, `none` if the allocation or the mapping
-- fails; does it return 0?
unfoldable pub vring_alloc_skb : Option (ℕ × ℕ) → Vring → ℕ → Bool × Vring
vring_alloc_skb none v i = (false, v)
vring_alloc_skb (some p) v i = (
  true,
  record v {
    va = set v.va i (record (get_or v.va i no_desc) {
      dma_d0 = 2 ^ 9 + 2 ^ 10;
      addr_low = p.1 % 2 ^ 32;
      addr_high = (p.1 / 2 ^ 32) % 2 ^ 16;
      status = 0;
      length = rx_buf_len;
    });
    ctx = set v.ctx i (some p.0);
  },
)

-- the loop of `wil_rx_refill`, with the buffer that the `k`th allocation gives; the write of the new
-- `swtail` to the card, which follows it, is not part of the state
unfoldable pub rx_refill : (ℕ → Option (ℕ × ℕ)) → ℕ → ℕ → Vring → Bool × Vring
unfolding vring_next_tail vring_alloc_skb
rx_refill bufs zero k v = (true, v)
rx_refill bufs (suc count) k v =
    let next_tail = vring_next_tail v in
    let (ok, v') = vring_alloc_skb (bufs k) v v.swtail in
    let rest = rx_refill bufs count (suc k) (record v' { swtail = next_tail }) in
    if next_tail == v.swhead then (true, v) else if ok then rest else (false, v')
